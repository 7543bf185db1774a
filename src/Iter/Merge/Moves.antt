-- ===== src/Iter/Merge/Moves.antt =====
-- src/iter.rs: the operations that move a MergeIterator.
use pebble_db.Prelude.{
  ℕ, zero, suc, List, Option, none, some, Text, Bool, Bool-cases, ◌||◌, inl, inr, if◌then◌else◌,
  map, sum_of,
}
use pebble_db.Prelude.{◌≡◌, refl, ◌∙◌, ap}
use mathlib.Core.Path.{subst}
use pebble_db.Iter.Storage.{StorageIterator}
use pebble_db.Iter.Merge.{
  CurrentEntry, MergeIterator, is_some, smallest, skip_key, value_at, normalize_loop, normalize,
  build, seek_to_first, seek, advance,
}
use pebble_db.Iter.Rows.{Rows, tail, from}
use pebble_db.Iter.Rows.Union.{union, union-Ascending, skip_rows}
use pebble_db.Iter.Rows.Visible.{visible, union-empty, union-from, visible-from}
use pebble_db.Iter.Rows.Least.{union-IsLeast}
use pebble_db.Iter.Cursor.{Cursor}
use pebble_db.Iter.Merge.Children.{
  Sources, Each-Sources, Each-Ascending, Sources-Ascending, seek_to_first-Each, seek-Each,
  skip_key-Each,
}
use pebble_db.Iter.Merge.Views.{Views, Ready, normalize-Views}

module _ {I : Type 0} ⦃s : StorageIterator I⦄ (c : Cursor s) where
  pub advance-Views :
      (it : MergeIterator I) (alls : List Rows) (rows : Rows)
      → Views c it alls rows
      → Views c (advance it) alls (tail rows)
  unfolding advance
  advance-Views it alls rows v =
      subst (λ r. Views c (advance it) alls (tail r)) v.sees (go it.current refl v.ready)
    where
      go :
          (o : Option CurrentEntry)
          → it.current ≡ o
          → Ready it.keep_tombstones v.rests o
          → Views c
              (elim o [
                | none ↦ it
                | some c ↦
                    normalize (record it { current = none; children = skip_key c.key it.children })
              ])
              alls
              (tail (visible it.keep_tombstones (union v.rests)))
      go none at h = rw (union-empty v.rests h) (record {
        rests = v.rests;
        each = v.each;
        ready = v.ready;
        sees = ap (visible it.keep_tombstones) (union-empty v.rests h);
      })
      go (some d) at (l, seen) =
          rw (union-IsLeast v.rests d (Each-Ascending c it.children alls v.rests v.each) l, seen)
            (normalize-Views c (record it { current = none; children = skip_key d.key it.children })
              alls (map (skip_rows d.key) v.rests)
              (skip_key-Each c d.key it.children alls v.rests v.each))

  pub Views-Sources :
      (it : MergeIterator I) (alls : List Rows) (rows : Rows)
      → Views c it alls rows
      → Sources c it.children alls
  Views-Sources it alls rows v = Each-Sources c it.children alls v.rests v.each

  pub build-Views :
      (its : List I) (keep : Bool) (alls : List Rows)
      → Sources c its alls
      → Views c (build its keep) alls (visible keep (union alls))
  unfolding build
  build-Views its keep alls h =
      normalize-Views c
        (record { children = map s.seek_to_first its; current = none; keep_tombstones = keep }) alls
        alls (seek_to_first-Each c its alls h)

  pub seek_to_first-Views :
      (it : MergeIterator I) (alls : List Rows)
      → Sources c it.children alls
      → Views c (seek_to_first it) alls (visible it.keep_tombstones (union alls))
  unfolding seek_to_first
  seek_to_first-Views it alls h =
      normalize-Views c (record it { children = map s.seek_to_first it.children }) alls alls
        (seek_to_first-Each c it.children alls h)

  pub seek-Views :
      (k : Text) (it : MergeIterator I) (alls : List Rows)
      → Sources c it.children alls
      → Views c (seek k it) alls (from k (visible it.keep_tombstones (union alls)))
  unfolding seek
  seek-Views k it alls h =
      subst (Views c _ alls)
        (ap (visible it.keep_tombstones)
            (union-from k alls (Sources-Ascending c it.children alls h))
          ∙ visible-from it.keep_tombstones k (union alls) (union-Ascending alls))
        (normalize-Views c (record it { children = map (s.seek k) it.children }) alls
          (map (from k) alls) (seek-Each c k it.children alls h))

module _ {I : Type 0} ⦃s : StorageIterator I⦄ where
  normalize_loop-keep_tombstones :
      (fuel : ℕ) (it : MergeIterator I)
      → (normalize_loop fuel it).keep_tombstones ≡ it.keep_tombstones
  unfolding normalize_loop
  normalize_loop-keep_tombstones zero it = refl
  normalize_loop-keep_tombstones (suc fuel) it =
      go (smallest it.children)
        (λ k. normalize_loop-keep_tombstones fuel (record it { children = skip_key k it.children }))
    where
      go :
          (o : Option CurrentEntry)
          → ((k : Text)
              → (normalize_loop fuel
                  (record it { children = skip_key k it.children })).keep_tombstones
                ≡ it.keep_tombstones)
          → (elim o as (λ _. MergeIterator I) [
            | none ↦ record it { current = none }
            | some c ↦
                if it.keep_tombstones || is_some (value_at it.children c.source)
                then record it { current = some c }
                else normalize_loop fuel (record it { children = skip_key c.key it.children })
          ]).keep_tombstones
            ≡ it.keep_tombstones
      go none ih = refl
      go (some d) ih =
          elim (Bool-cases (it.keep_tombstones || is_some (value_at it.children d.source))) [
            | inl shown ↦ rw shown refl
            | inr hidden ↦ rw hidden (ih d.key)
          ]

  pub build-keep_tombstones : (its : List I) (keep : Bool) → (build its keep).keep_tombstones ≡ keep
  unfolding build normalize
  build-keep_tombstones its keep =
      normalize_loop-keep_tombstones (suc (sum_of s.remaining (map s.seek_to_first its)))
        (record { children = map s.seek_to_first its; current = none; keep_tombstones = keep })
