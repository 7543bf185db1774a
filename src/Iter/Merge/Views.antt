-- ===== src/Iter/Merge/Views.antt =====
-- src/iter.rs: MergeIterator moves through the rows of the map of its children, without the keys
-- whose newest row is a tombstone unless it keeps them.
use pebble_db.Prelude.{
  ℕ, zero, suc, ◌<◌, List, [], Option, none, some, Text, Bool, true, Bool-cases, ◌||◌, inl, inr,
  if◌then◌else◌, map, All, length, sum_of,
}
use pebble_db.Prelude.{◌≡◌, refl, sym, ◌∙◌, arith}
use mathlib.Core.Path.{subst}
use pebble_db.Iter.Storage.{StorageIterator}
use pebble_db.Iter.Merge.{
  CurrentEntry, MergeIterator, is_some, smallest, skip_key, value_at, normalize_loop, normalize,
}
use pebble_db.Iter.Rows.{Rows, head_value}
use pebble_db.Iter.Rows.Union.{union, skip_rows}
use pebble_db.Iter.Rows.Visible.{shows, visible, visible-IsLeast}
use pebble_db.Iter.Rows.Least.{IsLeast, IsChoice}
use pebble_db.Iter.Cursor.{Cursor}
use pebble_db.Iter.Merge.Children.{
  Each, Each-Ascending, skip_key-Each, value_at-Each, smallest-IsChoice, rest-remaining,
  skip-IsLeast,
}

-- `current` is the choice of `smallest`, and it is shown.
abbrev pub Ready : Bool → List Rows → Option CurrentEntry → Type 0
Ready keep rests none = All (λ r. r ≡ []) rests
Ready keep rests (some c) = (l : IsLeast rests c) × (shows keep (head_value l.row) ≡ true)

-- The merge stands before `rows`, over children with the sources `alls`.
pub record Views {I : Type 0} ⦃s : StorageIterator I⦄ (c : Cursor s) (it : MergeIterator I)
    (alls : List Rows) (rows : Rows) : Type 1 where
  pub rests : List Rows
  pub each : Each c it.children alls rests
  pub ready : Ready it.keep_tombstones rests it.current
  pub sees : visible it.keep_tombstones (union rests) ≡ rows

module _ {I : Type 0} ⦃s : StorageIterator I⦄ (c : Cursor s) where
  normalize_loop-Views :
      (fuel : ℕ) (it : MergeIterator I) (alls rests : List Rows)
      → sum_of length rests < fuel
      → Each c it.children alls rests
      → Views c (normalize_loop fuel it) alls (visible it.keep_tombstones (union rests))
  unfolding normalize_loop
  normalize_loop-Views zero it alls rests enough e = absurd (omega arith)
  normalize_loop-Views (suc fuel) it alls rests enough e =
      go (smallest it.children) (smallest-IsChoice c it.children alls rests e) (λ k less.
        normalize_loop-Views fuel (record it { children = skip_key k it.children }) alls
          (map (skip_rows k) rests) (omega (arith, enough, less))
          (skip_key-Each c k it.children alls rests e))
    where
      go :
          (o : Option CurrentEntry)
          → IsChoice rests o
          → ((k : Text)
              → sum_of length (map (skip_rows k) rests) < sum_of length rests
              → Views c
                  (normalize_loop fuel (record it { children = skip_key k it.children }))
                  alls
                  (visible it.keep_tombstones (union (map (skip_rows k) rests))))
          → Views c
              (elim o [
                | none ↦ record it { current = none }
                | some c ↦
                    if it.keep_tombstones || is_some (value_at it.children c.source)
                    then record it { current = some c }
                    else normalize_loop fuel (record it { children = skip_key c.key it.children })
              ])
              alls
              (visible it.keep_tombstones (union rests))
      go none h ih = record { rests = rests; each = e; ready = h; sees = refl }
      go (some d) l ih =
          let shown : value_at it.children d.source ≡ head_value l.row =
            value_at-Each c d.source it.children alls rests l.row e l.at in
          elim (Bool-cases (shows it.keep_tombstones (head_value l.row))) [
            | inl seen ↦
                rw (shown, seen)
                  (record { rests = rests; each = e; ready = (l, seen); sees = refl })
            | inr unseen ↦
                let hidden : visible it.keep_tombstones (union rests)
                    ≡ visible it.keep_tombstones (union (map (skip_rows d.key) rests)) =
                  visible-IsLeast it.keep_tombstones rests d
                    (Each-Ascending c it.children alls rests e) l
                  ∙ rw unseen refl in
                rw (shown, unseen)
                  (subst (Views c _ alls) (sym hidden) (ih d.key (skip-IsLeast rests d l)))
          ]

  pub normalize-Views :
      (it : MergeIterator I) (alls rests : List Rows)
      → Each c it.children alls rests
      → Views c (normalize it) alls (visible it.keep_tombstones (union rests))
  unfolding normalize
  normalize-Views it alls rests e =
      normalize_loop-Views (suc (sum_of s.remaining it.children)) it alls rests
        (omega (arith, rest-remaining c it.children alls rests e)) e
