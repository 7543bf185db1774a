-- ===== src/Iter/Range/Views.antt =====
-- src/iter.rs: what collecting a RangeIterator yields.
use pebble_db.Prelude.{
  ℕ, zero, suc, ◌<◌, List, [], ◌∷◌, Option, none, some, Text, false, Bool-cases, inl, inr,
  if◌then◌else◌, length, sum_of,
}
use pebble_db.Prelude.{◌≡◌, refl, ◌∙◌, ap, arith}
use mathlib.Core.Path.{subst}
use pebble_db.Iter.Storage.{StorageIterator}
use pebble_db.Iter.Merge
use pebble_db.Iter.Merge.{MergeIterator, is_some, CurrentEntry, has_key}
use pebble_db.Iter.Merge.Reads
use pebble_db.Iter.Merge.Moves
use pebble_db.Iter.Merge.Views.{Views}
use pebble_db.Iter.Range.{
  Bound, unbounded, included, excluded, RangeIterator, below_end, start_at, new, within_end,
  advance, valid, key, value, next_pair, next, collect_loop, collect,
}
use pebble_db.Iter.Range.Bounds.{rows_from, up_to, listed}
use pebble_db.Iter.Rows.{Rows, head_key, from}
use pebble_db.Iter.Rows.Union.{union}
use pebble_db.Iter.Rows.Visible.{visible}
use pebble_db.Iter.Cursor.{Cursor}

module _ {I : Type 0} ⦃s : StorageIterator I⦄ (c : Cursor s) where
  seek-Views :
      (k : Text) (merged : MergeIterator I) (alls : List Rows)
      → merged.keep_tombstones ≡ false
      → Views c merged alls (visible false (union alls))
      → Views c (Merge.seek k merged) alls (from k (visible false (union alls)))
  seek-Views k merged alls drops v =
      subst (λ keep. Views c (Merge.seek k merged) alls (from k (visible keep (union alls)))) drops
        (Moves.seek-Views c k merged alls
          (Moves.Views-Sources c merged alls (visible false (union alls)) v))

  start_at-Views :
      (start : Bound) (merged : MergeIterator I) (alls : List Rows)
      → merged.keep_tombstones ≡ false
      → Views c merged alls (visible false (union alls))
      → Views c (start_at start merged) alls (rows_from start (visible false (union alls)))
  unfolding start_at
  start_at-Views unbounded merged alls drops v = v
  start_at-Views (included k) merged alls drops v = seek-Views k merged alls drops v
  start_at-Views (excluded k) merged alls drops v =
      let rows = from k (visible false (union alls)) in
      let found = Merge.seek k merged in
      let at = seek-Views k merged alls drops v in
      elim (Bool-cases (has_key (head_key rows) k)) [
        | inl there ↦
            rw (Reads.key-Views c found alls rows at, there)
              (Moves.advance-Views c found alls rows at)
        | inr absent ↦ rw (Reads.key-Views c found alls rows at, absent) at
      ]

  next-Views :
      (it : RangeIterator I) (alls : List Rows) (k v : Text) (es : Rows)
      → Views c it.merged alls ((k, some v) ∷ es)
      → next it ≡ (if below_end it.end (some k) then (some (k, v), advance it) else (none, it))
  unfolding next next_pair valid within_end key value
  next-Views it alls k v es w =
      let rows : Rows = (k, some v) ∷ es in
      let found = Reads.valid-Views c it.merged alls rows w in
      let is = Reads.key-Views c it.merged alls rows w in
      let holds = Reads.value-Views c it.merged alls rows w in
      elim (Bool-cases (below_end it.end (some k))) [
        | inl below ↦ rw (found, is, holds, below) refl
        | inr above ↦ rw (found, is, holds, above) refl
      ]

  next_past :
      (it : RangeIterator I) (alls : List Rows) → Views c it.merged alls [] → next it ≡ (none, it)
  unfolding next valid
  next_past it alls w = rw (Reads.valid-Views c it.merged alls [] w) refl

  next_valueless :
      (it : RangeIterator I) (alls : List Rows) (k : Text) (es : Rows)
      → Views c it.merged alls ((k, none) ∷ es)
      → next it ≡ (none, it)
  unfolding next next_pair valid within_end key value
  next_valueless it alls k es w =
      let rows : Rows = (k, none) ∷ es in
      let found = Reads.valid-Views c it.merged alls rows w in
      let is = Reads.key-Views c it.merged alls rows w in
      let holds = Reads.value-Views c it.merged alls rows w in
      elim (Bool-cases (below_end it.end (some k))) [
        | inl below ↦ rw (found, is, holds, below) refl
        | inr above ↦ rw (found, is, above) refl
      ]

  collect_loop-Views :
      (fuel : ℕ) (it : RangeIterator I) (alls : List Rows) (rows : Rows)
      → length rows < fuel
      → Views c it.merged alls rows
      → collect_loop fuel it ≡ up_to it.end rows
  unfolding collect_loop advance
  collect_loop-Views zero it alls rows enough w = absurd (omega arith)
  collect_loop-Views (suc fuel) it alls [] enough w = rw (collect_loop, next_past it alls w) refl
  collect_loop-Views (suc fuel) it alls ((k, none) ∷ es) enough w =
      rw (collect_loop, next_valueless it alls k es w) refl
  collect_loop-Views (suc fuel) it alls ((k, some v) ∷ es) enough w =
      let following : collect_loop fuel (advance it) ≡ up_to it.end es =
        collect_loop-Views fuel (advance it) alls es (omega (arith, enough))
          (Moves.advance-Views c it.merged alls ((k, some v) ∷ es) w) in
      elim (Bool-cases (below_end it.end (some k))) [
        | inl below ↦
            let step : next it ≡ (some (k, v), advance it) =
              next-Views it alls k v es w ∙ rw below refl in
            rw below (ap yielded step ∙ ap (λ ps. (k, v) ∷ ps) following)
        | inr above ↦ rw (collect_loop, next-Views it alls k v es w, above) refl
      ]
    where
      yielded : Option (Text × Text) × RangeIterator I → List (Text × Text)
      yielded o = elim o.0 [ none ↦ [] | some p ↦ p ∷ collect_loop fuel o.1 ]

  -- Collecting the range of a merge yields the pairs between the bounds of the map of its children.
  pub collect-Views :
      (start end : Bound) (merged : MergeIterator I) (alls : List Rows)
      → merged.keep_tombstones ≡ false
      → Views c merged alls (visible false (union alls))
      → collect (new merged start end) ≡ listed start end (union alls)
  unfolding collect new
  collect-Views start end merged alls drops v =
      let rows = rows_from start (visible false (union alls)) in
      let at = start_at-Views start merged alls drops v in
      collect_loop-Views (suc (sum_of s.remaining (start_at start merged).children))
        (record { merged = start_at start merged; end = end }) alls rows
        (omega (arith, Reads.Views-length c (start_at start merged) alls rows at)) at
