-- ===== src/Iter/Range.antt =====
-- src/iter.rs: RangeIterator, a merge cut off at its end.
pub mod Bounds
pub mod Views
use pebble_db.Prelude.{
  ℕ, zero, suc, List, [], ◌∷◌, Bool, true, false, ◌&&◌, Option, some, none, Text,
}
use pebble_db.Prelude.{text_le, text_lt, if◌then◌else◌, sum_of}
use pebble_db.Iter.Storage.{StorageIterator}
use pebble_db.Iter.Merge
use pebble_db.Iter.Merge.{MergeIterator, has_key}

-- std::ops::Bound<String>
pub data Bound : Type 0 where
  unbounded : Bound
  included excluded : Text → Bound

pub record RangeIterator (I : Type 0) : Type 0 where
  pub merged : MergeIterator I
  pub end : Bound

abbrev pub below_end : Bound → Option Text → Bool
below_end end none = false
below_end unbounded (some key) = true
below_end (included end) (some key) = text_le key end
below_end (excluded end) (some key) = text_lt key end

module _ {I : Type 0} ⦃s : StorageIterator I⦄ where
  unfoldable pub start_at : Bound → MergeIterator I → MergeIterator I
  start_at unbounded merged = merged
  start_at (included key) merged = Merge.seek key merged
  start_at (excluded key) merged =
      let found = Merge.seek key merged in
      if has_key (Merge.key found) key then Merge.advance found else found

  unfoldable pub new : MergeIterator I → Bound → Bound → RangeIterator I
  new merged start end = record { merged = start_at start merged; end = end }

  unfoldable pub within_end : RangeIterator I → Bool
  within_end it = below_end it.end (Merge.key it.merged)

  unfoldable pub seek_to_first : RangeIterator I → RangeIterator I
  seek_to_first it = record it { merged = Merge.seek_to_first it.merged }

  unfoldable pub seek : Text → RangeIterator I → RangeIterator I
  seek target it = record it { merged = Merge.seek target it.merged }

  unfoldable pub advance : RangeIterator I → RangeIterator I
  advance it = record it { merged = Merge.advance it.merged }

  unfoldable pub valid : RangeIterator I → Bool
  valid it = Merge.valid it.merged && within_end it

  unfoldable pub key : RangeIterator I → Option Text
  key it = if valid it then Merge.key it.merged else none

  unfoldable pub value : RangeIterator I → Option Text
  value it = if valid it then Merge.value it.merged else none

  -- `next`; the two `?` return without advancing.
  next_pair : RangeIterator I → Option Text → Option Text → Option (Text × Text) × RangeIterator I
  next_pair it (some k) (some v) = (some (k, v), advance it)
  next_pair it _ _ = (none, it)

  unfoldable pub next : RangeIterator I → Option (Text × Text) × RangeIterator I
  unfolding next_pair
  next it = if valid it then next_pair it (key it) (value it) else (none, it)

  -- `collect`, with a unit of fuel for each item.
  unfoldable pub collect_loop : ℕ → RangeIterator I → List (Text × Text)
  collect_loop zero it = []
  collect_loop (suc fuel) it = elim (next it).0 [
    | none ↦ []
    | some p ↦ p ∷ collect_loop fuel (next it).1
  ]

  unfoldable pub collect : RangeIterator I → List (Text × Text)
  collect it = collect_loop (suc (sum_of s.remaining it.merged.children)) it
