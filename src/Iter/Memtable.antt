-- ===== src/Iter/Memtable.antt =====
-- src/iter.rs: MemtableIterator.
use pebble_db.Prelude.{ℕ, ◌+◌, ◌-◌, List, Bool, true, false, Option, some, none, Text}
use pebble_db.Prelude.{length, get_elem?, map, ltb, is_empty, if◌then◌else◌}
use pebble_db.Prelude.BTreeMap.{BTreeMap}
use pebble_db.Iter.Storage.{StorageIterator, partition_point}

-- src/db.rs: MemtableEntry.
pub data MemtableEntry : Type 0 where
  value : Text → MemtableEntry
  tombstone : MemtableEntry

pub record MemtableIterator : Type 0 where
  pub entries : List (Text × Option Text)
  pub pos : Option ℕ

abbrev pub value_of : MemtableEntry → Option Text
value_of (value v) = some v
value_of tombstone = none

unfoldable pub new : BTreeMap MemtableEntry → MemtableIterator
new memtable = record { entries = map (λ e. (e.0, value_of e.1)) memtable; pos = none }

abbrev pub in_range : List (Text × Option Text) → ℕ → Option ℕ
in_range entries i = if ltb i (length entries) then some i else none

unfoldable pub seek_to_first : MemtableIterator → MemtableIterator
seek_to_first it = record it { pos = if is_empty it.entries then none else some 0 }

unfoldable pub seek : Text → MemtableIterator → MemtableIterator
seek target it = record it { pos = in_range it.entries (partition_point target it.entries) }

unfoldable pub advance : MemtableIterator → MemtableIterator
advance it = record it { pos = elim it.pos [ none ↦ none | some p ↦ in_range it.entries (p + 1) ] }

abbrev pub current : MemtableIterator → Option (Text × Option Text)
current it = elim it.pos [ none ↦ none | some p ↦ get_elem? it.entries p ]

unfoldable pub key : MemtableIterator → Option Text
key it = elim (current it) [ none ↦ none | some e ↦ some e.0 ]

unfoldable pub value_at : MemtableIterator → Option Text
value_at it = elim (current it) [ none ↦ none | some e ↦ e.1 ]

unfoldable pub valid : MemtableIterator → Bool
valid it = elim it.pos [ none ↦ false | some p ↦ true ]

unfoldable pub remaining : MemtableIterator → ℕ
remaining it = elim it.pos [ none ↦ 0 | some p ↦ length it.entries - p ]

abbrev pub memtable_storage : StorageIterator MemtableIterator
memtable_storage = record {
  seek_to_first = seek_to_first;
  seek = seek;
  advance = advance;
  valid = valid;
  key = key;
  value = value_at;
  remaining = remaining;
}
