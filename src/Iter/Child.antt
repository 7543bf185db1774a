-- ===== src/Iter/Child.antt =====
-- src/iter.rs: `Box<dyn StorageIterator>`, for the two implementors that are boxed.
use pebble_db.Prelude.{ℕ, Bool, Option, Text}
use pebble_db.Iter.Storage.{StorageIterator}
use pebble_db.Iter.Memtable
use pebble_db.Iter.Memtable.{MemtableIterator}
use pebble_db.Iter.Table
use pebble_db.Iter.Table.{SsTableIterator}

pub data Child : Type 0 where
  memtable : MemtableIterator → Child
  table : SsTableIterator → Child

unfoldable pub seek_to_first : Child → Child
seek_to_first (memtable it) = memtable (Memtable.seek_to_first it)
seek_to_first (table it) = table (Table.seek_to_first it)

unfoldable pub seek : Text → Child → Child
seek target (memtable it) = memtable (Memtable.seek target it)
seek target (table it) = table (Table.seek target it)

unfoldable pub advance : Child → Child
advance (memtable it) = memtable (Memtable.advance it)
advance (table it) = table (Table.advance it)

unfoldable pub valid : Child → Bool
valid (memtable it) = Memtable.valid it
valid (table it) = Table.valid it

unfoldable pub key : Child → Option Text
key (memtable it) = Memtable.key it
key (table it) = Table.key it

unfoldable pub value : Child → Option Text
value (memtable it) = Memtable.value_at it
value (table it) = Table.value_at it

unfoldable pub remaining : Child → ℕ
remaining (memtable it) = Memtable.remaining it
remaining (table it) = Table.remaining it

instance abbrev pub child_storage : StorageIterator Child
child_storage = record {
  seek_to_first = seek_to_first;
  seek = seek;
  advance = advance;
  valid = valid;
  key = key;
  value = value;
  remaining = remaining;
}
