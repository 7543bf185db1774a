-- ===== src/Iter/Table.antt =====
-- src/iter.rs: SsTableIterator, which holds one block of its table at a time.
use pebble_db.Prelude.{ℕ, zero, suc, ◌+◌, ◌-◌, [], Bool, Option, some, none, Text}
use pebble_db.Prelude.{length, get_elem?, ltb, leb, if◌then◌else◌}
use pebble_db.Sstable.Block.{SsTableEntry, Entries, value, tombstone}
use pebble_db.Sstable.Table.{SsTable, read_block, find_block}
use pebble_db.Iter.Storage.{StorageIterator, partition_point}

pub record SsTableIterator : Type 0 where
  pub sst : SsTable
  pub block : ℕ
  pub entries : Entries
  pub index : ℕ

unfoldable pub new : SsTable → SsTableIterator
new sst = record { sst = sst; block = 0; entries = []; index = 0 }

-- `read_block(block).unwrap_or_default()`
abbrev pub block_or_empty : SsTable → ℕ → Entries
block_or_empty sst block = elim (read_block sst block) [ none ↦ [] | some es ↦ es ]

unfoldable pub load_block : ℕ → SsTableIterator → SsTableIterator
load_block block it = record it { block = block; entries = block_or_empty it.sst block; index = 0 }

-- The loop of `ensure_entry`, one unit of fuel for each block that it loads.
unfoldable pub ensure_loop : ℕ → SsTableIterator → SsTableIterator
ensure_loop zero it = it
ensure_loop (suc fuel) it =
    let next = ensure_loop fuel (load_block (it.block + 1) it) in
    if ltb it.index (length it.entries)
    then it
    else if leb it.sst.block_count (it.block + 1)
    then it
    else next

-- Each round but the last loads a block below `block_count`.
unfoldable pub ensure_entry : SsTableIterator → SsTableIterator
ensure_entry it = ensure_loop (it.sst.block_count - it.block) it

unfoldable pub seek_to_first : SsTableIterator → SsTableIterator
seek_to_first it = ensure_entry (load_block 0 it)

unfoldable pub seek : Text → SsTableIterator → SsTableIterator
seek target it =
    let found = load_block (find_block it.sst target) it in
    ensure_entry (record found { index = partition_point target found.entries })

unfoldable pub advance : SsTableIterator → SsTableIterator
advance it =
    ensure_entry
      (if ltb it.index (length it.entries) then record it { index = it.index + 1 } else it)

unfoldable pub valid : SsTableIterator → Bool
valid it = ltb it.index (length it.entries)

unfoldable pub key : SsTableIterator → Option Text
key it = elim (get_elem? it.entries it.index) [ none ↦ none | some e ↦ some e.0 ]

abbrev pub value_part : SsTableEntry → Option Text
value_part (value v) = some v
value_part tombstone = none

unfoldable pub value_at : SsTableIterator → Option Text
value_at it = elim (get_elem? it.entries it.index) [ none ↦ none | some e ↦ value_part e.1 ]

-- The entries of the `left` blocks from `block` on.
unfoldable pub entries_left : ℕ → ℕ → SsTable → ℕ
entries_left zero block sst = 0
entries_left (suc left) block sst =
    length (block_or_empty sst block) + entries_left left (block + 1) sst

unfoldable pub remaining : SsTableIterator → ℕ
remaining it =
    (length it.entries - it.index)
    + entries_left (it.sst.block_count - (it.block + 1)) (it.block + 1) it.sst

abbrev pub table_storage : StorageIterator SsTableIterator
table_storage = record {
  seek_to_first = seek_to_first;
  seek = seek;
  advance = advance;
  valid = valid;
  key = key;
  value = value_at;
  remaining = remaining;
}
