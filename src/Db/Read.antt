-- ===== src/Db/Read.antt =====
-- src/db.rs: get, exists, range, keys and scan.
use pebble_db.Prelude.{◌+◌, List, [], ◌∷◌, ◌++◌, Bool, true, false, Option, some, none, Text, map}
use pebble_db.Prelude.{Outcome, ok, err, panic, aborted, diverged, if◌then◌else◌, u64}
use pebble_db.Prelude.BTreeMap
use pebble_db.Exec.{Exec, pure, lift, modify, ◌>>=◌, ◌>>◌}
use pebble_db.Bloom
use pebble_db.Sstable.Block.{SsTableEntry}
use pebble_db.Sstable.Block
use pebble_db.Sstable.Table.{SsTable}
use pebble_db.Sstable.Table
use pebble_db.Iter.Memtable.{MemtableEntry}
use pebble_db.Iter.Memtable
use pebble_db.Iter.Table as Cursor
use pebble_db.Iter.Child.{Child, child_storage}
use pebble_db.Iter.Merge
use pebble_db.Iter.Range.{Bound, unbounded, RangeIterator}
use pebble_db.Iter.Range
use pebble_db.Db.State.{Db}
use mathlib.Core.List.{reverse}

abbrev pub count_hit : Db → Db
count_hit db = record db {
  counters = record db.counters { memtable_hits = u64 (db.counters.memtable_hits + 1) };
}

abbrev pub count_reject : Db → Db
count_reject db = record db {
  counters = record db.counters { bloom_rejects = u64 (db.counters.bloom_rejects + 1) };
}

abbrev pub count_read : Db → Db
count_read db = record db {
  counters = record db.counters { block_reads = u64 (db.counters.block_reads + 1) };
}

-- What a table says of a key ends the search, or passes it on.
abbrev pub settle : Option SsTableEntry → Exec Db (Option Text) → Exec Db (Option Text)
settle (some (Block.value v)) rest = pure (some v)
settle (some Block.tombstone) rest = pure none
settle none rest = rest

-- One table of the search, between the counters.
unfoldable pub read_table : SsTable → Text → Exec Db (Option Text) → Exec Db (Option Text)
read_table sst key rest = do modify count_read; found ← lift (Table.get sst key); settle found rest

unfoldable pub probe : SsTable → Text → Exec Db (Option Text) → Exec Db (Option Text)
unfolding read_table
probe sst key rest = do
  maybe ← lift (Bloom.might_contain sst.bloom key)
  if maybe then read_table sst key rest else (modify count_reject >> rest)

-- The loops over the tables, in the order in which `order` lists them.
unfoldable pub search_tables : List SsTable → Text → Exec Db (Option Text)
search_tables [] key = pure none
search_tables (sst ∷ rest) key = probe sst key (search_tables rest key)

-- `for files in &levels { for sst in files.iter().rev() { … } }`
unfoldable pub read_order : List (List SsTable) → List SsTable
read_order [] = []
read_order (files ∷ rest) = reverse files ++ read_order rest

-- What the memtable says of a key ends `get`, or sends it to the tables.
unfoldable pub get_from : Option MemtableEntry → Text → Exec Db (Option Text)
get_from (some (Memtable.value v)) key db = (ok (some v), count_hit db)
get_from (some Memtable.tombstone) key db = (ok none, db)
get_from none key db = search_tables (read_order db.levels) key db

unfoldable pub get : Text → Exec Db (Option Text)
get key db = get_from (BTreeMap.get key db.memtable) key db

-- What a table says of a key in `get_inner`, and otherwise what the later tables say.
abbrev pub settle_inner :
    Outcome (Option SsTableEntry) → Outcome (Option Text) → Outcome (Option Text)
settle_inner (ok none) later = later
settle_inner (ok (some (Block.value v))) later = ok (some v)
settle_inner (ok (some Block.tombstone)) later = ok none
settle_inner (err e) later = err e
settle_inner panic later = panic
settle_inner aborted later = aborted
settle_inner diverged later = diverged

-- The loops of `get_inner`, which leave the counters alone.
unfoldable pub search_inner : List SsTable → Text → Outcome (Option Text)
search_inner [] key = ok none
search_inner (sst ∷ rest) key = settle_inner (Table.get sst key) (search_inner rest key)

unfoldable pub inner_from : Option MemtableEntry → Outcome (Option Text) → Outcome (Option Text)
inner_from (some (Memtable.value v)) later = ok (some v)
inner_from (some Memtable.tombstone) later = ok none
inner_from none later = later

unfoldable pub get_inner : Db → Text → Outcome (Option Text)
get_inner db key =
    inner_from (BTreeMap.get key db.memtable) (search_inner (read_order db.levels) key)

abbrev pub has_value : Option Text → Bool
has_value none = false
has_value (some v) = true

unfoldable pub exists : Text → Exec Db Bool
exists key = do found ← get key; pure (has_value found)

-- `range_iterator`
unfoldable pub range : Db → Bound → Bound → RangeIterator Child
range db start end =
    Range.new
      (Merge.new (
        Child.memtable (Memtable.new db.memtable)
        ∷ map (λ sst. Child.table (Cursor.new sst)) (read_order db.levels)))
      start end

unfoldable pub scan : Db → List (Text × Text)
scan db = Range.collect (range db unbounded unbounded)

unfoldable pub keys : Db → List Text
keys db = map (λ p. p.0) (scan db)
