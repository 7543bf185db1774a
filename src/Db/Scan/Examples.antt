-- ===== src/Db/Scan/Examples.antt =====
-- A store with two entries in its memtable, one of them a tombstone, and a table of two entries.
use pebble_db.Prelude.{[], ◌∷◌, Text, codes, Outcome, ok, none, some, All, if◌then◌else◌, ◌&&◌}
use pebble_db.Prelude.{◌≡◌, refl, sym, ap}
use mathlib.Core.Path.{subst}
use pebble_db.Prelude.BTreeMap
use pebble_db.Prelude.BTreeMap.Ascending.{Ascending}
use pebble_db.Sstable.Table.{SsTable, load}
use pebble_db.Sstable.Holds.{Holds}
use pebble_db.Sstable.Writer.Refinement.{load-write_with_block_size}
use pebble_db.Sstable.Examples.{
  one_hash, two_entries, file_bytes, two_entries-AllValid, two_entries-Ascending,
  two_entries-filter, file_bytes-wrote, file_bytes-small,
}
use pebble_db.Iter.Memtable
use pebble_db.Iter.Child.{child_storage}
use pebble_db.Iter.Range.{included, excluded, below_end}
use pebble_db.Iter.Range
use pebble_db.Iter.Range.Bounds.{above_start}
use pebble_db.Db.State.{Db}
use pebble_db.Db.Read.{read_order, get, range}
use pebble_db.Db.Examples.{store, bare_table}
use pebble_db.Db.Scan.{range-eq-get}
use pebble_db.Db.Readable.{IsReadable}

abbrev pub table_of : Outcome SsTable → SsTable
table_of (ok t) = t
table_of _ = bare_table

abbrev pub loaded : SsTable
loaded = table_of (load 7 (codes "sst_7_0.dat") file_bytes)

pub loaded-Holds : Holds loaded two_entries
loaded-Holds =
    let (t, loads, holds, is_id, is_path, records) =
      load-write_with_block_size one_hash two_entries 10 7 (codes "sst_7_0.dat") file_bytes
        two_entries-AllValid two_entries-filter file_bytes-wrote file_bytes-small in
    subst (λ t. Holds t two_entries) (sym (ap table_of loads)) holds

abbrev pub two_layers : Db
two_layers = record (store none) {
  memtable = (codes "a", Memtable.tombstone) ∷ (codes "bb", Memtable.value (codes "two")) ∷ [];
  levels = (loaded ∷ []) ∷ [];
}

two_layers-IsReadable : All IsReadable (read_order two_layers.levels)
unfolding read_order
two_layers-IsReadable = ((two_entries, loaded-Holds, two_entries-Ascending), tt)

range-eq-get_example :
    Ascending (Range.collect (range two_layers (included (codes "a")) (excluded (codes "c"))))
    × ((k : Text)
        → ok (
            BTreeMap.get k
              (Range.collect (range two_layers (included (codes "a")) (excluded (codes "c")))))
          ≡ (if above_start (included (codes "a")) k && below_end (excluded (codes "c")) (some k)
              then (get k two_layers).0
              else ok none))
range-eq-get_example =
    range-eq-get two_layers (included (codes "a")) (excluded (codes "c")) ((refl, tt), (tt, tt))
      two_layers-IsReadable
