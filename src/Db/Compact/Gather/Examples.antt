-- ===== src/Db/Compact/Gather/Examples.antt =====
-- A job that merges a table of two entries, one of them a tombstone, and drops the tombstone.
use pebble_db.Prelude.{◌<◌, [], ◌∷◌, Text, ok, All, true, if◌then◌else◌, is_empty}
use pebble_db.Prelude.{◌≡◌, arith}
use pebble_db.Prelude.BTreeMap
use pebble_db.Prelude.BTreeMap.Ascending.{Ascending}
use pebble_db.Exec.{pure}
use pebble_db.Sstable.Examples.{one_hash, two_entries, two_entries-Ascending}
use pebble_db.Iter.Rows.Union.{union}
use pebble_db.Db.State.{CompactionJob}
use pebble_db.Db.Plan.{sort_sources, insert_source, record_size}
use pebble_db.Db.Read.{search_inner}
use pebble_db.Db.Readable.{IsReadable, tables_rows}
use pebble_db.Db.Compact.{Progress, flush_current, merge_all}
use pebble_db.Db.Compact.Gather.{rows_size, said, job_tables, merge_all-eq-search_inner}
use pebble_db.Db.Scan.Examples.{loaded, loaded-Holds, two_layers}

abbrev one_input : CompactionJob
one_input = record {
  inputs = (0, loaded) ∷ [];
  output_level = 1;
  drop_tombstones = true;
  target_file_size = 1000;
}

one_input-IsReadable : All IsReadable (job_tables one_input)
unfolding sort_sources insert_source
one_input-IsReadable = ((two_entries, loaded-Holds, two_entries-Ascending), tt)

one_input-small :
    rows_size (union (tables_rows (job_tables one_input) one_input-IsReadable))
    < one_input.target_file_size
unfolding sort_sources insert_source one_input-IsReadable rows_size union tables_rows record_size
    BTreeMap.insert
one_input-small = omega arith

merge_all-eq-search_inner_example :
    (p : Progress) × (merge_all one_hash one_input two_layers
      ≡ (if is_empty p.current then pure p else flush_current one_hash one_input p) two_layers)
    × (p.outputs ≡ [])
    × Ascending p.current
    × ((k : Text) → ok (said (BTreeMap.get k p.current)) ≡ search_inner (job_tables one_input) k)
merge_all-eq-search_inner_example =
    merge_all-eq-search_inner one_hash one_input two_layers one_input-IsReadable one_input-small
