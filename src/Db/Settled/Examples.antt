-- ===== src/Db/Settled/Examples.antt =====
-- A store with one table in level 0, below the threshold.
use pebble_db.Prelude.{[], ◌∷◌, codes, ok, some, none, ◌≡◌, refl}
use pebble_db.Prelude.{◌<◌, length}
use pebble_db.Db.Settled.{ranged}
use pebble_db.Bloom.Examples.{whole_floats}
use pebble_db.Compaction.Settled.{IsSettled}
use pebble_db.Compaction
use pebble_db.Sstable.Table.{SsTable, key_range, first_key, file_size}
use pebble_db.Db.State.{Db, level_config}
use pebble_db.Db.Plan.{file_metas}
use pebble_db.Db.Compact.{compact_pending}
use pebble_db.Db.Write.{compact}
use pebble_db.Db.Examples.{store}
use pebble_db.Db.Settled.Compact.{compact-IsSettled}

abbrev small_table : SsTable
small_table = record {
  id = 3;
  path = codes "sst_3_0.dat";
  data' = 1 ∷ 2 ∷ [];
  index = record { first_key = codes "a"; block_offset = 0; block_size = 2 } ∷ [];
  bloom = record { bits = 0 ∷ []; num_bits = 64; num_hashes = 1 };
  record_count = 1;
  block_count = 1;
  last_key = some (codes "b");
}

abbrev one_table : Db
one_table = record (store none) { levels = (small_table ∷ []) ∷ [] }

one_table-compact : compact whole_floats 1 one_table ≡ (ok tt, one_table)
unfolding compact compact_pending file_metas key_range first_key file_size level_config
    Compaction.new Compaction.pick_compaction Compaction.pick_level
one_table-compact = refl

compact-IsSettled_example :
    (length (ranged one_table.levels) < (level_config one_table.options).l0_compaction_threshold)
    × IsSettled (file_metas 0 one_table.levels) (level_config one_table.options)
    × (compact whole_floats 1 one_table ≡ (ok tt, one_table))
compact-IsSettled_example = compact-IsSettled whole_floats 1 0 one_table one_table one_table-compact
