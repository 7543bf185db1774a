-- ===== src/Db/WellFormed/Examples.antt =====
-- A database that is opened on an empty directory and called.
use pebble_db.Prelude.{false}
use pebble_db.Prelude.{[], ◌∷◌, codes, ok, ◌≡◌, refl}
use pebble_db.Prelude.BTreeMap
use pebble_db.Bloom.Examples.{whole_floats}
use pebble_db.Db.Names.{wal_file}
use pebble_db.Db.State.{Db, default_options}
use pebble_db.Db.Files.{write_file}
use pebble_db.Db.Open.{
  opened_db, open_with_options, remove_all, finish_pending_merge, read_pending_merge,
  discover_sstables, table_files, sort_files, load_tables, replay_wal, replay_log, open_wal,
}
use pebble_db.Db.Write.{set, delete}
use pebble_db.Db.WellFormed.{IsWellFormed}
use pebble_db.Db.WellFormed.Reachable.{opened, after_set, after_delete, Reachable-IsWellFormed}

abbrev fresh : Db
fresh = opened_db default_options [] ([] ∷ [], 0, false) ((wal_file, []) ∷ [])

fresh-opened : (open_with_options default_options []).0 ≡ ok fresh
unfolding open_with_options remove_all finish_pending_merge read_pending_merge discover_sstables
    table_files sort_files load_tables replay_wal replay_log open_wal write_file BTreeMap.get
    BTreeMap.insert
fresh-opened = refl

abbrev with_key : Db
with_key = (set whole_floats 1 (codes "key") (codes "one") fresh).1

Reachable-IsWellFormed_example : IsWellFormed (delete whole_floats 1 (codes "other") with_key).1
Reachable-IsWellFormed_example =
    Reachable-IsWellFormed whole_floats (delete whole_floats 1 (codes "other") with_key).1 (
      after_delete 1 (codes "other") with_key (
        after_set 1 (codes "key") (codes "one") fresh
          (opened default_options [] fresh fresh-opened)))
