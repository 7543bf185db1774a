-- ===== src/Db/Write.antt =====
-- src/db.rs: set, delete, flush, compact and compact_full.
use pebble_db.Prelude.{ℕ, ◌+◌, List, [], ◌∷◌, ◌++◌, Bool, true, false, some, none, Text}
use pebble_db.Prelude.{Outcome, ok, panic, if◌then◌else◌, leb, u64, length, is_empty}
use pebble_db.Prelude.BTreeMap
use pebble_db.Prelude.BTreeMap.{BTreeMap}
use pebble_db.Exec.{Exec, pure, lift, reads, modify, ◌>>=◌, ◌>>◌}
use pebble_db.Fault
use pebble_db.Bloom.{Floats}
use pebble_db.Wal.Record.{WalRecord}
use pebble_db.Wal.Record
use pebble_db.Iter.Memtable.{MemtableEntry}
use pebble_db.Iter.Memtable
use pebble_db.Sstable.Block.{SsTableEntry, value, tombstone}
use pebble_db.Sstable.Table.{SsTable, file_size}
use pebble_db.Db.State.{Db}
use pebble_db.Db.Files.{hit, wal_append, wal_sync, wal_truncate, write_level_file}
use pebble_db.Db.Read.{get_inner}
use pebble_db.Db.Compact.{compact_pending}

abbrev pub sst_entry : MemtableEntry → SsTableEntry
sst_entry (Memtable.value v) = value v
sst_entry Memtable.tombstone = tombstone

-- The map of table entries that a flush builds.
unfoldable pub sst_entries : BTreeMap MemtableEntry → BTreeMap SsTableEntry → BTreeMap SsTableEntry
sst_entries [] m = m
sst_entries (e ∷ es) m = sst_entries es (BTreeMap.insert e.0 (sst_entry e.1) m)

-- `self.levels[0].push(sst)`, which panics where there is no level.
unfoldable pub push_l0 : SsTable → List (List SsTable) → Outcome (List (List SsTable))
push_l0 sst [] = panic
push_l0 sst (files ∷ rest) = ok ((files ++ sst ∷ []) ∷ rest)

module _ (fl : Floats) (rounds : ℕ) where
  unfoldable pub flush_full : BTreeMap MemtableEntry → Exec Db (Unit {0})
  flush_full memtable = do
    sst ← write_level_file fl 0 (sst_entries memtable [])
    hit Fault.before_wal_truncation
    wal_truncate
    hit Fault.after_wal_truncation
    modify (λ db. record db {
      metrics = record db.metrics {
        bytes_flushed = u64 (db.metrics.bytes_flushed + file_size sst);
      };
    })
    hit Fault.before_metadata_update
    db ← reads (λ d. d)
    levels ← lift (push_l0 sst db.levels)
    modify (λ d. record d { levels = levels; memtable = [] })
    hit Fault.after_metadata_update
    compact_pending fl rounds

  unfoldable pub flush : Exec Db (Unit {0})
  unfolding flush_full
  flush db = if is_empty db.memtable then (ok tt, db) else flush_full db.memtable db

  -- What `set` and `delete` have in common: the log first, then the memtable, then the flush.
  unfoldable pub log_and_apply : WalRecord → Text → MemtableEntry → Exec Db (Unit {0})
  unfolding flush
  log_and_apply r key entry = do
    hit Fault.before_wal_append
    wal_append r
    hit Fault.after_wal_append
    wal_sync
    hit Fault.after_wal_fsync
    modify (λ db. record db { memtable = BTreeMap.insert key entry db.memtable })
    hit Fault.after_memtable_update
    db ← reads (λ d. d)
    if leb db.options.flush_threshold (length db.memtable) then flush else pure tt

  unfoldable pub set : Text → Text → Exec Db (Unit {0})
  unfolding log_and_apply
  set key v = log_and_apply (Record.set key v) key (Memtable.value v)

  unfoldable pub delete : Text → Exec Db Bool
  unfolding log_and_apply
  delete key = do
    db ← reads (λ d. d)
    before ← lift (get_inner db key)
    log_and_apply (Record.delete key) key Memtable.tombstone
    pure (elim before [ none ↦ false | some v ↦ true ])

  unfoldable pub compact : Exec Db (Unit {0})
  compact = compact_pending fl rounds
