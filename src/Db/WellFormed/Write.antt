-- ===== src/Db/WellFormed/Write.antt =====
-- Flushes and writes keep the invariant, whether they succeed or not.
use pebble_db.Prelude.{
  ℕ, ◌+◌, ◌<◌, ◌≤◌, List, [], ◌∷◌, Bool, true, false, Text, none, some, ok, leb, if◌then◌else◌, u64,
  length,
}
use pebble_db.Prelude.{arith, is_empty}
use pebble_db.Prelude.BTreeMap
use pebble_db.Prelude.BTreeMap.{BTreeMap}
use pebble_db.Prelude.BTreeMap.Ascending.{insert-Ascending}
use pebble_db.Exec.{pure, lift, modify}
use pebble_db.Exec.Triple.{Leaves, Triple-bind}
use pebble_db.Fault
use pebble_db.Bloom.{Floats}
use pebble_db.Wal.Record.{WalRecord}
use pebble_db.Wal.Record
use pebble_db.Iter.Memtable.{MemtableEntry}
use pebble_db.Iter.Memtable
use pebble_db.Sstable.Table.{SsTable, file_size}
use pebble_db.Db.State.{Db}
use pebble_db.Db.Files.{hit, wal_append, wal_sync, wal_truncate, write_level_file}
use pebble_db.Db.Read.{get_inner}
use pebble_db.Db.Write.{
  sst_entries, push_l0, flush_full, flush, log_and_apply, set, delete, compact,
}
use pebble_db.Db.WellFormed.{
  bound, IsFine, IsFine-nil, IsWellFormed, Keeps, Keeps-bind, hit-Keeps, lift-Keeps,
  write_level_file-Keeps,
}
use pebble_db.Db.WellFormed.Levels.{LevelsBelow, append-IsBelow}
use pebble_db.Db.WellFormed.Compact.{Keeps-then, compact_pending-Keeps}

-- Level 0 with the table pushed, of a database that the table's number is below the next one of.
abbrev Pushed : List (List SsTable) → Db → Type 0
Pushed levels db = IsWellFormed db × LevelsBelow (bound db) levels × (1 ≤ length levels)

push_l0-Pushed :
    (t : SsTable) (ls : List (List SsTable)) (db : Db)
    → IsWellFormed db
    → t.id < bound db
    → LevelsBelow (bound db) ls
    → Leaves IsWellFormed Pushed (push_l0 t ls) db
unfolding push_l0
push_l0-Pushed t [] db h below a = h
push_l0-Pushed t (files ∷ rest) db h below a =
    (h, (append-IsBelow (bound db) files (t ∷ []) a.0 (below, tt), a.1), omega arith)

module _ (fl : Floats) (rounds : ℕ) where
  flush_full-Keeps :
      (memtable : BTreeMap MemtableEntry) → Keeps [] (flush_full fl rounds memtable) (λ _. [])
  unfolding flush_full wal_truncate
  flush_full-Keeps memtable =
      Keeps-bind [] (λ t. t.id ∷ []) (λ _. []) (write_level_file fl 0 (sst_entries memtable [])) _
        (write_level_file-Keeps [] fl 0 (sst_entries memtable []))
        λ t.
          let ids : List ℕ = t.id ∷ [] in
          Keeps-bind ids (λ _. ids) (λ _. []) (hit Fault.before_wal_truncation) _ (hit-Keeps ids _)
            λ _.
              Keeps-bind ids (λ _. ids) (λ _. []) wal_truncate _ (λ d k. k)
                λ _.
                  Keeps-bind ids (λ _. ids) (λ _. []) (hit Fault.after_wal_truncation) _
                    (hit-Keeps ids _)
                    λ _.
                      Keeps-bind ids (λ _. ids) (λ _. [])
                        (modify (λ db. record db {
                          metrics = record db.metrics {
                            bytes_flushed = u64 (db.metrics.bytes_flushed + file_size t);
                          };
                        }))
                        _ (λ d k. k)
                        λ _.
                          Keeps-bind ids (λ _. ids) (λ _. []) (hit Fault.before_metadata_update) _
                            (hit-Keeps ids _)
                            λ _ db h.
                              Triple-bind IsWellFormed Pushed (λ _. IsWellFormed)
                                (λ s. IsFine ids s × LevelsBelow (bound s) db.levels)
                                (lift (push_l0 t db.levels)) _
                                (λ s k.
                                  push_l0-Pushed t db.levels s (IsFine-nil ids s k.0) k.0.written.0
                                    k.1)
                                (λ levels.
                                  Triple-bind IsWellFormed (λ _. IsWellFormed) (λ _. IsWellFormed)
                                    (Pushed levels)
                                    (modify (λ d. record d { levels = levels; memtable = [] })) _
                                    (λ d k. record {
                                      ordered = tt;
                                      fits = k.0.fits;
                                      based = k.2;
                                      numbered = k.1;
                                      written = tt;
                                    })
                                    (λ _.
                                      Keeps-then [] (hit Fault.after_metadata_update) _
                                        (hit-Keeps [] _) (λ _. compact_pending-Keeps fl rounds)))
                                db (h, h.numbered)

  pub flush-Keeps : Keeps [] (flush fl rounds) (λ _. [])
  unfolding flush
  flush-Keeps db h = go (is_empty db.memtable)
    where
      go :
          (b : Bool)
          → Leaves IsWellFormed
              (λ _. IsWellFormed)
              (if b then (ok tt, db) else flush_full fl rounds db.memtable db).0
              (if b then (ok tt, db) else flush_full fl rounds db.memtable db).1
      go true = h
      go false = flush_full-Keeps db.memtable db h

  pub compact-Keeps : Keeps [] (compact fl rounds) (λ _. [])
  unfolding compact
  compact-Keeps = compact_pending-Keeps fl rounds

  log_and_apply-Keeps :
      (r : WalRecord) (key : Text) (entry : MemtableEntry)
      → Keeps [] (log_and_apply fl rounds r key entry) (λ _. [])
  unfolding log_and_apply wal_append wal_sync
  log_and_apply-Keeps r key entry =
      Keeps-then [] (hit Fault.before_wal_append) _ (hit-Keeps [] _) λ _.
        Keeps-then [] (wal_append r) _ (λ d k. k)
          λ _. Keeps-then [] (hit Fault.after_wal_append) _ (hit-Keeps [] _) λ _.
            Keeps-then [] wal_sync _ (λ d k. k)
              λ _. Keeps-then [] (hit Fault.after_wal_fsync) _ (hit-Keeps [] _) λ _.
                Keeps-then []
                  (modify (λ db. record db { memtable = BTreeMap.insert key entry db.memtable })) _
                  (λ d k. record {
                    ordered = insert-Ascending key entry d.memtable k.ordered;
                    based = k.based;
                    fits = k.fits;
                    numbered = k.numbered;
                    written = tt;
                  })
                  λ _.
                    Keeps-then [] (hit Fault.after_memtable_update) _ (hit-Keeps [] _)
                      λ _ db h. go (leb db.options.flush_threshold (length db.memtable)) db h
    where
      go : (b : Bool) → Keeps [] (if b then flush fl rounds else pure tt) (λ _. [])
      go true = flush-Keeps
      go false = λ d k. k

  pub set-Keeps : (key v : Text) → Keeps [] (set fl rounds key v) (λ _. [])
  unfolding set
  set-Keeps key v = log_and_apply-Keeps (Record.set key v) key (Memtable.value v)

  pub delete-Keeps : (key : Text) → Keeps [] (delete fl rounds key) (λ _. [])
  unfolding delete
  delete-Keeps key db h =
      Keeps-then [] (lift (get_inner db key)) _ (lift-Keeps [] _)
        (λ before.
          Keeps-then [] (log_and_apply fl rounds (Record.delete key) key Memtable.tombstone)
            (λ _. pure (elim before as (λ _. Bool) [ none ↦ false | some v ↦ true ]))
            (log_and_apply-Keeps (Record.delete key) key Memtable.tombstone) (λ _ d k. k))
        db h
