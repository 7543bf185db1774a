-- ===== src/Db/Compact.antt =====
-- src/db.rs: execute_job, compact_pending and compact_full.
pub mod Gather
use pebble_db.Prelude.{
  ℕ, zero, suc, ◌+◌, ◌^◌, ◌-◌, List, [], ◌∷◌, ◌++◌, Bool, true, false, ◌&&◌, not, Option,
}
use pebble_db.Prelude.{some, none, Text, map, diverged, if◌then◌else◌, leb, ◌==◌, u64, length}
use pebble_db.Prelude.{keep, any, sum_of, get_elem?, set, is_empty}
use pebble_db.Prelude.BTreeMap
use pebble_db.Prelude.BTreeMap.{BTreeMap}
use pebble_db.Exec.{Exec, pure, lift, reads, modify, ◌>>=◌, ◌>>◌}
use pebble_db.Fault
use pebble_db.Bloom.{Floats}
use pebble_db.Compaction.{pick_compaction}
use pebble_db.Sstable.Block.{SsTableEntry, Entries, value, tombstone}
use pebble_db.Sstable.Table.{SsTable, file_size}
use pebble_db.Iter.Table as Cursor
use pebble_db.Iter.Child.{Child, child_storage, remaining}
use pebble_db.Iter.Merge.{MergeIterator}
use pebble_db.Iter.Merge
use pebble_db.Db.State.{
  Db, JobOutcome, CompactionJob, level_config, sst_count, ensure_level, record_job,
}
use pebble_db.Db.Files.{
  hit, remove_file, write_level_file, write_pending_merge, clear_pending_merge,
}
use pebble_db.Db.Plan.{file_metas, plan_job, sort_sources, record_size}

pub record Progress : Type 0 where
  pub merged : MergeIterator Child
  pub outputs : List SsTable
  pub bytes_written : ℕ
  pub current : Entries
  pub current_bytes : ℕ

abbrev pub entry_of : Option Text → SsTableEntry
entry_of none = tombstone
entry_of (some v) = value v

abbrev pub is_tombstone : SsTableEntry → Bool
is_tombstone (value v) = false
is_tombstone tombstone = true

module _ (fl : Floats) where
  -- What is gathered goes to a new table of the output level.
  unfoldable pub flush_current : CompactionJob → Progress → Exec Db Progress
  flush_current job p = do
    sst ← write_level_file fl job.output_level p.current
    pure (record p {
      outputs = p.outputs ++ sst ∷ [];
      bytes_written = u64 (p.bytes_written + file_size sst);
      current = [];
      current_bytes = 0;
    })

  -- The body of the loop for one key of the merge.
  unfoldable pub merge_step : CompactionJob → Text → Progress → Exec Db Progress
  unfolding flush_current
  merge_step job key p =
      let entry = entry_of (Merge.value p.merged) in
      let q = record p { merged = Merge.advance p.merged } in
      if job.drop_tombstones && is_tombstone entry
      then pure q
      else let grown = record q {
        current = BTreeMap.insert key entry q.current;
        current_bytes = q.current_bytes + record_size key entry;
      } in
        if leb job.target_file_size grown.current_bytes then flush_current job grown else pure grown

  -- `while merged.valid()`, one unit of fuel for each key.
  unfoldable pub merge_loop : ℕ → CompactionJob → Progress → Exec Db Progress
  merge_loop zero job p = lift diverged
  merge_loop (suc fuel) job p = elim (Merge.key p.merged) [
    | none ↦ pure p
    | some key ↦ do q ← merge_step job key p; merge_loop fuel job q
  ]

  -- The tables that the merge writes, and their bytes.
  unfoldable pub merge_all : CompactionJob → Exec Db Progress
  unfolding merge_loop merge_step
  merge_all job = do
    let children = map (λ i. Child.table (Cursor.new i.1)) (sort_sources job.inputs)
    let merged = Merge.new_with_tombstones children
    p ← merge_loop (suc (sum_of remaining merged.children)) job (record {
      merged = merged;
      outputs = [];
      bytes_written = 0;
      current = [];
      current_bytes = 0;
    })
    if is_empty p.current then pure p else flush_current job p

-- The loop that deletes the inputs; a file that is not there is passed over.
unfoldable pub delete_inputs : List (ℕ × SsTable) → Exec Db (Unit {0})
delete_inputs [] = pure tt
delete_inputs (i ∷ is) = do
  hit Fault.before_obsolete_file_delete
  modify (λ db. record db { files = (remove_file i.1.path db.files).1 })
  delete_inputs is

abbrev pub is_input : List (ℕ × SsTable) → SsTable → Bool
is_input inputs sst = any (λ i. i.1.id == sst.id) inputs

unfoldable pub insert_table : SsTable → List SsTable → List SsTable
insert_table t [] = t ∷ []
insert_table t (u ∷ us) =
    let rest = insert_table t us in if leb t.id u.id then t ∷ u ∷ us else u ∷ rest

-- `sort_by_key(|sst| sst.id)`
unfoldable pub sort_tables : List SsTable → List SsTable
sort_tables [] = []
sort_tables (t ∷ ts) = insert_table t (sort_tables ts)

abbrev pub level_or_empty : List (List SsTable) → ℕ → List SsTable
level_or_empty levels level = elim (get_elem? levels level) [ none ↦ [] | some files ↦ files ]

-- The levels without the inputs, and with the outputs in the output level.
unfoldable pub replace_inputs :
    CompactionJob → List SsTable → List (List SsTable) → List (List SsTable)
replace_inputs job outputs levels =
    let kept = map (keep (λ sst. not (is_input job.inputs sst))) levels in
    let wide = ensure_level job.output_level kept in
    set wide job.output_level (sort_tables (level_or_empty wide job.output_level ++ outputs))

module _ (fl : Floats) where
  unfoldable pub execute_job : CompactionJob → Exec Db JobOutcome
  unfolding merge_all
  execute_job job = do
    p ← merge_all fl job
    hit Fault.after_compaction_output_creation
    write_pending_merge p.outputs job.inputs
    delete_inputs job.inputs
    hit Fault.after_obsolete_file_delete
    hit Fault.before_metadata_update
    modify (λ db. record db { levels = replace_inputs job p.outputs db.levels })
    hit Fault.after_metadata_update
    clear_pending_merge
    pure (record {
      bytes_read = u64 (sum_of (λ i. file_size i.1) job.inputs);
      bytes_written = p.bytes_written;
      input_files = length job.inputs;
      output_files = length p.outputs;
    })

  -- The loop of `compact_pending`; `rounds` bounds the jobs that are carried out.
  unfoldable pub compact_pending : ℕ → Exec Db (Unit {0})
  compact_pending zero = lift diverged
  compact_pending (suc rounds) = do
    db ← reads (λ d. d)
    picked ← lift (pick_compaction (file_metas 0 db.levels) (level_config db.options))
    elim picked [
      | none ↦ pure tt
      | some plan ↦ do
        outcome ← execute_job (plan_job db plan)
        modify (λ d. record d { metrics = record_job (some plan.level) outcome d.metrics })
        compact_pending rounds
    ]

  abbrev pub all_inputs : ℕ → List (List SsTable) → List (ℕ × SsTable)
  all_inputs level [] = []
  all_inputs level (files ∷ rest) = map (λ sst. (level, sst)) files ++ all_inputs (level + 1) rest

  unfoldable pub compact_full : Exec Db (Unit {0})
  compact_full = do
    db ← reads (λ d. d)
    if leb (sst_count db) 1 then pure tt else (do
      outcome ← execute_job (record {
        inputs = all_inputs 0 db.levels;
        output_level = 1;
        drop_tombstones = true;
        target_file_size = 2 ^ 64 - 1;
      })
      modify (λ d. record d { metrics = record_job none outcome d.metrics }))
