-- ===== src/Db/WellFormed/Compact.antt =====
-- Compactions keep the invariant, whether they succeed or not.
use pebble_db.Prelude.{
  ℕ, zero, suc, ◌^◌, ◌-◌, List, [], ◌∷◌, ◌++◌, Bool, true, false, Option, none, some, Outcome, ok,
  map, leb, if◌then◌else◌, u64, length, sum_of,
}
use pebble_db.Prelude.{arith}
use pebble_db.Exec.{Exec, pure, lift, modify, ◌>>=◌, ◌>>◌}
use pebble_db.Exec.Triple.{Leaves}
use pebble_db.Prelude.BTreeMap
use pebble_db.Fault
use pebble_db.Bloom.{Floats}
use pebble_db.Compaction.{CompactionPlan, pick_compaction}
use pebble_db.Sstable.Table.{SsTable, file_size}
use pebble_db.Db.Names.{merge_pending_file, tmp_suffix, pending_content}
use pebble_db.Db.State.{Db, JobOutcome, CompactionJob, level_config, record_job, sst_count}
use pebble_db.Db.Files.{
  hit, on_files, write_file, rename_file, remove_file, write_pending_merge, clear_pending_merge,
}
use pebble_db.Db.Plan.{file_metas, plan_job}
use pebble_db.Db.Compact.{
  Progress, merge_all, delete_inputs, replace_inputs, execute_job, compact_pending, compact_full,
  all_inputs,
}
use pebble_db.Db.WellFormed.{
  bound, IsFine, IsWellFormed, Keeps, Keeps-bind, ids_of, hit-Keeps, lift-Keeps, on_files-Keeps,
}
use pebble_db.Db.WellFormed.Levels.{replace_inputs-LevelsBelow, length-replace_inputs}
use pebble_db.Db.WellFormed.Merge.{written_ids, merge_all-Keeps}

-- A call that writes no table, before another.
pub Keeps-then :
    {A B : Type 0} (ids : List ℕ) (m : Exec Db A) (k : A → Exec Db B)
    → Keeps ids m (λ _. ids)
    → ((a : A) → Keeps ids (k a) (λ _. ids))
    → Keeps ids (m >>= k) (λ _. ids)
Keeps-then ids m k h n = Keeps-bind ids (λ _. ids) (λ _. ids) m k h n

delete_inputs-Keeps :
    (ids : List ℕ) (is : List (ℕ × SsTable)) → Keeps ids (delete_inputs is) (λ _. ids)
unfolding delete_inputs
delete_inputs-Keeps ids [] db h = h
delete_inputs-Keeps ids (i ∷ is) db h =
    Keeps-then ids (hit Fault.before_obsolete_file_delete) _ (hit-Keeps ids _)
      (λ _.
        Keeps-then ids (modify (λ d. record d { files = (remove_file i.1.path d.files).1 })) _
          (λ d k. k) (λ _. delete_inputs-Keeps ids is))
      db h

write_pending_merge-Keeps :
    (ids : List ℕ) (outputs : List SsTable) (inputs : List (ℕ × SsTable))
    → Keeps ids (write_pending_merge outputs inputs) (λ _. ids)
unfolding write_pending_merge
write_pending_merge-Keeps ids outputs inputs =
    let tmp = merge_pending_file ++ tmp_suffix in
    let content = pending_content (ids_of outputs) (map (λ i. i.1.id) inputs) in
    Keeps-then ids (modify (λ d. record d { files = write_file tmp content d.files })) _ (λ d k. k)
      (λ _. on_files-Keeps ids (rename_file tmp merge_pending_file))

clear_pending_merge-Keeps : (ids : List ℕ) → Keeps ids clear_pending_merge (λ _. ids)
unfolding clear_pending_merge
clear_pending_merge-Keeps ids db h = go (BTreeMap.get merge_pending_file db.files)
  where
    go :
        (o : Option (List ℕ))
        → Leaves IsWellFormed
            (λ _. IsFine ids)
            (elim o as (λ _. Outcome (Unit {0}) × Db) [
              | none ↦ (ok tt, db)
              | some _ ↦ on_files (remove_file merge_pending_file) db
            ]).0
            (elim o as (λ _. Outcome (Unit {0}) × Db) [
              | none ↦ (ok tt, db)
              | some _ ↦ on_files (remove_file merge_pending_file) db
            ]).1
    go none = h
    go (some _) = on_files-Keeps ids (remove_file merge_pending_file) db h

module _ (fl : Floats) where
  execute_job-Keeps : (job : CompactionJob) → Keeps [] (execute_job fl job) (λ _. [])
  unfolding execute_job
  execute_job-Keeps job =
      Keeps-bind [] written_ids (λ _. []) (merge_all fl job) _ (merge_all-Keeps fl job)
        λ p.
          let ids = written_ids p in
          Keeps-bind ids (λ _. ids) (λ _. []) (hit Fault.after_compaction_output_creation) _
            (hit-Keeps ids _)
            λ _.
              Keeps-bind ids (λ _. ids) (λ _. []) (write_pending_merge p.outputs job.inputs) _
                (write_pending_merge-Keeps ids p.outputs job.inputs)
                λ _.
                  Keeps-bind ids (λ _. ids) (λ _. []) (delete_inputs job.inputs) _
                    (delete_inputs-Keeps ids job.inputs)
                    λ _.
                      Keeps-bind ids (λ _. ids) (λ _. []) (hit Fault.after_obsolete_file_delete) _
                        (hit-Keeps ids _)
                        λ _.
                          Keeps-bind ids (λ _. ids) (λ _. []) (hit Fault.before_metadata_update) _
                            (hit-Keeps ids _)
                            λ _.
                              Keeps-bind ids (λ _. []) (λ _. [])
                                (modify (λ db. record db {
                                  levels = replace_inputs job p.outputs db.levels;
                                }))
                                _ (λ db h. replaced job p db h)
                                λ _.
                                  Keeps-then [] (hit Fault.after_metadata_update) _ (hit-Keeps [] _)
                                    λ _.
                                      Keeps-then [] clear_pending_merge (λ _. pure (outcome p))
                                        (clear_pending_merge-Keeps []) λ _ db h. h
    where
      outcome : Progress → JobOutcome
      outcome p = record {
        bytes_read = u64 (sum_of (λ i. file_size i.1) job.inputs);
        bytes_written = p.bytes_written;
        input_files = length job.inputs;
        output_files = length p.outputs;
      }

      replaced :
          (job : CompactionJob) (p : Progress) (db : Db)
          → IsFine (written_ids p) db
          → IsWellFormed (record db { levels = replace_inputs job p.outputs db.levels })
      replaced job p db h = record {
        ordered = h.ordered;
        fits = h.fits;
        based = omega (arith, h.based, length-replace_inputs job p.outputs db.levels);
        numbered =
            replace_inputs-LevelsBelow (bound db) job p.outputs db.levels h.numbered h.written;
        written = tt;
      }

  pub compact_pending-Keeps : (rounds : ℕ) → Keeps [] (compact_pending fl rounds) (λ _. [])
  unfolding compact_pending
  compact_pending-Keeps zero db h = h
  compact_pending-Keeps (suc rounds) db h =
      let recorded : CompactionPlan → JobOutcome → Exec Db (Unit {0}) = λ plan outcome.
        modify (λ d. record d { metrics = record_job (some plan.level) outcome d.metrics }) in
      let found : Option CompactionPlan → Exec Db (Unit {0}) = λ picked. elim picked [
        | none ↦ pure tt
        | some plan ↦ do
          outcome ← execute_job fl (plan_job db plan)
          recorded plan outcome
          compact_pending fl rounds
      ] in
      Keeps-then [] (lift (pick_compaction (file_metas 0 db.levels) (level_config db.options)))
        found (lift-Keeps [] _) (λ picked. go (compact_pending-Keeps rounds) db picked) db h
    where
      go :
          Keeps [] (compact_pending fl rounds) (λ _. [])
          → (d : Db) → (picked : Option CompactionPlan)
          → Keeps []
              (elim picked as (λ _. Exec Db (Unit {0})) [
                | none ↦ pure tt
                | some plan ↦ do
                  outcome ← execute_job fl (plan_job d plan)
                  modify
                      (λ e. record e { metrics = record_job (some plan.level) outcome e.metrics })
                  compact_pending fl rounds
              ])
              (λ _. [])
      go rest d none = λ e k. k
      go rest d (some plan) =
          Keeps-then [] (execute_job fl (plan_job d plan)) _ (execute_job-Keeps (plan_job d plan))
            λ outcome.
              Keeps-then []
                (modify
                  (λ e. record e { metrics = record_job (some plan.level) outcome e.metrics }))
                _ (λ e k. k) λ _. rest

  pub compact_full-Keeps : Keeps [] (compact_full fl) (λ _. [])
  unfolding compact_full
  compact_full-Keeps db h = go (leb (sst_count db) 1) db h
    where
      go :
          (b : Bool)
          → (db : Db) → IsWellFormed db
          → (let all = (do
            outcome ← execute_job fl (record {
              inputs = all_inputs fl 0 db.levels;
              output_level = 1;
              drop_tombstones = true;
              target_file_size = 2 ^ 64 - 1;
            })
            modify (λ d. record d { metrics = record_job none outcome d.metrics })) in
              Leaves IsWellFormed
                (λ _. IsWellFormed)
                ((if b then pure tt else all) db).0
                ((if b then pure tt else all) db).1)
      go true db h = h
      go false db h =
          Keeps-then []
            (execute_job fl (record {
              inputs = all_inputs fl 0 db.levels;
              output_level = 1;
              drop_tombstones = true;
              target_file_size = 2 ^ 64 - 1;
            }))
            _ (execute_job-Keeps _) (λ outcome d k. k) db h
