-- ===== src/Db/Settled/Compact.antt =====
-- A compaction that succeeds leaves nothing to compact.
use pebble_db.Prelude.{
  ℕ, zero, suc, ◌≤◌, Option, none, some, Outcome, ok, err, panic, aborted, diverged, ◌≡◌, refl,
  arith,
}
use pebble_db.Prelude.{◌<◌, length}
use pebble_db.Db.Settled.{ranged, at_level-file_metas}
use mathlib.Core.Path.{subst}
use pebble_db.Exec.{Exec, pure, lift, modify, ◌>>=◌, ◌>>◌}
use pebble_db.Exec.Triple.{Triple, Leaves, Leaves-both, Triple-bind}
use pebble_db.Bloom.{Floats}
use pebble_db.Compaction.{CompactionPlan, pick_compaction}
use pebble_db.Compaction
use pebble_db.Compaction.Settled.{IsSettled, pick_compaction-none}
use pebble_db.Db.State.{Db, DbOptions, level_config, record_job}
use pebble_db.Db.Plan.{file_metas, plan_job}
use pebble_db.Db.Compact.{execute_job, compact_pending}
use pebble_db.Db.Write.{compact}
use pebble_db.Db.Flush.{compact_pending-none}

-- The picker finds nothing.
abbrev IsIdle : Db → Type 0
IsIdle db = pick_compaction (file_metas 0 db.levels) (level_config db.options) ≡ ok none

abbrev Reaches : {A : Type 0} → (Db → Type 0) → Exec Db A → Type 0
Reaches Q m = Triple (λ _. Unit) (λ _. Unit) m (λ _. Q)

Reaches-bind :
    {A B : Type 0} (Q : Db → Type 0) (m : Exec Db A) (k : A → Exec Db B)
    → ((a : A) → Reaches Q (k a))
    → Reaches Q (m >>= k)
Reaches-bind Q m k h =
    Triple-bind (λ _. Unit) (λ _ _. Unit) (λ _. Q) (λ _. Unit) m k
      (λ s u. Leaves-both (λ _. Unit) (λ _ _. Unit) (m s).0 (m s).1 tt (λ _ _. tt)) h

abbrev next_job : (Floats) → ℕ → Db → Option CompactionPlan → Exec Db (Unit {0})
next_job fl rounds db none = pure tt
next_job fl rounds db (some plan) = do
  outcome ← execute_job fl (plan_job db plan)
  modify (λ d. record d { metrics = record_job (some plan.level) outcome d.metrics })
  compact_pending fl rounds

module _ (fl : Floats) where
  compact_pending-IsIdle : (rounds : ℕ) → Reaches IsIdle (compact_pending fl rounds)
  unfolding compact_pending
  compact_pending-IsIdle zero db u = tt
  compact_pending-IsIdle (suc rounds) db u =
      go (compact_pending-IsIdle rounds)
        (pick_compaction (file_metas 0 db.levels) (level_config db.options)) refl
    where
      go :
          Reaches IsIdle (compact_pending fl rounds)
          → (o : Outcome (Option CompactionPlan))
          → pick_compaction (file_metas 0 db.levels) (level_config db.options) ≡ o
          → Leaves
              (λ _. Unit)
              (λ _. IsIdle)
              ((lift o >>= λ picked. elim picked as (λ _. Exec Db (Unit {0})) [
                | none ↦ pure tt
                | some plan ↦ do
                  outcome ← execute_job fl (plan_job db plan)
                  modify
                      (λ d. record d { metrics = record_job (some plan.level) outcome d.metrics })
                  compact_pending fl rounds
              ])
                db).0
              ((lift o >>= λ picked. elim picked as (λ _. Exec Db (Unit {0})) [
                | none ↦ pure tt
                | some plan ↦ do
                  outcome ← execute_job fl (plan_job db plan)
                  modify
                      (λ d. record d { metrics = record_job (some plan.level) outcome d.metrics })
                  compact_pending fl rounds
              ])
                db).1
      go rest (ok none) e = e
      go rest (ok (some plan)) e =
          Reaches-bind IsIdle (execute_job fl (plan_job db plan)) _
            (λ outcome.
              Reaches-bind IsIdle
                (modify
                  (λ d. record d { metrics = record_job (some plan.level) outcome d.metrics }))
                _ (λ _. rest))
            db tt
      go rest (err x) e = tt
      go rest panic e = tt
      go rest aborted e = tt
      go rest diverged e = tt

level_config-threshold : (o : DbOptions) → 1 ≤ (level_config o).l0_compaction_threshold
unfolding level_config Compaction.new
level_config-threshold o = omega arith

-- When `compact` succeeds, level 0 has fewer tables that tell a range of keys than its threshold; of
-- these tables, which are the ones that file_metas lists, no level from 1 to the deepest has more
-- bytes, summed as a u64, than its capacity; and to compact again succeeds at once and changes
-- nothing.
pub compact-IsSettled :
    (fl : Floats) (rounds more : ℕ) (db e : Db)
    → compact fl rounds db ≡ (ok tt, e)
    → (length (ranged e.levels) < (level_config e.options).l0_compaction_threshold)
      × IsSettled (file_metas 0 e.levels) (level_config e.options)
      × (compact fl (suc more) e ≡ (ok tt, e))
unfolding compact
compact-IsSettled fl rounds more db e runs =
    let idle : IsIdle e =
      subst (λ r. Leaves (λ _. Unit) (λ _. IsIdle) r.0 r.1) runs
        (compact_pending-IsIdle fl rounds db tt) in
    let settled =
      (pick_compaction-none (file_metas 0 e.levels) (level_config e.options)
          (level_config-threshold e.options)).0
        idle in
    (
      subst (λ (n : ℕ). n < (level_config e.options).l0_compaction_threshold)
          (at_level-file_metas e.levels) settled.few,
      settled,
      compact_pending-none fl more e idle,
    )
