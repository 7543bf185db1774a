-- ===== src/Fault/Firing.antt =====
-- When the injector fires, and that the names of the points are read back.
use pebble_db.Prelude.{
  ℕ, zero, suc, ◌+◌, List, [], ◌∷◌, some, none, Outcome, ok, err, aborted, PebbleError, Option, ◌⊎◌,
}
use pebble_db.Prelude.{◌≡◌, refl, ap, if◌then◌else◌, ltb, u64, Bool-cases, inl, inr}
use pebble_db.Fault.{
  hit_fault, FaultMode, error, abort_process, before_sstable_creation, after_sstable_write,
  before_atomic_rename, after_atomic_rename, after_wal_fsync, after_memtable_update,
  before_metadata_update, after_metadata_update, before_obsolete_file_delete,
  after_obsolete_file_delete, before_wal_truncation, after_wal_truncation,
  after_compaction_output_creation, FaultPoint, Fault, FaultInjector, name, parse, same_point,
  injector, hit, fire, before_wal_append, after_wal_append,
}

-- Each point is parsed from its name.
pub parse-name : (p : FaultPoint) → parse (name p) ≡ some p
unfolding parse
parse-name before_wal_append = refl
parse-name _ = refl

-- The boundaries that an operation passes one after the other, until one fails.
pub pass : FaultInjector → List FaultPoint → Outcome (Unit {0}) × FaultInjector
pass inj [] = (ok tt, inj)
pass inj (p ∷ ps) =
    let rest = pass (hit inj p).1 ps in elim (hit inj p).0 [ ok _ ↦ rest | e ↦ (e, (hit inj p).1) ]

abbrev pub visits : FaultPoint → List FaultPoint → ℕ
visits p [] = 0
visits p (q ∷ qs) = (if same_point p q then 1 else 0) + visits p qs

abbrev pub armed : Fault → ℕ → FaultInjector
armed f n = record { fault = some f; hits = n }

abbrev point_at : ℕ → FaultPoint
point_at zero = before_wal_append
point_at (suc zero) = after_wal_append
point_at (suc (suc zero)) = after_wal_fsync
point_at (suc (suc (suc zero))) = after_memtable_update
point_at (suc (suc (suc (suc zero)))) = before_sstable_creation
point_at (suc (suc (suc (suc (suc n))))) = later n
  where
    later : ℕ → FaultPoint
    later zero = after_sstable_write
    later (suc zero) = before_atomic_rename
    later (suc (suc zero)) = after_atomic_rename
    later (suc (suc (suc zero))) = before_metadata_update
    later (suc (suc (suc (suc zero)))) = after_metadata_update
    later (suc (suc (suc (suc (suc zero))))) = before_obsolete_file_delete
    later (suc (suc (suc (suc (suc (suc zero)))))) = after_obsolete_file_delete
    later (suc (suc (suc (suc (suc (suc (suc zero))))))) = before_wal_truncation
    later (suc (suc (suc (suc (suc (suc (suc (suc zero)))))))) = after_wal_truncation
    later _ = after_compaction_output_creation

-- Without a fault a boundary is passed.
pub hit-none : (p : FaultPoint) (inj : FaultInjector) → inj.fault ≡ none → hit inj p ≡ (ok tt, inj)
unfolding hit hit_fault
hit-none p inj h = ap (λ o. hit_fault o inj p) h

-- A boundary is passed, or ends in an error or an abort.
pub hit-cases :
    (p : FaultPoint) (inj : FaultInjector)
    → ((hit inj p).0 ≡ ok tt)
      ⊎ (((e : PebbleError) × ((hit inj p).0 ≡ err e)) ⊎ ((hit inj p).0 ≡ aborted))
unfolding hit hit_fault fire
hit-cases p inj = go inj.fault
  where
    fires :
        (mode : FaultMode) (n : ℕ)
        → (fire mode p n ≡ ok tt)
          ⊎ (((e : PebbleError) × (fire mode p n ≡ err e)) ⊎ (fire mode p n ≡ aborted))
    fires error n = inr (inl (_, refl))
    fires abort_process n = inr (inr refl)

    go :
        (o : Option Fault)
        → ((hit_fault o inj p).0 ≡ ok tt)
          ⊎ (((e : PebbleError) × ((hit_fault o inj p).0 ≡ err e))
              ⊎ ((hit_fault o inj p).0 ≡ aborted))
    go none = inl refl
    go (some f) = elim (Bool-cases (same_point f.point p)) [
      | inr other ↦ rw other (inl refl)
      | inl same ↦ elim (Bool-cases (ltb (u64 (inj.hits + 1)) f.at)) [
        | inl early ↦ rw (same, early) (inl refl)
        | inr due ↦ rw (same, due) (fires f.mode (u64 (inj.hits + 1)))
      ]
    ]

-- Without a fault all boundaries are passed, and the injector stays as it was.
pass-disabled : (ps : List FaultPoint) → pass (injector none) ps ≡ (ok tt, injector none)
unfolding pass hit injector
pass-disabled [] = refl
pass-disabled (p ∷ ps) = pass-disabled ps
