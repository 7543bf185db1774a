-- ===== src/Fault.antt =====
-- src/fault.rs: the fault injector that every persistence boundary consults.
pub mod Firing
mod Examples
use pebble_db.Prelude.{
  ℕ, ◌+◌, List, [], ◌∷◌, Bool, Text, codes, text_eq, Option, some, none, Outcome, ok, err,
}
use pebble_db.Prelude.{
  aborted, injected_fault, hit_at, max, u64, find, ltb, ◌==◌, if◌then◌else◌, not,
}

pub data FaultPoint : Type 0 where
  before_wal_append after_wal_append after_wal_fsync after_memtable_update : FaultPoint
  before_sstable_creation after_sstable_write before_atomic_rename after_atomic_rename : FaultPoint
  before_metadata_update after_metadata_update : FaultPoint
  before_obsolete_file_delete after_obsolete_file_delete : FaultPoint
  before_wal_truncation after_wal_truncation after_compaction_output_creation : FaultPoint

-- `FaultPoint::ALL`
abbrev pub all_points : List FaultPoint
all_points =
    before_wal_append ∷ after_wal_append ∷ after_wal_fsync ∷ after_memtable_update
    ∷ before_sstable_creation ∷ after_sstable_write ∷ before_atomic_rename ∷ after_atomic_rename
    ∷ before_metadata_update ∷ after_metadata_update ∷ before_obsolete_file_delete
    ∷ after_obsolete_file_delete ∷ before_wal_truncation ∷ after_wal_truncation
    ∷ after_compaction_output_creation ∷ []

unfoldable pub name : FaultPoint → Text
name before_wal_append = codes "before_wal_append"
name after_wal_append = codes "after_wal_append"
name after_wal_fsync = codes "after_wal_fsync"
name after_memtable_update = codes "after_memtable_update"
name before_sstable_creation = codes "before_sstable_creation"
name after_sstable_write = codes "after_sstable_write"
name before_atomic_rename = codes "before_atomic_rename"
name after_atomic_rename = codes "after_atomic_rename"
name before_metadata_update = codes "before_metadata_update"
name after_metadata_update = codes "after_metadata_update"
name before_obsolete_file_delete = codes "before_obsolete_file_delete"
name after_obsolete_file_delete = codes "after_obsolete_file_delete"
name before_wal_truncation = codes "before_wal_truncation"
name after_wal_truncation = codes "after_wal_truncation"
name after_compaction_output_creation = codes "after_compaction_output_creation"

unfoldable pub parse : Text → Option FaultPoint
unfolding name
parse text = find (λ point. text_eq (name point) text) all_points

-- The derived equality, by the place of a point in the declaration.
abbrev pub ordinal : FaultPoint → ℕ
ordinal before_wal_append = 0
ordinal after_wal_append = 1
ordinal after_wal_fsync = 2
ordinal after_memtable_update = 3
ordinal before_sstable_creation = 4
ordinal after_sstable_write = 5
ordinal before_atomic_rename = 6
ordinal after_atomic_rename = 7
ordinal before_metadata_update = 8
ordinal after_metadata_update = 9
ordinal before_obsolete_file_delete = 10
ordinal after_obsolete_file_delete = 11
ordinal before_wal_truncation = 12
ordinal after_wal_truncation = 13
ordinal after_compaction_output_creation = 14

abbrev pub same_point : FaultPoint → FaultPoint → Bool
same_point a b = ordinal a == ordinal b

pub data FaultMode : Type 0 where
  error abort_process : FaultMode

pub record Fault : Type 0 where
  pub point : FaultPoint
  pub at : ℕ
  pub mode : FaultMode

-- `Fault::new` and `Fault::abort`
unfoldable pub new : FaultPoint → ℕ → Fault
new point at = record { point = point; at = max at 1; mode = error }

unfoldable pub abort : FaultPoint → ℕ → Fault
abort point at = record { point = point; at = max at 1; mode = abort_process }

pub record FaultInjector : Type 0 where
  pub fault : Option Fault
  pub hits : ℕ

-- `FaultInjector::new`
unfoldable pub injector : Option Fault → FaultInjector
injector fault = record { fault = fault; hits = 0 }

-- The end of `hit`, where the fault fires.
unfoldable pub fire : FaultMode → FaultPoint → ℕ → Outcome (Unit {0})
fire abort_process point hits = aborted
fire error point hits = err (injected_fault (hit_at (name point) hits))

unfoldable pub hit_fault :
    Option Fault → FaultInjector → FaultPoint → Outcome (Unit {0}) × FaultInjector
hit_fault none inj point = (ok tt, inj)
hit_fault (some fault) inj point =
    if not (same_point fault.point point)
    then (ok tt, inj)
    else let hits = u64 (inj.hits + 1) in
      let inj' = record inj { hits = hits } in
      if ltb hits fault.at then (ok tt, inj') else (fire fault.mode point hits, inj')

unfoldable pub hit : FaultInjector → FaultPoint → Outcome (Unit {0}) × FaultInjector
unfolding hit_fault
hit inj point = hit_fault inj.fault inj point
