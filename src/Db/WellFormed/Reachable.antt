-- ===== src/Db/WellFormed/Reachable.antt =====
-- The states that an opened database passes through, and the invariant of all of them.
use pebble_db.Prelude.{ℕ, Text, Outcome, ok, err, panic, aborted, diverged, ◌≡◌}
use mathlib.Core.Path.{subst}
use pebble_db.Exec.Triple.{Leaves}
use pebble_db.Bloom.{Floats}
use pebble_db.Db.State.{Db, DbOptions, Files}
use pebble_db.Db.Open.{open_with_options}
use pebble_db.Db.Compact.{compact_full}
use pebble_db.Db.Write.{set, delete, flush, compact}
use pebble_db.Db.WellFormed.{IsWellFormed}
use pebble_db.Db.WellFormed.Open.{open_with_options-IsWellFormed}
use pebble_db.Db.WellFormed.Compact.{compact_full-Keeps}
use pebble_db.Db.WellFormed.Write.{flush-Keeps, set-Keeps, delete-Keeps, compact-Keeps}

-- A database is opened on some directory and then called, any number of times; a call that fails
-- leaves a state as well.
pub data Reachable (fl : Floats) : Db → Type 0 where
  opened :
      (options : DbOptions) (files : Files) (db : Db)
      → (open_with_options options files).0 ≡ ok db
      → Reachable fl db
  after_set :
      (rounds : ℕ) (key v : Text) (db : Db)
      → Reachable fl db
      → Reachable fl (set fl rounds key v db).1
  after_delete :
      (rounds : ℕ) (key : Text) (db : Db)
      → Reachable fl db
      → Reachable fl (delete fl rounds key db).1
  after_flush : (rounds : ℕ) (db : Db) → Reachable fl db → Reachable fl (flush fl rounds db).1
  after_compact : (rounds : ℕ) (db : Db) → Reachable fl db → Reachable fl (compact fl rounds db).1
  after_compact_full : (db : Db) → Reachable fl db → Reachable fl (compact_full fl db).1

Leaves-IsWellFormed :
    {A : Type 0} (o : Outcome A) (db : Db)
    → Leaves IsWellFormed (λ _. IsWellFormed) o db
    → IsWellFormed db
Leaves-IsWellFormed o db h =
    elim o as (λ o. Leaves IsWellFormed (λ _. IsWellFormed) o db → IsWellFormed db) [
      | ok a ↦ λ k. k
      | err e ↦ λ k. k
      | panic ↦ λ k. k
      | aborted ↦ λ k. k
      | diverged ↦ λ k. k
    ]
      h

-- In every state of an opened database, after calls that succeeded or failed at any point: the
-- memtable is in strict key order, there is a level 0, the number that the next table takes is a
-- u64, and every table of the levels has a number below it, as long as no addition to it has wrapped
-- around, and a u64 as its number after one has.
pub Reachable-IsWellFormed : (fl : Floats) (db : Db) → Reachable fl db → IsWellFormed db
Reachable-IsWellFormed fl _ (opened options files db e) =
    subst (λ o. Leaves (λ _. Unit) (λ d _. IsWellFormed d) o (open_with_options options files).1) e
      (open_with_options-IsWellFormed options files tt)
Reachable-IsWellFormed fl _ (after_set rounds key v db r) =
    Leaves-IsWellFormed _ _ (set-Keeps fl rounds key v db (Reachable-IsWellFormed fl db r))
Reachable-IsWellFormed fl _ (after_delete rounds key db r) =
    Leaves-IsWellFormed _ _ (delete-Keeps fl rounds key db (Reachable-IsWellFormed fl db r))
Reachable-IsWellFormed fl _ (after_flush rounds db r) =
    Leaves-IsWellFormed _ _ (flush-Keeps fl rounds db (Reachable-IsWellFormed fl db r))
Reachable-IsWellFormed fl _ (after_compact rounds db r) =
    Leaves-IsWellFormed _ _ (compact-Keeps fl rounds db (Reachable-IsWellFormed fl db r))
Reachable-IsWellFormed fl _ (after_compact_full db r) =
    Leaves-IsWellFormed _ _ (compact_full-Keeps fl db (Reachable-IsWellFormed fl db r))
