-- ===== src/Db/Durable.antt =====
-- Writes that leave the memtable below its threshold: what they leave in the log, however they end.
use pebble_db.Prelude.{
  ℕ, ◌<◌, Text, Outcome, ok, err, panic, diverged, aborted, Bool, Option, none, some, ◌≡◌, ◌⊎◌, inl,
  inr, refl, sym, arith,
}
use pebble_db.Prelude.{length, leb, true, false, if◌then◌else◌, PebbleError}
use pebble_db.Prelude.BTreeMap
use pebble_db.Prelude.BTreeMap.{BTreeMap}
use pebble_db.Exec.{Exec, pure, reads, modify, follow, ◌>>=◌, ◌>>◌}
use mathlib.Core.Path.{subst}
use pebble_db.Fault
use pebble_db.Fault.{FaultPoint, FaultInjector}
use pebble_db.Fault.Firing.{hit-cases}
use pebble_db.Bloom.{Floats}
use pebble_db.Wal.Record.{WalRecord}
use pebble_db.Wal.Record
use pebble_db.Wal.Record.RoundTrip.{IsValid}
use pebble_db.Wal.Writer.{append_record}
use pebble_db.Iter.Memtable.{MemtableEntry}
use pebble_db.Iter.Memtable
use pebble_db.Db.Names.{wal_file}
use pebble_db.Db.State.{Db, Files}
use pebble_db.Db.Files.{write_file, wal_bytes, wal_append, wal_sync, hit}
use pebble_db.Db.Open.{apply_record}
use pebble_db.Db.Read.{get_inner}
use pebble_db.Db.Write.{flush, log_and_apply, set, delete}
use pebble_db.Db.Log.{IsLogged, append-IsLogged}

abbrev with_fault : Db → FaultInjector → Db
with_fault db inj = record db { fault = inj }

hit_then :
    {A : Type 0} (P : Outcome A × Db → Type 0) (p : FaultPoint) (k : Exec Db A) (db : Db)
    → ((inj : FaultInjector) → P (k (with_fault db inj)))
    → ((inj : FaultInjector) (e : PebbleError) → P (err e, with_fault db inj))
    → ((inj : FaultInjector) → P (aborted, with_fault db inj))
    → P ((hit p >> k) db)
unfolding hit
hit_then P p k db goes fails aborts =
    let inj = (Fault.hit db.fault p).1 in
    let Rest : Outcome (Unit {0}) → Type 0 = λ o. P (follow (λ _. k) o (with_fault db inj)) in
    elim (hit-cases p db.fault) [
      | inl e ↦ subst Rest (sym e) (goes inj)
      | inr (inl (x, e)) ↦ subst Rest (sym e) (fails inj x)
      | inr (inr e) ↦ subst Rest (sym e) (aborts inj)
    ]

abbrev pub IsOk : {A : Type 0} → Outcome A → Type 0
IsOk (ok a) = Unit
IsOk _ = ⊥

-- How a write ends that takes the memtable of `db` to `new`. The levels stay; the write succeeds
-- and log and memtable hold `new`, or it does not, and the log holds the memtable of `db` or `new`.
abbrev pub Ends : {A : Type 0} → Db → BTreeMap MemtableEntry → Outcome A × Db → Type 0
Ends db new r =
    (r.1.levels ≡ db.levels)
    × ((IsOk r.0 × IsLogged r.1.files new × (r.1.memtable ≡ new))
        ⊎ ((IsOk r.0 → ⊥) × (IsLogged r.1.files db.memtable ⊎ IsLogged r.1.files new)))

module _ (fl : Floats) (rounds : ℕ) (r : WalRecord) (key : Text) (entry : MemtableEntry) where
  -- What is left of `log_and_apply` after each boundary.
  abbrev flushed : Exec Db (Unit {0})
  flushed = do
    db ← reads (λ d. d)
    if leb db.options.flush_threshold (length db.memtable) then flush fl rounds else pure tt

  abbrev applied : Exec Db (Unit {0})
  applied = do
    modify (λ db. record db { memtable = BTreeMap.insert key entry db.memtable })
    hit Fault.after_memtable_update
    flushed

  abbrev synced : Exec Db (Unit {0})
  synced = do wal_sync; hit Fault.after_wal_fsync; applied

  abbrev appended : Exec Db (Unit {0})
  appended = do wal_append r; hit Fault.after_wal_append; synced

  log_and_apply-Ends :
      (db : Db)
      → IsLogged db.files db.memtable
      → IsValid r
      → apply_record db.memtable r ≡ BTreeMap.insert key entry db.memtable
      → length (BTreeMap.insert key entry db.memtable) < db.options.flush_threshold
      → Ends db (BTreeMap.insert key entry db.memtable) (log_and_apply fl rounds r key entry db)
  unfolding log_and_apply wal_append wal_sync
  log_and_apply-Ends db l v same few =
      let new = BTreeMap.insert key entry db.memtable in
      let below : leb db.options.flush_threshold (length new) ≡ false = ground arith in
      let P = Ends db new in
      let logged : Files = write_file wal_file (append_record (wal_bytes db.files) r) db.files in
      let after_append : FaultInjector → Db = λ i. record db { files = logged; fault = i } in
      let after_apply : FaultInjector → FaultInjector → Db =
        λ i k. record db { files = logged; memtable = new; fault = k } in
      let grown : IsLogged logged new =
        subst (IsLogged logged) same (append-IsLogged db.files db.memtable r l v) in
      hit_then P Fault.before_wal_append appended db
        (λ i.
          hit_then P Fault.after_wal_append synced (after_append i)
            (λ j.
              hit_then P Fault.after_wal_fsync applied (with_fault (after_append i) j)
                (λ k.
                  hit_then P Fault.after_memtable_update flushed (after_apply i k)
                    (λ n. rw below (refl, inl (tt, grown, refl)))
                    (λ n e. (refl, inr (λ h. h, inr grown))) (λ n. (refl, inr (λ h. h, inr grown))))
                (λ k e. (refl, inr (λ h. h, inr grown))) (λ k. (refl, inr (λ h. h, inr grown))))
            (λ j e. (refl, inr (λ h. h, inr grown))) (λ j. (refl, inr (λ h. h, inr grown))))
        (λ i e. (refl, inr (λ h. h, inl l))) (λ i. (refl, inr (λ h. h, inl l)))

-- `set`, with a valid record, on a database whose log replays to its memtable, where the key does
-- not fill the memtable: the levels stay, and either it succeeds and log and memtable hold the new
-- value, or it does not, and the log replays to the memtable before or to the one with the value.
pub set-Ends :
    (fl : Floats) (rounds : ℕ) (key v : Text) (db : Db)
    → IsLogged db.files db.memtable
    → IsValid (Record.set key v)
    → length (BTreeMap.insert key (Memtable.value v) db.memtable) < db.options.flush_threshold
    → Ends db (BTreeMap.insert key (Memtable.value v) db.memtable) (set fl rounds key v db)
unfolding set apply_record
set-Ends fl rounds key v db l valid few =
    log_and_apply-Ends fl rounds (Record.set key v) key (Memtable.value v) db l valid refl few

Ends-answer :
    (db : Db) (new : BTreeMap MemtableEntry) (b : Bool) (o : Outcome (Unit {0})) (after : Db)
    → Ends db new (o, after)
    → Ends db new (follow (λ _. pure b) o after)
Ends-answer db new b (ok _) after e = e
Ends-answer db new b (err _) after e = e
Ends-answer db new b panic after e = e
Ends-answer db new b aborted after e = e
Ends-answer db new b diverged after e = e

-- `delete`, with a valid record, on such a database where the tombstone does not fill the memtable:
-- the levels stay, and either it succeeds and log and memtable hold the tombstone, or it does not,
-- and the log replays to the memtable before or to the one with the tombstone.
pub delete-Ends :
    (fl : Floats) (rounds : ℕ) (key : Text) (db : Db)
    → IsLogged db.files db.memtable
    → IsValid (Record.delete key)
    → length (BTreeMap.insert key Memtable.tombstone db.memtable) < db.options.flush_threshold
    → Ends db (BTreeMap.insert key Memtable.tombstone db.memtable) (delete fl rounds key db)
unfolding delete apply_record
delete-Ends fl rounds key db l valid few = go (get_inner db key)
  where
    go :
        (o : Outcome (Option Text))
        → Ends db (BTreeMap.insert key Memtable.tombstone db.memtable) (
            follow
              (λ before.
                (log_and_apply fl rounds (Record.delete key) key Memtable.tombstone
                  >> pure (elim before [ none ↦ false | some v ↦ true ])))
              o
              db)
    go (ok before) = Ends-answer db _ _ _ _ (
        log_and_apply-Ends fl rounds (Record.delete key) key Memtable.tombstone db l valid refl few)
    go (err e) = (refl, inr (λ h. h, inl l))
    go panic = (refl, inr (λ h. h, inl l))
    go aborted = (refl, inr (λ h. h, inl l))
    go diverged = (refl, inr (λ h. h, inl l))
