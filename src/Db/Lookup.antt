-- ===== src/Db/Lookup.antt =====
-- What `get` finds after a write that leaves the memtable below its threshold.
use pebble_db.Prelude.{
  ℕ, ◌<◌, List, [], ◌∷◌, Text, Outcome, ok, err, panic, aborted, diverged, Option, none, some, Bool,
  true, false,
}
use pebble_db.Prelude.{◌≡◌, refl, ◌∙◌, ap, arith, length, leb, if◌then◌else◌, text_eq}
use pebble_db.Prelude.BTreeMap
use pebble_db.Prelude.BTreeMap.{BTreeMap}
use pebble_db.Prelude.BTreeMap.Laws.{get-insert, get-insert_ne}
use pebble_db.Exec.{Exec, follow, pure, modify, ◌>>◌}
use pebble_db.Fault.{FaultPoint}
use pebble_db.Fault
use pebble_db.Fault.Firing.{hit-none}
use pebble_db.Bloom.{Floats}
use pebble_db.Bloom
use pebble_db.Wal.Record.{WalRecord}
use pebble_db.Wal.Record
use pebble_db.Wal.Writer.{append_record}
use pebble_db.Sstable.Block.{SsTableEntry}
use pebble_db.Sstable.Block
use pebble_db.Sstable.Table.{SsTable}
use pebble_db.Sstable.Table
use pebble_db.Iter.Memtable.{MemtableEntry}
use pebble_db.Iter.Memtable
use pebble_db.Db.Names.{wal_file}
use pebble_db.Db.State.{Db}
use pebble_db.Db.Files.{write_file, wal_bytes, wal_append, wal_sync, hit}
use pebble_db.Db.Read.{
  settle, count_reject, count_read, read_table, probe, search_tables, read_order, get_from, get,
  get_inner, has_value,
}
use pebble_db.Db.Write.{log_and_apply, set, delete}

-- The answer does not depend on the state.
abbrev Agrees : Exec Db (Option Text) → Type 0
Agrees m = (d e : Db) → (m d).0 ≡ (m e).0

settle-Agrees :
    (o : Outcome (Option SsTableEntry)) (rest : Exec Db (Option Text))
    → Agrees rest
    → Agrees (follow (λ found. settle found rest) o)
settle-Agrees (ok none) rest h d e = h d e
settle-Agrees (ok (some (Block.value v))) rest h d e = refl
settle-Agrees (ok (some Block.tombstone)) rest h d e = refl
settle-Agrees (err x) rest h d e = refl
settle-Agrees panic rest h d e = refl
settle-Agrees aborted rest h d e = refl
settle-Agrees diverged rest h d e = refl

probe-Agrees :
    (sst : SsTable) (key : Text) (rest : Exec Db (Option Text))
    → Agrees rest
    → Agrees (probe sst key rest)
unfolding probe read_table
probe-Agrees sst key rest h = asked (Bloom.might_contain sst.bloom key)
  where
    asked :
        (o : Outcome Bool)
        → Agrees (
            follow
              (λ maybe. if maybe then read_table sst key rest else (modify count_reject >> rest))
              o)
    asked (ok true) d e = settle-Agrees (Table.get sst key) rest h (count_read d) (count_read e)
    asked (ok false) d e = h (count_reject d) (count_reject e)
    asked (err x) d e = refl
    asked panic d e = refl
    asked aborted d e = refl
    asked diverged d e = refl

search_tables-Agrees : (tables : List SsTable) (key : Text) → Agrees (search_tables tables key)
unfolding search_tables
search_tables-Agrees [] key d e = refl
search_tables-Agrees (sst ∷ rest) key d e =
    probe-Agrees sst key (search_tables rest key) (search_tables-Agrees rest key) d e

get_from-same :
    (o : Option MemtableEntry) (key : Text) (d e : Db)
    → d.levels ≡ e.levels
    → (get_from o key d).0 ≡ (get_from o key e).0
unfolding get_from
get_from-same (some (Memtable.value v)) key d e h = refl
get_from-same (some Memtable.tombstone) key d e h = refl
get_from-same none key d e h =
    ap (λ l. (search_tables (read_order l) key d).0) h
    ∙ search_tables-Agrees (read_order e.levels) key d e

-- Databases that have the same levels and the same entry for a key answer the same.
get-same :
    (key : Text) (d e : Db)
    → BTreeMap.get key d.memtable ≡ BTreeMap.get key e.memtable
    → d.levels ≡ e.levels
    → (get key d).0 ≡ (get key e).0
unfolding get
get-same key d e m h =
    ap (λ o. (get_from o key d).0) m ∙ get_from-same (BTreeMap.get key e.memtable) key d e h

hit_passes :
    {A : Type 0} (p : FaultPoint) (k : Exec Db A) (db : Db)
    → db.fault.fault ≡ none
    → (hit p >> k) db ≡ k db
unfolding hit
hit_passes p k db h =
    ap (λ r. follow (λ _. k) r.0 (record db { fault = r.1 })) (hit-none p db.fault h)

module _ (fl : Floats) (rounds : ℕ) where
  -- What a write leaves that meets no fault and does not fill the memtable.
  abbrev written : WalRecord → Text → MemtableEntry → Db → Db
  written r key entry db = record db {
    files = write_file wal_file (append_record (wal_bytes db.files) r) db.files;
    memtable = BTreeMap.insert key entry db.memtable;
  }

  log_and_apply-ok :
      (r : WalRecord) (key : Text) (entry : MemtableEntry) (db : Db)
      → db.fault.fault ≡ none
      → length (BTreeMap.insert key entry db.memtable) < db.options.flush_threshold
      → log_and_apply fl rounds r key entry db ≡ (ok tt, written r key entry db)
  unfolding log_and_apply wal_append wal_sync
  log_and_apply-ok r key entry db h few =
      let below : leb db.options.flush_threshold (length (BTreeMap.insert key entry db.memtable))
          ≡ false =
        ground arith in
      let logged = write_file wal_file (append_record (wal_bytes db.files) r) db.files in
      hit_passes Fault.before_wal_append _ db h
      ∙ hit_passes Fault.after_wal_append _ (record db { files = logged }) h
      ∙ hit_passes Fault.after_wal_fsync _ (record db { files = logged }) h
      ∙ hit_passes Fault.after_memtable_update _ (written r key entry db) h
      ∙ rw below refl

  -- Without a fault, a `set` that does not fill the memtable succeeds, and `get` then finds the value.
  pub get-set :
      (key v : Text) (db : Db)
      → db.fault.fault ≡ none
      → length (BTreeMap.insert key (Memtable.value v) db.memtable) < db.options.flush_threshold
      → ((set fl rounds key v db).0 ≡ ok tt)
        × ((get key (set fl rounds key v db).1).0 ≡ ok (some v))
  unfolding set get get_from
  get-set key v db h few =
      let done = log_and_apply-ok (Record.set key v) key (Memtable.value v) db h few in
      let after = written (Record.set key v) key (Memtable.value v) db in
      (
        ap (λ r. r.0) done,
        ap (λ r. (get key r.1).0) done
            ∙ ap (λ o. (get_from o key after).0) (get-insert key (Memtable.value v) db.memtable),
      )

  -- Such a `set` leaves what `get` answers for any other key, errors included.
  pub get-set_ne :
      (key v j : Text) (db : Db)
      → db.fault.fault ≡ none
      → length (BTreeMap.insert key (Memtable.value v) db.memtable) < db.options.flush_threshold
      → text_eq key j ≡ false
      → (get j (set fl rounds key v db).1).0 ≡ (get j db).0
  unfolding set
  get-set_ne key v j db h few ne =
      ap (λ r. (get j r.1).0) (log_and_apply-ok (Record.set key v) key (Memtable.value v) db h few)
      ∙ get-same j (written (Record.set key v) key (Memtable.value v) db) db
          (get-insert_ne key j (Memtable.value v) db.memtable ne) refl

  delete-ok :
      (key : Text) (before : Option Text) (db : Db)
      → db.fault.fault ≡ none
      → length (BTreeMap.insert key Memtable.tombstone db.memtable) < db.options.flush_threshold
      → get_inner db key ≡ ok before
      → delete fl rounds key db
        ≡ (ok (has_value before), written (Record.delete key) key Memtable.tombstone db)
  unfolding delete
  delete-ok key before db h few found = rw found (
      ap (λ r. follow (λ _. pure (has_value before)) r.0 r.1)
        (log_and_apply-ok (Record.delete key) key Memtable.tombstone db h few))

  -- Without a fault, a `delete` that does not fill the memtable and whose lookup succeeds answers
  -- whether the key had a value, and `get` then finds none.
  pub get-delete :
      (key : Text) (before : Option Text) (db : Db)
      → db.fault.fault ≡ none
      → length (BTreeMap.insert key Memtable.tombstone db.memtable) < db.options.flush_threshold
      → get_inner db key ≡ ok before
      → ((delete fl rounds key db).0 ≡ ok (has_value before))
        × ((get key (delete fl rounds key db).1).0 ≡ ok none)
  unfolding get get_from
  get-delete key before db h few found =
      let done = delete-ok key before db h few found in
      let after = written (Record.delete key) key Memtable.tombstone db in
      (
        ap (λ r. r.0) done,
        ap (λ r. (get key r.1).0) done
            ∙ ap (λ o. (get_from o key after).0) (get-insert key Memtable.tombstone db.memtable),
      )
