-- ===== src/Db/Log.antt =====
-- The log of the directory against the memtable: what `open` replays.
use pebble_db.Prelude.{
  ℕ, ◌<◌, List, [], ◌∷◌, ◌++◌, Option, none, some, ok, ◌≡◌, refl, sym, ◌∙◌, ap, arith,
}
use pebble_db.Prelude.{
  length, take, ltb, ltb-false, ltb-true, take_append, length-append, append-nil, if◌then◌else◌,
}
use pebble_db.Prelude.BTreeMap
use pebble_db.Prelude.BTreeMap.{BTreeMap}
use pebble_db.Prelude.BTreeMap.Laws.{get-insert}
use pebble_db.Wal.Record.{WalRecord, encode}
use pebble_db.Wal.Record.RoundTrip.{IsValid}
use pebble_db.Wal.Writer.{append_record, append_all}
use pebble_db.Wal.Reader.{WalRecovery, recover}
use pebble_db.Wal.Reader.Log.{AllValid, recover-append_all, recover-torn_tail}
use pebble_db.Iter.Memtable.{MemtableEntry}
use pebble_db.Db.Names.{wal_file}
use pebble_db.Db.State.{Files}
use pebble_db.Db.Files.{write_file, wal_bytes}
use pebble_db.Db.Open.{apply_record, replay, replay_log, replay_wal}

-- The log of the files holds whole records, whose replay is `m`.
pub record IsLogged (files : Files) (m : BTreeMap MemtableEntry) : Type 0 where
  pub records : List WalRecord
  pub are_valid : AllValid records
  pub holds : BTreeMap.get wal_file files ≡ some (append_all [] records)
  pub replays : replay records [] ≡ m

append_all-snoc :
    (file : List ℕ) (rs : List WalRecord) (r : WalRecord)
    → append_all file (rs ++ r ∷ []) ≡ append_record (append_all file rs) r
unfolding append_all
append_all-snoc file [] r = refl
append_all-snoc file (x ∷ rs) r = append_all-snoc (append_record file x) rs r

replay-snoc :
    (rs : List WalRecord) (r : WalRecord) (m : BTreeMap MemtableEntry)
    → replay (rs ++ r ∷ []) m ≡ apply_record (replay rs m) r
unfolding replay
replay-snoc [] r m = refl
replay-snoc (x ∷ rs) r m = replay-snoc rs r (apply_record m x)

AllValid-snoc :
    (rs : List WalRecord) (r : WalRecord) → AllValid rs → IsValid r → AllValid (rs ++ r ∷ [])
AllValid-snoc [] r a v = (v, tt)
AllValid-snoc (x ∷ rs) r a v = (a.0, AllValid-snoc rs r a.1 v)

abbrev or_empty : Option (List ℕ) → List ℕ
or_empty none = []
or_empty (some bytes) = bytes

-- Appending a valid record to the log applies it to what the log replays to.
pub append-IsLogged :
    (files : Files) (m : BTreeMap MemtableEntry) (r : WalRecord)
    → IsLogged files m
    → IsValid r
    → IsLogged (write_file wal_file (append_record (wal_bytes files) r) files) (apply_record m r)
unfolding write_file
append-IsLogged files m r l v =
    let bytes : wal_bytes files ≡ append_all [] l.records = ap (λ o. or_empty o) l.holds in
    record {
      records = l.records ++ r ∷ [];
      are_valid = AllValid-snoc l.records r l.are_valid v;
      holds =
          get-insert wal_file (append_record (wal_bytes files) r) files
          ∙ ap some (rw bytes (sym (append_all-snoc [] l.records r)));
      replays = replay-snoc l.records r [] ∙ ap (λ t. apply_record t r) l.replays;
    }

cut : ℕ → List ℕ → Files → Files
cut n bytes files = if ltb n (length bytes) then write_file wal_file (take n bytes) files else files

replay_found :
    (files : Files) (bytes : List ℕ) (found : WalRecovery)
    → BTreeMap.get wal_file files ≡ some bytes
    → recover bytes ≡ ok found
    → replay_wal files ≡ (ok (replay found.records []), cut found.valid_len bytes files)
unfolding replay_wal replay_log cut
replay_found files bytes found h e = ap (λ o. replay_log o files) h ∙ rw e refl

-- Replaying a log of valid records gives the map they replay to and leaves the files as they are.
pub replay_wal-IsLogged :
    (files : Files) (m : BTreeMap MemtableEntry)
    → IsLogged files m
    → replay_wal files ≡ (ok m, files)
unfolding cut
replay_wal-IsLogged files m l =
    let whole =
      ltb-false (length (append_all [] l.records)) (length (append_all [] l.records))
        (omega arith) in
    replay_found files _ _ l.holds (recover-append_all l.records l.are_valid)
    ∙ rw (whole, l.replays)

cut-torn :
    (files : Files) (whole torn : List ℕ)
    → BTreeMap.get wal_file files ≡ some (whole ++ torn)
    → BTreeMap.get wal_file (cut (length whole) (whole ++ torn) files) ≡ some whole
unfolding cut write_file
cut-torn files whole [] e =
    rw (append-nil whole, ltb-false (length whole) (length whole) (omega arith))
      (e ∙ ap some (append-nil whole))
cut-torn files whole (x ∷ xs) e =
    rw
      (
        ltb-true (length whole) (length (whole ++ x ∷ xs))
            (omega (arith, length-append whole (x ∷ xs))),
        take_append whole (x ∷ xs),
      )
      (get-insert wal_file whole files)

-- Where the log holds valid records and a proper prefix of one more valid record, `open` replays
-- the records before it, and the log file then holds the bytes of just these records, in order.
pub replay_wal-torn :
    (files : Files) (rs : List WalRecord) (r : WalRecord) (n : ℕ)
    → AllValid rs
    → IsValid r
    → n < length (encode r)
    → BTreeMap.get wal_file files ≡ some (append_all [] rs ++ take n (encode r))
    → ((replay_wal files).0 ≡ ok (replay rs []))
      × (BTreeMap.get wal_file (replay_wal files).1 ≡ some (append_all [] rs))
replay_wal-torn files rs r n a v short e =
    let runs = replay_found files _ _ e (recover-torn_tail rs r n a v short) in
    rw runs (refl, cut-torn files (append_all [] rs) (take n (encode r)) e)
