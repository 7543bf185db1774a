-- ===== src/Wal/Examples.antt =====
-- Logs on which the theorems about the reader and the writer of src/wal.rs are tried.
use pebble_db.Prelude.{ℕ, ◌<◌, ◌≤◌, List, [], ◌∷◌, ◌++◌, codes, ok, err, wal_incomplete}
use pebble_db.Prelude.{diverged, true, ◌≡◌, ◌≢◌, refl, arith, take, length, is_utf8, to_le}
use pebble_db.Wal.Record.{WalRecord, set, delete, body, encode, decode}
use pebble_db.Wal.Record.RoundTrip.{payload, IsValid, decode-payload}
use pebble_db.Wal.Writer.{append_all}
use pebble_db.Wal.Reader.{read_records, recover, read_all}
use pebble_db.Wal.Reader.Log.{
  AllValid, recover-append_all, recover-torn_tail, read_all-append_all, read_all-torn_tail,
}
use pebble_db.Wal.Reader.Truncation.{recover-truncated}
use pebble_db.Wal.Reader.Termination.{read_records-ne-diverged}

abbrev set_key : WalRecord
set_key = set (codes "key") (codes "value")

abbrev written : List WalRecord
written = set_key ∷ delete (codes "key") ∷ []

set_key-IsValid : IsValid set_key
unfolding is_utf8
set_key-IsValid = (refl, refl, omega arith)

written-AllValid : AllValid written
unfolding is_utf8
written-AllValid = (set_key-IsValid, ((refl, omega arith), tt))

abbrev torn : List ℕ
torn = append_all [] written ++ take 7 (encode set_key)

torn-short : 7 < length (encode set_key)
unfolding encode body to_le
torn-short = omega arith

decode-payload_example : decode (payload set_key) ≡ ok set_key
decode-payload_example = decode-payload set_key set_key-IsValid

recover-append_all_example :
    recover (append_all [] written)
    ≡ ok (record { records = written; valid_len = length (append_all [] written) })
recover-append_all_example = recover-append_all written written-AllValid

recover-torn_tail_example :
    recover torn ≡ ok (record { records = written; valid_len = length (append_all [] written) })
recover-torn_tail_example =
    recover-torn_tail written set_key 7 written-AllValid set_key-IsValid torn-short

read_all-append_all_example : read_all (append_all [] written) ≡ ok written
read_all-append_all_example = read_all-append_all written written-AllValid

read_all-torn_tail_example : read_all torn ≡ err wal_incomplete
read_all-torn_tail_example =
    read_all-torn_tail written set_key 7 written-AllValid set_key-IsValid (omega arith) torn-short

recover-truncated_example :
    (length (append_all [] written) ≤ length torn)
    × (recover (take (length (append_all [] written)) torn)
        ≡ ok (record { records = written; valid_len = length (append_all [] written) }))
recover-truncated_example =
    recover-truncated torn
      (record { records = written; valid_len = length (append_all [] written) })
      recover-torn_tail_example

read_records-ne-diverged_example : read_records torn true ≢ diverged
read_records-ne-diverged_example = read_records-ne-diverged torn true
