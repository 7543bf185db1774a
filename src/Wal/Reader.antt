-- ===== src/Wal/Reader.antt =====
-- src/wal.rs: WalReader over the bytes of a log file.
pub mod Step
pub mod Log
pub mod Truncation
pub mod Termination
use pebble_db.Prelude.{ℕ, zero, suc, ◌+◌, List, [], ◌∷◌, ◌++◌, Outcome, ok, err, diverged, ◌>>=◌}
use pebble_db.Prelude.{
  length, take, drop, ltb, ◌==◌, if◌then◌else◌, Bool, true, false, not, from_le,
}
use pebble_db.Prelude.{wal_corruption, wal_incomplete, checksum_mismatch}
use pebble_db.Wal.Crc.{crc32}
use pebble_db.Wal.Record.{WalRecord, decode}

pub record WalRecovery : Type 0 where
  pub records : List WalRecord
  pub valid_len : ℕ

unfoldable pub stop_at_tail : WalRecovery → Bool → Outcome WalRecovery
stop_at_tail found true = ok found
stop_at_tail found false = err wal_incomplete

-- The record whose bytes `payload` were read in full, its length and its checksum included.
unfoldable pub read_payload : List ℕ → ℕ → Outcome WalRecord
read_payload payload total_len =
    let stored = from_le (take 4 (drop (4 + total_len) payload)) in
    if not (crc32 (take (4 + total_len) payload) == stored)
    then err (wal_corruption checksum_mismatch)
    else decode (take total_len (drop 4 payload))

-- The loop of `read_records`: `rest` is what the reader has not consumed, and one unit of fuel is
-- one round. A length prefix below 9 ends both modes without an error.
unfoldable pub read_loop : ℕ → List ℕ → ℕ → WalRecovery → Bool → Outcome WalRecovery
unfolding stop_at_tail
read_loop zero rest file_len found tolerate = diverged
read_loop (suc fuel) rest file_len found tolerate =
    let len_buf = take 4 rest in
    let total_len = from_le len_buf in
    let next = λ (r : WalRecord).
      read_loop fuel (drop (4 + total_len + 4) rest) file_len
        (record { records = found.records ++ r ∷ []; valid_len = found.valid_len + 8 + total_len })
        tolerate in
    let more = read_payload (take (4 + total_len + 4) rest) total_len >>= next in
    if length len_buf == 0
    then ok found
    else if ltb (length len_buf) 4
    then stop_at_tail found tolerate
    else if ltb total_len 9
    then ok found
    else if ltb file_len (found.valid_len + 8 + total_len)
    then stop_at_tail found tolerate
    else if ltb (length rest) (4 + total_len + 4)
    then stop_at_tail found tolerate
    else more

abbrev pub nothing : WalRecovery
nothing = record { records = []; valid_len = 0 }

-- Every round but the last consumes at least 17 bytes.
unfoldable pub read_records : List ℕ → Bool → Outcome WalRecovery
read_records file tolerate = read_loop (suc (length file)) file (length file) nothing tolerate

unfoldable pub recover : List ℕ → Outcome WalRecovery
recover file = read_records file true

unfoldable pub read_all : List ℕ → Outcome (List WalRecord)
read_all file = do found ← read_records file false; ok found.records
