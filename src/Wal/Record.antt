-- ===== src/Wal/Record.antt =====
-- src/wal.rs: WalRecord, encode and decode.
pub mod RoundTrip
use pebble_db.Prelude.{ℕ, ◌+◌, List, [], ◌∷◌, ◌++◌, Text, Outcome, ok, err, ◌>>=◌, ◌>>◌, fail_if}
use pebble_db.Prelude.{u32, to_le, u32_at, slice, length, ltb, ◌==◌, if◌then◌else◌, not, from_utf8}
use pebble_db.Prelude.{Option, get_or, ok_or, some, none, PebbleError, wal_corruption}
use pebble_db.Prelude.{record_too_short, record_truncated, invalid_key, invalid_value}
use pebble_db.Prelude.{delete_with_value, unknown_operation}
use pebble_db.Wal.Crc.{crc32}

abbrev pub op_set : ℕ
op_set = 1

abbrev pub op_delete : ℕ
op_delete = 2

pub data WalRecord : Type 0 where
  set : Text → Text → WalRecord
  delete : Text → WalRecord

-- The bytes under the checksum.
unfoldable pub body : WalRecord → List ℕ
body (set key value) =
    let key_len = u32 (length key) in
    let value_len = u32 (length value) in
    let total_len = u32 (1 + 4 + 4 + key_len + value_len) in
    to_le 4 total_len ++ op_set ∷ (to_le 4 key_len ++ (to_le 4 value_len ++ (key ++ value)))
body (delete key) =
    let key_len = u32 (length key) in
    let total_len = u32 (1 + 4 + 4 + key_len) in
    to_le 4 total_len ++ op_delete ∷ (to_le 4 key_len ++ (to_le 4 0 ++ key))

unfoldable pub encode : WalRecord → List ℕ
encode r = let buf = body r in buf ++ to_le 4 (crc32 buf)

-- The `match op` at the end of `decode`.
decode_op : ℕ → List ℕ → ℕ → ℕ → Text → Outcome WalRecord
decode_op op data' key_len value_len key =
    if op == op_set
    then (do
      value ←
          ok_or (from_utf8 (slice data' (9 + key_len) (9 + key_len + value_len)))
            (wal_corruption invalid_value)
      ok (set key value))
    else if op == op_delete
    then (if not (value_len == 0) then err (wal_corruption delete_with_value) else ok (delete key))
    else err (wal_corruption (unknown_operation op))

unfoldable pub decode : List ℕ → Outcome WalRecord
unfolding decode_op
decode data' = do
  fail_if (ltb (length data') 9) (wal_corruption record_too_short)
  let op = get_or data' 0 0
  let key_len = u32_at data' 1
  let value_len = u32_at data' 5
  fail_if (ltb (length data') (9 + key_len + value_len)) (wal_corruption record_truncated)
  key ← ok_or (from_utf8 (slice data' 9 (9 + key_len))) (wal_corruption invalid_key)
  decode_op op data' key_len value_len key
