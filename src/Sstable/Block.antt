-- ===== src/Sstable/Block.antt =====
-- src/sstable.rs: the records of a block, decode_block, and the record bytes that the writer makes.
pub mod RoundTrip
use pebble_db.Prelude.{
  ℕ, zero, suc, ◌+◌, List, [], ◌∷◌, ◌++◌, Text, Outcome, ok, err, diverged, ◌>>=◌, ◌>>◌,
}
use pebble_db.Prelude.{
  u32, to_le, u32_at, slice, length, leb, ltb, ◌==◌, if◌then◌else◌, from_utf8, get_or,
}
use pebble_db.Prelude.{ok_or, fail_if, sstable_corruption, truncated_block_record, invalid_key}
use pebble_db.Prelude.{invalid_value, unknown_operation}

abbrev op_set : ℕ
op_set = 1

abbrev op_delete : ℕ
op_delete = 2

pub data SsTableEntry : Type 0 where
  value : Text → SsTableEntry
  tombstone : SsTableEntry

abbrev pub Entries : Type 0
Entries = List (Text × SsTableEntry)

abbrev pub op_of : SsTableEntry → ℕ
op_of (value v) = op_set
op_of tombstone = op_delete

abbrev pub value_bytes : SsTableEntry → Text
value_bytes (value v) = v
value_bytes tombstone = []

-- The bytes of one record, as the writer appends them.
unfoldable pub record_bytes : Text → SsTableEntry → List ℕ
record_bytes key entry =
    op_of entry
    ∷ (to_le 4 (u32 (length key))
        ++ (to_le 4 (u32 (length (value_bytes entry))) ++ (key ++ value_bytes entry)))

-- `match op`: the entry of a record whose value starts at `offset`.
unfoldable pub entry_of : ℕ → List ℕ → ℕ → ℕ → Outcome SsTableEntry
entry_of op data' offset value_len =
    if op == op_set
    then (do
      v ←
          ok_or (from_utf8 (slice data' offset (offset + value_len)))
            (sstable_corruption invalid_value)
      ok (value v))
    else if op == op_delete
    then ok tombstone
    else err (sstable_corruption (unknown_operation op))

-- One record at `offset`: its key, its entry, and where the next one starts.
unfoldable pub decode_record : List ℕ → ℕ → Outcome (Text × SsTableEntry × ℕ)
decode_record data' offset = do
  let key_len = u32_at data' (offset + 1)
  let value_len = u32_at data' (offset + 5)
  fail_if (ltb (length data') (offset + 9 + key_len + value_len))
      (sstable_corruption truncated_block_record)
  key ←
      ok_or (from_utf8 (slice data' (offset + 9) (offset + 9 + key_len)))
        (sstable_corruption invalid_key)
  entry ← entry_of (get_or data' offset 0) data' (offset + 9 + key_len) value_len
  ok (key, entry, offset + 9 + key_len + value_len)

-- The loop of `decode_block`, one unit of fuel for each round.
unfoldable pub decode_loop : ℕ → List ℕ → ℕ → Entries → Outcome Entries
decode_loop zero data' offset records = diverged
decode_loop (suc fuel) data' offset records =
    let next =
      λ (r : Text × SsTableEntry × ℕ). decode_loop fuel data' r.2 (records ++ (r.0, r.1) ∷ []) in
    let more = decode_record data' offset >>= next in
    if leb (offset + 9) (length data') then more else ok records

-- A record has 9 bytes at least.
unfoldable pub decode_block : List ℕ → Outcome Entries
decode_block data' = decode_loop (suc (length data')) data' 0 []
