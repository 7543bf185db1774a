-- ===== src/Sstable/Block/RoundTrip.antt =====
-- The bytes of a block decode to the entries they were written for.
use pebble_db.Prelude.{
  ℕ, zero, suc, ◌+◌, ◌<◌, ◌≤◌, ◌^◌, List, [], ◌∷◌, ◌++◌, Text, ok, true, ◌≡◌, refl, ◌∙◌, ap, arith,
}
use pebble_db.Prelude.{
  u32, to_le, length, is_utf8, from_utf8, length-append, length-to_le, u32_at_lem, drop_u32,
  drop_next, slice_at,
}
use pebble_db.Prelude.{append_assoc, append-nil, drop, get_or, leb-true}
use pebble_db.Sstable.Block.{
  SsTableEntry, value, tombstone, Entries, op_of, value_bytes, record_bytes, entry_of,
  decode_record, decode_loop, decode_block,
}

-- A key and a value that are Rust strings with lengths of 32 bits.
abbrev pub IsValid : Text → SsTableEntry → Type 0
IsValid key entry =
    (is_utf8 key ≡ true)
    × (is_utf8 (value_bytes entry) ≡ true)
    × (length key < 2 ^ 32)
    × (length (value_bytes entry) < 2 ^ 32)

abbrev pub AllValid : Entries → Type 0
AllValid [] = Unit
AllValid (e ∷ es) = IsValid e.0 e.1 × AllValid es

abbrev pub block_bytes : Entries → List ℕ
block_bytes [] = []
block_bytes (e ∷ es) = record_bytes e.0 e.1 ++ block_bytes es

pub length-record_bytes :
    (key : Text) (entry : SsTableEntry)
    → length (record_bytes key entry) ≡ 9 + length key + length (value_bytes entry)
unfolding record_bytes
length-record_bytes key entry = omega (
  arith,
  length-append (to_le 4 (u32 (length key)))
      (to_le 4 (u32 (length (value_bytes entry))) ++ (key ++ value_bytes entry)),
  length-append (to_le 4 (u32 (length (value_bytes entry)))) (key ++ value_bytes entry),
  length-append key (value_bytes entry),
  length-to_le 4 (u32 (length key)),
  length-to_le 4 (u32 (length (value_bytes entry))),
)

get_or-drop : (xs ys : List ℕ) (i x : ℕ) → drop i xs ≡ x ∷ ys → get_or xs i 0 ≡ x
get_or-drop [] ys zero x h = cc
get_or-drop [] ys (suc i) x h = cc
get_or-drop (y ∷ xs) ys zero x h = ground arith
get_or-drop (y ∷ xs) ys (suc i) x h = get_or-drop xs ys i x h

entry_of-at :
    (data' : List ℕ) (offset : ℕ) (entry : SsTableEntry) (rest : List ℕ)
    → is_utf8 (value_bytes entry) ≡ true
    → drop offset data' ≡ value_bytes entry ++ rest
    → entry_of (op_of entry) data' offset (length (value_bytes entry)) ≡ ok entry
unfolding entry_of from_utf8
entry_of-at data' offset (value v) rest h at =
    rw (slice_at data' offset (offset + length v) v rest at refl, h) refl
entry_of-at data' offset tombstone rest h at = refl

module _ (data' : List ℕ) (offset : ℕ) (key : Text) (entry : SsTableEntry) (rest : List ℕ)
    (valid : IsValid key entry) (at : drop offset data' ≡ record_bytes key entry ++ rest)
    (room : offset + 9 + length key + length (value_bytes entry) ≤ length data') where
  abbrev v : Text
  v = value_bytes entry

  at_key_len :
      drop (offset + 1) data' ≡ to_le 4 (length key) ++ (to_le 4 (length v) ++ (key ++ (v ++ rest)))
  unfolding record_bytes
  at_key_len =
      let kl : u32 (length key) ≡ length key = omega (arith, valid) in
      let vl : u32 (length v) ≡ length v = omega (arith, valid) in
      let split : (to_le 4 (length key) ++ (to_le 4 (length v) ++ (key ++ v))) ++ rest
          ≡ to_le 4 (length key) ++ (to_le 4 (length v) ++ (key ++ (v ++ rest))) =
        rw
          (
            append_assoc (to_le 4 (length key)) (to_le 4 (length v) ++ (key ++ v)) rest,
            append_assoc (to_le 4 (length v)) (key ++ v) rest,
            append_assoc key v rest,
          )
          refl in
      drop_next data' offset (offset + 1) (op_of entry ∷ []) _ at refl ∙ rw (kl, vl) split

  at_value_len : drop (offset + 5) data' ≡ to_le 4 (length v) ++ (key ++ (v ++ rest))
  at_value_len = drop_u32 data' (offset + 1) (offset + 5) (length key) _ at_key_len (omega arith)

  at_key : drop (offset + 9) data' ≡ key ++ (v ++ rest)
  at_key = drop_u32 data' (offset + 5) (offset + 9) (length v) _ at_value_len (omega arith)

  at_value : drop (offset + 9 + length key) data' ≡ v ++ rest
  at_value = drop_next data' (offset + 9) (offset + 9 + length key) key _ at_key refl

  is_op : get_or data' offset 0 ≡ op_of entry
  unfolding record_bytes
  is_op = get_or-drop data' _ offset (op_of entry) at

  is_entry : entry_of (op_of entry) data' (offset + 9 + length key) (length v) ≡ ok entry
  is_entry = entry_of-at data' (offset + 9 + length key) entry rest valid.1 at_value

  decode_record-at :
      decode_record data' offset ≡ ok (key, entry, offset + 9 + length key + length v)
  unfolding decode_record from_utf8
  decode_record-at = ground (
    arith,
    u32_at_lem data' (offset + 1) (length key) _ at_key_len,
    u32_at_lem data' (offset + 5) (length v) _ at_value_len,
    slice_at data' (offset + 9) (offset + 9 + length key) key _ at_key refl,
    is_op,
    is_entry,
  )

decode_loop-block_bytes :
    (fuel : ℕ) (es : Entries) (data' : List ℕ) (offset : ℕ) (records : Entries)
    → AllValid es
    → drop offset data' ≡ block_bytes es
    → offset + length (block_bytes es) ≡ length data'
    → length (block_bytes es) < fuel
    → decode_loop fuel data' offset records ≡ ok (records ++ es)
unfolding decode_loop
decode_loop-block_bytes zero es data' offset records a at size h = absurd (omega arith)
decode_loop-block_bytes (suc fuel) [] data' offset records a at size h =
    rw (append-nil records) (ground arith)
decode_loop-block_bytes (suc fuel) (e ∷ es) data' offset records a at size h =
    let key = e.0 in
    let v = value_bytes e.1 in
    let total : length (block_bytes (e ∷ es))
        ≡ 9 + length key + length v + length (block_bytes es) =
      omega (
        arith,
        length-append (record_bytes e.0 e.1) (block_bytes es),
        length-record_bytes e.0 e.1,
      ) in
    let here = decode_record-at data' offset e.0 e.1 (block_bytes es) a.0 at (omega arith) in
    let next : drop (offset + 9 + length key + length v) data' ≡ block_bytes es =
      drop_next data' offset (offset + 9 + length key + length v) (record_bytes e.0 e.1)
        (block_bytes es) at (omega (arith, length-record_bytes e.0 e.1)) in
    rw (leb-true (offset + 9) (length data') (omega arith), here)
      (decode_loop-block_bytes fuel es data' (offset + 9 + length key + length v)
          (records ++ e ∷ []) a.1 next (omega arith) (omega arith)
        ∙ ap ok (append_assoc records (e ∷ []) es))

-- A block of valid records, the bytes of one after the other, decodes to their entries in order.
pub decode_block-block_bytes : (es : Entries) → AllValid es → decode_block (block_bytes es) ≡ ok es
unfolding decode_block
decode_block-block_bytes es a =
    decode_loop-block_bytes (suc (length (block_bytes es))) es (block_bytes es) 0 [] a refl
      (omega arith) (omega arith)
