-- ===== src/Wal/Record/RoundTrip.antt =====
-- The bytes of a record decode to it again.
use pebble_db.Prelude.{
  ℕ, ◌+◌, ◌<◌, ◌^◌, List, [], ◌∷◌, ◌++◌, Text, ok, true, ◌≡◌, refl, sym, ◌∙◌, arith,
}
use pebble_db.Prelude.{u32, to_le, length, is_utf8, from_utf8, length-append}
use pebble_db.Prelude.{length-to_le, u32_at_lem, drop_u32, drop_next, slice_at, append-nil, drop}
use pebble_db.Wal.Record.{WalRecord, set, delete, body, decode, op_set, op_delete}

-- What is between the length prefix and the checksum.
abbrev pub payload : WalRecord → List ℕ
payload (set key value) =
    op_set ∷ (to_le 4 (length key) ++ (to_le 4 (length value) ++ (key ++ value)))
payload (delete key) = op_delete ∷ (to_le 4 (length key) ++ (to_le 4 0 ++ key))

-- Rust strings whose record has a length that fits the prefix.
abbrev pub IsValid : WalRecord → Type 0
IsValid (set key value) =
    (is_utf8 key ≡ true) × (is_utf8 value ≡ true) × (9 + length key + length value < 2 ^ 32)
IsValid (delete key) = (is_utf8 key ≡ true) × (9 + length key < 2 ^ 32)

pub length-payload-set :
    (key value : Text) → length (payload (set key value)) ≡ 9 + length key + length value
length-payload-set key value = omega (
  arith,
  length-append (to_le 4 (length key)) (to_le 4 (length value) ++ (key ++ value)),
  length-append (to_le 4 (length value)) (key ++ value),
  length-append key value,
  length-to_le 4 (length key),
  length-to_le 4 (length value),
)

pub length-payload-delete : (key : Text) → length (payload (delete key)) ≡ 9 + length key
length-payload-delete key = omega (
  arith,
  length-append (to_le 4 (length key)) (to_le 4 0 ++ key),
  length-append (to_le 4 0) key,
  length-to_le 4 (length key),
  length-to_le 4 0,
)

pub body-eq-payload :
    (r : WalRecord) → IsValid r → body r ≡ to_le 4 (length (payload r)) ++ payload r
unfolding body
body-eq-payload (set key value) h =
    let kl : u32 (length key) ≡ length key = omega arith in
    let vl : u32 (length value) ≡ length value = omega arith in
    let all : u32 (9 + length key + length value) ≡ length (payload (set key value)) =
      omega (arith, length-payload-set key value) in
    rw (kl, vl, all)
body-eq-payload (delete key) h =
    let kl : u32 (length key) ≡ length key = omega arith in
    let all : u32 (9 + length key) ≡ length (payload (delete key)) =
      omega (arith, length-payload-delete key) in
    rw (kl, all)

module _ (key value : Text) (h : IsValid (set key value)) where
  abbrev bytes : List ℕ
  bytes = payload (set key value)

  at_value_len : drop 5 bytes ≡ to_le 4 (length value) ++ (key ++ value)
  at_value_len = drop_u32 bytes 1 5 (length key) _ refl refl

  at_key : drop 9 bytes ≡ key ++ value
  at_key = drop_u32 bytes 5 9 (length value) _ at_value_len refl

  at_value : drop (9 + length key) bytes ≡ value ++ []
  at_value = drop_next bytes 9 (9 + length key) key value at_key refl ∙ sym (append-nil value)

  decode-set : decode bytes ≡ ok (set key value)
  unfolding decode from_utf8
  decode-set = ground (
    arith,
    u32_at_lem bytes 1 (length key) (to_le 4 (length value) ++ (key ++ value)) refl,
    u32_at_lem bytes 5 (length value) (key ++ value) at_value_len,
    length-payload-set key value,
    slice_at bytes 9 (9 + length key) key value at_key refl,
    slice_at bytes (9 + length key) (9 + length key + length value) value [] at_value refl,
  )

module _ (key : Text) (h : IsValid (delete key)) where
  abbrev mark : List ℕ
  mark = payload (delete key)

  at_zero_len : drop 5 mark ≡ to_le 4 0 ++ key
  at_zero_len = drop_u32 mark 1 5 (length key) _ refl refl

  at_gone : drop 9 mark ≡ key ++ []
  at_gone = drop_u32 mark 5 9 0 _ at_zero_len refl ∙ sym (append-nil key)

  decode-delete : decode mark ≡ ok (delete key)
  unfolding decode from_utf8
  decode-delete = ground (
    arith,
    u32_at_lem mark 1 (length key) (to_le 4 0 ++ key) refl,
    u32_at_lem mark 5 0 key at_zero_len,
    length-payload-delete key,
    slice_at mark 9 (9 + length key) key [] at_gone refl,
  )

-- What a valid record has between its length prefix and its checksum decodes to the record.
pub decode-payload : (r : WalRecord) → IsValid r → decode (payload r) ≡ ok r
decode-payload (set key value) h = decode-set key value h
decode-payload (delete key) h = decode-delete key h
