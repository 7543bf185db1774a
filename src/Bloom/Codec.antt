-- ===== src/Bloom/Codec.antt =====
-- The bytes of a filter decode to it again.
use pebble_db.Prelude.{ℕ, ◌+◌, ◌*◌, ◌^◌, ◌<◌, List, [], ◌∷◌, ◌++◌, some, map, concat}
use pebble_db.Prelude.{◌≡◌, refl, sym, ◌∙◌, append_assoc, arith, length, to_le, u32, drop}
use pebble_db.Prelude.{
  length-append, length-to_le, u32_at_lem, u64_at_lem, drop_u32, drop_u64, ltb-false,
}
use mathlib.Core.Path.{ap₂}
use pebble_db.Bloom.{BloomFilter, words, read_words, encode, decode}
use pebble_db.Bloom.Bits.{AllWords, IsWellFormed}

abbrev word_bytes : List ℕ → List ℕ
word_bytes ws = concat (map (to_le 8) ws)

length-word_bytes : (ws : List ℕ) → length (word_bytes ws) ≡ 8 * length ws
length-word_bytes [] = refl
length-word_bytes (w ∷ ws) =
    omega (arith, length-append (to_le 8 w) (word_bytes ws), length-to_le 8 w, length-word_bytes ws)

-- Reading as many words as were written gives them back, whatever bytes follow.
read_words-word_bytes :
    (ws : List ℕ) (n offset : ℕ) (data' rest : List ℕ)
    → AllWords ws
    → n ≡ length ws
    → drop offset data' ≡ word_bytes ws ++ rest
    → read_words n offset data' ≡ ws
unfolding read_words
read_words-word_bytes [] n offset data' rest a e at = rw e
read_words-word_bytes (w ∷ ws) n offset data' rest a e at =
    let here : drop offset data' ≡ to_le 8 w ++ (word_bytes ws ++ rest) =
      at ∙ append_assoc (to_le 8 w) (word_bytes ws) rest in
    rw e (
      ap₂ ◌∷◌ (u64_at_lem data' offset w (word_bytes ws ++ rest) here a.0) (
        read_words-word_bytes ws (length ws) (offset + 8) data' rest a.1 refl
          (drop_u64 data' offset (offset + 8) w (word_bytes ws ++ rest) here refl)))

-- A well-formed filter whose sizes fit 32 bits is decoded from its own bytes, whatever follows them.
pub decode-encode :
    (f : BloomFilter) (rest : List ℕ)
    → IsWellFormed f
    → f.num_bits < 2 ^ 32
    → f.num_hashes < 2 ^ 32
    → decode (encode f ++ rest) ≡ some f
unfolding decode encode
decode-encode f rest wf b h =
    let bytes = encode f ++ rest in
    let nb : u32 f.num_bits ≡ f.num_bits = omega arith in
    let nh : u32 f.num_hashes ≡ f.num_hashes = omega arith in
    let start : drop 0 bytes
        ≡ to_le 4 f.num_bits ++ (to_le 4 f.num_hashes ++ (word_bytes f.bits ++ rest)) =
      rw (
        nb,
        nh,
        append_assoc (to_le 4 f.num_bits) (to_le 4 f.num_hashes ++ word_bytes f.bits) rest,
        append_assoc (to_le 4 f.num_hashes) (word_bytes f.bits) rest,
      ) in
    let at_hashes = drop_u32 bytes 0 4 f.num_bits _ start refl in
    let at_words = drop_u32 bytes 4 8 f.num_hashes _ at_hashes refl in
    let size : length bytes ≡ 8 + 8 * length f.bits + length rest = rw start (
      omega (
        arith,
        length-append (to_le 4 f.num_bits) (to_le 4 f.num_hashes ++ (word_bytes f.bits ++ rest)),
        length-append (to_le 4 f.num_hashes) (word_bytes f.bits ++ rest),
        length-append (word_bytes f.bits) rest,
        length-word_bytes f.bits,
        length-to_le 4 f.num_bits,
        length-to_le 4 f.num_hashes,
      )) in
    rw (
      u32_at_lem bytes 0 f.num_bits _ start b,
      u32_at_lem bytes 4 f.num_hashes _ at_hashes h,
      ltb-false (length bytes) 8 (omega arith),
      ltb-false (length bytes) (8 + words f.num_bits * 8) (omega (arith, wf.has_words)),
      read_words-word_bytes f.bits (words f.num_bits) 8 bytes rest wf.are_words (sym wf.has_words)
          at_words,
    )
