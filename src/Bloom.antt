-- ===== src/Bloom.antt =====
-- src/bloom.rs: BloomFilter. The arithmetic on f64 that sizes a filter is a parameter.
pub mod Bits
pub mod Membership
pub mod Codec
pub mod Examples
use pebble_db.Prelude.{
  ℕ, zero, suc, ◌+◌, ◌*◌, ◌/◌, ◌%◌, ◌^◌, List, [], ◌∷◌, ◌++◌, Bool, true, false,
}
use pebble_db.Prelude.{
  Outcome, ok, panic, ◌>>=◌, Option, some, none, min, max, u32, u64, bit_and, bit_or,
}
use pebble_db.Prelude.{
  length, get_or, set, replicate, drop, ltb, ◌==◌, if◌then◌else◌, to_le, u32_at,
}
use pebble_db.Prelude.{u64_at, Text, concat, map}
use pebble_db.Wal.Crc.{crc32}
use mathlib.Core.List.{reverse}

-- What the sizing of a filter uses of f64; a cast to usize saturates and takes NaN to 0.
pub record Floats : Type 1 where
  pub F64 : Type 0
  pub of_usize : ℕ → F64
  pub neg : F64 → F64
  pub mul : F64 → F64 → F64
  pub div : F64 → F64 → F64
  pub ln : F64 → F64
  pub ln_2 : F64
  pub one_hundredth : F64
  pub ceil_usize : F64 → ℕ
  pub round_usize : F64 → ℕ

pub record BloomFilter : Type 0 where
  pub bits : List ℕ
  pub num_bits : ℕ
  pub num_hashes : ℕ

-- `num_bits.div_ceil(64)`
abbrev pub words : ℕ → ℕ
words num_bits = (num_bits + 63) / 64

module _ (fl : Floats) where
  open fl use {F64, of_usize, neg, mul, div, ln, ln_2, one_hundredth, ceil_usize, round_usize}

  optimal_bits : ℕ → F64 → ℕ
  optimal_bits n fp_rate =
      max (ceil_usize (div (neg (mul (of_usize n) (ln fp_rate))) (mul ln_2 ln_2))) 64

  optimal_hashes : ℕ → ℕ → ℕ
  optimal_hashes m n = min (max (round_usize (mul (div (of_usize m) (of_usize n)) ln_2)) 1) 30

  unfoldable pub new : ℕ → F64 → BloomFilter
  unfolding optimal_bits optimal_hashes
  new expected_items false_positive_rate =
      let num_bits = optimal_bits expected_items false_positive_rate in
      record {
        bits = replicate (words num_bits) 0;
        num_bits = num_bits;
        num_hashes = optimal_hashes num_bits expected_items;
      }

-- `key_hashes`: the checksums of the bytes, forwards and backwards.
abbrev pub hash_1 : Text → ℕ
hash_1 key = crc32 key

abbrev pub hash_2 : Text → ℕ
hash_2 key = crc32 (reverse key)

-- The bit of round `i`; a remainder by zero panics.
unfoldable pub bit_of : ℕ → Text → ℕ → Outcome ℕ
bit_of num_bits key i =
    if num_bits == 0 then panic else ok (u64 (hash_1 key + u64 (u64 i * hash_2 key)) % num_bits)

-- `self.bits[bit / 64] |= 1 << bit % 64`
unfoldable pub set_bit : BloomFilter → ℕ → Outcome BloomFilter
set_bit f bit =
    if ltb (bit / 64) (length f.bits)
    then ok (record f {
      bits = set f.bits (bit / 64) (bit_or (get_or f.bits (bit / 64) 0) (2 ^ (bit % 64)));
    })
    else panic

-- `self.bits[bit / 64] & (1 << bit % 64) == 0`
unfoldable pub is_clear : BloomFilter → ℕ → Outcome Bool
is_clear f bit =
    if ltb (bit / 64) (length f.bits)
    then ok (bit_and (get_or f.bits (bit / 64) 0) (2 ^ (bit % 64)) == 0)
    else panic

-- The loop of `insert` from round `i`, with `left` rounds to go.
unfoldable pub insert_loop : ℕ → ℕ → Text → BloomFilter → Outcome BloomFilter
insert_loop zero i key f = ok f
insert_loop (suc left) i key f = do
  bit ← bit_of f.num_bits key i
  g ← set_bit f bit
  insert_loop left (i + 1) key g

unfoldable pub insert : BloomFilter → Text → Outcome BloomFilter
insert f key = insert_loop f.num_hashes 0 key f

unfoldable pub contain_loop : ℕ → ℕ → Text → BloomFilter → Outcome Bool
contain_loop zero i key f = ok true
contain_loop (suc left) i key f =
    let rest = contain_loop left (i + 1) key f in
    do bit ← bit_of f.num_bits key i; clear ← is_clear f bit; if clear then ok false else rest

unfoldable pub might_contain : BloomFilter → Text → Outcome Bool
might_contain f key = contain_loop f.num_hashes 0 key f

unfoldable pub insert_all : List Text → BloomFilter → Outcome BloomFilter
insert_all [] f = ok f
insert_all (key ∷ keys) f = do g ← insert f key; insert_all keys g

unfoldable pub from_entries : Floats → List Text → Outcome BloomFilter
from_entries fl keys = insert_all keys (new fl (max (length keys) 1) fl.one_hundredth)

unfoldable pub encode : BloomFilter → List ℕ
encode f = to_le 4 (u32 f.num_bits) ++ (to_le 4 (u32 f.num_hashes) ++ concat (map (to_le 8) f.bits))

-- The words of 8 bytes from `offset` on.
unfoldable pub read_words : ℕ → ℕ → List ℕ → List ℕ
read_words zero offset data' = []
read_words (suc n) offset data' = u64_at data' offset ∷ read_words n (offset + 8) data'

unfoldable pub decode : List ℕ → Option BloomFilter
unfolding read_words
decode data' =
    if ltb (length data') 8
    then none
    else let num_bits = u32_at data' 0 in
      let num_hashes = u32_at data' 4 in
      if ltb (length data') (8 + words num_bits * 8)
      then none
      else some (record {
        bits = read_words (words num_bits) 8 data';
        num_bits = num_bits;
        num_hashes = num_hashes;
      })
