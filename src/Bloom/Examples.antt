-- ===== src/Bloom/Examples.antt =====
-- A filter, with natural numbers in place of f64, on which the theorems about it are tried.
use pebble_db.Prelude.{
  ℕ, ◌*◌, ◌/◌, List, [], ◌∷◌, ◌++◌, Text, codes, ok, true, some, ◌≡◌, refl, arith,
}
use pebble_db.Bloom.{BloomFilter, Floats, insert, might_contain, from_entries, encode, decode}
use pebble_db.Bloom.Bits.{IsWellFormed}
use pebble_db.Bloom.Membership.{AllMight, might_contain-insert, from_entries-AllMight}
use pebble_db.Bloom.Codec.{decode-encode}

abbrev pub whole_floats : Floats
whole_floats = record {
  F64 = ℕ;
  of_usize = λ n. n;
  neg = λ n. n;
  mul = λ a b. a * b;
  div = λ a b. a / b;
  ln = λ n. n;
  ln_2 = 1;
  one_hundredth = 10;
  ceil_usize = λ n. n;
  round_usize = λ n. n;
}

abbrev two_words : BloomFilter
two_words = record { bits = 5 ∷ 0 ∷ []; num_bits = 70; num_hashes = 3 }

two_words-IsWellFormed : IsWellFormed two_words
two_words-IsWellFormed = record {
  has_bits = omega arith;
  has_words = refl;
  are_words = (omega arith, (omega arith, tt));
}

might_contain-insert_example :
    (g : BloomFilter) × (insert two_words (codes "key") ≡ ok g)
    × IsWellFormed g
    × (might_contain g (codes "key") ≡ ok true)
might_contain-insert_example = might_contain-insert two_words (codes "key") two_words-IsWellFormed

abbrev two_keys : List Text
two_keys = codes "key" ∷ codes "other" ∷ []

from_entries-AllMight_example :
    (f : BloomFilter) × (from_entries whole_floats two_keys ≡ ok f)
    × IsWellFormed f
    × AllMight f two_keys
from_entries-AllMight_example = from_entries-AllMight whole_floats two_keys

decode-encode_example : decode (encode two_words ++ 7 ∷ []) ≡ some two_words
decode-encode_example =
    decode-encode two_words (7 ∷ []) two_words-IsWellFormed (omega arith) (omega arith)
