-- ===== src/Bloom/Bits.antt =====
-- The bits of a filter: which are set, and what setting one does.
use pebble_db.Prelude.{ℕ, zero, suc, ◌/◌, ◌%◌, ◌^◌, ◌<◌, List, [], ◌∷◌, ok, Bool, false}
use pebble_db.Prelude.{
  ◌≡◌, ◌≢◌, refl, ap, arith, length, get_or, set, length-set, bit_or, bit_and, ◌==◌, ltb-true,
}
use native.Mathlib.Decide.{ℕ_discrete}
use native.Mathlib.Nat.{pow-le-pow_right}
use pebble_db.Prelude.Bits.{
  digit_at, digit_at-bit_or, digit_at-pow_self, bit_and-ne-zero, bit_or-lt, digit_at-lt,
}
use pebble_db.Bloom.{BloomFilter, words, set_bit, is_clear}

-- Every word is a u64.
abbrev pub AllWords : List ℕ → Type 0
AllWords [] = Unit
AllWords (w ∷ ws) = (w < 2 ^ 64) × AllWords ws

-- A filter with a bit at least, and the words that its bits want.
pub record IsWellFormed (f : BloomFilter) : Type 0 where
  pub has_bits : 0 < f.num_bits
  pub has_words : length f.bits ≡ words f.num_bits
  pub are_words : AllWords f.bits

abbrev pub HasBit : BloomFilter → ℕ → Type 0
HasBit f bit = digit_at (get_or f.bits (bit / 64) 0) (bit % 64) ≡ 1

get_or-set_self : (xs : List ℕ) (i v : ℕ) → i < length xs → get_or (set xs i v) i 0 ≡ v
get_or-set_self [] i v h = absurd (omega arith)
get_or-set_self (x ∷ xs) zero v h = refl
get_or-set_self (x ∷ xs) (suc i) v h = get_or-set_self xs i v (omega arith)

get_or-set_ne : (xs : List ℕ) (i j v : ℕ) → i ≢ j → get_or (set xs i v) j 0 ≡ get_or xs j 0
get_or-set_ne [] i j v h = refl
get_or-set_ne (x ∷ xs) zero zero v h = absurd (h refl)
get_or-set_ne (x ∷ xs) zero (suc j) v h = refl
get_or-set_ne (x ∷ xs) (suc i) zero v h = refl
get_or-set_ne (x ∷ xs) (suc i) (suc j) v h = get_or-set_ne xs i j v (λ e. h (ap suc e))

AllWords-set : (xs : List ℕ) (i v : ℕ) → AllWords xs → v < 2 ^ 64 → AllWords (set xs i v)
AllWords-set [] i v a h = tt
AllWords-set (x ∷ xs) zero v a h = (h, a.1)
AllWords-set (x ∷ xs) (suc i) v a h = (a.0, AllWords-set xs i v a.1 h)

AllWords-get_or : (xs : List ℕ) (i : ℕ) → AllWords xs → get_or xs i 0 < 2 ^ 64
AllWords-get_or [] i a = omega arith
AllWords-get_or (x ∷ xs) zero a = a.0
AllWords-get_or (x ∷ xs) (suc i) a = AllWords-get_or xs i a.1

pow_in_word : (k : ℕ) → k < 64 → 2 ^ k < 2 ^ 64
pow_in_word k h =
    omega (arith, pow-le-pow_right {n = 2} (omega arith) {i = k} {j = 63} (omega arith))

abbrev pub after : BloomFilter → ℕ → BloomFilter
after f bit = record f {
  bits = set f.bits (bit / 64) (bit_or (get_or f.bits (bit / 64) 0) (2 ^ (bit % 64)));
}

module _ (f : BloomFilter) (bit : ℕ) (wf : IsWellFormed f) (small : bit < f.num_bits) where
  in_words : bit / 64 < length f.bits
  in_words = omega (arith, wf.has_words)

  -- Setting a bit in range does not panic.
  pub set_bit-ok : set_bit f bit ≡ ok (after f bit)
  unfolding set_bit
  set_bit-ok = rw (ltb-true _ _ in_words)

  pub after-IsWellFormed : IsWellFormed (after f bit)
  after-IsWellFormed = record {
    has_bits = wf.has_bits;
    has_words = rw length-set wf.has_words;
    are_words = AllWords-set f.bits (bit / 64) _ wf.are_words (
        bit_or-lt 64 _ _ (AllWords-get_or f.bits (bit / 64) wf.are_words)
          (pow_in_word (bit % 64) (omega arith)));
  }

  pub after_self : HasBit (after f bit) bit
  after_self =
      rw
        (get_or-set_self f.bits (bit / 64) (bit_or (get_or f.bits (bit / 64) 0) (2 ^ (bit % 64)))
          in_words)
        (omega (
          arith,
          digit_at-bit_or (get_or f.bits (bit / 64) 0) (2 ^ (bit % 64)) (bit % 64),
          digit_at-pow_self (bit % 64),
          digit_at-lt (get_or f.bits (bit / 64) 0) (bit % 64),
        ))

  -- A bit that was set stays set.
  pub after_other : (c : ℕ) → HasBit f c → HasBit (after f bit) c
  after_other c h = elim (ℕ_discrete (bit / 64) (c / 64)) [
    | yes same ↦
        let old : digit_at (get_or f.bits (bit / 64) 0) (c % 64) ≡ 1 = rw (← same) at h in
        rw
          (
            ← same,
            get_or-set_self f.bits (bit / 64) (bit_or (get_or f.bits (bit / 64) 0) (2 ^ (bit % 64)))
                in_words,
          )
          (omega (
            arith,
            old,
            digit_at-bit_or (get_or f.bits (bit / 64) 0) (2 ^ (bit % 64)) (c % 64),
            digit_at-lt (2 ^ (bit % 64)) (c % 64),
          ))
    | no differ ↦ rw (get_or-set_ne f.bits (bit / 64) (c / 64) _ differ) h
  ]

  pub is_clear-HasBit : HasBit f bit → is_clear f bit ≡ ok false
  unfolding is_clear
  is_clear-HasBit h =
      rw (ltb-true _ _ in_words)
        (ground (arith, bit_and-ne-zero (get_or f.bits (bit / 64) 0) (bit % 64) h))

  -- A test of a bit in range does not panic.
  pub is_clear-ok : (b : Bool) × (is_clear f bit ≡ ok b)
  unfolding is_clear
  is_clear-ok =
      (bit_and (get_or f.bits (bit / 64) 0) (2 ^ (bit % 64)) == 0, rw (ltb-true _ _ in_words) refl)
