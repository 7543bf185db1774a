-- ===== src/Prelude/Bits.antt =====
-- The native `bit_and`, `bit_or` and `bit_xor`, read one binary digit at a time.
use Prim.Native.Nat.{digits, bitwise, differ, bit_and-bitwise, bit_or-bitwise, bit_xor-bitwise}
use Prim.Native.Nat.{ℕ, zero, suc, ◌+◌, ◌*◌, ◌/◌, ◌%◌, ◌^◌, ◌≤◌, ◌<◌, min, max}
use Prim.Native.Nat.{bit_and, bit_or, bit_xor}
use mathlib.Core.Path.{◌≡◌, refl, ap}
use mathlib.Core.Logic.{◌≢◌}
use native.Mathlib.Nat.{pow-suc, le_refl}
use native.Mathlib.Omega.{arith}

-- The fuel of `digits` does not matter once it covers the number.
module _ (z : ℕ → ℕ) (f : ℕ → ℕ → ℕ) where
  digits_enough : (n m a b : ℕ) → a ≤ n → a ≤ m → digits z f n a b ≡ digits z f m a b
  digits_enough zero zero zero b p q = refl
  digits_enough zero (suc m) zero b p q = refl
  digits_enough (suc n) zero zero b p q = refl
  digits_enough (suc n) (suc m) zero b p q = refl
  digits_enough zero m (suc a) b p q = absurd (omega arith)
  digits_enough (suc n) zero (suc a) b p q = absurd (omega arith)
  digits_enough (suc n) (suc m) (suc a) b p q =
      ap (λ (t : ℕ). t * 2 + f (suc a % 2) (b % 2))
        (digits_enough n m (suc a / 2) (b / 2) (omega arith) (omega arith))

  low_digit :
      (a b : ℕ)
      → bitwise z f (suc a) b ≡ bitwise z f (suc a / 2) (b / 2) * 2 + f (suc a % 2) (b % 2)
  low_digit a b =
      ap (λ (t : ℕ). t * 2 + f (suc a % 2) (b % 2))
        (digits_enough a (suc a / 2) (suc a / 2) (b / 2) (omega arith) (le_refl _))

digits_zero : (n a : ℕ) → digits (λ y. 0) min n a 0 ≡ 0
digits_zero zero a = refl
digits_zero (suc n) zero = refl
digits_zero (suc n) (suc a) = omega (arith, digits_zero n (suc a / 2))

bit_and_low : (a b : ℕ) → bit_and a b ≡ bit_and (a / 2) (b / 2) * 2 + min (a % 2) (b % 2)
bit_and_low zero b = simp bit_and-bitwise (omega arith)
bit_and_low (suc a) b = simp bit_and-bitwise (low_digit (λ y. 0) min a b)

bit_or_low : (a b : ℕ) → bit_or a b ≡ bit_or (a / 2) (b / 2) * 2 + max (a % 2) (b % 2)
bit_or_low zero b = simp bit_or-bitwise (omega arith)
bit_or_low (suc a) b = simp bit_or-bitwise (low_digit (λ y. y) max a b)

bit_xor_low : (a b : ℕ) → bit_xor a b ≡ bit_xor (a / 2) (b / 2) * 2 + differ (a % 2) (b % 2)
bit_xor_low zero b = simp bit_xor-bitwise (omega arith)
bit_xor_low (suc a) b = simp bit_xor-bitwise (low_digit (λ y. y) differ a b)

bit_and-zero : (a : ℕ) → bit_and a 0 ≡ 0
bit_and-zero a = simp bit_and-bitwise (digits_zero a a)

-- The digit of weight 2 ^ k.
abbrev pub digit_at : ℕ → ℕ → ℕ
digit_at a zero = a % 2
digit_at a (suc k) = digit_at (a / 2) k

digit_at-zero : (k : ℕ) → digit_at 0 k ≡ 0
digit_at-zero zero = refl
digit_at-zero (suc k) = digit_at-zero k

pub digit_at-pow_self : (k : ℕ) → digit_at (2 ^ k) k ≡ 1
digit_at-pow_self zero = refl
digit_at-pow_self (suc k) =
    let half : 2 ^ suc k / 2 ≡ 2 ^ k = omega (arith, pow-suc 2 k) in rw half (digit_at-pow_self k)

pub digit_at-bit_or : (a b k : ℕ) → digit_at (bit_or a b) k ≡ max (digit_at a k) (digit_at b k)
digit_at-bit_or a b zero = omega (arith, bit_or_low a b)
digit_at-bit_or a b (suc k) =
    let half : bit_or a b / 2 ≡ bit_or (a / 2) (b / 2) = omega (arith, bit_or_low a b) in
    rw half (digit_at-bit_or (a / 2) (b / 2) k)

digit_at-bit_and : (a b k : ℕ) → digit_at (bit_and a b) k ≡ min (digit_at a k) (digit_at b k)
digit_at-bit_and a b zero = omega (arith, bit_and_low a b)
digit_at-bit_and a b (suc k) =
    let half : bit_and a b / 2 ≡ bit_and (a / 2) (b / 2) = omega (arith, bit_and_low a b) in
    rw half (digit_at-bit_and (a / 2) (b / 2) k)

-- A digit that is set is seen through its mask.
pub bit_and-ne-zero : (a k : ℕ) → digit_at a k ≡ 1 → bit_and a (2 ^ k) ≢ 0
bit_and-ne-zero a k set e =
    let seen : digit_at (bit_and a (2 ^ k)) k ≡ 0 = rw e (digit_at-zero k) in
    omega (arith, digit_at-bit_and a (2 ^ k) k, digit_at-pow_self k)

differ-lt : (a b : ℕ) → a < 2 → b < 2 → differ a b < 2
differ-lt zero b p q = q
differ-lt (suc a) zero p q = p
differ-lt (suc zero) (suc zero) p q = omega arith
differ-lt (suc (suc a)) (suc b) p q = absurd (omega arith)
differ-lt (suc zero) (suc (suc b)) p q = absurd (omega arith)

pub bit_xor-lt : (k a b : ℕ) → a < 2 ^ k → b < 2 ^ k → bit_xor a b < 2 ^ k
bit_xor-lt zero zero zero p q = omega arith
bit_xor-lt zero (suc a) b p q = absurd (omega arith)
bit_xor-lt zero zero (suc b) p q = absurd (omega arith)
bit_xor-lt (suc k) a b p q = omega (
  arith,
  pow-suc 2 k,
  bit_xor_low a b,
  differ-lt (a % 2) (b % 2) (omega arith) (omega arith),
  bit_xor-lt k (a / 2) (b / 2) (omega (arith, pow-suc 2 k)) (omega (arith, pow-suc 2 k)),
)

pub bit_or-lt : (k a b : ℕ) → a < 2 ^ k → b < 2 ^ k → bit_or a b < 2 ^ k
bit_or-lt zero zero zero p q = omega arith
bit_or-lt zero (suc a) b p q = absurd (omega arith)
bit_or-lt zero zero (suc b) p q = absurd (omega arith)
bit_or-lt (suc k) a b p q = omega (
  arith,
  pow-suc 2 k,
  bit_or_low a b,
  bit_or-lt k (a / 2) (b / 2) (omega (arith, pow-suc 2 k)) (omega (arith, pow-suc 2 k)),
)

-- A mask of `k` bits leaves at most `k` bits.
pub bit_and-lt : (k a b : ℕ) → b < 2 ^ k → bit_and a b < 2 ^ k
bit_and-lt zero a zero p = omega (arith, bit_and_low a 0, bit_and-zero a)
bit_and-lt zero a (suc b) p = absurd (omega arith)
bit_and-lt (suc k) a b p =
    omega (
      arith,
      pow-suc 2 k,
      bit_and_low a b,
      bit_and-lt k (a / 2) (b / 2) (omega (arith, pow-suc 2 k)),
    )

pub digit_at-lt : (a k : ℕ) → digit_at a k < 2
digit_at-lt a zero = omega arith
digit_at-lt a (suc k) = digit_at-lt (a / 2) k
