-- ===== src/Prelude/Words.antt =====
-- Machine words: casts, little-endian bytes, and the bits that `|` and `&` set and read.
use Prim.Native.Nat.{ℕ, zero, suc, ◌+◌, ◌*◌, ◌/◌, ◌%◌, ◌^◌, ◌<◌}
use mathlib.Core.Path.{◌≡◌, refl, ap}
use mathlib.Core.List.{List, [], ◌∷◌, ◌++◌}
use native.Mathlib.Omega.{arith}
use pebble_db.Prelude.Lists.{length, take, drop, drop_next}

abbrev pub u8 : ℕ → ℕ
u8 n = n % 2 ^ 8

abbrev pub u32 : ℕ → ℕ
u32 n = n % 2 ^ 32

abbrev pub u64 : ℕ → ℕ
u64 n = n % 2 ^ 64

-- `to_le_bytes` at a width of `n` bytes.
unfoldable pub to_le : ℕ → ℕ → List ℕ
to_le zero x = []
to_le (suc n) x = (x % 256) ∷ to_le n (x / 256)

-- `from_le_bytes`
unfoldable pub from_le : List ℕ → ℕ
from_le [] = 0
from_le (b ∷ bs) = b + 256 * from_le bs

-- `u32::from_le_bytes(data[i..i + 4])`
abbrev pub u32_at : List ℕ → ℕ → ℕ
u32_at data' i = from_le (take 4 (drop i data'))

abbrev pub u64_at : List ℕ → ℕ → ℕ
u64_at data' i = from_le (take 8 (drop i data'))

pub length-to_le : (n x : ℕ) → length (to_le n x) ≡ n
unfolding to_le
length-to_le zero x = refl
length-to_le (suc n) x = ap suc (length-to_le n (x / 256))

pub from_le-to_le4 : (x : ℕ) → x < 2 ^ 32 → from_le (to_le 4 x) ≡ x
unfolding to_le from_le
from_le-to_le4 x h = omega arith

pub from_le-to_le8 : (x : ℕ) → x < 2 ^ 64 → from_le (to_le 8 x) ≡ x
unfolding to_le from_le
from_le-to_le8 x h = omega arith

-- A word that was written at a position is read from it, and the rest follows.
pub u32_at_lem :
    (data' : List ℕ) (i x : ℕ) (ys : List ℕ)
    → drop i data' ≡ to_le 4 x ++ ys
    → x < 2 ^ 32
    → u32_at data' i ≡ x
unfolding to_le from_le
u32_at_lem data' i x ys e h = rw e (omega arith)

pub u64_at_lem :
    (data' : List ℕ) (i x : ℕ) (ys : List ℕ)
    → drop i data' ≡ to_le 8 x ++ ys
    → x < 2 ^ 64
    → u64_at data' i ≡ x
unfolding to_le from_le
u64_at_lem data' i x ys e h = rw e (omega arith)

pub drop_u32 :
    (data' : List ℕ) (i j x : ℕ) (ys : List ℕ)
    → drop i data' ≡ to_le 4 x ++ ys
    → j ≡ i + 4
    → drop j data' ≡ ys
drop_u32 data' i j x ys e f = drop_next data' i j (to_le 4 x) ys e (omega (arith, length-to_le 4 x))

pub drop_u64 :
    (data' : List ℕ) (i j x : ℕ) (ys : List ℕ)
    → drop i data' ≡ to_le 8 x ++ ys
    → j ≡ i + 8
    → drop j data' ≡ ys
drop_u64 data' i j x ys e f = drop_next data' i j (to_le 8 x) ys e (omega (arith, length-to_le 8 x))
