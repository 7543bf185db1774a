-- ===== src/Compaction/Capacity.antt =====
-- The capacity of a level in closed form.
use native.Mathlib.Nat.{pow-zero, mul_assoc, mul-one, one-le-pow, pow-succ'}
use native.Mathlib.Decide.{dec_le}
use pebble_db.Prelude.{
  ℕ, zero, suc, ◌+◌, ◌-◌, ◌*◌, ◌^◌, ◌≤◌, ◌<◌, min, max, ◌≡◌, sym, ◌∙◌, ap, arith,
}
use pebble_db.Compaction.{new, saturating_mul, grow_capacity, level_capacity}

abbrev most : ℕ
most = 2 ^ 64 - 1

le-mul : (m k : ℕ) → 1 ≤ k → m ≤ m * k
le-mul m k h = grind arith

mul-le_mono : (m a k : ℕ) → m ≤ a → m * k ≤ a * k
mul-le_mono m a k h = grind arith

-- Saturating before a multiplication changes nothing of the saturated product.
min-mul : (m a k : ℕ) → 1 ≤ k → min (min a m * k) m ≡ min (a * k) m
min-mul m a k h = elim (dec_le a m) [
  | yes p ↦ let e : min a m ≡ a = omega arith in rw e
  | no p ↦
      let e : min a m ≡ m = omega arith in
      let scaled : m * k ≤ a * k = mul-le_mono m a k (omega arith) in
      rw e (omega (arith, le-mul m k h, scaled))
]

grow_capacity-eq-min : (n k c : ℕ) → 1 ≤ k → c ≤ most → grow_capacity n k c ≡ min (c * k ^ n) most
unfolding grow_capacity
grow_capacity-eq-min zero k c h b = rw (pow-zero k, mul-one c) (omega arith)
grow_capacity-eq-min (suc n) k c h b =
    grow_capacity-eq-min n k (saturating_mul c k) h (omega arith)
    ∙ min-mul most (c * k) (k ^ n) (one-le-pow n k h)
    ∙ ap (λ (t : ℕ). min t most)
        (mul_assoc c k (k ^ n) ∙ ap (λ (t : ℕ). c * t) (sym (pow-succ' k n)))

-- With a target size that is a u64, the capacity of level n + 1 is the target (1 at least) times the
-- n-th power of the multiplier (2 at least), or the greatest u64 if that is less.
pub level_capacity-eq-min :
    (threshold multiplier target n : ℕ)
    → target < 2 ^ 64
    → level_capacity (new threshold multiplier target) (n + 1)
      ≡ min (max target 1 * max multiplier 2 ^ n) (2 ^ 64 - 1)
unfolding level_capacity new
level_capacity-eq-min threshold multiplier target n h =
    let rounds : n + 1 - 1 ≡ n = omega arith in
    rw rounds (grow_capacity-eq-min n (max multiplier 2) (max target 1) (omega arith) (omega arith))
