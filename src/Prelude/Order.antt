-- ===== src/Prelude/Order.antt =====
-- The byte order of texts is a total order, and the tests decide it.
use Prim.Native.Nat.{Ordering}
use Prim.Native.Nat.Ordering.{lt, eq, gt}
use mathlib.Core.Path.{◌≡◌, refl}
use mathlib.Core.Bool.{true, false}
use mathlib.Core.List.{[], ◌∷◌}
use native.Mathlib.Omega.{arith}
use pebble_db.Prelude.Strings.{Text, cmp, text_lt, text_le, text_eq}

abbrev pub flip : Ordering → Ordering
flip lt = gt
flip eq = eq
flip gt = lt

pub cmp_refl : (a : Text) → cmp a a ≡ eq
cmp_refl [] = refl
cmp_refl (x ∷ xs) = ground (arith, cmp_refl xs)

pub eq_of_cmp : (a b : Text) → cmp a b ≡ eq → a ≡ b
eq_of_cmp [] [] h = refl
eq_of_cmp [] (y ∷ ys) h = cc
eq_of_cmp (x ∷ xs) [] h = cc
eq_of_cmp (x ∷ xs) (y ∷ ys) h = ground (arith, eq_of_cmp xs ys)

pub cmp-flip : (a b : Text) → cmp b a ≡ flip (cmp a b)
cmp-flip [] [] = refl
cmp-flip [] (y ∷ ys) = refl
cmp-flip (x ∷ xs) [] = refl
cmp-flip (x ∷ xs) (y ∷ ys) = ground (arith, cmp-flip xs ys)

pub cmp_trans : (a b c : Text) → cmp a b ≡ lt → cmp b c ≡ lt → cmp a c ≡ lt
cmp_trans [] [] c h k = cc
cmp_trans [] (y ∷ ys) [] h k = cc
cmp_trans [] (y ∷ ys) (z ∷ zs) h k = refl
cmp_trans (x ∷ xs) [] c h k = cc
cmp_trans (x ∷ xs) (y ∷ ys) [] h k = cc
cmp_trans (x ∷ xs) (y ∷ ys) (z ∷ zs) h k =
    ground (arith, cmp_trans xs ys zs, eq_of_cmp xs ys, eq_of_cmp ys zs)

pub text_eq_iff : (a b : Text) → text_eq a b ≡ true → a ≡ b
text_eq_iff a b h = ground (arith, eq_of_cmp a b)

pub text_eq_refl : (a : Text) → text_eq a a ≡ true
text_eq_refl a = ground (arith, cmp_refl a)

pub text_le_refl : (a : Text) → text_le a a ≡ true
text_le_refl a = ground (arith, cmp_refl a)

pub text_le_trans : (a b c : Text) → text_le a b ≡ true → text_le b c ≡ true → text_le a c ≡ true
text_le_trans a b c h k = ground (arith, cmp_trans a b c, eq_of_cmp a b, eq_of_cmp b c, cmp_refl c)

pub text_lt_trans : (a b c : Text) → text_lt a b ≡ true → text_lt b c ≡ true → text_lt a c ≡ true
text_lt_trans a b c h k = ground (arith, cmp_trans a b c)

-- Where one is not at most the other, the other is smaller.
pub text_le_total : (a b : Text) → text_le a b ≡ false → text_lt b a ≡ true
text_le_total a b h = ground (arith, cmp-flip a b)

pub text_lt_le : (a b : Text) → text_lt a b ≡ true → text_le a b ≡ true
text_lt_le a b h = ground arith

pub text_lt_trans_not :
    (a b c : Text) → text_lt a b ≡ true → text_lt c b ≡ false → text_lt a c ≡ true
text_lt_trans_not a b c h k = ground (arith, cmp_trans a b c, eq_of_cmp c b, cmp-flip c b)

pub text_lt_le_trans : (a b c : Text) → text_lt a b ≡ true → text_le b c ≡ true → text_lt a c ≡ true
text_lt_le_trans a b c h k = ground (arith, cmp_trans a b c, eq_of_cmp b c)
