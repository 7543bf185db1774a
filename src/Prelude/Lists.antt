-- ===== src/Prelude/Lists.antt =====
-- Sequences measured and cut by native numbers, under the library's names.
use Prim.Native.Nat.{ℕ, zero, suc, ◌+◌, ◌-◌, ◌≤◌, min}
use mathlib.Core.Path.{◌≡◌, refl, ap, ◌∙◌}
use mathlib.Core.List.{List, [], ◌∷◌, ◌++◌}
use mathlib.Core.Option.{Option, none, some}
use mathlib.Core.Bool.{Bool, true, false}
use native.Mathlib.Omega.{arith}
use native.Mathlib.Nat.{suc-add}

module _ {ℓ} {A : Type ℓ} where
  abbrev pub length : List A → ℕ
  length [] = 0
  length (x ∷ xs) = suc (length xs)

  abbrev pub get_elem? : List A → ℕ → Option A
  get_elem? [] i = none
  get_elem? (x ∷ xs) zero = some x
  get_elem? (x ∷ xs) (suc i) = get_elem? xs i

  -- `data[i]`, where `i` is known to be in range.
  abbrev pub get_or : List A → ℕ → A → A
  get_or [] i d = d
  get_or (x ∷ xs) zero d = x
  get_or (x ∷ xs) (suc i) d = get_or xs i d

  -- A write out of bounds changes nothing.
  abbrev pub set : List A → ℕ → A → List A
  set [] i v = []
  set (x ∷ xs) zero v = v ∷ xs
  set (x ∷ xs) (suc i) v = x ∷ set xs i v

  abbrev pub take : ℕ → List A → List A
  take zero xs = []
  take (suc n) [] = []
  take (suc n) (x ∷ xs) = x ∷ take n xs

  abbrev pub drop : ℕ → List A → List A
  drop zero xs = xs
  drop (suc n) [] = []
  drop (suc n) (x ∷ xs) = drop n xs

  abbrev pub replicate : ℕ → A → List A
  replicate zero a = []
  replicate (suc n) a = a ∷ replicate n a

  -- `data[i..j]`, for `i ≤ j ≤ data.len()`.
  abbrev pub slice : List A → ℕ → ℕ → List A
  slice xs i j = take (j - i) (drop i xs)

  abbrev pub is_empty : List A → Bool
  is_empty [] = true
  is_empty (x ∷ xs) = false

  abbrev pub concat : List (List A) → List A
  concat [] = []
  concat (xs ∷ xss) = xs ++ concat xss

-- The empty list, where nothing else says of what.
abbrev empty_list {ℓ} : (A : Type ℓ) → List A
empty_list A = []

module _ {ℓ} {A : Type ℓ} where
  pub length-append : (xs ys : List A) → length (xs ++ ys) ≡ length xs + length ys
  length-append [] ys = omega arith
  length-append (x ∷ xs) ys = omega (arith, length-append xs ys)

  pub length-take : (n : ℕ) (xs : List A) → length (take n xs) ≡ min n (length xs)
  length-take zero xs = omega arith
  length-take (suc n) [] = omega arith
  length-take (suc n) (x ∷ xs) = omega (arith, length-take n xs)

  pub length-drop : (n : ℕ) (xs : List A) → length (drop n xs) ≡ length xs - n
  length-drop zero xs = omega arith
  length-drop (suc n) [] = omega arith
  length-drop (suc n) (x ∷ xs) = omega (arith, length-drop n xs)

  pub length-set : (xs : List A) (i : ℕ) (v : A) → length (set xs i v) ≡ length xs
  length-set [] i v = refl
  length-set (x ∷ xs) zero v = refl
  length-set (x ∷ xs) (suc i) v = ap suc (length-set xs i v)

  pub length-replicate : (n : ℕ) (a : A) → length (replicate n a) ≡ n
  length-replicate zero a = refl
  length-replicate (suc n) a = ap suc (length-replicate n a)

  -- Cutting at the seam of an append.
  pub take_append : (xs ys : List A) → take (length xs) (xs ++ ys) ≡ xs
  take_append [] ys = refl
  take_append (x ∷ xs) ys = ap (λ t. x ∷ t) (take_append xs ys)

  pub drop_append : (xs ys : List A) → drop (length xs) (xs ++ ys) ≡ ys
  drop_append [] ys = refl
  drop_append (x ∷ xs) ys = drop_append xs ys

  pub take_all : (n : ℕ) (xs : List A) → length xs ≤ n → take n xs ≡ xs
  take_all zero [] h = refl
  take_all zero (x ∷ xs) h = absurd (omega arith)
  take_all (suc n) [] h = refl
  take_all (suc n) (x ∷ xs) h = ap (λ t. x ∷ t) (take_all n xs (omega arith))

  pub drop-add : (n m : ℕ) (xs : List A) → drop (n + m) xs ≡ drop m (drop n xs)
  drop-add zero m xs = ap (λ (t : ℕ). drop t xs) (omega arith)
  drop-add (suc n) zero [] = ap (λ (t : ℕ). drop t []) (suc-add n zero)
  drop-add (suc n) (suc m) [] = ap (λ (t : ℕ). drop t []) (suc-add n (suc m))
  drop-add (suc n) m (x ∷ xs) = rw (suc-add n m) (drop-add n m xs)

  -- Reading at a position: the part that starts there, and what follows it.
  pub slice_at :
      (whole : List A) (i j : ℕ) (xs ys : List A)
      → drop i whole ≡ xs ++ ys
      → j ≡ i + length xs
      → slice whole i j ≡ xs
  slice_at whole i j xs ys e f =
      let size : j - i ≡ length xs = omega arith in rw (e, size) (take_append xs ys)

  pub drop_next :
      (whole : List A) (i j : ℕ) (xs ys : List A)
      → drop i whole ≡ xs ++ ys
      → j ≡ i + length xs
      → drop j whole ≡ ys
  drop_next whole i j xs ys e f = rw (f, drop-add i (length xs) whole, e) (drop_append xs ys)

  pub take_part : (n : ℕ) (xs ys : List A) → n ≡ length xs → take n (xs ++ ys) ≡ xs
  take_part n xs ys e = rw e (take_append xs ys)

  take_nil : (n : ℕ) → [] ≡ take n (empty_list A)
  take_nil zero = refl
  take_nil (suc n) = refl

  pub take-take : (m n : ℕ) (xs : List A) → m ≤ n → take m (take n xs) ≡ take m xs
  take-take zero n xs h = refl
  take-take (suc m) zero xs h = absurd (omega arith)
  take-take (suc m) (suc n) [] h = refl
  take-take (suc m) (suc n) (x ∷ xs) h = ap (λ t. x ∷ t) (take-take m n xs (omega arith))

  pub drop-take : (m n : ℕ) (xs : List A) → drop m (take n xs) ≡ take (n - m) (drop m xs)
  drop-take zero n xs = let all : n ≡ n - zero = omega arith in ap (λ (t : ℕ). take t xs) all
  drop-take (suc m) zero xs =
      let none_left : zero ≡ zero - suc m = omega arith in
      ap (λ (t : ℕ). take t (drop (suc m) xs)) none_left
  drop-take (suc m) (suc n) [] = take_nil (suc n - suc m)
  drop-take (suc m) (suc n) (x ∷ xs) =
      let less : n - m ≡ suc n - suc m = omega arith in
      drop-take m n xs ∙ ap (λ (t : ℕ). take t (drop m xs)) less
