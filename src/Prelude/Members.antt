-- ===== src/Prelude/Members.antt =====
-- Membership in a list, with the place kept.
use mathlib.Core.Path.{◌≡◌, refl, sym, ◌∙◌, ap}
use mathlib.Core.Logic.{◌⊎◌, inl, inr}
use mathlib.Core.Bool.{Bool, true, false}
use mathlib.Core.List.{List, [], ◌∷◌}
use pebble_db.Prelude.Tests.{if◌then◌else◌, Bool-cases}
use pebble_db.Prelude.Lookup.{keep}

module _ {A : Type 0} where
  abbrev pub In : A → List A → Type 0
  In x [] = ⊥
  In x (y ∷ ys) = (x ≡ y) ⊎ In x ys

  abbrev pub All {κ} : (A → Type κ) → List A → Type κ
  All P [] = Unit
  All P (x ∷ xs) = P x × All P xs

  pub In-keep : (p : A → Bool) (x : A) (xs : List A) → In x xs → p x ≡ true → In x (keep p xs)
  In-keep p x [] m h = m
  In-keep p x (y ∷ ys) (inl e) h = let here : p y ≡ true = ap p (sym e) ∙ h in rw here (inl e)
  In-keep p x (y ∷ ys) (inr m) h = elim (Bool-cases (p y)) [
    | inl kept ↦ rw kept (inr (In-keep p x ys m h))
    | inr gone ↦ rw gone (In-keep p x ys m h)
  ]

  keep_head :
      (p : A → Bool) (x y : A) (ys : List A) (b : Bool)
      → p y ≡ b
      → (In x (keep p ys) → In x ys × (p x ≡ true))
      → In x (if b then y ∷ keep p ys else keep p ys)
      → ((x ≡ y) ⊎ In x ys) × (p x ≡ true)
  keep_head p x y ys true k later (inl e) = (inl e, ap p e ∙ k)
  keep_head p x y ys true k later (inr m) = (inr (later m).0, (later m).1)
  keep_head p x y ys false k later m = (inr (later m).0, (later m).1)

  pub keep-In : (p : A → Bool) (x : A) (xs : List A) → In x (keep p xs) → In x xs × (p x ≡ true)
  keep-In p x [] m = absurd m
  keep-In p x (y ∷ ys) m = keep_head p x y ys (p y) refl (keep-In p x ys) m
