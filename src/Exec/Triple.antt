-- ===== src/Exec/Triple.antt =====
-- Statements on what a method leaves, whether it succeeds or not.
use pebble_db.Prelude.{Outcome, ok, err, panic, aborted, diverged, ◌≡◌, refl}
use pebble_db.Exec.{Exec, follow, ◌>>=◌}

module _ {S A : Type 0} where
  -- After a success `Q` holds of the result and the state, and after a failure `I` of the state.
  abbrev pub Leaves : (S → Type 0) → (A → S → Type 0) → Outcome A → S → Type 0
  Leaves I Q (ok a) s = Q a s
  Leaves I Q _ s = I s

  abbrev pub Triple : (S → Type 0) → (S → Type 0) → Exec S A → (A → S → Type 0) → Type 0
  Triple I P m Q = (s : S) → P s → Leaves I Q (m s).0 (m s).1

  pub Leaves-both :
      (I : S → Type 0) (Q : A → S → Type 0) (o : Outcome A) (s : S)
      → I s
      → ((a : A) → o ≡ ok a → Q a s)
      → Leaves I Q o s
  Leaves-both I Q (ok a) s i q = q a refl
  Leaves-both I Q (err e) s i q = i
  Leaves-both I Q panic s i q = i
  Leaves-both I Q aborted s i q = i
  Leaves-both I Q diverged s i q = i

module _ {S A B : Type 0} (I : S → Type 0) (Q : A → S → Type 0) (R : B → S → Type 0) where
  Leaves-follow :
      (k : A → Exec S B) (o : Outcome A) (s : S)
      → ((a : A) → Triple I (Q a) (k a) R)
      → Leaves I Q o s
      → Leaves I R (follow k o s).0 (follow k o s).1
  Leaves-follow k (ok a) s h q = h a s q
  Leaves-follow k (err e) s h q = q
  Leaves-follow k panic s h q = q
  Leaves-follow k aborted s h q = q
  Leaves-follow k diverged s h q = q

  pub Triple-bind :
      (P : S → Type 0) (m : Exec S A) (k : A → Exec S B)
      → Triple I P m Q
      → ((a : A) → Triple I (Q a) (k a) R)
      → Triple I P (m >>= k) R
  Triple-bind P m k h g s p = Leaves-follow k (m s).0 (m s).1 g (h s p)
