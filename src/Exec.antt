-- ===== src/Exec.antt =====
-- Methods that change a state and may fail: what was done before a failure stays done.
pub mod Triple
use pebble_db.Prelude.{Outcome, ok, err, panic, aborted, diverged}

abbrev pub Exec : Type 0 → Type 0 → Type 0
Exec S A = S → Outcome A × S

module _ {S A : Type 0} where
  abbrev pub pure : A → Exec S A
  pure a s = (ok a, s)

  abbrev pub lift : Outcome A → Exec S A
  lift r s = (r, s)

  abbrev pub reads : (S → A) → Exec S A
  reads f s = (ok (f s), s)

module _ {S : Type 0} where
  abbrev pub modify : (S → S) → Exec S (Unit {0})
  modify f s = (ok tt, f s)

module _ {S A B : Type 0} where
  -- What follows a call, which an unsuccessful call skips.
  abbrev pub follow : (A → Exec S B) → Outcome A → Exec S B
  follow f (ok a) s = f a s
  follow f (err e) s = (err e, s)
  follow f panic s = (panic, s)
  follow f aborted s = (aborted, s)
  follow f diverged s = (diverged, s)

  infixl 5 ◌>>=◌ ◌>>◌
  abbrev pub ◌>>=◌ : Exec S A → (A → Exec S B) → Exec S B
  ◌>>=◌ m f s = let r = m s in follow f r.0 r.1

  abbrev pub ◌>>◌ : Exec S A → Exec S B → Exec S B
  m >> n = m >>= λ _. n
