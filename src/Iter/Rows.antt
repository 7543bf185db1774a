-- ===== src/Iter/Rows.antt =====
-- What a cursor still has to yield, as the list of its rows in key order: the abstract view of
-- src/iter.rs. A row is a key with its value, or with none where the key is deleted.
pub mod Union
pub mod Least
pub mod Visible
use pebble_db.Prelude.{
  ℕ, suc, List, [], ◌∷◌, ◌++◌, Option, none, some, Text, Bool, true, false, Bool-cases, text_lt,
  text_le, text_eq, cmp, if◌then◌else◌,
}
use pebble_db.Prelude.{◌≡◌, ◌⊎◌, inl, inr, refl, sym, ◌∙◌, ap, arith}
use mathlib.Core.Path.{subst}
use Prim.Native.Nat.{Ordering}
use pebble_db.Prelude.Order.{
  cmp-flip, eq_of_cmp, text_eq_refl, text_eq_iff, text_lt_le, text_lt_trans, text_lt_trans_not,
}
use pebble_db.Prelude.BTreeMap
use pebble_db.Prelude.BTreeMap.{BTreeMap}
use pebble_db.Prelude.BTreeMap.Laws.{get-insert, get-insert_ne}
use pebble_db.Prelude.BTreeMap.Ascending.{
  AllAbove, Ascending, AllAbove-trans, get-AllAbove, insert-Ascending, AllAbove-append_right,
}

abbrev pub Rows : Type 0
Rows = BTreeMap (Option Text)

abbrev pub head_key : Rows → Option Text
head_key [] = none
head_key (e ∷ es) = some e.0

abbrev pub head_value : Rows → Option Text
head_value [] = none
head_value (e ∷ es) = e.1

module _ {ℓ} {V : Type ℓ} where
  abbrev pub tail : BTreeMap V → BTreeMap V
  tail [] = []
  tail (e ∷ es) = es

  -- The rows at or above a key.
  abbrev pub from : Text → BTreeMap V → BTreeMap V
  from k [] = []
  from k (e ∷ es) = if text_lt e.0 k then from k es else e ∷ es

  pub from-AllAbove : (j k : Text) (es : BTreeMap V) → AllAbove j es → AllAbove j (from k es)
  from-AllAbove j k [] a = tt
  from-AllAbove j k (e ∷ es) a = elim (Bool-cases (text_lt e.0 k)) [
    | inl below ↦ rw below (from-AllAbove j k es a.1)
    | inr above ↦ rw above a
  ]

  pub from-Ascending : (k : Text) (es : BTreeMap V) → Ascending es → Ascending (from k es)
  from-Ascending k [] a = tt
  from-Ascending k (e ∷ es) a = elim (Bool-cases (text_lt e.0 k)) [
    | inl below ↦ rw below (from-Ascending k es a.1)
    | inr above ↦ rw above a
  ]

  pub get-from :
      (j k : Text) (es : BTreeMap V)
      → Ascending es
      → BTreeMap.get j (from k es) ≡ (if text_lt j k then none else BTreeMap.get j es)
  unfolding BTreeMap.get
  get-from j k [] a = ground arith
  get-from j k (e ∷ es) a =
      let ih = get-from j k es a.1 in
      let gone = get-AllAbove j es in
      elim (Bool-cases (text_lt e.0 k)) [
        | inl below ↦ rw below (ground (arith, ih, text_eq_iff e.0 j))
        | inr above ↦ elim (Bool-cases (text_lt j k)) [
          | inl less ↦
              let under = text_lt_trans_not j k e.0 less above in
              rw (above, less) (get-AllAbove j (e ∷ es) (under, AllAbove-trans j e.0 es under a.0))
          | inr least ↦ rw (above, least) refl
        ]
      ]

  get-head : (e : Text × V) (m : BTreeMap V) → BTreeMap.get e.0 (e ∷ m) ≡ some e.1
  unfolding BTreeMap.get
  get-head e m = rw (text_eq_refl e.0) refl

  get-tail :
      (j : Text) (e : Text × V) (m : BTreeMap V)
      → text_eq e.0 j ≡ false
      → BTreeMap.get j (e ∷ m) ≡ BTreeMap.get j m
  unfolding BTreeMap.get
  get-tail j e m h = rw h refl

  get-under :
      (j : Text) (e : Text × V) (m : BTreeMap V)
      → Ascending (e ∷ m)
      → text_lt j e.0 ≡ true
      → BTreeMap.get j (e ∷ m) ≡ none
  get-under j e m a h = get-AllAbove j (e ∷ m) (h, AllAbove-trans j e.0 m h a.0)

  some-ne-none : {a : V} → Option.some a ≡ none → ⊥
  some-ne-none h = cc

  -- Maps in key order that answer the same have the same tails.
  tails_same :
      (e f : Text × V) (m n : BTreeMap V)
      → Ascending (e ∷ m)
      → Ascending (f ∷ n)
      → e.0 ≡ f.0
      → ((j : Text) → BTreeMap.get j (e ∷ m) ≡ BTreeMap.get j (f ∷ n))
      → (j : Text) → BTreeMap.get j m ≡ BTreeMap.get j n
  tails_same e f m n a b same h j = elim (Bool-cases (text_eq e.0 j)) [
    | inl here ↦
        let is : e.0 ≡ j = text_eq_iff e.0 j here in
        get-AllAbove j m (subst (λ i. AllAbove i m) is a.0)
        ∙ sym (get-AllAbove j n (subst (λ i. AllAbove i n) (sym same ∙ is) b.0))
    | inr other ↦
        sym (get-tail j e m other) ∙ h j ∙ get-tail j f n (ap (λ i. text_eq i j) (sym same) ∙ other)
  ]

  -- Maps in key order are equal when they answer the same.
  pub Ascending-ext :
      (m n : BTreeMap V)
      → Ascending m
      → Ascending n
      → ((j : Text) → BTreeMap.get j m ≡ BTreeMap.get j n)
      → m ≡ n
  Ascending-ext [] [] a b h = refl
  Ascending-ext [] (f ∷ n) a b h =
      absurd (some-ne-none (sym (get-head f n) ∙ sym (h f.0) ∙ get-AllAbove f.0 [] tt))
  Ascending-ext (e ∷ m) [] a b h =
      absurd (some-ne-none (sym (get-head e m) ∙ h e.0 ∙ get-AllAbove e.0 [] tt))
  Ascending-ext (e ∷ m) (f ∷ n) a b h = go (cmp e.0 f.0) refl (λ g. Ascending-ext m n a.1 b.1 g)
    where
      go :
          (o : Ordering)
          → cmp e.0 f.0 ≡ o
          → (((j : Text) → BTreeMap.get j m ≡ BTreeMap.get j n) → m ≡ n)
          → e ∷ m ≡ f ∷ n
      go Ordering.lt p ih =
          let under : text_lt e.0 f.0 ≡ true = rw p refl in
          absurd (some-ne-none (sym (get-head e m) ∙ h e.0 ∙ get-under e.0 f n b under))
      go Ordering.gt p ih =
          let under : text_lt f.0 e.0 ≡ true = ground (arith, cmp-flip e.0 f.0) in
          absurd (some-ne-none (sym (get-head f n) ∙ sym (h f.0) ∙ get-under f.0 e m a under))
      go Ordering.eq p ih =
          let same : e.0 ≡ f.0 = eq_of_cmp e.0 f.0 p in
          let value : some e.1 ≡ some f.1 =
            sym (get-head e m) ∙ h e.0 ∙ ap (λ i. BTreeMap.get i (f ∷ n)) same ∙ get-head f n in
          let rest = ih (tails_same e f m n a b same h) in cc
