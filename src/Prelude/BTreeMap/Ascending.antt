-- ===== src/Prelude/BTreeMap/Ascending.antt =====
-- Entries in strictly ascending key order, as every map of the program keeps them.
use Prim.Native.Nat.{Ordering}
use mathlib.Core.Bool.{true}
use mathlib.Core.List.{[], ◌∷◌, ◌++◌}
use mathlib.Core.Option.{none}
use mathlib.Core.Path.{◌≡◌, refl, sym, ap, ◌∙◌, subst}
use native.Mathlib.Omega.{arith}
use pebble_db.Prelude.Strings.{Text, cmp, text_lt, text_le}
use pebble_db.Prelude.Order.{eq_of_cmp, cmp-flip, text_lt_trans}
use pebble_db.Prelude.BTreeMap.{BTreeMap, insert, get}

module _ {ℓ} {V : Type ℓ} where
  -- Every key is greater than `k`.
  abbrev pub AllAbove : Text → BTreeMap V → Type 0
  AllAbove k [] = Unit
  AllAbove k (e ∷ es) = (text_lt k e.0 ≡ true) × AllAbove k es

  abbrev pub Ascending : BTreeMap V → Type 0
  Ascending [] = Unit
  Ascending (e ∷ es) = AllAbove e.0 es × Ascending es

  pub AllAbove-trans :
      (j k : Text) (m : BTreeMap V) → text_lt j k ≡ true → AllAbove k m → AllAbove j m
  AllAbove-trans j k [] h a = tt
  AllAbove-trans j k (e ∷ es) h a = (text_lt_trans j k e.0 h a.0, AllAbove-trans j k es h a.1)

  pub get-AllAbove : (k : Text) (m : BTreeMap V) → AllAbove k m → get k m ≡ none
  unfolding get
  get-AllAbove k [] a = refl
  get-AllAbove k (e ∷ es) a = ground (arith, a.0, cmp-flip k e.0, get-AllAbove k es a.1)

  -- The three ways to insert before or into an entry.
  insert_before :
      (k : Text) (v : V) (i : Text) (w : V) (m : BTreeMap V)
      → cmp k i ≡ Ordering.lt
      → insert k v ((i, w) ∷ m) ≡ (k, v) ∷ (i, w) ∷ m
  unfolding insert
  insert_before k v i w m p = ground arith

  insert_over :
      (k : Text) (v : V) (i : Text) (w : V) (m : BTreeMap V)
      → cmp k i ≡ Ordering.eq
      → insert k v ((i, w) ∷ m) ≡ (k, v) ∷ m
  unfolding insert
  insert_over k v i w m p = ground arith

  insert_after :
      (k : Text) (v : V) (i : Text) (w : V) (m : BTreeMap V)
      → cmp k i ≡ Ordering.gt
      → insert k v ((i, w) ∷ m) ≡ (i, w) ∷ insert k v m
  unfolding insert
  insert_after k v i w m p = ground arith

  pub AllAbove-insert :
      (j k : Text) (v : V) (m : BTreeMap V)
      → text_lt j k ≡ true
      → AllAbove j m
      → AllAbove j (insert k v m)
  AllAbove-insert j k v [] h a = unfold insert in (h, tt)
  AllAbove-insert j k v ((i, w) ∷ m) h a = go (cmp k i) refl (AllAbove-insert j k v m h a.1)
    where
      go :
          (o : Ordering)
          → cmp k i ≡ o
          → AllAbove j (insert k v m)
          → AllAbove j (insert k v ((i, w) ∷ m))
      go Ordering.lt p ih = subst (AllAbove j) (sym (insert_before k v i w m p)) (h, a)
      go Ordering.eq p ih = subst (AllAbove j) (sym (insert_over k v i w m p)) (h, a.1)
      go Ordering.gt p ih = subst (AllAbove j) (sym (insert_after k v i w m p)) (a.0, ih)

  -- `insert` keeps the order.
  pub insert-Ascending :
      (k : Text) (v : V) (m : BTreeMap V) → Ascending m → Ascending (insert k v m)
  insert-Ascending k v [] a = unfold insert in (tt, tt)
  insert-Ascending k v ((i, w) ∷ m) a = go (cmp k i) refl (insert-Ascending k v m a.1)
    where
      go :
          (o : Ordering)
          → cmp k i ≡ o
          → Ascending (insert k v m)
          → Ascending (insert k v ((i, w) ∷ m))
      go Ordering.lt p ih =
          let below : text_lt k i ≡ true = rw p refl in
          subst Ascending (sym (insert_before k v i w m p))
            ((below, AllAbove-trans k i m below a.0), a)
      go Ordering.eq p ih =
          let same : i ≡ k = sym (eq_of_cmp k i p) in
          subst Ascending (sym (insert_over k v i w m p)) (subst (λ j. AllAbove j m) same a.0, a.1)
      go Ordering.gt p ih =
          let above : text_lt i k ≡ true = ground (arith, cmp-flip k i) in
          subst Ascending (sym (insert_after k v i w m p)) (AllAbove-insert i k v m above a.0, ih)

  -- What stands before an entry is smaller, and what stands after it greater.
  pub get-append_above : (k : Text) (s t : BTreeMap V) → AllAbove k t → get k (s ++ t) ≡ get k s
  unfolding get
  get-append_above k [] t a = get-AllAbove k t a
  get-append_above k (e ∷ s) t a = ground (arith, get-append_above k s t a)

  pub AllAbove-append_left : (k : Text) (s t : BTreeMap V) → AllAbove k (s ++ t) → AllAbove k s
  AllAbove-append_left k [] t a = tt
  AllAbove-append_left k (e ∷ s) t a = (a.0, AllAbove-append_left k s t a.1)

  pub AllAbove-append_right : (k : Text) (s t : BTreeMap V) → AllAbove k (s ++ t) → AllAbove k t
  AllAbove-append_right k [] t a = a
  AllAbove-append_right k (e ∷ s) t a = AllAbove-append_right k s t a.1

  pub Ascending-append_left : (s t : BTreeMap V) → Ascending (s ++ t) → Ascending s
  Ascending-append_left [] t a = tt
  Ascending-append_left (e ∷ s) t a =
      (AllAbove-append_left e.0 s t a.0, Ascending-append_left s t a.1)

  pub Ascending-append_right : (s t : BTreeMap V) → Ascending (s ++ t) → Ascending t
  Ascending-append_right [] t a = a
  Ascending-append_right (e ∷ s) t a = Ascending-append_right s t a.1

  -- A key at or above the first of `t` is looked up in `t`, if `s` and `t` stand in order.
  pub get-append_below :
      (k : Text) (s t : BTreeMap V) (e : Text × V)
      → Ascending (s ++ e ∷ t)
      → text_le e.0 k ≡ true
      → get k (s ++ e ∷ t) ≡ get k (e ∷ t)
  unfolding get
  get-append_below k [] t e a h = refl
  get-append_below k (f ∷ s) t e a h =
      let above = AllAbove-append_right f.0 s (e ∷ t) a.0 in
      ground (arith, get-append_below k s t e a.1 h, above.0, eq_of_cmp f.0 k, cmp-flip e.0 k)

  -- A key above all others is inserted at the end.
  pub insert-append :
      (k : Text) (v : V) (m t : BTreeMap V)
      → Ascending (m ++ (k, v) ∷ t)
      → insert k v m ≡ m ++ (k, v) ∷ []
  insert-append k v [] t a = unfold insert in refl
  insert-append k v ((i, w) ∷ m) t a =
      let below : text_lt i k ≡ true = (AllAbove-append_right i m ((k, v) ∷ t) a.0).0 in
      let above : cmp k i ≡ Ordering.gt = ground (arith, cmp-flip i k) in
      insert_after k v i w m above ∙ ap (λ r. (i, w) ∷ r) (insert-append k v m t a.1)
