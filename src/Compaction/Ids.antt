-- ===== src/Compaction/Ids.antt =====
-- The lists that the picker builds: which files they name, and the ranges that they span.
use pebble_db.Prelude.{ℕ, ◌≤◌, List, [], ◌∷◌, Bool, true, false, Text, In, inl, inr, ◌⊎◌}
use pebble_db.Prelude.{◌≡◌, refl, sym, ap, arith, text_le, text_lt, leb, ltb, if◌then◌else◌}
use pebble_db.Prelude.Order.{text_le_refl, text_le_trans, cmp-flip}
use pebble_db.Compaction.{FileMeta, insert_id, ids, oldest, deepest, least, greatest}

In-insert_id : (n : ℕ) (ms : List ℕ) (k : ℕ) → (k ≡ n) ⊎ In k ms → In k (insert_id n ms)
unfolding insert_id
In-insert_id n [] k m = m
In-insert_id n (x ∷ ms) k m = insert_id_cases n x ms k (leb x n) (In-insert_id n ms k) m
  where
    insert_id_cases :
        (n x : ℕ) (ms : List ℕ) (k : ℕ) (b : Bool)
        → ((k ≡ n) ⊎ In k ms → In k (insert_id n ms))
        → (k ≡ n) ⊎ ((k ≡ x) ⊎ In k ms)
        → In k (if b then n ∷ x ∷ ms else x ∷ insert_id n ms)
    insert_id_cases n x ms k true later m = m
    insert_id_cases n x ms k false later (inl e) = inr (later (inl e))
    insert_id_cases n x ms k false later (inr (inl e)) = inl e
    insert_id_cases n x ms k false later (inr (inr m)) = inr (later (inr m))

pub In-ids : (f : FileMeta) (fs : List FileMeta) → In f fs → In f.id (ids fs)
unfolding ids
In-ids f [] m = m
In-ids f (g ∷ fs) (inl e) = In-insert_id g.id (ids fs) f.id (inl (ap (λ h. h.id) e))
In-ids f (g ∷ fs) (inr m) = In-insert_id g.id (ids fs) f.id (inr (In-ids f fs m))

insert_id_head :
    (n x : ℕ) (ms : List ℕ) (k : ℕ) (b : Bool)
    → (In k (insert_id n ms) → (k ≡ n) ⊎ In k ms)
    → In k (if b then n ∷ x ∷ ms else x ∷ insert_id n ms)
    → (k ≡ n) ⊎ ((k ≡ x) ⊎ In k ms)
insert_id_head n x ms k true later m = m
insert_id_head n x ms k false later (inl e) = inr (inl e)
insert_id_head n x ms k false later (inr m) = elim (later m) [
  | inl e ↦ inl e
  | inr m' ↦ inr (inr m')
]

insert_id-In : (n : ℕ) (ms : List ℕ) (k : ℕ) → In k (insert_id n ms) → (k ≡ n) ⊎ In k ms
unfolding insert_id
insert_id-In n [] k m = m
insert_id-In n (x ∷ ms) k m = insert_id_head n x ms k (leb x n) (insert_id-In n ms k) m

-- A number of the list is the number of a file.
pub ids-In : (n : ℕ) (fs : List FileMeta) → In n (ids fs) → (f : FileMeta) × In f fs × (f.id ≡ n)
unfolding ids
ids-In n [] m = absurd m
ids-In n (g ∷ fs) m = elim (insert_id-In g.id (ids fs) n m) [
  | inl e ↦ (g, inl refl, sym e)
  | inr later ↦ let (f, there, e) = ids-In n fs later in (f, inr there, e)
]

oldest_round :
    (x best f : FileMeta) (fs : List FileMeta) (b : Bool)
    → In x ((if b then f else best) ∷ fs)
    → In x (best ∷ f ∷ fs)
oldest_round x best f fs true m = inr m
oldest_round x best f fs false (inl e) = inl e
oldest_round x best f fs false (inr m) = inr (inr m)

pub oldest-In : (best : FileMeta) (fs : List FileMeta) → In (oldest best fs) (best ∷ fs)
oldest-In best [] = inl refl
oldest-In best (f ∷ fs) =
    oldest_round _ best f fs (ltb f.id best.id)
      (oldest-In (if ltb f.id best.id then f else best) fs)

pub le-deepest : (f : FileMeta) (fs : List FileMeta) → In f fs → f.level ≤ deepest fs
le-deepest f [] m = absurd m
le-deepest f (g ∷ fs) (inl e) = omega (arith, ap (λ h. h.level) e)
le-deepest f (g ∷ fs) (inr m) = omega (arith, le-deepest f fs m)

-- The least key is at most each key, and the greatest at least each.
smaller_le :
    (a b : Text)
    → (text_le (if text_lt a b then a else b) a ≡ true)
      × (text_le (if text_lt a b then a else b) b ≡ true)
smaller_le a b = ground (arith, text_le_refl a, text_le_refl b, cmp-flip a b)

larger_ge :
    (a b : Text)
    → (text_le a (if text_le b a then a else b) ≡ true)
      × (text_le b (if text_le b a then a else b) ≡ true)
larger_ge a b = ground (arith, text_le_refl a, text_le_refl b, cmp-flip a b)

module _ (key : FileMeta → Text) where
  least-le_first : (best : Text) (fs : List FileMeta) → text_le (least key best fs) best ≡ true
  least-le_first best [] = text_le_refl best
  least-le_first best (f ∷ fs) =
      let best' : Text = if text_lt (key f) best then key f else best in
      text_le_trans (least key best' fs) best' best (least-le_first best' fs)
        (smaller_le (key f) best).1

  pub least-le :
      (best : Text) (fs : List FileMeta) (g : FileMeta)
      → (key g ≡ best) ⊎ In g fs
      → text_le (least key best fs) (key g) ≡ true
  least-le best fs g (inl e) = rw e (least-le_first best fs)
  least-le best [] g (inr m) = absurd m
  least-le best (f ∷ fs) g (inr (inr m)) =
      least-le (if text_lt (key f) best then key f else best) fs g (inr m)
  least-le best (f ∷ fs) g (inr (inl e)) =
      let best' : Text = if text_lt (key f) best then key f else best in
      rw e (
        text_le_trans (least key best' fs) best' (key f) (least-le_first best' fs)
          (smaller_le (key f) best).0)

  greatest-ge_first :
      (best : Text) (fs : List FileMeta) → text_le best (greatest key best fs) ≡ true
  greatest-ge_first best [] = text_le_refl best
  greatest-ge_first best (f ∷ fs) =
      let best' : Text = if text_le best (key f) then key f else best in
      text_le_trans best best' (greatest key best' fs) (larger_ge (key f) best).1
        (greatest-ge_first best' fs)

  pub greatest-ge :
      (best : Text) (fs : List FileMeta) (g : FileMeta)
      → (key g ≡ best) ⊎ In g fs
      → text_le (key g) (greatest key best fs) ≡ true
  greatest-ge best fs g (inl e) = rw e (greatest-ge_first best fs)
  greatest-ge best [] g (inr m) = absurd m
  greatest-ge best (f ∷ fs) g (inr (inr m)) =
      greatest-ge (if text_le best (key f) then key f else best) fs g (inr m)
  greatest-ge best (f ∷ fs) g (inr (inl e)) =
      let best' : Text = if text_le best (key f) then key f else best in
      rw e (
        text_le_trans (key f) best' (greatest key best' fs) (larger_ge (key f) best).0
          (greatest-ge_first best' fs))
