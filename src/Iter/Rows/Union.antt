-- ===== src/Iter/Rows/Union.antt =====
-- The map of several sources, of which an earlier one hides the later ones.
use pebble_db.Prelude.{
  inl, inr, List, [], ◌∷◌, ◌++◌, Option, none, some, Text, false, Bool-cases, text_eq,
  if◌then◌else◌, map, All,
}
use pebble_db.Prelude.{suc, ◌+◌, ◌≤◌, length, sum_of}
use pebble_db.Prelude.{◌≡◌, refl, sym, ◌∙◌, ap, arith}
use pebble_db.Prelude.Order.{text_eq_iff}
use pebble_db.Prelude.BTreeMap
use pebble_db.Prelude.BTreeMap.{BTreeMap}
use pebble_db.Prelude.BTreeMap.Laws.{get-insert, get-insert_ne}
use pebble_db.Prelude.BTreeMap.Ascending.{AllAbove, Ascending, insert-Ascending, AllAbove-insert}
use pebble_db.Iter.Merge.{has_key}
use pebble_db.Iter.Rows.{Rows, tail, head_key}

-- The rows of the first map, and of the second where the first has none.
overlay : Rows → Rows → Rows
overlay [] m = m
overlay (e ∷ es) m = BTreeMap.insert e.0 e.1 (overlay es m)

unfoldable pub union : List Rows → Rows
unfolding overlay
union [] = []
union (r ∷ rs) = overlay r (union rs)

abbrev pub or_else {ℓ} : {A : Type ℓ} → Option A → Option A → Option A
or_else none later = later
or_else (some a) later = some a

-- The first source that has the key.
unfoldable pub lookup : Text → List Rows → Option (Option Text)
lookup j [] = none
lookup j (r ∷ rs) = or_else (BTreeMap.get j r) (lookup j rs)

get-overlay :
    (j : Text) (r m : Rows)
    → BTreeMap.get j (overlay r m) ≡ or_else (BTreeMap.get j r) (BTreeMap.get j m)
unfolding overlay
get-overlay j [] m = unfold BTreeMap.get in refl
get-overlay j (e ∷ es) m = elim (Bool-cases (text_eq e.0 j)) [
  | inl same ↦
      let is : e.0 ≡ j = text_eq_iff e.0 j same in
      ap (λ i. BTreeMap.get i (BTreeMap.insert e.0 e.1 (overlay es m))) (sym is)
      ∙ get-insert e.0 e.1 (overlay es m)
      ∙ unfold BTreeMap.get in rw same refl
  | inr other ↦
      get-insert_ne e.0 j e.1 (overlay es m) other
      ∙ get-overlay j es m
      ∙ unfold BTreeMap.get in rw other refl
]

overlay-AllAbove : (k : Text) (r m : Rows) → AllAbove k r → AllAbove k m → AllAbove k (overlay r m)
unfolding overlay
overlay-AllAbove k [] m a b = b
overlay-AllAbove k (e ∷ es) m a b =
    AllAbove-insert k e.0 e.1 (overlay es m) a.0 (overlay-AllAbove k es m a.1 b)

overlay-Ascending : (r m : Rows) → Ascending m → Ascending (overlay r m)
unfolding overlay
overlay-Ascending [] m a = a
overlay-Ascending (e ∷ es) m a = insert-Ascending e.0 e.1 (overlay es m) (overlay-Ascending es m a)

insert-length :
    (k : Text) (v : Option Text) (m : Rows) → length (BTreeMap.insert k v m) ≤ suc (length m)
unfolding BTreeMap.insert
insert-length k v [] = omega arith
insert-length k v (e ∷ es) = ground (arith, insert-length k v es)

overlay-length : (r m : Rows) → length (overlay r m) ≤ length r + length m
unfolding overlay
overlay-length [] m = omega arith
overlay-length (e ∷ es) m = omega (arith, insert-length e.0 e.1 (overlay es m), overlay-length es m)

pub union-length : (rs : List Rows) → length (union rs) ≤ sum_of length rs
unfolding union
union-length [] = omega arith
union-length (r ∷ rs) = omega (arith, overlay-length r (union rs), union-length rs)

pub get-union : (j : Text) (rs : List Rows) → BTreeMap.get j (union rs) ≡ lookup j rs
unfolding union lookup
get-union j [] = unfold BTreeMap.get in refl
get-union j (r ∷ rs) =
    get-overlay j r (union rs) ∙ ap (λ o. or_else (BTreeMap.get j r) o) (get-union j rs)

pub union-Ascending : (rs : List Rows) → Ascending (union rs)
unfolding union
union-Ascending [] = tt
union-Ascending (r ∷ rs) = overlay-Ascending r (union rs) (union-Ascending rs)

pub union-AllAbove : (k : Text) (rs : List Rows) → All (AllAbove k) rs → AllAbove k (union rs)
unfolding union
union-AllAbove k [] a = tt
union-AllAbove k (r ∷ rs) a = overlay-AllAbove k r (union rs) a.0 (union-AllAbove k rs a.1)

-- The rows of a source without its head, if that has the key.
abbrev pub skip_rows : Text → Rows → Rows
skip_rows k r = if has_key (head_key r) k then tail r else r

pub get-skip_rows :
    (j k : Text) (r : Rows)
    → text_eq k j ≡ false
    → BTreeMap.get j (skip_rows k r) ≡ BTreeMap.get j r
unfolding BTreeMap.get
get-skip_rows j k [] h = refl
get-skip_rows j k (e ∷ es) h = ground (arith, text_eq_iff e.0 k)

pub lookup-skip_rows :
    (j k : Text) (rs : List Rows)
    → text_eq k j ≡ false
    → lookup j (map (skip_rows k) rs) ≡ lookup j rs
unfolding lookup
lookup-skip_rows j k [] h = refl
lookup-skip_rows j k (r ∷ rs) h =
    ap (λ o. or_else o (lookup j (map (skip_rows k) rs))) (get-skip_rows j k r h)
    ∙ ap (or_else (BTreeMap.get j r)) (lookup-skip_rows j k rs h)

pub lookup-append :
    (j : Text) (rs ss : List Rows) → lookup j (rs ++ ss) ≡ or_else (lookup j rs) (lookup j ss)
unfolding lookup
lookup-append j [] ss = refl
lookup-append j (r ∷ rs) ss = ground (arith, lookup-append j rs ss)
