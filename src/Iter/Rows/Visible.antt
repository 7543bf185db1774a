-- ===== src/Iter/Rows/Visible.antt =====
-- The rows that a merge shows of the map of its sources.
use pebble_db.Prelude.{
  ◌≤◌, List, [], ◌∷◌, Option, none, Text, Bool, true, false, Bool-cases, ◌||◌, inl, inr, text_lt,
  if◌then◌else◌, map, All, length,
}
use pebble_db.Prelude.{◌≡◌, refl, sym, ◌∙◌, ap, arith}
use pebble_db.Prelude.BTreeMap
use pebble_db.Prelude.BTreeMap.Ascending.{AllAbove, Ascending}
use pebble_db.Prelude.Order.{text_lt_trans}
use pebble_db.Iter.Merge.{CurrentEntry, is_some}
use pebble_db.Iter.Rows.{Rows, head_value, from, from-Ascending, get-from, Ascending-ext}
use pebble_db.Iter.Rows.Union.{union, lookup, get-union, union-Ascending, skip_rows}
use pebble_db.Iter.Rows.Least.{AllAscending, IsLeast, lookup-empty, union-IsLeast}

abbrev pub shows : Bool → Option Text → Bool
shows keep v = keep || is_some v

-- The rows that a merge shows.
abbrev pub visible : Bool → Rows → Rows
visible keep [] = []
visible keep (e ∷ es) = let rest = visible keep es in if shows keep e.1 then e ∷ rest else rest

pub union-empty : (rs : List Rows) → All (λ r. r ≡ []) rs → union rs ≡ []
union-empty rs a =
    Ascending-ext (union rs) [] (union-Ascending rs) tt
      (λ j. get-union j rs ∙ lookup-empty j rs a ∙ unfold BTreeMap.get in refl)

-- What is below a choice in the map of the children.
pub visible-IsLeast :
    (keep : Bool) (rs : List Rows) (c : CurrentEntry)
    → AllAscending rs
    → (l : IsLeast rs c)
    → visible keep (union rs)
      ≡ visible keep ((c.key, head_value l.row) ∷ union (map (skip_rows c.key) rs))
visible-IsLeast keep rs c a l = ap (visible keep) (union-IsLeast rs c a l)

lookup-from :
    (j k : Text) (rs : List Rows)
    → AllAscending rs
    → lookup j (map (from k) rs) ≡ (if text_lt j k then none else lookup j rs)
unfolding lookup
lookup-from j k [] a = ground arith
lookup-from j k (r ∷ rs) a =
    let ih = lookup-from j k rs a.1 in
    let head = get-from j k r a.0 in
    elim (Bool-cases (text_lt j k)) [
      | inl below ↦ rw (head, ih, below) refl
      | inr above ↦ rw (head, ih, above) refl
    ]

-- Seeking in each source is seeking in their map.
pub union-from :
    (k : Text) (rs : List Rows) → AllAscending rs → union (map (from k) rs) ≡ from k (union rs)
union-from k rs a =
    Ascending-ext (union (map (from k) rs)) (from k (union rs)) (union-Ascending (map (from k) rs))
      (from-Ascending k (union rs) (union-Ascending rs))
      (λ j.
        get-union j (map (from k) rs)
        ∙ lookup-from j k rs a
        ∙ ap (λ o. if text_lt j k then none else o) (sym (get-union j rs))
        ∙ sym (get-from j k (union rs) (union-Ascending rs)))

-- Above a key that is not below `k` there is nothing below `k`.
from-AllAbove_same : (j k : Text) (m : Rows) → text_lt j k ≡ false → AllAbove j m → from k m ≡ m
from-AllAbove_same j k [] h a = refl
from-AllAbove_same j k (e ∷ es) h a = elim (Bool-cases (text_lt e.0 k)) [
  | inl below ↦ absurd (clash (text_lt_trans j e.0 k a.0 below) h)
  | inr above ↦ rw above refl
]
  where
    clash : text_lt j k ≡ true → text_lt j k ≡ false → ⊥
    clash p q = cc

visible-AllAbove : (keep : Bool) (k : Text) (m : Rows) → AllAbove k m → AllAbove k (visible keep m)
visible-AllAbove keep k [] a = tt
visible-AllAbove keep k (e ∷ es) a = elim (Bool-cases (shows keep e.1)) [
  | inl seen ↦ rw seen (a.0, visible-AllAbove keep k es a.1)
  | inr unseen ↦ rw unseen (visible-AllAbove keep k es a.1)
]

pub visible-Ascending : (keep : Bool) (m : Rows) → Ascending m → Ascending (visible keep m)
visible-Ascending keep [] a = tt
visible-Ascending keep (e ∷ es) a = elim (Bool-cases (shows keep e.1)) [
  | inl seen ↦ rw seen (visible-AllAbove keep e.0 es a.0, visible-Ascending keep es a.1)
  | inr unseen ↦ rw unseen (visible-Ascending keep es a.1)
]

pub visible-length : (keep : Bool) (m : Rows) → length (visible keep m) ≤ length m
visible-length keep [] = omega arith
visible-length keep (e ∷ es) = ground (arith, visible-length keep es)

pub visible-from :
    (keep : Bool) (k : Text) (m : Rows)
    → Ascending m
    → visible keep (from k m) ≡ from k (visible keep m)
visible-from keep k [] a = refl
visible-from keep k (e ∷ es) a =
    let ih = visible-from keep k es a.1 in
    elim (Bool-cases (text_lt e.0 k)) [
      | inl below ↦ elim (Bool-cases (shows keep e.1)) [
        | inl seen ↦ rw (below, seen, below) ih
        | inr unseen ↦ rw (below, unseen) ih
      ]
      | inr above ↦ elim (Bool-cases (shows keep e.1)) [
        | inl seen ↦ rw (above, seen, above) refl
        | inr unseen ↦
            rw (above, unseen)
              (sym (
                from-AllAbove_same e.0 k (visible keep es) above
                  (visible-AllAbove keep e.0 es a.0)))
      ]
    ]
