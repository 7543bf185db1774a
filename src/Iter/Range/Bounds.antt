-- ===== src/Iter/Range/Bounds.antt =====
-- src/iter.rs: the bounds of a RangeIterator, on the rows of the map that it moves through.
use pebble_db.Prelude.{
  List, [], ◌∷◌, Option, none, some, Text, Bool, true, false, ◌&&◌, not, Bool-cases, inl, inr,
  text_lt, text_eq, if◌then◌else◌, All,
}
use pebble_db.Prelude.{◌≡◌, refl, sym, ◌∙◌, ap, arith}
use mathlib.Core.Path.{subst}
use pebble_db.Prelude.Order.{
  cmp-flip, cmp_trans, eq_of_cmp, text_le_total, text_eq_iff, text_lt_trans_not,
}
use pebble_db.Prelude.BTreeMap
use pebble_db.Prelude.BTreeMap.{BTreeMap}
use pebble_db.Prelude.BTreeMap.Ascending.{AllAbove, Ascending, AllAbove-trans, get-AllAbove}
use pebble_db.Iter.Merge.{is_some}
use pebble_db.Iter.Range.{Bound, unbounded, included, excluded, below_end}
use pebble_db.Iter.Rows.{Rows, from, from-Ascending, get-from}
use pebble_db.Iter.Rows.Union.{skip_rows, get-skip_rows}
use pebble_db.Iter.Rows.Least.{IsAtLeast, skip_rows-AllAbove}
use pebble_db.Iter.Rows.Visible.{visible, visible-Ascending}

-- Whether a key is above a lower bound.
abbrev pub above_start : Bound → Text → Bool
above_start unbounded j = true
above_start (included k) j = not (text_lt j k)
above_start (excluded k) j = text_lt k j

-- The rows above a lower bound.
abbrev pub rows_from : Bound → Rows → Rows
rows_from unbounded m = m
rows_from (included k) m = from k m
rows_from (excluded k) m = skip_rows k (from k m)

-- The pairs below an upper bound, up to the first row that has no value.
abbrev pub up_to : Bound → Rows → List (Text × Text)
up_to end [] = []
up_to end ((k, none) ∷ es) = []
up_to end ((k, some v) ∷ es) =
    let rest = up_to end es in if below_end end (some k) then (k, v) ∷ rest else []

abbrev AllValued : Rows → Type 0
AllValued m = All (λ e. is_some e.1 ≡ true) m

visible-AllValued : (m : Rows) → AllValued (visible false m)
visible-AllValued [] = tt
visible-AllValued ((k, none) ∷ es) = visible-AllValued es
visible-AllValued ((k, some v) ∷ es) = (refl, visible-AllValued es)

from-AllValued : (k : Text) (m : Rows) → AllValued m → AllValued (from k m)
from-AllValued k [] a = tt
from-AllValued k (e ∷ es) a = elim (Bool-cases (text_lt e.0 k)) [
  | inl below ↦ rw below (from-AllValued k es a.1)
  | inr above ↦ rw above a
]

skip_rows-AllValued : (k : Text) (m : Rows) → AllValued m → AllValued (skip_rows k m)
skip_rows-AllValued k [] a = tt
skip_rows-AllValued k (e ∷ es) a = elim (Bool-cases (text_eq e.0 k)) [
  | inl same ↦ rw same a.1
  | inr other ↦ rw other a
]

rows_from-AllValued : (start : Bound) (m : Rows) → AllValued m → AllValued (rows_from start m)
rows_from-AllValued unbounded m a = a
rows_from-AllValued (included k) m a = from-AllValued k m a
rows_from-AllValued (excluded k) m a = skip_rows-AllValued k (from k m) (from-AllValued k m a)

skip_rows-Ascending : (k : Text) (m : Rows) → Ascending m → Ascending (skip_rows k m)
skip_rows-Ascending k [] a = tt
skip_rows-Ascending k (e ∷ es) a = elim (Bool-cases (text_eq e.0 k)) [
  | inl same ↦ rw same a.1
  | inr other ↦ rw other a
]

rows_from-Ascending : (start : Bound) (m : Rows) → Ascending m → Ascending (rows_from start m)
rows_from-Ascending unbounded m a = a
rows_from-Ascending (included k) m a = from-Ascending k m a
rows_from-Ascending (excluded k) m a = skip_rows-Ascending k (from k m) (from-Ascending k m a)

from-IsAtLeast : (k : Text) (m : Rows) → IsAtLeast k (from k m)
from-IsAtLeast k [] = tt
from-IsAtLeast k (e ∷ es) = elim (Bool-cases (text_lt e.0 k)) [
  | inl below ↦ rw below (from-IsAtLeast k es)
  | inr above ↦ rw above (ground (arith, cmp-flip k e.0))
]

get-skip_from :
    (j k : Text) (m : Rows)
    → Ascending m
    → BTreeMap.get j (skip_rows k (from k m)) ≡ (if text_lt k j then BTreeMap.get j m else none)
get-skip_from j k m a = elim (Bool-cases (text_eq k j)) [
  | inl same ↦
      let above = skip_rows-AllAbove k (from k m) (from-Ascending k m a) (from-IsAtLeast k m) in
      let is : k ≡ j = text_eq_iff k j same in
      get-AllAbove j (skip_rows k (from k m))
        (subst (λ i. AllAbove i (skip_rows k (from k m))) is above)
      ∙ ground arith
  | inr other ↦ get-skip_rows j k (from k m) other ∙ get-from j k m a ∙ ground (arith, cmp-flip j k)
]

get-rows_from :
    (j : Text) (start : Bound) (m : Rows)
    → Ascending m
    → BTreeMap.get j (rows_from start m) ≡ (if above_start start j then BTreeMap.get j m else none)
get-rows_from j unbounded m a = refl
get-rows_from j (included k) m a = get-from j k m a ∙ ground arith
get-rows_from j (excluded k) m a = get-skip_from j k m a

-- A key below the bound is below a key that is not.
below_end-less :
    (end : Bound) (j k : Text)
    → below_end end (some j) ≡ true
    → below_end end (some k) ≡ false
    → text_lt j k ≡ true
below_end-less unbounded j k p q = cc
below_end-less (included end) j k p q =
    ground (arith, text_le_total k end, cmp-flip end k, cmp_trans j end k, eq_of_cmp j end)
below_end-less (excluded end) j k p q = text_lt_trans_not j end k p q

abbrev pub value_of : Option (Option Text) → Option Text
value_of none = none
value_of (some v) = v

get-up_to :
    (j : Text) (end : Bound) (m : Rows)
    → Ascending m
    → AllValued m
    → BTreeMap.get j (up_to end m)
      ≡ (if below_end end (some j) then value_of (BTreeMap.get j m) else none)
unfolding BTreeMap.get
get-up_to j end [] a w = ground arith
get-up_to j end ((k, none) ∷ es) a w = cc
get-up_to j end ((k, some v) ∷ es) a w = elim (Bool-cases (below_end end (some k))) [
  | inl below ↦ elim (Bool-cases (text_eq k j)) [
    | inl here ↦
        let is : k ≡ j = text_eq_iff k j here in
        rw (below, here, ap (λ i. below_end end (some i)) (sym is), below) refl
    | inr other ↦ rw (below, other) (get-up_to j end es a.1 w.1)
  ]
  | inr above ↦ rw above (elim (Bool-cases (below_end end (some j))) [
    | inl inside ↦
        let less = below_end-less end j k inside above in
        let absent : BTreeMap.get j es ≡ none =
          get-AllAbove j es (AllAbove-trans j k es less a.0) in
        rw (inside, absent) (ground (arith, text_eq_iff k j, cmp-flip j k))
    | inr outside ↦ rw outside refl
  ])
]

up_to-AllAbove : (j : Text) (end : Bound) (m : Rows) → AllAbove j m → AllAbove j (up_to end m)
up_to-AllAbove j end [] a = tt
up_to-AllAbove j end ((k, none) ∷ es) a = tt
up_to-AllAbove j end ((k, some v) ∷ es) a = elim (Bool-cases (below_end end (some k))) [
  | inl below ↦ rw below (a.0, up_to-AllAbove j end es a.1)
  | inr above ↦ rw above tt
]

up_to-Ascending : (end : Bound) (m : Rows) → Ascending m → Ascending (up_to end m)
up_to-Ascending end [] a = tt
up_to-Ascending end ((k, none) ∷ es) a = tt
up_to-Ascending end ((k, some v) ∷ es) a = elim (Bool-cases (below_end end (some k))) [
  | inl below ↦ rw below (up_to-AllAbove k end es a.0, up_to-Ascending end es a.1)
  | inr above ↦ rw above tt
]

get-visible :
    (j : Text) (m : Rows)
    → Ascending m
    → value_of (BTreeMap.get j (visible false m)) ≡ value_of (BTreeMap.get j m)
unfolding BTreeMap.get
get-visible j [] a = refl
get-visible j ((k, some v) ∷ es) a = ground (arith, get-visible j es a.1)
get-visible j ((k, none) ∷ es) a = elim (Bool-cases (text_eq k j)) [
  | inl here ↦
      let is : k ≡ j = text_eq_iff k j here in
      rw here
        (get-visible j es a.1 ∙ ap value_of (get-AllAbove j es (subst (λ i. AllAbove i es) is a.0)))
  | inr other ↦ rw other (get-visible j es a.1)
]

-- The rows between the bounds, as the pairs that are listed.
abbrev pub listed : Bound → Bound → Rows → List (Text × Text)
listed start end m = up_to end (rows_from start (visible false m))

pub listed-Ascending : (start end : Bound) (m : Rows) → Ascending m → Ascending (listed start end m)
listed-Ascending start end m a =
    up_to-Ascending end (rows_from start (visible false m))
      (rows_from-Ascending start (visible false m) (visible-Ascending false m a))

pub get-listed :
    (j : Text) (start end : Bound) (m : Rows)
    → Ascending m
    → BTreeMap.get j (listed start end m) ≡ (
        if above_start start j && below_end end (some j) then value_of (BTreeMap.get j m) else none)
get-listed j start end m a =
    let rows = rows_from start (visible false m) in
    let sorted = visible-Ascending false m a in
    let found = get-rows_from j start (visible false m) sorted in
    get-up_to j end rows (rows_from-Ascending start (visible false m) sorted)
      (rows_from-AllValued start (visible false m) (visible-AllValued m))
    ∙ ap (λ o. if below_end end (some j) then value_of o else none) found
    ∙ ground (arith, get-visible j m a)
