-- ===== src/Iter/Rows/Least.antt =====
-- The source that the merge picks: the first that has the least of the heads.
use pebble_db.Prelude.{
  ℕ, zero, suc, List, [], ◌∷◌, ◌++◌, Option, none, some, Text, true, Bool-cases, inl, inr, text_lt,
  text_le, text_eq, map, All, length, get_elem?,
}
use pebble_db.Prelude.{◌≡◌, refl, sym, ◌∙◌, ap, arith}
use mathlib.Core.Path.{subst}
use pebble_db.Prelude.Order.{
  cmp-flip, text_eq_refl, text_eq_iff, text_le_refl, text_le_trans, text_le_total, text_lt_le,
  text_lt_le_trans,
}
use pebble_db.Prelude.BTreeMap
use pebble_db.Prelude.BTreeMap.{BTreeMap}
use pebble_db.Prelude.BTreeMap.Ascending.{AllAbove, Ascending, AllAbove-trans, get-AllAbove}
use pebble_db.Iter.Merge.{CurrentEntry, better}
use pebble_db.Iter.Rows.{Rows, head_key, head_value, Ascending-ext}
use pebble_db.Iter.Rows.Union.{
  union, lookup, or_else, lookup-append, skip_rows, lookup-skip_rows, get-union, union-Ascending,
  union-AllAbove,
}

abbrev pub AllAscending : List Rows → Type 0
AllAscending rs = All (λ r. Ascending r) rs

-- The rows of a source start at `k` or above it.
abbrev pub IsAtLeast : Text → Rows → Type 0
IsAtLeast k [] = Unit
IsAtLeast k (e ∷ es) = text_le k e.0 ≡ true

-- The choice `c` among the sources `rs`.
pub record IsLeast (rs : List Rows) (c : CurrentEntry) : Type 0 where
  pub row : Rows
  pub at : get_elem? rs c.source ≡ some row
  pub has : head_key row ≡ some c.key
  pub least : All (IsAtLeast c.key) rs
  pub wins : lookup c.key rs ≡ some (head_value row)

abbrev pub IsChoice : List Rows → Option CurrentEntry → Type 0
IsChoice rs none = All (λ r. r ≡ []) rs
IsChoice rs (some c) = IsLeast rs c

All-snoc : (P : Rows → Type 0) (rs : List Rows) (r : Rows) → All P rs → P r → All P (rs ++ r ∷ [])
All-snoc P [] r a p = (p, tt)
All-snoc P (x ∷ rs) r a p = (a.0, All-snoc P rs r a.1 p)

get_elem?-append_left :
    (rs ss : List Rows) (i : ℕ) (r : Rows)
    → get_elem? rs i ≡ some r
    → get_elem? (rs ++ ss) i ≡ some r
get_elem?-append_left [] ss i r h = cc
get_elem?-append_left (x ∷ rs) ss zero r h = h
get_elem?-append_left (x ∷ rs) ss (suc i) r h = get_elem?-append_left rs ss i r h

get_elem?-last : (rs : List Rows) (r : Rows) → get_elem? (rs ++ r ∷ []) (length rs) ≡ some r
get_elem?-last [] r = refl
get_elem?-last (x ∷ rs) r = get_elem?-last rs r

-- Nothing is found below the heads.
lookup-under :
    (k : Text) (rs : List Rows)
    → AllAscending rs
    → All (λ r. IsAtLeast k r) rs
    → (j : Text) → text_lt j k ≡ true
    → lookup j rs ≡ none
unfolding lookup BTreeMap.get
lookup-under k [] a b j h = refl
lookup-under k ([] ∷ rs) a b j h = lookup-under k rs a.1 b.1 j h
lookup-under k ((e ∷ es) ∷ rs) a b j h =
    let less : text_lt j e.0 ≡ true = text_lt_le_trans j k e.0 h b.0 in
    ap (λ o. or_else o (lookup j rs))
      (get-AllAbove j (e ∷ es) (less, AllAbove-trans j e.0 es less a.0.0))
    ∙ lookup-under k rs a.1 b.1 j h

pub lookup-empty : (j : Text) (rs : List Rows) → All (λ r. r ≡ []) rs → lookup j rs ≡ none
unfolding lookup BTreeMap.get
lookup-empty j [] a = refl
lookup-empty j (r ∷ rs) a =
    ap (λ o. or_else (BTreeMap.get j o) (lookup j rs)) a.0 ∙ lookup-empty j rs a.1

empty_at_least : (k : Text) (rs : List Rows) → All (λ r. r ≡ []) rs → All (IsAtLeast k) rs
empty_at_least k [] a = tt
empty_at_least k (r ∷ rs) a = (subst (IsAtLeast k) (sym a.0) tt, empty_at_least k rs a.1)

lower :
    (j k : Text) (rs : List Rows) → text_le j k ≡ true → All (IsAtLeast k) rs → All (IsAtLeast j) rs
lower j k [] h a = tt
lower j k ([] ∷ rs) h a = (tt, lower j k rs h a.1)
lower j k ((e ∷ es) ∷ rs) h a = (text_le_trans j k e.0 h a.0, lower j k rs h a.1)

-- One more source that does not win.
keep_choice :
    (rs : List Rows) (c : CurrentEntry) (r : Rows)
    → IsLeast rs c
    → IsAtLeast c.key r
    → IsLeast (rs ++ r ∷ []) c
keep_choice rs c r l h = record {
  row = l.row;
  at = get_elem?-append_left rs (r ∷ []) c.source l.row l.at;
  has = l.has;
  least = All-snoc (IsAtLeast _) rs r l.least h;
  wins = lookup-append c.key rs (r ∷ []) ∙ ap (λ o. or_else o (lookup c.key (r ∷ []))) l.wins;
}

-- One more source that wins.
new_choice :
    (rs : List Rows) (e : Text × Option Text) (es : Rows)
    → All (IsAtLeast e.0) rs
    → lookup e.0 rs ≡ none
    → IsLeast (rs ++ (e ∷ es) ∷ []) (record { key = e.0; source = length rs })
new_choice rs e es least absent = record {
  row = e ∷ es;
  at = get_elem?-last rs (e ∷ es);
  has = refl;
  least = All-snoc (IsAtLeast _) rs (e ∷ es) least (text_le_refl e.0);
  wins =
      lookup-append e.0 rs ((e ∷ es) ∷ [])
      ∙ ap (λ o. or_else o (lookup e.0 ((e ∷ es) ∷ []))) absent
      ∙ unfold lookup BTreeMap.get in rw (text_eq_refl e.0) refl;
}

pub better-IsChoice :
    (rs : List Rows) (best : Option CurrentEntry) (r : Rows)
    → AllAscending rs
    → IsChoice rs best
    → IsChoice (rs ++ r ∷ []) (better best (head_key r) (length rs))
better-IsChoice rs none [] a h = All-snoc (λ r. r ≡ []) rs [] h refl
better-IsChoice rs (some c) [] a h = keep_choice rs c [] h tt
better-IsChoice rs none (e ∷ es) a h =
    new_choice rs e es (empty_at_least e.0 rs h) (lookup-empty e.0 rs h)
better-IsChoice rs (some c) (e ∷ es) a h = elim (Bool-cases (text_le c.key e.0)) [
  | inl above ↦ rw above (keep_choice rs c (e ∷ es) h above)
  | inr below ↦
      let less = text_le_total c.key e.0 below in
      rw below (
        new_choice rs e es (lower e.0 c.key rs (text_lt_le e.0 c.key less) h.least)
          (lookup-under c.key rs a h.least e.0 less))
]

pub skip_rows-AllAbove :
    (k : Text) (r : Rows) → Ascending r → IsAtLeast k r → AllAbove k (skip_rows k r)
skip_rows-AllAbove k [] a h = tt
skip_rows-AllAbove k (e ∷ es) a h = elim (Bool-cases (text_eq e.0 k)) [
  | inl same ↦ rw same (subst (λ i. AllAbove i es) (text_eq_iff e.0 k same) a.0)
  | inr other ↦
      let less : text_lt k e.0 ≡ true = ground (arith, cmp-flip k e.0) in
      rw other (less, AllAbove-trans k e.0 es less a.0)
]

skip-AllAbove :
    (k : Text) (rs : List Rows)
    → AllAscending rs
    → All (IsAtLeast k) rs
    → All (AllAbove k) (map (skip_rows k) rs)
skip-AllAbove k [] a h = tt
skip-AllAbove k (r ∷ rs) a h = (skip_rows-AllAbove k r a.0 h.0, skip-AllAbove k rs a.1 h.1)

-- The choice is the head of the map of the sources, and what is skipped for it leaves the tail.
pub union-IsLeast :
    (rs : List Rows) (c : CurrentEntry)
    → AllAscending rs
    → (l : IsLeast rs c) → union rs ≡ (c.key, head_value l.row) ∷ union (map (skip_rows c.key) rs)
union-IsLeast rs c a l =
    Ascending-ext (union rs) ((c.key, head_value l.row) ∷ rest) (union-Ascending rs)
      (
        union-AllAbove c.key (map (skip_rows c.key) rs) (skip-AllAbove c.key rs a l.least),
        union-Ascending (map (skip_rows c.key) rs),
      )
      same
  where
    rest : Rows
    rest = union (map (skip_rows c.key) rs)

    same :
        (j : Text) → BTreeMap.get j (union rs) ≡ BTreeMap.get j ((c.key, head_value l.row) ∷ rest)
    same j = get-union j rs ∙ elim (Bool-cases (text_eq c.key j)) [
      | inl here ↦
          ap (λ i. lookup i rs) (sym (text_eq_iff c.key j here))
          ∙ l.wins
          ∙ unfold BTreeMap.get in rw here refl
      | inr other ↦
          sym (lookup-skip_rows j c.key rs other)
          ∙ sym (get-union j (map (skip_rows c.key) rs))
          ∙ unfold BTreeMap.get in rw other refl
    ]
