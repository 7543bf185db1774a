-- ===== src/Iter/Merge/Children.antt =====
-- src/iter.rs: what `smallest` and `skip_key` do to children that keep the promises of a cursor.
use pebble_db.Prelude.{
  ℕ, zero, suc, ◌+◌, ◌≤◌, ◌<◌, List, [], ◌∷◌, ◌++◌, Option, none, some, Text, Bool-cases, inl, inr,
  map, length, length-append, get_elem?, sum_of,
}
use pebble_db.Prelude.{◌≡◌, refl, sym, ◌∙◌, ap, arith, append_assoc, append-nil}
use mathlib.Core.Path.{subst}
use pebble_db.Prelude.Order.{text_eq_refl}
use pebble_db.Prelude.BTreeMap.Ascending.{Ascending}
use pebble_db.Iter.Storage.{StorageIterator}
use pebble_db.Iter.Merge.{
  CurrentEntry, better, has_key, smallest_loop, smallest, skip_child, skip_key, value_at,
}
use pebble_db.Iter.Rows.{Rows, head_key, head_value, from}
use pebble_db.Iter.Rows.Union.{skip_rows}
use pebble_db.Iter.Rows.Least.{AllAscending, IsLeast, IsChoice, better-IsChoice}
use pebble_db.Iter.Cursor.{Cursor}

-- Each child is a cursor over its own source.
pub data Sources {I : Type 0} ⦃s : StorageIterator I⦄ (c : Cursor s)
    : List I → List Rows → Type 0 where
  no_source : Sources c [] []
  source :
      {it : I} {all : Rows} {its : List I} {alls : List Rows}
      → c.IsSource it all
      → Sources c its alls
      → Sources c (it ∷ its) (all ∷ alls)

-- Each child stands before what is left of its source.
pub data Each {I : Type 0} ⦃s : StorageIterator I⦄ (c : Cursor s)
    : List I → List Rows → List Rows → Type 0 where
  no_child : Each c [] [] []
  child :
      {it : I} {all rest : Rows} {its : List I} {alls rests : List Rows}
      → c.Views it all rest
      → Each c its alls rests
      → Each c (it ∷ its) (all ∷ alls) (rest ∷ rests)

module _ {I : Type 0} ⦃s : StorageIterator I⦄ (c : Cursor s) where
  pub Each-Sources :
      (its : List I) (alls rests : List Rows) → Each c its alls rests → Sources c its alls
  Each-Sources _ _ _ no_child = no_source
  Each-Sources (it ∷ its) (all ∷ alls) (rest ∷ rests) (child v e) =
      source (c.Views-IsSource it all rest v) (Each-Sources its alls rests e)

  pub Each-Ascending :
      (its : List I) (alls rests : List Rows) → Each c its alls rests → AllAscending rests
  Each-Ascending _ _ _ no_child = tt
  Each-Ascending (it ∷ its) (all ∷ alls) (rest ∷ rests) (child v e) =
      (c.Views-Ascending it all rest v, Each-Ascending its alls rests e)

  pub Sources-Ascending : (its : List I) (alls : List Rows) → Sources c its alls → AllAscending alls
  Sources-Ascending _ _ no_source = tt
  Sources-Ascending (it ∷ its) (all ∷ alls) (source h e) =
      (c.IsSource-Ascending it all h, Sources-Ascending its alls e)

  pub seek_to_first-Each :
      (its : List I) (alls : List Rows)
      → Sources c its alls
      → Each c (map s.seek_to_first its) alls alls
  seek_to_first-Each _ _ no_source = no_child
  seek_to_first-Each (it ∷ its) (all ∷ alls) (source h e) =
      child (c.seek_to_first-Views it all h) (seek_to_first-Each its alls e)

  pub seek-Each :
      (k : Text) (its : List I) (alls : List Rows)
      → Sources c its alls
      → Each c (map (s.seek k) its) alls (map (from k) alls)
  seek-Each k _ _ no_source = no_child
  seek-Each k (it ∷ its) (all ∷ alls) (source h e) =
      child (c.seek-Views k it all h) (seek-Each k its alls e)

  skip_child-Views :
      (k : Text) (it : I) (all rest : Rows)
      → c.Views it all rest
      → c.Views (skip_child k it) all (skip_rows k rest)
  unfolding skip_child
  skip_child-Views k it all rest v = elim (Bool-cases (has_key (head_key rest) k)) [
    | inl has ↦ rw (c.key-Views it all rest v, has) (c.advance-Views it all rest v)
    | inr other ↦ rw (c.key-Views it all rest v, other) v
  ]

  pub skip_key-Each :
      (k : Text) (its : List I) (alls rests : List Rows)
      → Each c its alls rests
      → Each c (skip_key k its) alls (map (skip_rows k) rests)
  unfolding skip_key
  skip_key-Each k _ _ _ no_child = no_child
  skip_key-Each k (it ∷ its) (all ∷ alls) (rest ∷ rests) (child v e) =
      child (skip_child-Views k it all rest v) (skip_key-Each k its alls rests e)

  pub value_at-Each :
      (i : ℕ) (its : List I) (alls rests : List Rows) (row : Rows)
      → Each c its alls rests
      → get_elem? rests i ≡ some row
      → value_at its i ≡ head_value row
  unfolding value_at
  value_at-Each i _ _ _ row no_child h = cc
  value_at-Each zero (it ∷ its) (all ∷ alls) (rest ∷ rests) row (child v e) h =
      let same : rest ≡ row = cc in c.value-Views it all rest v ∙ ap head_value same
  value_at-Each (suc i) (it ∷ its) (all ∷ alls) (rest ∷ rests) row (child v e) h =
      value_at-Each i its alls rests row e h

  smallest_loop-IsChoice :
      (best : Option CurrentEntry) (before : List Rows) (n : ℕ) (its : List I)
      (alls rests : List Rows)
      → n ≡ length before
      → Each c its alls rests
      → AllAscending before
      → IsChoice before best
      → IsChoice (before ++ rests) (smallest_loop n best its)
  unfolding smallest_loop
  smallest_loop-IsChoice best before n _ _ _ at no_child a h =
      subst (λ rs. IsChoice rs best) (sym (append-nil before)) h
  smallest_loop-IsChoice best before n (it ∷ its) (all ∷ alls) (rest ∷ rests) at (child v e) a h =
      let next : n + 1 ≡ length (before ++ rest ∷ []) =
        omega (arith, at, length-append before (rest ∷ [])) in
      let chosen : IsChoice (before ++ rest ∷ []) (better best (s.key it) n) =
        rw (c.key-Views it all rest v, at) (better-IsChoice before best rest a h) in
      let more : AllAscending (before ++ rest ∷ []) =
        snoc before a (c.Views-Ascending it all rest v) in
      subst (λ rs. IsChoice rs (smallest_loop (n + 1) (better best (s.key it) n) its))
        (append_assoc before (rest ∷ []) rests)
        (smallest_loop-IsChoice (better best (s.key it) n) (before ++ rest ∷ []) (n + 1) its alls
          rests next e more chosen)
    where
      snoc : (rs : List Rows) → AllAscending rs → Ascending rest → AllAscending (rs ++ rest ∷ [])
      snoc [] a r = (r, tt)
      snoc (x ∷ rs) a r = (a.0, snoc rs a.1 r)

  -- `smallest` picks the first of the children whose head is the least.
  pub smallest-IsChoice :
      (its : List I) (alls rests : List Rows)
      → Each c its alls rests
      → IsChoice rests (smallest its)
  unfolding smallest
  smallest-IsChoice its alls rests e = smallest_loop-IsChoice none [] 0 its alls rests refl e tt tt

  pub rest-remaining :
      (its : List I) (alls rests : List Rows)
      → Each c its alls rests
      → sum_of length rests ≤ sum_of s.remaining its
  rest-remaining _ _ _ no_child = omega arith
  rest-remaining (it ∷ its) (all ∷ alls) (rest ∷ rests) (child v e) =
      omega (arith, c.remaining-Views it all rest v, rest-remaining its alls rests e)

skip_rows-length : (k : Text) (r : Rows) → length (skip_rows k r) ≤ length r
skip_rows-length k [] = omega arith
skip_rows-length k (e ∷ es) = ground arith

skip-sum : (k : Text) (rs : List Rows) → sum_of length (map (skip_rows k) rs) ≤ sum_of length rs
skip-sum k [] = omega arith
skip-sum k (r ∷ rs) = omega (arith, skip_rows-length k r, skip-sum k rs)

skip-sum_less :
    (k : Text) (i : ℕ) (rs : List Rows) (row : Rows)
    → get_elem? rs i ≡ some row
    → head_key row ≡ some k
    → sum_of length (map (skip_rows k) rs) < sum_of length rs
skip-sum_less k i [] row at has = cc
skip-sum_less k zero ([] ∷ rs) row at has = cc
skip-sum_less k zero ((e ∷ es) ∷ rs) row at has =
    let same : e.0 ≡ k = cc in
    let shorter : length (skip_rows k (e ∷ es)) ≡ length es = rw (same, text_eq_refl k) refl in
    omega (arith, shorter, skip-sum k rs)
skip-sum_less k (suc i) (r ∷ rs) row at has =
    omega (arith, skip_rows-length k r, skip-sum_less k i rs row at has)

-- Skipping the choice leaves fewer rows.
pub skip-IsLeast :
    (rs : List Rows) (c : CurrentEntry)
    → IsLeast rs c
    → sum_of length (map (skip_rows c.key) rs) < sum_of length rs
skip-IsLeast rs c l = skip-sum_less c.key c.source rs l.row l.at l.has
