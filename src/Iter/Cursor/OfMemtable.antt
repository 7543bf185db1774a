-- ===== src/Iter/Cursor/OfMemtable.antt =====
-- MemtableIterator keeps the promises of a cursor.
use pebble_db.Prelude.{
  ℕ, zero, suc, ◌+◌, ◌-◌, ◌≤◌, List, [], ◌∷◌, Text, Option, none, some, Bool-cases, inl, inr,
  length, drop, get_elem?, length-drop, ltb, is_empty, if◌then◌else◌, text_lt, map,
}
use pebble_db.Prelude.{◌≡◌, refl, sym, ◌∙◌, ap, arith}
use mathlib.Core.Path.{subst}
use pebble_db.Prelude.BTreeMap.{BTreeMap}
use pebble_db.Prelude.BTreeMap.Ascending.{AllAbove, Ascending}
use pebble_db.Iter.Storage.{partition_point}
use pebble_db.Iter.Memtable.{
  MemtableEntry, MemtableIterator, value_of, in_range, new, seek_to_first, seek, advance, key,
  value_at, remaining,
}
use pebble_db.Iter.Rows.{Rows, tail, head_key, head_value, from}

module _ {V : Type 0} where
  pub partition_point-from :
      (k : Text) (xs : BTreeMap V) → drop (partition_point k xs) xs ≡ from k xs
  unfolding partition_point
  partition_point-from k [] = refl
  partition_point-from k (e ∷ es) = elim (Bool-cases (text_lt e.0 k)) [
    | inl below ↦ rw below (partition_point-from k es)
    | inr above ↦ rw above refl
  ]

  pub drop-Ascending : (n : ℕ) (xs : BTreeMap V) → Ascending xs → Ascending (drop n xs)
  drop-Ascending zero xs a = a
  drop-Ascending (suc n) [] a = tt
  drop-Ascending (suc n) (x ∷ xs) a = drop-Ascending n xs a.1

pub drop_all {ℓ} : {A : Type ℓ} (n : ℕ) (xs : List A) → length xs ≤ n → drop n xs ≡ []
drop_all zero [] h = refl
drop_all zero (x ∷ xs) h = absurd (omega arith)
drop_all (suc n) [] h = refl
drop_all (suc n) (x ∷ xs) h = drop_all n xs (omega arith)

pub tail-drop : (n : ℕ) (xs : Rows) → tail (drop n xs) ≡ drop (suc n) xs
tail-drop zero [] = refl
tail-drop zero (x ∷ xs) = refl
tail-drop (suc n) [] = refl
tail-drop (suc n) (x ∷ xs) = tail-drop n xs

abbrev key_of : Option (Text × Option Text) → Option Text
key_of o = elim o [ none ↦ none | some e ↦ some e.0 ]

abbrev value_in : Option (Text × Option Text) → Option Text
value_in o = elim o [ none ↦ none | some e ↦ e.1 ]

head_key-drop : (n : ℕ) (xs : Rows) → key_of (get_elem? xs n) ≡ head_key (drop n xs)
head_key-drop zero [] = refl
head_key-drop zero (x ∷ xs) = refl
head_key-drop (suc n) [] = refl
head_key-drop (suc n) (x ∷ xs) = head_key-drop n xs

head_value-drop : (n : ℕ) (xs : Rows) → value_in (get_elem? xs n) ≡ head_value (drop n xs)
head_value-drop zero [] = refl
head_value-drop zero (x ∷ xs) = refl
head_value-drop (suc n) [] = refl
head_value-drop (suc n) (x ∷ xs) = head_value-drop n xs

-- What is left of the entries at a position.
abbrev pub rest_at : Rows → Option ℕ → Rows
rest_at entries none = []
rest_at entries (some p) = drop p entries

rest_at-in_range : (entries : Rows) (i : ℕ) → rest_at entries (in_range entries i) ≡ drop i entries
rest_at-in_range entries i = elim (Bool-cases (ltb i (length entries))) [
  | inl inside ↦ rw inside refl
  | inr outside ↦ rw outside (sym (drop_all i entries (ground arith)))
]

abbrev pub IsSource : MemtableIterator → Rows → Type 0
IsSource it all = (it.entries ≡ all) × Ascending all

abbrev pub Views : MemtableIterator → Rows → Rows → Type 0
Views it all rest = IsSource it all × (rest_at it.entries it.pos ≡ rest)

rest_at-Ascending :
    (entries : Rows) (pos : Option ℕ) → Ascending entries → Ascending (rest_at entries pos)
rest_at-Ascending entries none a = tt
rest_at-Ascending entries (some p) a = drop-Ascending p entries a

key-rest_at : (it : MemtableIterator) → key it ≡ head_key (rest_at it.entries it.pos)
unfolding key
key-rest_at it =
    elim it.pos
      as (λ pos.
        key_of (elim pos [ none ↦ none | some p ↦ get_elem? it.entries p ])
        ≡ head_key (rest_at it.entries pos)) [ none ↦ refl | some p ↦ head_key-drop p it.entries ]

value_at-rest_at : (it : MemtableIterator) → value_at it ≡ head_value (rest_at it.entries it.pos)
unfolding value_at
value_at-rest_at it =
    elim it.pos
      as (λ pos.
        value_in (elim pos [ none ↦ none | some p ↦ get_elem? it.entries p ])
        ≡ head_value (rest_at it.entries pos)) [
          | none ↦ refl
          | some p ↦ head_value-drop p it.entries
        ]

advance-rest_at :
    (it : MemtableIterator) → rest_at it.entries (advance it).pos ≡ tail (rest_at it.entries it.pos)
unfolding advance
advance-rest_at it =
    elim it.pos
      as (λ pos.
        rest_at it.entries (elim pos [ none ↦ none | some p ↦ in_range it.entries (p + 1) ])
        ≡ tail (rest_at it.entries pos)) [
          | none ↦ refl
          | some p ↦
              let next : p + 1 ≡ suc p = omega arith in
              rest_at-in_range it.entries (p + 1)
              ∙ ap (λ (k : ℕ). drop k it.entries) next
              ∙ sym (tail-drop p it.entries)
        ]

rest_at-remaining : (it : MemtableIterator) → length (rest_at it.entries it.pos) ≤ remaining it
unfolding remaining
rest_at-remaining it =
    elim it.pos
      as (λ pos.
        length (rest_at it.entries pos) ≤ elim pos [ none ↦ 0 | some p ↦ length it.entries - p ]) [
          | none ↦ omega arith
          | some p ↦ omega (arith, length-drop p it.entries)
        ]

first_rows :
    (entries : Rows) → rest_at entries (if is_empty entries then none else some 0) ≡ entries
first_rows [] = refl
first_rows (x ∷ xs) = refl

-- The rows of a memtable.
abbrev pub rows_of : BTreeMap MemtableEntry → Rows
rows_of memtable = map (λ e. (e.0, value_of e.1)) memtable

pub rows_of-Ascending : (m : BTreeMap MemtableEntry) → Ascending m → Ascending (rows_of m)
rows_of-Ascending [] a = tt
rows_of-Ascending (e ∷ m) a = (above e.0 m a.0, rows_of-Ascending m a.1)
  where
    above : (k : Text) (m : BTreeMap MemtableEntry) → AllAbove k m → AllAbove k (rows_of m)
    above k [] a = tt
    above k (e ∷ m) a = (a.0, above k m a.1)

pub new-IsSource : (m : BTreeMap MemtableEntry) → Ascending m → IsSource (new m) (rows_of m)
unfolding new
new-IsSource m a = (refl, rows_of-Ascending m a)

pub Views-Ascending : (it : MemtableIterator) (all rest : Rows) → Views it all rest → Ascending rest
Views-Ascending it all rest v =
    subst Ascending v.1 (rest_at-Ascending it.entries it.pos (subst Ascending (sym v.0.0) v.0.1))

pub key-Views :
    (it : MemtableIterator) (all rest : Rows) → Views it all rest → key it ≡ head_key rest
key-Views it all rest v = key-rest_at it ∙ ap head_key v.1

pub value_at-Views :
    (it : MemtableIterator) (all rest : Rows) → Views it all rest → value_at it ≡ head_value rest
value_at-Views it all rest v = value_at-rest_at it ∙ ap head_value v.1

pub advance-Views :
    (it : MemtableIterator) (all rest : Rows)
    → Views it all rest
    → Views (advance it) all (tail rest)
unfolding advance
advance-Views it all rest v = (v.0, advance-rest_at it ∙ ap tail v.1)

pub seek_to_first-Views :
    (it : MemtableIterator) (all : Rows) → IsSource it all → Views (seek_to_first it) all all
unfolding seek_to_first
seek_to_first-Views it all h = (h, first_rows it.entries ∙ h.0)

pub seek-Views :
    (k : Text) (it : MemtableIterator) (all : Rows)
    → IsSource it all
    → Views (seek k it) all (from k all)
unfolding seek
seek-Views k it all h = (
  h,
  rest_at-in_range it.entries (partition_point k it.entries)
      ∙ partition_point-from k it.entries
      ∙ ap (from k) h.0,
)

pub remaining-Views :
    (it : MemtableIterator) (all rest : Rows) → Views it all rest → length rest ≤ remaining it
remaining-Views it all rest v = subst (λ r. length r ≤ remaining it) v.1 (rest_at-remaining it)
