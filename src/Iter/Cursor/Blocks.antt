-- ===== src/Iter/Cursor/Blocks.antt =====
-- The entries of a table as rows, and what is left of its blocks.
use pebble_db.Prelude.{
  ℕ, zero, suc, ◌+◌, ◌<◌, List, [], ◌∷◌, ◌++◌, Text, Option, none, some, Bool-cases, ◌⊎◌, inl, inr,
  length, drop, get_elem?, text_lt, map, concat,
}
use pebble_db.Prelude.{◌≡◌, refl, ◌∙◌, ap, arith}
use pebble_db.Prelude.BTreeMap.Ascending.{AllAbove, Ascending}
use pebble_db.Sstable.Block.{Entries}
use pebble_db.Iter.Table.{value_part}
use pebble_db.Iter.Rows.{Rows, tail, head_value, from, from-Ascending}
use pebble_db.Iter.Rows as Rows
use pebble_db.Iter.Cursor.Seek.{or_empty}

-- The rows of the entries of a table.
abbrev pub rows_of : Entries → Rows
rows_of es = map (λ e. (e.0, value_part e.1)) es

pub later_split :
    (bs : List Entries) (n : ℕ)
    → concat (drop n bs) ≡ or_empty (get_elem? bs n) ++ concat (drop (suc n) bs)
later_split [] zero = refl
later_split [] (suc n) = refl
later_split (b ∷ bs) zero = refl
later_split (b ∷ bs) (suc n) = later_split bs n

pub tail-append :
    (i : ℕ) (xs ys : Entries) → i < length xs → drop (i + 1) xs ++ ys ≡ tail (drop i xs ++ ys)
tail-append i xs ys h =
    let next : i + 1 ≡ suc i = omega arith in ap (λ (j : ℕ). drop j xs ++ ys) next ∙ go i xs h
  where
    go : (i : ℕ) (xs : Entries) → i < length xs → drop (suc i) xs ++ ys ≡ tail (drop i xs ++ ys)
    go i [] h = absurd (omega arith)
    go zero (x ∷ xs) h = refl
    go (suc i) (x ∷ xs) h = go i xs (omega arith)

pub key_at :
    (i : ℕ) (xs ys : Entries)
    → (i < length xs) ⊎ (ys ≡ [])
    → elim (get_elem? xs i) as (λ _. Option Text) [ none ↦ none | some e ↦ some e.0 ]
      ≡ Rows.head_key (rows_of (drop i xs ++ ys))
key_at i [] ys (inl h) = absurd (omega arith)
key_at zero [] ys (inr h) = rw h refl
key_at (suc i) [] ys (inr h) = rw h refl
key_at zero (x ∷ xs) ys h = refl
key_at (suc i) (x ∷ xs) ys (inl h) = key_at i xs ys (inl (omega arith))
key_at (suc i) (x ∷ xs) ys (inr h) = key_at i xs ys (inr h)

pub value_in :
    (i : ℕ) (xs ys : Entries)
    → (i < length xs) ⊎ (ys ≡ [])
    → elim (get_elem? xs i) as (λ _. Option Text) [ none ↦ none | some e ↦ value_part e.1 ]
      ≡ head_value (rows_of (drop i xs ++ ys))
value_in i [] ys (inl h) = absurd (omega arith)
value_in zero [] ys (inr h) = rw h refl
value_in (suc i) [] ys (inr h) = rw h refl
value_in zero (x ∷ xs) ys h = refl
value_in (suc i) (x ∷ xs) ys (inl h) = value_in i xs ys (inl (omega arith))
value_in (suc i) (x ∷ xs) ys (inr h) = value_in i xs ys (inr h)

pub rows-length : (es : Entries) → length (rows_of es) ≡ length es
rows-length [] = refl
rows-length (e ∷ es) = ap suc (rows-length es)

pub rows-tail : (es : Entries) → rows_of (tail es) ≡ tail (rows_of es)
rows-tail [] = refl
rows-tail (e ∷ es) = refl

pub rows-from : (k : Text) (es : Entries) → rows_of (from k es) ≡ from k (rows_of es)
rows-from k [] = refl
rows-from k (e ∷ es) = elim (Bool-cases (text_lt e.0 k)) [
  | inl below ↦ rw below (rows-from k es)
  | inr above ↦ rw above refl
]

pub rows_of-Ascending : (es : Entries) → Ascending es → Ascending (rows_of es)
rows_of-Ascending [] a = tt
rows_of-Ascending (e ∷ es) a = (above e.0 es a.0, rows_of-Ascending es a.1)
  where
    above : (k : Text) (es : Entries) → AllAbove k es → AllAbove k (rows_of es)
    above k [] a = tt
    above k (e ∷ es) a = (a.0, above k es a.1)

pub tail-Ascending : (es : Entries) → Ascending es → Ascending (tail es)
tail-Ascending [] a = tt
tail-Ascending (e ∷ es) a = a.1
