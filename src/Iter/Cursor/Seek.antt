-- ===== src/Iter/Cursor/Seek.antt =====
-- The block that a seek finds, and the place in it.
use pebble_db.Prelude.{
  ℕ, zero, suc, ◌+◌, List, [], ◌∷◌, ◌++◌, Text, Option, none, some, Bool-cases, true, inl, inr, ◌≢◌,
  drop, get_elem?, drop_next, text_lt, text_le, map, concat, All,
}
use pebble_db.Prelude.{◌≡◌, refl, sym, ◌∙◌, ap, arith, append-nil}
use pebble_db.Prelude.Order.{cmp-flip, text_le_total, text_lt_le_trans}
use pebble_db.Prelude.BTreeMap.Ascending.{Ascending, AllAbove-append_right, Ascending-append_right}
use pebble_db.Sstable.Block.{SsTableEntry, Entries}
use pebble_db.Sstable.Table.{IndexEntry, find_loop}
use pebble_db.Sstable.Holds.{head_key}
use pebble_db.Iter.Storage.{partition_point}
use pebble_db.Iter.Rows.{from}
use pebble_db.Iter.Cursor.OfMemtable.{partition_point-from}

abbrev pub or_empty : Option Entries → Entries
or_empty o = elim o [ none ↦ [] | some es ↦ es ]

-- What is left of the entries after block `b`.
abbrev pub later : List Entries → ℕ → Entries
later bs b = concat (drop (b + 1) bs)

get_elem?-drop :
    {A : Type 0} (xs : List A) (i : ℕ) (y : A) (ys : List A)
    → drop i xs ≡ y ∷ ys
    → get_elem? xs i ≡ some y
get_elem?-drop [] zero y ys h = cc
get_elem?-drop [] (suc i) y ys h = cc
get_elem?-drop (x ∷ xs) zero y ys h = cc
get_elem?-drop (x ∷ xs) (suc i) y ys h = get_elem?-drop xs i y ys h

from-append_below :
    (k : Text) (s t : Entries) (e : Text × SsTableEntry)
    → Ascending (s ++ e ∷ t)
    → text_le e.0 k ≡ true
    → from k (s ++ e ∷ t) ≡ from k (e ∷ t)
from-append_below k [] t e a h = refl
from-append_below k (f ∷ s) t e a h =
    let above = (AllAbove-append_right f.0 s (e ∷ t) a.0).0 in
    rw (text_lt_le_trans f.0 e.0 k above h) (from-append_below k s t e a.1 h)

from-above :
    (k : Text) (s : Entries) (e : Text × SsTableEntry)
    → text_lt k e.0 ≡ true
    → from k (e ∷ s) ≡ e ∷ s
from-above k s e h = ground (arith, cmp-flip e.0 k)

-- The part of a list below `k` ends where it ends in a longer list that goes on above `k`.
partition_point-append :
    (k : Text) (s t : Entries) (e : Text × SsTableEntry)
    → text_lt k e.0 ≡ true
    → drop (partition_point k s) s ++ (e ∷ t) ≡ from k (s ++ e ∷ t)
unfolding partition_point
partition_point-append k [] t e h = sym (from-above k t e h)
partition_point-append k (f ∷ s) t e h = elim (Bool-cases (text_lt f.0 k)) [
  | inl below ↦ rw below (partition_point-append k s t e h)
  | inr above ↦ rw above refl
]

-- The search of the index from block `i` on, where the best so far is block `r` with entries `best`,
-- ends at the block from which the rest is read.
find_loop-from :
    (blocks bs : List Entries) (index : List IndexEntry) (i r : ℕ) (k : Text) (best : Entries)
    → All (λ b. b ≢ []) bs
    → map (λ e. some e.first_key) index ≡ map head_key bs
    → i ≡ r + 1
    → drop i blocks ≡ bs
    → get_elem? blocks r ≡ some best
    → Ascending (best ++ concat bs)
    → (found : Entries) × (get_elem? blocks (find_loop i r k index) ≡ some found)
      × (drop (partition_point k found) found ++ later blocks (find_loop i r k index)
          ≡ from k (best ++ concat bs))
unfolding find_loop
find_loop-from blocks [] [] i r k best n f at rest here a = (
  best,
  here,
  ap (λ t. drop (partition_point k best) best ++ concat t)
        (ap (λ (j : ℕ). drop j blocks) (sym at) ∙ rest)
      ∙ append-nil (drop (partition_point k best) best)
      ∙ partition_point-from k best
      ∙ ap (from k) (sym (append-nil best)),
)
find_loop-from blocks [] (x ∷ xs) i r k best n f at rest here a = absurd (nil_cons f)
  where
    nil_cons : {A : Type 0} {y : A} {ys : List A} → y ∷ ys ≡ [] → ⊥
    nil_cons h = cc
find_loop-from blocks (b ∷ bs) [] i r k best n f at rest here a = absurd (cons_nil f)
  where
    cons_nil : {A : Type 0} {y : A} {ys : List A} → [] ≡ y ∷ ys → ⊥
    cons_nil h = cc
find_loop-from blocks ([] ∷ bs) (x ∷ xs) i r k best n f at rest here a = absurd (n.0 refl)
find_loop-from blocks ((e ∷ es) ∷ bs) (x ∷ xs) i r k best n f at rest here a =
    let same : x.first_key ≡ e.0 = cc in
    let block : Entries = e ∷ es in
    let following : drop (i + 1) blocks ≡ bs =
      drop_next blocks i (i + 1) (block ∷ []) bs rest refl in
    elim (Bool-cases (text_le e.0 k)) [
      | inl below ↦
          let (found, is, reads) =
            find_loop-from blocks bs xs (i + 1) i k block n.1 (cc) refl following
              (get_elem?-drop blocks i block bs rest)
              (Ascending-append_right best (block ++ concat bs) a) in
          rw (same, below)
            (found, is, reads ∙ sym (from-append_below k best (es ++ concat bs) e a below))
      | inr above ↦
          let less = text_le_total e.0 k above in
          rw (same, above)
            (
              best,
              here,
              ap (λ t. drop (partition_point k best) best ++ concat t)
                    (ap (λ (j : ℕ). drop j blocks) (sym at) ∙ rest)
                  ∙ partition_point-append k best (es ++ concat bs) e less,
            )
    ]

-- Seeking finds the block and the place in it from which the rows at or above the key are read.
pub find_loop_start :
    (k : Text) (bs : List Entries) (index : List IndexEntry)
    → All (λ b. b ≢ []) bs
    → map (λ e. some e.first_key) index ≡ map head_key bs
    → Ascending (concat bs)
    → drop
          (partition_point k (or_empty (get_elem? bs (find_loop 0 0 k index))))
          (or_empty (get_elem? bs (find_loop 0 0 k index)))
        ++ later bs (find_loop 0 0 k index)
      ≡ from k (concat bs)
unfolding find_loop
find_loop_start k [] [] n f a = unfold partition_point in refl
find_loop_start k [] (x ∷ xs) n f a = cc
find_loop_start k (b ∷ bs) [] n f a = cc
find_loop_start k ([] ∷ bs) (x ∷ xs) n f a = absurd (n.0 refl)
find_loop_start k ((e ∷ es) ∷ bs) (x ∷ xs) n f a =
    let same : x.first_key ≡ e.0 = cc in
    let block : Entries = e ∷ es in
    elim (Bool-cases (text_le e.0 k)) [
      | inl below ↦
          let (found, is, reads) =
            find_loop-from (block ∷ bs) bs xs 1 0 k block n.1 (cc) (omega arith) refl refl a in
          rw (same, below, is) reads
      | inr above ↦
          let less = text_le_total e.0 k above in
          rw (same, above)
            (ap (λ t. t ++ concat bs) (partition_point-from k block ∙ from-above k es e less)
              ∙ sym (from-above k (es ++ concat bs) e less))
    ]
