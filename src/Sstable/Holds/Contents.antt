-- ===== src/Sstable/Holds/Contents.antt =====
-- What a loaded table tells of all its entries at once: entries, first_key and key_range.
use pebble_db.Prelude.{ℕ, suc, ◌+◌, List, [], ◌∷◌, ◌++◌, Text, Option, none, some}
use pebble_db.Prelude.{
  ◌≡◌, ◌≢◌, refl, sym, ◌∙◌, ap, arith, length, map, concat, All, get_elem?, append_assoc,
  append-nil,
}
use mathlib.Core.Path.{subst, ap₂}
use pebble_db.Prelude.BTreeMap.Ascending.{Ascending, Ascending-append_left, insert-append}
use pebble_db.Sstable.Block.{Entries}
use pebble_db.Sstable.Table.{
  IndexEntry, SsTable, read_block, insert_block, entries_loop, entries, first_key, key_range,
  last_of,
}
use pebble_db.Sstable.Holds.{Holds, head_key}

insert_block-append :
    (block m : Entries) → Ascending (m ++ block) → insert_block block m ≡ m ++ block
unfolding insert_block
insert_block-append [] m a = sym (append-nil m)
insert_block-append (e ∷ es) m a =
    let all : (m ++ e ∷ []) ++ es ≡ m ++ e ∷ es = append_assoc m (e ∷ []) es in
    rw (insert-append e.0 e.1 m es a)
      (insert_block-append es (m ++ e ∷ []) (subst Ascending (sym all) a) ∙ all)

entries_loop-blocks :
    (sst : SsTable) (bs : List Entries) (idx : ℕ) (m : Entries)
    → Ascending (m ++ concat bs)
    → ((j : ℕ) → read_block sst (idx + j) ≡ get_elem? bs j)
    → entries_loop (length bs) idx sst m ≡ m ++ concat bs
unfolding entries_loop
entries_loop-blocks sst [] idx m a at = sym (append-nil m)
entries_loop-blocks sst (b ∷ bs) idx m a at =
    let all : (m ++ b) ++ concat bs ≡ m ++ (b ++ concat bs) = append_assoc m b (concat bs) in
    let sorted : Ascending ((m ++ b) ++ concat bs) = subst Ascending (sym all) a in
    let here : read_block sst idx ≡ some b =
      ap (λ (k : ℕ). read_block sst k) (omega arith) ∙ at 0 in
    let next : (j : ℕ) → read_block sst (idx + 1 + j) ≡ get_elem? bs j =
      λ j. ap (λ (k : ℕ). read_block sst k) (omega arith) ∙ at (suc j) in
    let step = insert_block-append b m (Ascending-append_left (m ++ b) (concat bs) sorted) in
    let go = λ (n : Entries). entries_loop (length bs) (idx + 1) sst n in
    ap (λ r. go (elim r [ none ↦ m | some block ↦ insert_block block m ])) here
    ∙ ap go step
    ∙ entries_loop-blocks sst bs (idx + 1) (m ++ b) sorted next
    ∙ all

length-firsts :
    (index : List IndexEntry) (bs : List Entries)
    → map (λ e. some e.first_key) index ≡ map head_key bs
    → length index ≡ length bs
length-firsts [] [] h = refl
length-firsts [] (b ∷ bs) h = cc
length-firsts (e ∷ index) [] h = cc
length-firsts (e ∷ index) (b ∷ bs) h = ap suc (length-firsts index bs (cc))

-- All the entries of a table are those that it holds.
pub entries-Holds : (sst : SsTable) (es : Entries) → Holds sst es → Ascending es → entries sst ≡ es
unfolding entries
entries-Holds sst es h a = rw (length-firsts sst.index h.blocks h.firsts) (
    entries_loop-blocks sst h.blocks 0 [] (subst Ascending (sym h.joined) a)
      (λ j. ap (λ (k : ℕ). read_block sst k) (omega arith) ∙ h.reads j)
    ∙ h.joined)

-- The first key of the index is the first key of all.
head-firsts :
    (index : List IndexEntry) (bs : List Entries)
    → All (λ b. b ≢ []) bs
    → map (λ e. some e.first_key) index ≡ map head_key bs
    → elim index [ [] ↦ none | e ∷ es ↦ some e.first_key ] ≡ head_key (concat bs)
head-firsts [] [] n f = refl
head-firsts (x ∷ index) [] n f = cc
head-firsts [] (b ∷ bs) n f = cc
head-firsts (x ∷ index) ([] ∷ bs) n f = absurd (n.0 refl)
head-firsts (x ∷ index) ((e ∷ es) ∷ bs) n f = cc

abbrev pub both : Option Text → Option Text → Option (Text × Text)
both first last = elim first [
  | none ↦ none
  | some f ↦ elim last [ none ↦ none | some l ↦ some (f, l) ]
]

-- The range of keys that a table gives runs from its first entry to its last.
pub key_range-Holds :
    (sst : SsTable) (es : Entries) → Holds sst es → key_range sst ≡ both (head_key es) (last_of es)
unfolding key_range first_key
key_range-Holds sst es h =
    let first = head-firsts sst.index h.blocks h.nonempty h.firsts ∙ ap head_key h.joined in
    ap₂ both first h.last
