-- ===== src/Sstable/Holds.antt =====
-- A loaded table that holds given entries, and the lookup in it.
pub mod Contents
use pebble_db.Prelude.{
  ℕ, zero, suc, ◌+◌, List, [], ◌∷◌, ◌++◌, Text, Bool, true, false, Option, none, some, Outcome, ok,
}
use pebble_db.Prelude.{
  ◌≡◌, ◌≢◌, ◌⊎◌, inl, inr, refl, sym, ◌∙◌, ap, arith, length, map, concat, All, get_elem?, text_le,
  text_lt, Bool-cases, if◌then◌else◌, cmp, text_eq, append_assoc, append-nil, not,
}
use pebble_db.Prelude.Order.{text_le_total, text_eq_iff, cmp-flip}
use pebble_db.Prelude.BTreeMap
use pebble_db.Prelude.BTreeMap.Ascending.{
  AllAbove, Ascending, get-AllAbove, AllAbove-trans, AllAbove-append_left, AllAbove-append_right,
  Ascending-append_left, Ascending-append_right, get-append_above, get-append_below,
}
use mathlib.Core.Path.{subst}
use pebble_db.Bloom
use pebble_db.Sstable.Block.{SsTableEntry, Entries}
use pebble_db.Sstable.Table.{
  IndexEntry, SsTable, read_block, last_of, find_loop, find_block, scan_block, look, get,
}

abbrev pub head_key : Entries → Option Text
head_key [] = none
head_key (e ∷ es) = some e.0

-- The table is made of blocks, none of them empty, that hold the entries one after the other.
pub record Holds (sst : SsTable) (es : Entries) : Type 0 where
  pub blocks : List Entries
  pub joined : concat blocks ≡ es
  pub nonempty : All (λ b. b ≢ []) blocks
  pub firsts : map (λ e. some e.first_key) sst.index ≡ map head_key blocks
  pub reads : (i : ℕ) → read_block sst i ≡ get_elem? blocks i
  pub counted : sst.block_count ≡ length blocks
  pub last : sst.last_key ≡ last_of es
  -- the filter answers, and true for each key of the table
  pub answers : (key : Text) → (b : Bool) × (Bloom.might_contain sst.bloom key ≡ ok b)
  pub might : All (λ e. Bloom.might_contain sst.bloom e.0 ≡ ok true) es

-- The search that stops at the first greater key is the lookup.
scan_block-eq-get :
    (key : Text) (es : Entries) → Ascending es → scan_block key es ≡ BTreeMap.get key es
unfolding scan_block BTreeMap.get
scan_block-eq-get key [] a = refl
scan_block-eq-get key (e ∷ es) a =
    let absent : text_lt key e.0 ≡ true → BTreeMap.get key es ≡ none =
      λ h. get-AllAbove key es (AllAbove-trans key e.0 es h a.0) in
    ground (arith, scan_block-eq-get key es a.1, absent, cmp-flip key e.0)

-- The block that `find_block` finds, among the blocks themselves.
pick : Text → Entries → List Entries → Entries
pick key best [] = best
pick key best ([] ∷ bs) = best
pick key best ((e ∷ es) ∷ bs) =
    let rest = pick key (e ∷ es) bs in if text_le e.0 key then rest else best

pick-get :
    (key : Text) (best : Entries) (bs : List Entries)
    → All (λ b. b ≢ []) bs
    → Ascending (best ++ concat bs)
    → BTreeMap.get key (pick key best bs) ≡ BTreeMap.get key (best ++ concat bs)
unfolding pick
pick-get key best [] n a = ap (λ t. BTreeMap.get key t) (sym (append-nil best))
pick-get key best ([] ∷ bs) n a = absurd (n.0 refl)
pick-get key best ((e ∷ es) ∷ bs) n a = elim (Bool-cases (text_le e.0 key)) [
  | inl below ↦ rw below (
      pick-get key (e ∷ es) bs n.1 (Ascending-append_right best (e ∷ (es ++ concat bs)) a)
      ∙ sym (get-append_below key best (es ++ concat bs) e a below))
  | inr above ↦
      let less = text_le_total e.0 key above in
      let far = (Ascending-append_right best (e ∷ (es ++ concat bs)) a).0 in
      rw above (
        sym (
          get-append_above key best (e ∷ (es ++ concat bs))
            (less, AllAbove-trans key e.0 (es ++ concat bs) less far)))
]

-- `find_loop` from entry `i` on, over the blocks `bs` that are left, ends at the block of `pick`.
find_loop-pick :
    (blocks bs : List Entries) (index : List IndexEntry) (i r : ℕ) (key : Text) (best : Entries)
    → All (λ b. b ≢ []) bs
    → map (λ e. some e.first_key) index ≡ map head_key bs
    → ((j : ℕ) → get_elem? blocks (i + j) ≡ get_elem? bs j)
    → get_elem? blocks r ≡ some best
    → get_elem? blocks (find_loop i r key index) ≡ some (pick key best bs)
unfolding find_loop pick
find_loop-pick blocks [] [] i r key best n f at h = h
find_loop-pick blocks [] (x ∷ xs) i r key best n f at h = cc
find_loop-pick blocks (b ∷ bs) [] i r key best n f at h = cc
find_loop-pick blocks ([] ∷ bs) (x ∷ xs) i r key best n f at h = absurd (n.0 refl)
find_loop-pick blocks ((e ∷ es) ∷ bs) (x ∷ xs) i r key best n f at h =
    let same : x.first_key ≡ e.0 = cc in
    let next : (j : ℕ) → get_elem? blocks (i + 1 + j) ≡ get_elem? bs j =
      λ j. ap (λ (k : ℕ). get_elem? blocks k) (omega arith) ∙ at (suc j) in
    let here : get_elem? blocks i ≡ some (e ∷ es) =
      ap (λ (k : ℕ). get_elem? blocks k) (omega arith) ∙ at 0 in
    let ih = find_loop-pick blocks bs xs (i + 1) i key (e ∷ es) n.1 (cc) next here in
    elim (Bool-cases (text_le e.0 key)) [
      | inl below ↦ rw (same, below) ih
      | inr above ↦ rw (same, above) h
    ]

pick-Ascending :
    (key : Text) (best : Entries) (bs : List Entries)
    → Ascending (best ++ concat bs)
    → Ascending (pick key best bs)
unfolding pick
pick-Ascending key best [] a = Ascending-append_left best [] a
pick-Ascending key best ([] ∷ bs) a = Ascending-append_left best (concat bs) a
pick-Ascending key best ((e ∷ es) ∷ bs) a = elim (Bool-cases (text_le e.0 key)) [
  | inl below ↦
      rw below
        (pick-Ascending key (e ∷ es) bs (Ascending-append_right best (e ∷ (es ++ concat bs)) a))
  | inr above ↦ rw above (Ascending-append_left best (e ∷ (es ++ concat bs)) a)
]

look-find :
    (key : Text) (bs : List Entries) (index : List IndexEntry)
    → All (λ b. b ≢ []) bs
    → map (λ e. some e.first_key) index ≡ map head_key bs
    → Ascending (concat bs)
    → look key (get_elem? bs (find_loop 0 0 key index)) ≡ BTreeMap.get key (concat bs)
look-find key [] [] n f a = unfold find_loop BTreeMap.get in refl
look-find key [] (x ∷ xs) n f a = cc
look-find key (b ∷ bs) [] n f a = cc
look-find key ([] ∷ bs) (x ∷ xs) n f a = absurd (n.0 refl)
look-find key ((e ∷ es) ∷ bs) (x ∷ xs) n f a =
    let same : x.first_key ≡ e.0 = cc in
    let block : Entries = e ∷ es in
    let inside = Ascending-append_left block (concat bs) a in
    elim (Bool-cases (text_le e.0 key)) [
      | inl below ↦
          let at : find_loop 0 0 key (x ∷ xs) ≡ find_loop 1 0 key xs =
            unfold find_loop in rw (same, below) refl in
          let found =
            find_loop-pick (block ∷ bs) bs xs 1 0 key block n.1 (cc)
              (λ j.
                let up : 1 + j ≡ suc j = omega arith in ap (λ (k : ℕ). get_elem? (block ∷ bs) k) up)
              refl in
          rw at (
            ap (look key) found
            ∙ scan_block-eq-get key (pick key block bs) (pick-Ascending key block bs a)
            ∙ pick-get key block bs n.1 a)
      | inr above ↦
          let at : find_loop 0 0 key (x ∷ xs) ≡ 0 = unfold find_loop in rw (same, above) refl in
          let less = text_le_total e.0 key above in
          rw at (
            scan_block-eq-get key block inside
            ∙ sym (
                get-append_above key block (concat bs) (
                  AllAbove-trans key e.0 (concat bs) less
                    (AllAbove-append_right e.0 es (concat bs) a.0))))
    ]

ok_true : (ok true ≡ ok false) → ⊥
ok_true h = cc

-- Keys that the filter rules out are not in the table.
get-ruled_out :
    (f : Text → Outcome Bool) (key : Text) (es : Entries)
    → All (λ e. f e.0 ≡ ok true) es
    → f key ≡ ok false
    → BTreeMap.get key es ≡ none
unfolding BTreeMap.get
get-ruled_out f key [] a h = refl
get-ruled_out f key (e ∷ es) a h = elim (Bool-cases (text_eq e.0 key)) [
  | inl same ↦
      let is : e.0 ≡ key = text_eq_iff e.0 key same in absurd (ok_true (sym a.0 ∙ ap f is ∙ h))
  | inr other ↦ rw other (get-ruled_out f key es a.1 h)
]

-- The lookup in a table that holds entries in key order is the lookup in these entries.
pub get-Holds :
    (sst : SsTable) (es : Entries) (key : Text)
    → Holds sst es
    → Ascending es
    → get sst key ≡ ok (BTreeMap.get key es)
unfolding get find_block
get-Holds sst es key h a =
    let found =
      look-find key h.blocks sst.index h.nonempty h.firsts (subst Ascending (sym h.joined) a) in
    go (h.answers key).0 (h.answers key).1 (
      ap (look key) (h.reads (find_loop 0 0 key sst.index))
      ∙ found
      ∙ ap (BTreeMap.get key) h.joined)
  where
    go :
        (b : Bool)
        → Bloom.might_contain sst.bloom key ≡ ok b
        → look key (read_block sst (find_loop 0 0 key sst.index)) ≡ BTreeMap.get key es
        → get sst key ≡ ok (BTreeMap.get key es)
    go true e found = rw (e, found) refl
    go false e found = rw (e, get-ruled_out (Bloom.might_contain sst.bloom) key es h.might e) refl
