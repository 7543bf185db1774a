-- ===== src/Iter/Cursor/Standing.antt =====
-- src/iter.rs: where SsTableIterator stands in a table that holds given entries.
use pebble_db.Prelude.{
  ℕ, zero, suc, ◌+◌, ◌-◌, ◌≤◌, ◌<◌, List, [], ◌++◌, Text, Bool-cases, ◌⊎◌, inl, inr, length,
  length-append, drop, get_elem?, length-drop, ltb, leb, concat,
}
use pebble_db.Prelude.{◌≡◌, sym, ◌∙◌, ap, arith}
use mathlib.Core.Path.{subst, ap₂}
use pebble_db.Prelude.BTreeMap.Ascending.{Ascending}
use pebble_db.Sstable.Block.{Entries}
use pebble_db.Sstable.Table.{SsTable, read_block, find_block, find_loop}
use pebble_db.Sstable.Holds.{Holds}
use pebble_db.Iter.Storage.{partition_point}
use pebble_db.Iter.Table.{
  SsTableIterator, block_or_empty, load_block, ensure_loop, ensure_entry, seek_to_first, seek,
  advance, key, value_at, entries_left, remaining,
}
use pebble_db.Iter.Rows.{Rows, tail, head_value, from, from-Ascending}
use pebble_db.Iter.Rows as Rows
use pebble_db.Iter.Cursor.Seek.{or_empty, later, find_loop_start}
use pebble_db.Iter.Cursor.Blocks.{rows_of, later_split, tail-append, key_at, value_in}
use pebble_db.Iter.Cursor.OfMemtable.{drop_all}

-- The iterator stands in block `block` of the table, before the entries `rest`.
pub record Stands (sst : SsTable) (bs : List Entries) (it : SsTableIterator) (rest : Entries)
    : Type 0 where
  pub of : it.sst ≡ sst
  pub loaded : it.entries ≡ or_empty (get_elem? bs it.block)
  pub left : drop it.index it.entries ++ later bs it.block ≡ rest
  -- there is a current entry, or no later block
  pub ready : (it.index < length it.entries) ⊎ (length bs ≤ it.block + 1)

module _ (sst : SsTable) (es : Entries) (h : Holds sst es) where
  block_or_empty-blocks :
      (it : SsTableIterator) (b : ℕ)
      → it.sst ≡ sst
      → block_or_empty it.sst b ≡ or_empty (get_elem? h.blocks b)
  block_or_empty-blocks it b of = ap or_empty (ap (λ t. read_block t b) of ∙ h.reads b)

  -- A block with no entry left is followed by the entries of the next.
  next_block :
      (it : SsTableIterator) (rest : Entries)
      → it.sst ≡ sst
      → length it.entries ≤ it.index
      → drop it.index it.entries ++ later h.blocks it.block ≡ rest
      → block_or_empty it.sst (it.block + 1) ++ later h.blocks (it.block + 1) ≡ rest
  next_block it rest of over left =
      let following : suc (it.block + 1) ≡ it.block + 1 + 1 = omega arith in
      ap (λ t. t ++ later h.blocks (it.block + 1)) (block_or_empty-blocks it (it.block + 1) of)
      ∙ ap (λ (j : ℕ). or_empty (get_elem? h.blocks (it.block + 1)) ++ concat (drop j h.blocks))
          (sym following)
      ∙ sym (later_split h.blocks (it.block + 1))
      ∙ ap (λ t. t ++ later h.blocks it.block) (sym (drop_all it.index it.entries over))
      ∙ left

  count_of : (it : SsTableIterator) → it.sst ≡ sst → it.sst.block_count ≡ length h.blocks
  count_of it of = ap (λ t. t.block_count) of ∙ h.counted

  ensure_loop-Stands :
      (fuel : ℕ) (it : SsTableIterator) (rest : Entries)
      → length h.blocks - it.block ≤ fuel
      → it.sst ≡ sst
      → it.entries ≡ or_empty (get_elem? h.blocks it.block)
      → drop it.index it.entries ++ later h.blocks it.block ≡ rest
      → Stands sst h.blocks (ensure_loop fuel it) rest
  unfolding ensure_loop load_block
  ensure_loop-Stands zero it rest fuel of loaded left = record {
    of = of;
    loaded = loaded;
    left = left;
    ready = inr (omega (arith, fuel));
  }
  ensure_loop-Stands (suc n) it rest fuel of loaded left =
      let step =
        ensure_loop-Stands n (load_block (it.block + 1) it) rest (omega (arith, fuel)) of
          (block_or_empty-blocks it (it.block + 1) of) in
      elim (Bool-cases (ltb it.index (length it.entries))) [
        | inl inside ↦
            rw inside (record { of = of; loaded = loaded; left = left; ready = inl (ground arith) })
        | inr outside ↦ elim (Bool-cases (leb it.sst.block_count (it.block + 1))) [
          | inl last ↦
              rw (outside, last)
                (record {
                  of = of;
                  loaded = loaded;
                  left = left;
                  ready = inr (ground (arith, count_of it of));
                })
          | inr more ↦ rw (outside, more) (step (next_block it rest of (ground arith) left))
        ]
      ]

  ensure_entry-Stands :
      (it : SsTableIterator) (rest : Entries)
      → it.sst ≡ sst
      → it.entries ≡ or_empty (get_elem? h.blocks it.block)
      → drop it.index it.entries ++ later h.blocks it.block ≡ rest
      → Stands sst h.blocks (ensure_entry it) rest
  unfolding ensure_entry
  ensure_entry-Stands it rest of loaded left =
      ensure_loop-Stands (it.sst.block_count - it.block) it rest (omega (arith, count_of it of)) of
        loaded left

  pub seek_to_first-Stands :
      (it : SsTableIterator) → it.sst ≡ sst → Stands sst h.blocks (seek_to_first it) es
  unfolding seek_to_first load_block
  seek_to_first-Stands it of =
      ensure_entry-Stands (load_block 0 it) es of (block_or_empty-blocks it 0 of) (
        ap (λ t. t ++ later h.blocks 0) (block_or_empty-blocks it 0 of)
        ∙ sym (later_split h.blocks 0)
        ∙ h.joined)

  pub seek-Stands :
      (k : Text) (it : SsTableIterator)
      → it.sst ≡ sst
      → Ascending es
      → Stands sst h.blocks (seek k it) (from k es)
  unfolding seek load_block find_block
  seek-Stands k it of a =
      let b = find_block it.sst k in
      let entries = block_or_empty it.sst b in
      let found =
        find_loop_start k h.blocks sst.index h.nonempty h.firsts
          (subst Ascending (sym h.joined) a) in
      let same : b ≡ find_loop 0 0 k sst.index = ap (λ t. find_loop 0 0 k t.index) of in
      let at : Entries → ℕ → Entries = λ xs j. drop (partition_point k xs) xs ++ later h.blocks j in
      ensure_entry-Stands (record (load_block b it) { index = partition_point k entries })
        (from k es) of (block_or_empty-blocks it b of)
        (ap (λ xs. at xs b) (block_or_empty-blocks it b of)
          ∙ ap (λ (j : ℕ). at (or_empty (get_elem? h.blocks j)) j) same
          ∙ found
          ∙ ap (from k) h.joined)

  pub advance-Stands :
      (it : SsTableIterator) (rest : Entries)
      → Stands sst h.blocks it rest
      → Stands sst h.blocks (advance it) (tail rest)
  unfolding advance
  advance-Stands it rest s =
      let finished : length it.entries ≤ it.index → later h.blocks it.block ≡ [] =
        λ over. ap concat (drop_all (it.block + 1) h.blocks (omega (arith, s.ready))) in
      elim (Bool-cases (ltb it.index (length it.entries))) [
        | inl inside ↦ rw inside (
            ensure_entry-Stands (record it { index = it.index + 1 }) (tail rest) s.of s.loaded
              (tail-append it.index it.entries (later h.blocks it.block) (ground arith)
                ∙ ap tail s.left))
        | inr outside ↦
            let over : length it.entries ≤ it.index = ground arith in
            let nothing : [] ≡ rest =
              ap₂ ◌++◌ (sym (drop_all it.index it.entries over)) (sym (finished over)) ∙ s.left in
            rw outside (
              ensure_entry-Stands it (tail rest) s.of s.loaded
                (s.left ∙ sym nothing ∙ ap tail nothing))
      ]

  Stands-rest :
      (it : SsTableIterator) (rest : Entries)
      → Stands sst h.blocks it rest
      → (it.index < length it.entries) ⊎ (later h.blocks it.block ≡ [])
  Stands-rest it rest s = elim s.ready [
    | inl inside ↦ inl inside
    | inr last ↦ inr (ap concat (drop_all (it.block + 1) h.blocks last))
  ]

  read_length : (b : ℕ) → length (block_or_empty sst b) ≡ length (or_empty (get_elem? h.blocks b))
  read_length b = ap length (ap or_empty (h.reads b))

  entries_left-later :
      (left b : ℕ)
      → b + left ≡ length h.blocks
      → entries_left left b sst ≡ length (concat (drop b h.blocks))
  unfolding entries_left
  entries_left-later zero b e =
      ap (λ t. length (concat t)) (sym (drop_all b h.blocks (omega arith)))
  entries_left-later (suc left) b e =
      let following : suc b ≡ b + 1 = omega arith in
      omega (
        arith,
        read_length b,
        ap length (later_split h.blocks b),
        ap (λ (j : ℕ). length (concat (drop j h.blocks))) following,
        length-append (or_empty (get_elem? h.blocks b)) (concat (drop (suc b) h.blocks)),
        entries_left-later left (b + 1) (omega (arith, e)),
      )

  later_fits :
      (b : ℕ) → length (concat (drop b h.blocks)) ≤ entries_left (length h.blocks - b) b sst
  later_fits b = elim (Bool-cases (leb b (length h.blocks))) [
    | inl within ↦
        let left : b + (length h.blocks - b) ≡ length h.blocks = ground (arith, within) in
        omega (arith, entries_left-later (length h.blocks - b) b left)
    | inr beyond ↦
        let over : length h.blocks ≤ b = ground (arith, beyond) in
        let nothing : length (concat (drop b h.blocks)) ≡ 0 =
          ap (λ t. length (concat t)) (drop_all b h.blocks over) in
        omega (arith, nothing)
  ]

  pub remaining-Stands :
      (it : SsTableIterator) (rest : Entries)
      → Stands sst h.blocks it rest
      → length rest ≤ remaining it
  unfolding remaining
  remaining-Stands it rest s =
      let b = it.block + 1 in
      let whole : length rest
          ≡ length (drop it.index it.entries) + length (later h.blocks it.block) =
        sym (ap length s.left)
        ∙ length-append (drop it.index it.entries) (later h.blocks it.block) in
      let blocks_left : length (later h.blocks it.block)
          ≤ entries_left (it.sst.block_count - b) b it.sst =
        subst (λ t. length (later h.blocks it.block) ≤ entries_left (t.block_count - b) b t)
          (sym s.of)
          (subst (λ (n : ℕ). length (later h.blocks it.block) ≤ entries_left (n - b) b sst)
            (sym h.counted) (later_fits b)) in
      omega (arith, whole, length-drop it.index it.entries, blocks_left)

  pub Views-Stands :
      (it : SsTableIterator) (rest : Entries)
      → Stands sst h.blocks it rest
      → (key it ≡ Rows.head_key (rows_of rest)) × (value_at it ≡ head_value (rows_of rest))
  unfolding key value_at
  Views-Stands it rest s =
      let there = Stands-rest it rest s in
      (
        key_at it.index it.entries (later h.blocks it.block) there
            ∙ ap (λ r. Rows.head_key (rows_of r)) s.left,
        value_in it.index it.entries (later h.blocks it.block) there
            ∙ ap (λ r. head_value (rows_of r)) s.left,
      )
