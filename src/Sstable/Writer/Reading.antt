-- ===== src/Sstable/Writer/Reading.antt =====
-- The blocks of a file are read through the index that the writer laid out for them.
use pebble_db.Prelude.{ℕ, zero, suc, ◌+◌, ◌<◌, ◌≤◌, ◌^◌, List, [], ◌∷◌, ◌++◌, Text, some}
use pebble_db.Prelude.{
  ◌≡◌, ◌≢◌, refl, ◌∙◌, ap, arith, length, length-append, map, concat, All, u32, append_assoc, drop,
  slice_at, drop_next, get_elem?, ltb-false,
}
use pebble_db.Sstable.Block.{Entries}
use pebble_db.Sstable.Block.RoundTrip.{AllValid, block_bytes, decode_block-block_bytes}
use pebble_db.Sstable.Table.{read_entry, read_at}
use pebble_db.Sstable.Table.Index.{AllEntries}
use pebble_db.Sstable.Holds.{head_key}
use pebble_db.Sstable.Writer.Blocks.{all_bytes, entry_at, layout}

AllValid-append_left : (xs ys : Entries) → AllValid (xs ++ ys) → AllValid xs
AllValid-append_left [] ys a = tt
AllValid-append_left (x ∷ xs) ys a = (a.0, AllValid-append_left xs ys a.1)

AllValid-append_right : (xs ys : Entries) → AllValid (xs ++ ys) → AllValid ys
AllValid-append_right [] ys a = a
AllValid-append_right (x ∷ xs) ys a = AllValid-append_right xs ys a.1

pub length-layout :
    (offset : ℕ) (bs : List Entries) → All (λ b. b ≢ []) bs → length (layout offset bs) ≡ length bs
length-layout offset [] n = refl
length-layout offset ([] ∷ bs) n = absurd (n.0 refl)
length-layout offset ((e ∷ es) ∷ bs) n =
    ap suc (length-layout (offset + length (block_bytes (e ∷ es))) bs n.1)

pub layout-firsts :
    (offset : ℕ) (bs : List Entries)
    → All (λ b. b ≢ []) bs
    → map (λ e. some e.first_key) (layout offset bs) ≡ map head_key bs
layout-firsts offset [] n = refl
layout-firsts offset ([] ∷ bs) n = absurd (n.0 refl)
layout-firsts offset ((e ∷ es) ∷ bs) n =
    ap (λ t. some e.0 ∷ t) (layout-firsts (offset + length (block_bytes (e ∷ es))) bs n.1)

-- The words of an index are remainders by 2 ^ 32.
pub layout-AllEntries :
    (offset : ℕ) (bs : List Entries) → AllValid (concat bs) → AllEntries (layout offset bs)
layout-AllEntries offset [] a = tt
layout-AllEntries offset ([] ∷ bs) a = layout-AllEntries offset bs a
layout-AllEntries offset ((e ∷ es) ∷ bs) a = (
  (a.0.0, a.0.2, omega arith, omega arith),
  layout-AllEntries (offset + length (block_bytes (e ∷ es))) bs
      (AllValid-append_right es (concat bs) a.1),
)

read_entry-at :
    (data' : List ℕ) (offset : ℕ) (key : Text) (b : Entries) (rest : List ℕ)
    → AllValid b
    → drop offset data' ≡ block_bytes b ++ rest
    → offset + length (block_bytes b) ≤ length data'
    → length data' < 2 ^ 32
    → read_entry data' (entry_at offset key b) ≡ some b
unfolding read_entry
read_entry-at data' offset key b rest a at room small =
    let size = length (block_bytes b) in
    let is_offset : u32 offset ≡ offset = omega arith in
    let is_size : u32 size ≡ size = omega arith in
    rw
      (
        is_offset,
        is_size,
        ltb-false (length data') (offset + size) (omega arith),
        slice_at data' offset (offset + size) (block_bytes b) rest at refl,
        decode_block-block_bytes b a,
      )
      refl

-- The index of the blocks reads each of them, and nothing past the last.
pub read_at-layout :
    (data' : List ℕ) (offset : ℕ) (bs : List Entries) (rest : List ℕ) (i : ℕ)
    → All (λ b. b ≢ []) bs
    → AllValid (concat bs)
    → drop offset data' ≡ all_bytes bs ++ rest
    → offset + length (all_bytes bs) ≤ length data'
    → length data' < 2 ^ 32
    → read_at data' (get_elem? (layout offset bs) i) ≡ get_elem? bs i
read_at-layout data' offset [] rest i n a at room small = refl
read_at-layout data' offset ([] ∷ bs) rest i n a at room small = absurd (n.0 refl)
read_at-layout data' offset ((e ∷ es) ∷ bs) rest i n a at room small =
    let b : Entries = e ∷ es in
    let total : length (all_bytes (b ∷ bs)) ≡ length (block_bytes b) + length (all_bytes bs) =
      length-append (block_bytes b) (all_bytes bs) in
    let here : drop offset data' ≡ block_bytes b ++ (all_bytes bs ++ rest) =
      at ∙ append_assoc (block_bytes b) (all_bytes bs) rest in
    let next =
      drop_next data' offset (offset + length (block_bytes b)) (block_bytes b) _ here refl in
    elim i as (λ k. read_at data' (get_elem? (layout offset (b ∷ bs)) k) ≡ get_elem? (b ∷ bs) k) [
      | zero ↦
          read_entry-at data' offset e.0 b _ (AllValid-append_left b (concat bs) a) here
            (omega (arith, total)) small
      | suc j ↦
          read_at-layout data' (offset + length (block_bytes b)) bs rest j n.1
            (AllValid-append_right b (concat bs) a) next (omega (arith, total)) small
    ]
