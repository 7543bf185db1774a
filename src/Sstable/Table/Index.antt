-- ===== src/Sstable/Table/Index.antt =====
-- The bytes of an index are parsed to the entries they were written for.
use pebble_db.Prelude.{
  ℕ, zero, suc, ◌+◌, ◌<◌, ◌≤◌, ◌^◌, List, [], ◌∷◌, ◌++◌, ok, true, ◌≡◌, refl, ◌∙◌, ap, arith,
}
use pebble_db.Prelude.{
  u32, to_le, length, is_utf8, from_utf8, length-append, length-to_le, u32_at_lem, drop_u32,
  drop_next, slice_at,
}
use pebble_db.Prelude.{append_assoc, append-nil, drop, leb-true}
use pebble_db.Sstable.Table.{IndexEntry, parse_index_entry, parse_index_loop, parse_index}
use pebble_db.Sstable.Writer.{index_bytes}

-- The first key is a Rust string, and the numbers fit their words.
abbrev pub IsEntry : IndexEntry → Type 0
IsEntry e =
    (is_utf8 e.first_key ≡ true)
    × (length e.first_key < 2 ^ 32)
    × (e.block_offset < 2 ^ 32)
    × (e.block_size < 2 ^ 32)

abbrev pub AllEntries : List IndexEntry → Type 0
AllEntries [] = Unit
AllEntries (e ∷ es) = IsEntry e × AllEntries es

abbrev entry_bytes : IndexEntry → List ℕ
entry_bytes e =
    to_le 4 (u32 (length e.first_key))
    ++ (e.first_key ++ (to_le 4 e.block_offset ++ to_le 4 e.block_size))

length-entry_bytes : (e : IndexEntry) → length (entry_bytes e) ≡ 12 + length e.first_key
length-entry_bytes e = omega (
  arith,
  length-append (to_le 4 (u32 (length e.first_key)))
      (e.first_key ++ (to_le 4 e.block_offset ++ to_le 4 e.block_size)),
  length-append e.first_key (to_le 4 e.block_offset ++ to_le 4 e.block_size),
  length-append (to_le 4 e.block_offset) (to_le 4 e.block_size),
  length-to_le 4 (u32 (length e.first_key)),
  length-to_le 4 e.block_offset,
  length-to_le 4 e.block_size,
)

module _ (data' : List ℕ) (offset : ℕ) (e : IndexEntry) (rest : List ℕ) (valid : IsEntry e)
    (at : drop offset data' ≡ entry_bytes e ++ rest)
    (room : offset + 12 + length e.first_key ≤ length data') where
  abbrev k : ℕ
  k = length e.first_key

  at_len :
      drop offset data'
      ≡ to_le 4 k ++ (e.first_key ++ (to_le 4 e.block_offset ++ (to_le 4 e.block_size ++ rest)))
  at_len =
      let kl : u32 k ≡ k = omega (arith, valid) in
      at
      ∙ rw
          (
            kl,
            append_assoc (to_le 4 k)
                (e.first_key ++ (to_le 4 e.block_offset ++ to_le 4 e.block_size)) rest,
            append_assoc e.first_key (to_le 4 e.block_offset ++ to_le 4 e.block_size) rest,
            append_assoc (to_le 4 e.block_offset) (to_le 4 e.block_size) rest,
          )
          refl

  at_key :
      drop (offset + 4) data'
      ≡ e.first_key ++ (to_le 4 e.block_offset ++ (to_le 4 e.block_size ++ rest))
  at_key = drop_u32 data' offset (offset + 4) k _ at_len refl

  at_offset : drop (offset + 4 + k) data' ≡ to_le 4 e.block_offset ++ (to_le 4 e.block_size ++ rest)
  at_offset = drop_next data' (offset + 4) (offset + 4 + k) e.first_key _ at_key refl

  at_size : drop (offset + 4 + k + 4) data' ≡ to_le 4 e.block_size ++ rest
  at_size = drop_u32 data' (offset + 4 + k) (offset + 4 + k + 4) e.block_offset _ at_offset refl

  at_next : drop (offset + 4 + k + 8) data' ≡ rest
  at_next =
      drop_u32 data' (offset + 4 + k + 4) (offset + 4 + k + 8) e.block_size _ at_size (omega arith)

  parse_index_entry-at : parse_index_entry data' offset ≡ ok (e, offset + 4 + k + 8)
  unfolding parse_index_entry from_utf8
  parse_index_entry-at = ground (
    arith,
    u32_at_lem data' offset k _ at_len,
    u32_at_lem data' (offset + 4 + k) e.block_offset _ at_offset,
    u32_at_lem data' (offset + 4 + k + 4) e.block_size _ at_size,
    slice_at data' (offset + 4) (offset + 4 + k) e.first_key _ at_key refl,
  )

parse_index_loop-index_bytes :
    (fuel : ℕ) (es : List IndexEntry) (data' : List ℕ) (offset : ℕ) (index : List IndexEntry)
    → AllEntries es
    → drop offset data' ≡ index_bytes es
    → offset + length (index_bytes es) ≡ length data'
    → length (index_bytes es) < fuel
    → parse_index_loop fuel data' offset index ≡ ok (index ++ es)
unfolding parse_index_loop index_bytes
parse_index_loop-index_bytes zero es data' offset index a at size h = absurd (omega arith)
parse_index_loop-index_bytes (suc fuel) [] data' offset index a at size h =
    rw (append-nil index) (ground arith)
parse_index_loop-index_bytes (suc fuel) (e ∷ es) data' offset index a at size h =
    let total : length (index_bytes (e ∷ es)) ≡ 12 + length e.first_key + length (index_bytes es) =
      omega (arith, length-append (entry_bytes e) (index_bytes es), length-entry_bytes e) in
    let here = parse_index_entry-at data' offset e (index_bytes es) a.0 at (omega arith) in
    let next = at_next data' offset e (index_bytes es) a.0 at (omega arith) in
    rw (leb-true (offset + 8) (length data') (omega arith), here)
      (parse_index_loop-index_bytes fuel es data' (offset + 4 + length e.first_key + 8)
          (index ++ e ∷ []) a.1 next (omega arith) (omega arith)
        ∙ ap ok (append_assoc index (e ∷ []) es))

pub parse_index-index_bytes :
    (es : List IndexEntry) → AllEntries es → parse_index (index_bytes es) ≡ ok es
unfolding parse_index
parse_index-index_bytes es a =
    parse_index_loop-index_bytes (suc (length (index_bytes es))) es (index_bytes es) 0 [] a refl
      (omega arith) (omega arith)
