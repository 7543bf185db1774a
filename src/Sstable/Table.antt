-- ===== src/Sstable/Table.antt =====
-- src/sstable.rs: SsTable, its parser, and the lookups.
pub mod Index
pub mod Number
use pebble_db.Prelude.{
  ℕ, zero, suc, ◌+◌, ◌-◌, List, [], ◌∷◌, ◌++◌, Text, Outcome, ok, panic, diverged, ◌>>=◌, ◌>>◌,
}
use pebble_db.Prelude.{
  Option, some, none, u32_at, slice, take, length, leb, ltb, ◌==◌, not, if◌then◌else◌, from_utf8,
}
use pebble_db.Prelude.{
  ok_or, fail_if, sstable_corruption, truncated_index_key, invalid_index_key, get_elem?,
}
use pebble_db.Prelude.{
  file_too_short, invalid_magic, unsupported_version, checksum_mismatch, invalid_bloom,
}
use pebble_db.Prelude.{text_le, cmp}
use pebble_db.Prelude.BTreeMap.{BTreeMap, insert}
use Prim.Native.Nat.{Ordering}
use pebble_db.Wal.Crc.{crc32}
use pebble_db.Bloom
use pebble_db.Bloom.{BloomFilter}
use pebble_db.Sstable.Block.{SsTableEntry, Entries, decode_block}

abbrev pub magic : ℕ
magic = 0x50454242

abbrev pub version : ℕ
version = 2

abbrev pub header_size : ℕ
header_size = 20

abbrev pub footer_size : ℕ
footer_size = 20

abbrev pub default_block_size : ℕ
default_block_size = 4096

pub record IndexEntry : Type 0 where
  pub first_key : Text
  pub block_offset : ℕ
  pub block_size : ℕ

pub record SsTable : Type 0 where
  pub id : ℕ
  pub path : Text
  pub data' : List ℕ
  pub index : List IndexEntry
  pub bloom : BloomFilter
  pub record_count : ℕ
  pub block_count : ℕ
  pub last_key : Option Text

-- One entry of the index at `offset`, and where the next one starts.
unfoldable pub parse_index_entry : List ℕ → ℕ → Outcome (IndexEntry × ℕ)
parse_index_entry data' offset = do
  let key_len = u32_at data' offset
  fail_if (ltb (length data') (offset + 4 + key_len + 8)) (sstable_corruption truncated_index_key)
  first_key ←
      ok_or (from_utf8 (slice data' (offset + 4) (offset + 4 + key_len)))
        (sstable_corruption invalid_index_key)
  ok (
    record {
      first_key = first_key;
      block_offset = u32_at data' (offset + 4 + key_len);
      block_size = u32_at data' (offset + 4 + key_len + 4);
    },
    offset + 4 + key_len + 8,
  )

unfoldable pub parse_index_loop : ℕ → List ℕ → ℕ → List IndexEntry → Outcome (List IndexEntry)
parse_index_loop zero data' offset index = diverged
parse_index_loop (suc fuel) data' offset index =
    let next = λ (r : IndexEntry × ℕ). parse_index_loop fuel data' r.1 (index ++ r.0 ∷ []) in
    let more = parse_index_entry data' offset >>= next in
    if leb (offset + 8) (length data') then more else ok index

-- An entry has 12 bytes at least.
unfoldable pub parse_index : List ℕ → Outcome (List IndexEntry)
parse_index data' = parse_index_loop (suc (length data')) data' 0 []

-- `&data[start..start + size]`, which panics past the end.
unfoldable pub part : List ℕ → ℕ → ℕ → Outcome (List ℕ)
part data' start size =
    if leb (start + size) (length data') then ok (slice data' start (start + size)) else panic

unfoldable pub parse : ℕ → Text → List ℕ → Outcome SsTable
parse id path data' = do
  fail_if (ltb (length data') (header_size + footer_size)) (sstable_corruption file_too_short)
  fail_if (not (u32_at data' 0 == magic)) (sstable_corruption invalid_magic)
  fail_if (not (u32_at data' 4 == version))
      (sstable_corruption (unsupported_version (u32_at data' 4)))
  let footer_start = length data' - footer_size
  let index_offset = u32_at data' footer_start
  let index_size = u32_at data' (footer_start + 4)
  let bloom_offset = u32_at data' (footer_start + 8)
  let bloom_size = u32_at data' (footer_start + 12)
  let checksum_stored = u32_at data' (footer_start + 16)
  fail_if (not (checksum_stored == crc32 (take (length data' - 4) data')))
      (sstable_corruption checksum_mismatch)
  index_data ← part data' index_offset index_size
  index ← parse_index index_data
  bloom_data ← part data' bloom_offset bloom_size
  bloom ← ok_or (Bloom.decode bloom_data) (sstable_corruption invalid_bloom)
  ok (record {
    id = id;
    path = path;
    data' = data';
    index = index;
    bloom = bloom;
    record_count = u32_at data' 8;
    block_count = u32_at data' 12;
    last_key = none;
  })

-- `.ok()`; the decoder neither panics nor aborts.
abbrev pub ok_part {ℓ} : {A : Type ℓ} → Outcome A → Option A
ok_part (ok a) = some a
ok_part _ = none

unfoldable pub read_entry : List ℕ → IndexEntry → Option Entries
read_entry data' entry =
    let end = entry.block_offset + entry.block_size in
    if ltb (length data') end
    then none
    else ok_part (decode_block (slice data' entry.block_offset end))

abbrev pub read_at : List ℕ → Option IndexEntry → Option Entries
read_at data' none = none
read_at data' (some entry) = read_entry data' entry

unfoldable pub read_block : SsTable → ℕ → Option Entries
read_block sst idx = read_at sst.data' (get_elem? sst.index idx)

abbrev pub last_of : Entries → Option Text
last_of [] = none
last_of (e ∷ []) = some e.0
last_of (e ∷ f ∷ es) = last_of (f ∷ es)

abbrev pub last_in : Option Entries → Option Text
last_in none = none
last_in (some es) = last_of es

unfoldable pub derive_last_key : SsTable → SsTable
derive_last_key sst =
    let block = read_block sst (length sst.index - 1) in
    if length sst.index == 0 then sst else record sst { last_key = last_in block }

-- `load`, from the bytes that `fs::read` returned.
unfoldable pub load : ℕ → Text → List ℕ → Outcome SsTable
load id path data' = do sst ← parse id path data'; ok (derive_last_key sst)

-- The loop of `find_block` at entry `i`, with the best entry so far.
unfoldable pub find_loop : ℕ → ℕ → Text → List IndexEntry → ℕ
find_loop i result key [] = result
find_loop i result key (e ∷ es) =
    let rest = find_loop (i + 1) i key es in if text_le e.first_key key then rest else result

-- Always `Some`, also for a table with no block.
unfoldable pub find_block : SsTable → Text → ℕ
find_block sst key = find_loop 0 0 key sst.index

-- The search through a block, which stops at the first greater key.
unfoldable pub scan_block : Text → Entries → Option SsTableEntry
scan_block key [] = none
scan_block key (e ∷ es) =
    let rest = scan_block key es in
    elim (cmp e.0 key) [ Ordering.eq ↦ some e.1 | Ordering.gt ↦ none | Ordering.lt ↦ rest ]

-- What the block that was read says of a key.
abbrev pub look : Text → Option Entries → Option SsTableEntry
look key none = none
look key (some block) = scan_block key block

unfoldable pub get : SsTable → Text → Outcome (Option SsTableEntry)
get sst key = do
  maybe ← Bloom.might_contain sst.bloom key
  ok (if not maybe then none else look key (read_block sst (find_block sst key)))

unfoldable pub insert_block : Entries → BTreeMap SsTableEntry → BTreeMap SsTableEntry
insert_block [] m = m
insert_block (e ∷ es) m = insert_block es (insert e.0 e.1 m)

-- The loop of `entries` from block `idx` on, with `left` blocks to go.
unfoldable pub entries_loop : ℕ → ℕ → SsTable → BTreeMap SsTableEntry → BTreeMap SsTableEntry
entries_loop zero idx sst m = m
entries_loop (suc left) idx sst m =
    entries_loop left (idx + 1) sst
      (elim (read_block sst idx) [ none ↦ m | some block ↦ insert_block block m ])

unfoldable pub entries : SsTable → BTreeMap SsTableEntry
entries sst = entries_loop (length sst.index) 0 sst []

unfoldable pub file_size : SsTable → ℕ
file_size sst = length sst.data'

unfoldable pub first_key : SsTable → Option Text
first_key sst = elim sst.index [ [] ↦ none | e ∷ es ↦ some e.first_key ]

unfoldable pub key_range : SsTable → Option (Text × Text)
key_range sst = elim (first_key sst) [
  | none ↦ none
  | some first ↦ elim sst.last_key [ none ↦ none | some last ↦ some (first, last) ]
]
