-- ===== src/Sstable/Writer.antt =====
-- src/sstable.rs: write_sstable_with_block_size, up to the bytes that it hands to `fs::write`.
pub mod Adding
pub mod Blocks
pub mod Load
pub mod Reading
pub mod Refinement
pub mod Sealed
use pebble_db.Prelude.{
  ℕ, ◌+◌, List, [], ◌∷◌, ◌++◌, Text, Outcome, ok, panic, ◌>>=◌, Option, some, none,
}
use pebble_db.Prelude.{
  u32, to_le, take, drop, length, ltb, not, ◌&&◌, is_empty, if◌then◌else◌, replicate, map,
}
use pebble_db.Prelude.BTreeMap.{BTreeMap}
use pebble_db.Wal.Crc.{crc32}
use pebble_db.Bloom
use pebble_db.Bloom.{BloomFilter, Floats}
use pebble_db.Sstable.Block.{SsTableEntry, Entries, record_bytes}
use pebble_db.Sstable.Table.{IndexEntry, magic, version, header_size, default_block_size}

pub record Writer : Type 0 where
  pub file_buf : List ℕ
  pub blocks : List (List ℕ)
  pub index_entries : List IndexEntry
  pub current_block : List ℕ
  pub current_block_first_key : Option Text

abbrev pub start : Writer
start = record {
  file_buf = replicate header_size 0;
  blocks = [];
  index_entries = [];
  current_block = [];
  current_block_first_key = none;
}

-- The current block goes to the file; the caller says what the next one starts with. The `unwrap`
-- panics where no first key was noted.
unfoldable pub close_block : Writer → Option Text → Outcome Writer
close_block w next_key = elim w.current_block_first_key [
  | none ↦ panic
  | some first_key ↦ ok (record {
    file_buf = w.file_buf ++ w.current_block;
    blocks = w.blocks ++ w.current_block ∷ [];
    index_entries =
        w.index_entries
        ++ record {
          first_key = first_key;
          block_offset = u32 (length w.file_buf);
          block_size = u32 (length w.current_block);
        }
          ∷ [];
    current_block = [];
    current_block_first_key = next_key;
  })
]

unfoldable pub note_first_key : Text → Writer → Writer
note_first_key key w = record w {
  current_block_first_key = elim w.current_block_first_key [ none ↦ some key | some k ↦ some k ];
}

unfoldable pub append_record : Text → List ℕ → Writer → Writer
append_record key bytes w =
    let v = note_first_key key w in record v { current_block = v.current_block ++ bytes }

-- One round of the loop over the entries.
unfoldable pub add_entry : ℕ → Writer → Text → SsTableEntry → Outcome Writer
add_entry block_size w key entry = do
  let bytes = record_bytes key entry
  v ←
      if not (is_empty w.current_block) && ltb block_size (length w.current_block + length bytes)
      then close_block w (some key)
      else ok w
  ok (append_record key bytes v)

unfoldable pub add_entries : ℕ → Writer → Entries → Outcome Writer
add_entries block_size w [] = ok w
add_entries block_size w (e ∷ es) = do
  v ← add_entry block_size w e.0 e.1
  add_entries block_size v es

unfoldable pub close_last : Writer → Outcome Writer
close_last w = if is_empty w.current_block then ok w else close_block w none

unfoldable pub index_bytes : List IndexEntry → List ℕ
index_bytes [] = []
index_bytes (e ∷ es) =
    (to_le 4 (u32 (length e.first_key))
      ++ (e.first_key ++ (to_le 4 e.block_offset ++ to_le 4 e.block_size)))
    ++ index_bytes es

-- `file_buf[i..i + 4].copy_from_slice(&x.to_le_bytes())`
unfoldable pub patch : ℕ → ℕ → List ℕ → List ℕ
patch i x buf = take i buf ++ (to_le 4 x ++ drop (i + 4) buf)

-- What follows the blocks, the header's words, and the checksum of it all.
unfoldable pub seal : ℕ → ℕ → BloomFilter → Writer → List ℕ
seal block_size entry_count bloom w =
    let index_data = index_bytes w.index_entries in
    let bloom_encoded = Bloom.encode bloom in
    let index_offset = u32 (length w.file_buf) in
    let bloom_offset = u32 (length (w.file_buf ++ index_data)) in
    let footer =
      to_le 4 index_offset
      ++ (to_le 4 (u32 (length index_data))
          ++ (to_le 4 bloom_offset ++ to_le 4 (u32 (length bloom_encoded)))) in
    let unsealed = ((w.file_buf ++ index_data) ++ bloom_encoded) ++ footer in
    let sealed = patch 16 (u32 block_size) (
      patch 12 (u32 (length w.blocks))
        (patch 8 (u32 entry_count) (patch 4 version (patch 0 magic unsealed)))) in
    sealed ++ to_le 4 (crc32 sealed)

unfoldable pub write_with_block_size : Floats → BTreeMap SsTableEntry → ℕ → Outcome (List ℕ)
write_with_block_size fl entries block_size = do
  bloom ← Bloom.from_entries fl (map (λ e. e.0) entries)
  w ← add_entries block_size start entries
  v ← close_last w
  ok (seal block_size (length entries) bloom v)

unfoldable pub write_sstable : Floats → BTreeMap SsTableEntry → Outcome (List ℕ)
write_sstable fl entries = write_with_block_size fl entries default_block_size
