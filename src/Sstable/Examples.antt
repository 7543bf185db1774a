-- ===== src/Sstable/Examples.antt =====
-- A block and a table on which the theorems about src/sstable.rs are tried.
use pebble_db.Prelude.{
  ℕ, ◌<◌, ◌-◌, ◌^◌, List, [], ◌∷◌, Text, codes, some, Outcome, ok, ◌≡◌, refl, arith, is_utf8,
  length, to_le,
}
use pebble_db.Prelude.BTreeMap
use pebble_db.Prelude.BTreeMap.Ascending.{Ascending}
use pebble_db.Bloom.{Floats}
use pebble_db.Bloom.Examples.{whole_floats}
use pebble_db.Sstable.Block.{Entries, value, tombstone, decode_block, record_bytes}
use pebble_db.Sstable.Block.RoundTrip.{AllValid, block_bytes, decode_block-block_bytes}
use pebble_db.Sstable.Table.{SsTable, load, get, entries, key_range}
use pebble_db.Bloom
use pebble_db.Wal.Crc.{crc32}
use pebble_db.Sstable.Writer.{
  write_with_block_size, add_entries, add_entry, append_record, note_first_key, close_block,
  close_last, seal, patch, index_bytes,
}
use pebble_db.Sstable.Writer.Refinement.{
  filter_bits, write_with_block_size-ok, get-load-write_with_block_size,
  entries-load-write_with_block_size,
}

abbrev pub two_entries : Entries
two_entries = (codes "a", value (codes "one")) ∷ (codes "b", tombstone) ∷ []

pub two_entries-AllValid : AllValid two_entries
unfolding is_utf8
two_entries-AllValid =
    ((refl, refl, omega arith, omega arith), ((refl, refl, omega arith, omega arith), tt))

decode_block-block_bytes_example : decode_block (block_bytes two_entries) ≡ ok two_entries
decode_block-block_bytes_example = decode_block-block_bytes two_entries two_entries-AllValid

-- One round for each key.
abbrev pub one_hash : Floats
one_hash = record whole_floats { round_usize = λ n. n - n }

-- A block size of 10 bytes makes a block of each entry.
abbrev pub bytes_of : Outcome (List ℕ) → List ℕ
bytes_of (ok bytes) = bytes
bytes_of _ = []

abbrev pub file_bytes : List ℕ
file_bytes = bytes_of (write_with_block_size one_hash two_entries 10)

pub file_bytes-wrote : write_with_block_size one_hash two_entries 10 ≡ ok file_bytes
unfolding write_with_block_size Bloom.from_entries Bloom.insert_all Bloom.insert Bloom.insert_loop
    Bloom.bit_of Bloom.set_bit Bloom.new Bloom.encode add_entries add_entry append_record
    note_first_key close_block close_last record_bytes seal patch index_bytes crc32 to_le
file_bytes-wrote = refl

pub file_bytes-small : length file_bytes < 2 ^ 32
unfolding write_with_block_size Bloom.from_entries Bloom.insert_all Bloom.insert Bloom.insert_loop
    Bloom.bit_of Bloom.set_bit Bloom.new Bloom.encode add_entries add_entry append_record
    note_first_key close_block close_last record_bytes seal patch index_bytes crc32 to_le
file_bytes-small = omega arith

pub two_entries-Ascending : Ascending two_entries
two_entries-Ascending = ((refl, tt), (tt, tt))

pub two_entries-filter : filter_bits one_hash two_entries < 2 ^ 32
unfolding Bloom.new
two_entries-filter = omega arith

get-load-write_with_block_size_example :
    (t : SsTable) × (load 7 (codes "sst_7_0.dat") file_bytes ≡ ok t)
    × ((key : Text) → get t key ≡ ok (BTreeMap.get key two_entries))
get-load-write_with_block_size_example =
    get-load-write_with_block_size one_hash two_entries 10 7 (codes "sst_7_0.dat") file_bytes
      two_entries-AllValid two_entries-Ascending two_entries-filter file_bytes-wrote
      file_bytes-small

entries-load-write_with_block_size_example :
    (t : SsTable) × (load 7 (codes "sst_7_0.dat") file_bytes ≡ ok t)
    × (entries t ≡ two_entries)
    × (key_range t ≡ some (codes "a", codes "b"))
    × (t.record_count ≡ 2)
    × (t.id ≡ 7)
    × (t.path ≡ codes "sst_7_0.dat")
entries-load-write_with_block_size_example =
    entries-load-write_with_block_size one_hash two_entries 10 7 (codes "sst_7_0.dat") file_bytes
      two_entries-AllValid two_entries-Ascending two_entries-filter file_bytes-wrote
      file_bytes-small

write_with_block_size-ok_example :
    (bytes : List ℕ) × (write_with_block_size whole_floats two_entries 0 ≡ ok bytes)
write_with_block_size-ok_example = write_with_block_size-ok whole_floats two_entries 0
