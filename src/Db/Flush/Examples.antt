-- ===== src/Db/Flush/Examples.antt =====
-- A store with two entries in its memtable, which is flushed.
use pebble_db.Prelude.{
  ℕ, ◌<◌, ◌+◌, ◌^◌, List, [], ◌∷◌, Text, codes, ok, none, ◌≡◌, refl, arith, is_utf8, length, to_le,
}
use pebble_db.Prelude.BTreeMap
use pebble_db.Wal.Crc.{crc32}
use pebble_db.Bloom
use pebble_db.Compaction.Settled.{IsSettled}
use pebble_db.Compaction
use pebble_db.Sstable.Block.{record_bytes}
use pebble_db.Sstable.Block.RoundTrip.{AllValid}
use pebble_db.Sstable.Writer.{
  write_sstable, write_with_block_size, add_entries, add_entry, append_record, note_first_key,
  close_block, close_last, seal, patch, index_bytes,
}
use pebble_db.Sstable.Writer.Refinement.{filter_bits}
use pebble_db.Sstable.Examples.{one_hash, bytes_of}
use pebble_db.Iter.Memtable
use pebble_db.Fault
use pebble_db.Db.State.{Db, level_config}
use pebble_db.Db.Plan.{file_metas}
use pebble_db.Db.Read.{get}
use pebble_db.Db.Write.{sst_entries, flush}
use pebble_db.Db.Examples.{store}
use pebble_db.Db.Flush.Lookup.{get-flush, IsStored}
use pebble_db.Prelude.{◌≢◌, ◌⊎◌}

abbrev full : Db
full = record (store none) {
  memtable = (codes "a", Memtable.value (codes "one")) ∷ (codes "b", Memtable.tombstone) ∷ [];
}

abbrev bytes : List ℕ
bytes = bytes_of (write_sstable one_hash (sst_entries full.memtable []))

bytes-wrote : write_sstable one_hash (sst_entries full.memtable []) ≡ ok bytes
unfolding write_sstable write_with_block_size Bloom.from_entries Bloom.insert_all Bloom.insert
    Bloom.insert_loop Bloom.bit_of Bloom.set_bit Bloom.new Bloom.encode add_entries add_entry
    append_record note_first_key close_block close_last record_bytes seal patch index_bytes crc32
    to_le sst_entries BTreeMap.insert
bytes-wrote = refl

bytes-small : length bytes < 2 ^ 32
unfolding write_sstable write_with_block_size Bloom.from_entries Bloom.insert_all Bloom.insert
    Bloom.insert_loop Bloom.bit_of Bloom.set_bit Bloom.new Bloom.encode add_entries add_entry
    append_record note_first_key close_block close_last record_bytes seal patch index_bytes crc32
    to_le sst_entries BTreeMap.insert
bytes-small = omega arith

full-AllValid : AllValid (sst_entries full.memtable [])
unfolding is_utf8 sst_entries BTreeMap.insert
full-AllValid =
    ((refl, refl, omega arith, omega arith), ((refl, refl, omega arith, omega arith), tt))

full-filter : filter_bits one_hash (sst_entries full.memtable []) < 2 ^ 32
unfolding Bloom.new sst_entries BTreeMap.insert
full-filter = omega arith

full-IsSettled : IsSettled (file_metas 0 full.levels) (level_config full.options)
unfolding file_metas level_config Compaction.new
full-IsSettled = record { few = omega arith; small = λ level p q. absurd (omega arith) }

full-room : 0 + 1 < (level_config full.options).l0_compaction_threshold
unfolding level_config Compaction.new
full-room = omega arith

get-flush_example :
    (e : Db) × (flush one_hash 1 full ≡ (ok tt, e))
    × (e.memtable ≡ [])
    × ((key : Text) → (get key e).0 ≡ (get key full).0)
    × (((full.memtable ≡ []) × (e ≡ full)) ⊎ ((full.memtable ≢ []) × IsStored full [] [] bytes e))
unfolding Fault.injector
get-flush_example =
    get-flush one_hash 0 full [] [] bytes refl refl ((refl, tt), (tt, tt)) full-AllValid full-filter
      bytes-wrote bytes-small full-IsSettled full-room
