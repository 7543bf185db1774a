-- ===== src/Sstable/Writer/Refinement.antt =====
-- What is written is loaded: write_sstable_with_block_size against SsTable::load and get.
use pebble_db.Prelude.{ℕ, suc, ◌<◌, ◌^◌, List, [], ◌∷◌, Text, ok, Outcome, max}
use pebble_db.Prelude.{◌≡◌, refl, sym, ◌∙◌, ap, length, map, concat}
use mathlib.Core.Path.{subst}
use pebble_db.Bloom
use pebble_db.Bloom.{BloomFilter, Floats, from_entries, new}
use pebble_db.Bloom.Membership.{AllMight, from_entries-sized}
use pebble_db.Prelude.BTreeMap
use pebble_db.Prelude.BTreeMap.Ascending.{Ascending}
use pebble_db.Sstable.Block.{Entries}
use pebble_db.Sstable.Block.RoundTrip.{AllValid}
use pebble_db.Sstable.Table.{SsTable, header_size, last_of, load, get, entries, key_range}
use pebble_db.Sstable.Holds.{Holds, get-Holds, head_key}
use pebble_db.Sstable.Holds.Contents.{entries-Holds, key_range-Holds, both}
use pebble_db.Sstable.Writer.{Writer, index_bytes, seal, write_with_block_size}
use pebble_db.Sstable.Writer.Blocks.{all_bytes, layout}
use pebble_db.Sstable.Writer.Adding.{Finished, write-Finished}
use pebble_db.Sstable.Writer.Sealed.{file, seal-file}
use pebble_db.Sstable.Writer.Load.{load-table}

ok_inj : {A : Type 0} {a b : A} → Outcome.ok a ≡ ok b → a ≡ b
ok_inj h = cc

length-map : (es : Entries) → length (map (λ e. e.0) es) ≡ length es
length-map [] = refl
length-map (e ∷ es) = ap suc (length-map es)

-- The writer fails on no entries, and with no block size.
write_with_block_size-Finished :
    (fl : Floats) (es : Entries) (size : ℕ) (f : BloomFilter)
    → from_entries fl (map (λ e. e.0) es) ≡ ok f
    → (v : Writer) × (write_with_block_size fl es size ≡ ok (seal size (length es) f v))
      × Finished v es
unfolding write_with_block_size
write_with_block_size-Finished fl es size f built =
    let (w, v, runs, ends, done) = write-Finished size es in (v, rw (built, runs, ends) refl, done)

-- The writer does not fail: neither an `unwrap` nor an index panics, whatever the entries and the
-- block size.
pub write_with_block_size-ok :
    (fl : Floats) (es : Entries) (size : ℕ)
    → (bytes : List ℕ) × (write_with_block_size fl es size ≡ ok bytes)
write_with_block_size-ok fl es size =
    let (f, built, wf, all, bits, hashes) = from_entries-sized fl (map (λ e. e.0) es) in
    let (v, writes, done) = write_with_block_size-Finished fl es size f built in
    (seal size (length es) f v, writes)

-- The number of bits of the filter of a table.
abbrev pub filter_bits : Floats → Entries → ℕ
filter_bits fl es = (new fl (max (length es) 1) fl.one_hundredth).num_bits

-- The bytes that the writer makes of entries with lengths of 32 bits, fewer than 4 GiB of them and
-- with a filter of fewer than 2 ^ 32 bits, are loaded as a table that holds these entries in order.
pub load-write_with_block_size :
    (fl : Floats) (es : Entries) (size id : ℕ) (path : Text) (bytes : List ℕ)
    → AllValid es
    → filter_bits fl es < 2 ^ 32
    → write_with_block_size fl es size ≡ ok bytes
    → length bytes < 2 ^ 32
    → (t : SsTable) × (load id path bytes ≡ ok t)
      × Holds t es
      × (t.id ≡ id)
      × (t.path ≡ path)
      × (t.record_count ≡ length es)
load-write_with_block_size fl es size id path bytes valid fits wrote small =
    let (f, built, wf, all, bits, hashes) = from_entries-sized fl (map (λ e. e.0) es) in
    let (v, writes, done) = write_with_block_size-Finished fl es size f built in
    let bs = done.blocks in
    let count : length es ≡ length (concat bs) = ap length (sym done.joined) in
    let made : file size (length (concat bs)) (length bs) (all_bytes bs)
          (index_bytes (layout header_size bs)) (Bloom.encode f)
        ≡ bytes =
      ok_inj (
        ap ok (
          sym (
            seal-file size (length (concat bs)) (length bs) (all_bytes bs) _ _ f v done.in_file
              (ap index_bytes done.indexed) refl done.counted))
        ∙ ap (λ (k : ℕ). ok (seal size k f v)) (sym count)
        ∙ sym writes
        ∙ wrote) in
    let few : f.num_bits < 2 ^ 32 = rw (bits, length-map es) fits in
    let valid' = subst AllValid (sym done.joined) valid in
    let all' = subst (λ t. AllMight f (map (λ e. e.0) t)) (sym done.joined) all in
    let (t, loads, holds, is_id, is_path, records) =
      load-table size f wf few hashes bs done.nonempty valid' id path (rw made small) all' in
    (
      t,
      ap (load id path) (sym made) ∙ loads,
      subst (Holds t) done.joined holds,
      is_id,
      is_path,
      records ∙ sym count,
    )

-- A table of entries in key order, written and loaded, is looked up as the ordered map of these
-- entries is, under the bounds on the sizes of `load-write_with_block_size`.
pub get-load-write_with_block_size :
    (fl : Floats) (es : Entries) (size id : ℕ) (path : Text) (bytes : List ℕ)
    → AllValid es
    → Ascending es
    → filter_bits fl es < 2 ^ 32
    → write_with_block_size fl es size ≡ ok bytes
    → length bytes < 2 ^ 32
    → (t : SsTable) × (load id path bytes ≡ ok t)
      × ((key : Text) → get t key ≡ ok (BTreeMap.get key es))
get-load-write_with_block_size fl es size id path bytes valid sorted fits wrote small =
    let (t, loads, holds, is_id, is_path, records) =
      load-write_with_block_size fl es size id path bytes valid fits wrote small in
    (t, loads, λ key. get-Holds t es key holds sorted)

-- A table of entries in key order, written and loaded, under the bounds on the sizes of
-- `load-write_with_block_size`, gives back all its entries, the range from the first key to the
-- last, the number of the entries, and the number and the path it was loaded under.
pub entries-load-write_with_block_size :
    (fl : Floats) (es : Entries) (size id : ℕ) (path : Text) (bytes : List ℕ)
    → AllValid es
    → Ascending es
    → filter_bits fl es < 2 ^ 32
    → write_with_block_size fl es size ≡ ok bytes
    → length bytes < 2 ^ 32
    → (t : SsTable) × (load id path bytes ≡ ok t)
      × (entries t ≡ es)
      × (key_range t ≡ both (head_key es) (last_of es))
      × (t.record_count ≡ length es)
      × (t.id ≡ id)
      × (t.path ≡ path)
entries-load-write_with_block_size fl es size id path bytes valid sorted fits wrote small =
    let (t, loads, holds, is_id, is_path, records) =
      load-write_with_block_size fl es size id path bytes valid fits wrote small in
    (t, loads, entries-Holds t es holds sorted, key_range-Holds t es holds, records, is_id, is_path)
