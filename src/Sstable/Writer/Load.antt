-- ===== src/Sstable/Writer/Load.antt =====
-- The composition of write_sstable_with_block_size and SsTable::load.
use pebble_db.Prelude.{
  ℕ, ◌==◌, false, ◌+◌, ◌-◌, ◌<◌, ◌≤◌, ◌^◌, List, [], ◌∷◌, ◌++◌, Text, none, some, ok, true,
}
use pebble_db.Prelude.{
  ◌≡◌, ◌≢◌, refl, sym, ◌∙◌, ap, arith, length, length-append, map, concat, All, append-nil,
  get_elem?,
}
use pebble_db.Bloom
use pebble_db.Bloom.{BloomFilter, Floats, from_entries, new}
use pebble_db.Bloom.Bits.{IsWellFormed}
use pebble_db.Bloom.Codec.{decode-encode}
use pebble_db.Bloom.Membership.{AllMight, might_contain-ok}
use pebble_db.Sstable.Block.{SsTableEntry, Entries, record_bytes}
use pebble_db.Sstable.Block.RoundTrip.{AllValid, block_bytes, length-record_bytes}
use pebble_db.Sstable.Table.{
  SsTable, header_size, footer_size, read_block, last_of, last_in, derive_last_key, load,
}
use pebble_db.Sstable.Table.Index.{parse_index-index_bytes}
use pebble_db.Sstable.Holds.{Holds}
use pebble_db.Sstable.Writer.{index_bytes}
use pebble_db.Sstable.Writer.Blocks.{all_bytes, layout}
use pebble_db.Sstable.Writer.Reading.{
  length-layout, layout-firsts, layout-AllEntries, read_at-layout,
}
use pebble_db.Sstable.Writer.Sealed.{at_parts, file, length-file, parsed, parse-file}

last_of-append :
    (xs : Entries) (y : Text × SsTableEntry) (ys : Entries)
    → last_of (xs ++ y ∷ ys) ≡ last_of (y ∷ ys)
last_of-append [] y ys = refl
last_of-append (x ∷ []) y ys = refl
last_of-append (x ∷ z ∷ xs) y ys = last_of-append (z ∷ xs) y ys

-- The last key of the last block is the last key of all.
last_in-concat :
    (b : Entries) (bs : List Entries)
    → All (λ c. c ≢ []) bs
    → last_in (get_elem? (b ∷ bs) (length bs)) ≡ last_of (concat (b ∷ bs))
last_in-concat b [] n = ap last_of (sym (append-nil b))
last_in-concat b ([] ∷ bs) n = absurd (n.0 refl)
last_in-concat b ((e ∷ es) ∷ bs) n =
    last_in-concat (e ∷ es) bs n.1 ∙ sym (last_of-append b e (es ++ concat bs))

-- Every block has an entry, and every entry a byte.
length-all_bytes :
    (bs : List Entries)
    → All (λ b. b ≢ []) bs
    → (length bs ≤ length (all_bytes bs)) × (length (concat bs) ≤ length (all_bytes bs))
length-all_bytes [] n = (omega arith, omega arith)
length-all_bytes (b ∷ bs) n =
    let (blocks, entries) = length-all_bytes bs n.1 in
    (
      omega (
        arith,
        length-append (block_bytes b) (all_bytes bs),
        some_entry b n.0,
        length-block_bytes b,
        blocks,
      ),
      omega (
        arith,
        length-append (block_bytes b) (all_bytes bs),
        length-append b (concat bs),
        length-block_bytes b,
        entries,
      ),
    )
  where
    length-block_bytes : (es : Entries) → length es ≤ length (block_bytes es)
    length-block_bytes [] = omega arith
    length-block_bytes (e ∷ es) = omega (
      arith,
      length-append (record_bytes e.0 e.1) (block_bytes es),
      length-record_bytes e.0 e.1,
      length-block_bytes es,
    )

    some_entry : (es : Entries) → es ≢ [] → 0 < length es
    some_entry [] n = absurd (n refl)
    some_entry (e ∷ es) n = omega arith

AllMight-All :
    (f : BloomFilter) (es : Entries)
    → AllMight f (map (λ e. e.0) es)
    → All (λ e. Bloom.might_contain f e.0 ≡ ok true) es
AllMight-All f [] a = tt
AllMight-All f (e ∷ es) a = (a.0, AllMight-All f es a.1)

-- `derive_last_key` of a table whose blocks are those of a list.
derive_last_key-blocks :
    (sst : SsTable) (bs : List Entries)
    → All (λ b. b ≢ []) bs
    → length sst.index ≡ length bs
    → sst.last_key ≡ none
    → ((i : ℕ) → read_block sst i ≡ get_elem? bs i)
    → derive_last_key sst ≡ record sst { last_key = last_of (concat bs) }
unfolding derive_last_key
derive_last_key-blocks sst [] n size none_yet reads = rw size (rw (← none_yet) refl)
derive_last_key-blocks sst (b ∷ bs) n size none_yet reads =
    let last : length sst.index - 1 ≡ length bs = omega (arith, size) in
    let some_block : (length sst.index == 0) ≡ false = ground (arith, size) in
    rw (last, reads (length bs), last_in-concat b bs n.1, some_block) refl

-- The file of the blocks `bs` and of the filter `f`.
module _ (size : ℕ) (f : BloomFilter) (wf : IsWellFormed f) (bits : f.num_bits < 2 ^ 32)
    (hashes : f.num_hashes ≤ 30) (bs : List Entries) (nonempty : All (λ b. b ≢ []) bs)
    (valid : AllValid (concat bs)) (id : ℕ) (path : Text) where
  abbrev B : List ℕ
  B = all_bytes bs

  abbrev I : List ℕ
  I = index_bytes (layout header_size bs)

  abbrev F : List ℕ
  F = Bloom.encode f

  abbrev n : ℕ
  n = length (concat bs)

  abbrev bytes : List ℕ
  bytes = file size n (length bs) B I F

  module _ (small : length bytes < 2 ^ 32) where
    sized : header_size + length B + length I + length F + footer_size < 2 ^ 32
    sized = omega (arith, small, length-file size n (length bs) B I F)

    abbrev table : SsTable
    table = parsed size n (length bs) B I F sized id path (layout header_size bs) f

    reads : (i : ℕ) → read_block table i ≡ get_elem? bs i
    unfolding read_block
    reads i =
        read_at-layout bytes header_size bs _ i nonempty valid (at_parts size n (length bs) B I F)
          (omega (arith, length-file size n (length bs) B I F)) small

    load-file : load id path bytes ≡ ok (record table { last_key = last_of (concat bs) })
    unfolding load
    load-file =
        let index =
          parse_index-index_bytes (layout header_size bs)
            (layout-AllEntries header_size bs valid) in
        let filter : Bloom.decode F ≡ some f =
          ap Bloom.decode (sym (append-nil F))
          ∙ decode-encode f [] wf bits (omega (arith, hashes)) in
        rw
          (parse-file size n (length bs) B I F sized id path (layout header_size bs) f index filter)
          (ap ok (
            derive_last_key-blocks table bs nonempty (length-layout header_size bs nonempty) refl
              reads))

    file-Holds :
        AllMight f (map (λ e. e.0) (concat bs))
        → Holds (record table { last_key = last_of (concat bs) }) (concat bs)
    unfolding read_block
    file-Holds all = record {
      blocks = bs;
      joined = refl;
      nonempty = nonempty;
      firsts = layout-firsts header_size bs nonempty;
      reads = reads;
      counted =
          omega (arith, length-all_bytes bs nonempty, length-file size n (length bs) B I F, small);
      last = refl;
      answers = λ key. might_contain-ok f key wf;
      might = AllMight-All f (concat bs) all;
    }

    pub load-table :
        AllMight f (map (λ e. e.0) (concat bs))
        → (t : SsTable) × (load id path bytes ≡ ok t)
          × Holds t (concat bs)
          × (t.id ≡ id)
          × (t.path ≡ path)
          × (t.record_count ≡ n)
    load-table all = (
      record table { last_key = last_of (concat bs) },
      load-file,
      file-Holds all,
      refl,
      refl,
      omega (arith, length-all_bytes bs nonempty, length-file size n (length bs) B I F, small),
    )
