-- ===== src/Sstable/Writer/Sealed.antt =====
-- The bytes of a sealed table file, and that `parse` takes them apart again.
use pebble_db.Prelude.{
  ℕ, ◌+◌, ◌-◌, ◌<◌, ◌^◌, List, [], ◌++◌, Text, ok, some, none, ◌≡◌, refl, sym, ◌∙◌, ap, arith,
}
use pebble_db.Prelude.{
  u32, to_le, length, length-append, length-to_le, u32_at_lem, drop_u32, drop_next, slice_at,
  take_part, ltb-false, leb-true, ==_refl,
}
use pebble_db.Prelude.{append_assoc, append-nil, drop, take, u32_at}
use pebble_db.Wal.Crc.{crc32, crc32-lt}
use pebble_db.Bloom
use pebble_db.Bloom.{BloomFilter}
use pebble_db.Sstable.Table.{
  IndexEntry, SsTable, magic, version, part, parse, parse_index, header_size, footer_size,
}
use pebble_db.Sstable.Writer.{Writer, patch, seal, index_bytes}
use pebble_db.Sstable.Writer.Blocks.{blank}

patch_header :
    (a b c d e : ℕ) (rest : List ℕ)
    → patch 16 e (patch 12 d (patch 8 c (patch 4 b (patch 0 a (blank ++ rest)))))
      ≡ to_le 4 a ++ (to_le 4 b ++ (to_le 4 c ++ (to_le 4 d ++ (to_le 4 e ++ rest))))
unfolding patch to_le
patch_header a b c d e rest = refl

length-word : (x : ℕ) (t : List ℕ) → length (to_le 4 x ++ t) ≡ 4 + length t
length-word x t = omega (arith, length-append (to_le 4 x) t, length-to_le 4 x)

-- The file of the blocks `B`, the index `I` and the filter `F`, with `tail` after them.
module _ (size n count : ℕ) (B I F : List ℕ) where
  abbrev footer : List ℕ → List ℕ
  footer tail =
      to_le 4 (u32 (header_size + length B))
      ++ (to_le 4 (u32 (length I))
          ++ (to_le 4 (u32 (header_size + length B + length I))
              ++ (to_le 4 (u32 (length F)) ++ tail)))

  abbrev pub whole : List ℕ → List ℕ
  whole tail =
      to_le 4 magic
      ++ (to_le 4 version
          ++ (to_le 4 (u32 n)
              ++ (to_le 4 (u32 count) ++ (to_le 4 (u32 size) ++ (B ++ (I ++ (F ++ footer tail)))))))

  abbrev pub file : List ℕ
  file = whole (to_le 4 (crc32 (whole [])))

  whole-append : (tail : List ℕ) → whole [] ++ tail ≡ whole tail
  whole-append tail = simp append_assoc

  abbrev words : List ℕ
  words =
      to_le 4 (u32 (header_size + length B))
      ++ (to_le 4 (u32 (length I))
          ++ (to_le 4 (u32 (header_size + length B + length I)) ++ to_le 4 (u32 (length F))))

  words-nil : words ≡ footer []
  words-nil = rw (append-nil (to_le 4 (u32 (length F)))) refl

  unsealed-eq : (((blank ++ B) ++ I) ++ F) ++ words ≡ blank ++ (B ++ (I ++ (F ++ footer [])))
  unsealed-eq =
      ap (λ t. (((blank ++ B) ++ I) ++ F) ++ t) words-nil
      ∙ ap (λ t. blank ++ t)
          (append_assoc (B ++ I) F (footer []) ∙ append_assoc B I (F ++ footer []))

  pub seal-file :
      (bloom : BloomFilter) (w : Writer)
      → w.file_buf ≡ blank ++ B
      → index_bytes w.index_entries ≡ I
      → Bloom.encode bloom ≡ F
      → length w.blocks ≡ count
      → seal size n bloom w ≡ file
  unfolding seal
  seal-file bloom w b i f c =
      let at_index : length (blank ++ B) ≡ header_size + length B = length-append blank B in
      let at_filter : length ((blank ++ B) ++ I) ≡ header_size + length B + length I =
        omega (arith, length-append (blank ++ B) I, length-append blank B) in
      rw
        (
          b,
          i,
          f,
          c,
          at_filter,
          at_index,
          unsealed-eq,
          patch_header magic version (u32 n) (u32 count) (u32 size) (B ++ (I ++ (F ++ footer []))),
        )
        (whole-append (to_le 4 (crc32 (whole []))))

  abbrev total : ℕ
  total = header_size + length B + length I + length F

  length-whole : (tail : List ℕ) → length (whole tail) ≡ total + 16 + length tail
  length-whole tail = omega (
    arith,
    length-word,
    length-append B (I ++ (F ++ footer tail)),
    length-append I (F ++ footer tail),
    length-append F (footer tail),
  )

  abbrev checksum : ℕ
  checksum = crc32 (whole [])

  abbrev parts : List ℕ
  parts = B ++ (I ++ (F ++ footer (to_le 4 checksum)))

  pub at_parts : drop 20 file ≡ parts
  at_parts = unfold to_le in refl

  at_index : drop (header_size + length B) file ≡ I ++ (F ++ footer (to_le 4 checksum))
  at_index = drop_next file 20 (header_size + length B) B _ at_parts refl

  at_filter : drop (header_size + length B + length I) file ≡ F ++ footer (to_le 4 checksum)
  at_filter =
      drop_next file (header_size + length B) (header_size + length B + length I) I _ at_index refl

  at_footer : drop total file ≡ footer (to_le 4 checksum)
  at_footer = drop_next file (header_size + length B + length I) total F _ at_filter refl

  pub length-file : length file ≡ total + footer_size
  length-file = omega (arith, length-whole (to_le 4 checksum), length-to_le 4 checksum)

  -- The words of the header and of the footer, in a file of less than 4 GiB.
  module _ (small : total + footer_size < 2 ^ 32) where
    header_words :
        (u32_at file 0 ≡ magic)
        × (u32_at file 4 ≡ version)
        × (u32_at file 8 ≡ u32 n)
        × (u32_at file 12 ≡ u32 count)
    header_words =
        let at_4 = drop_u32 file 0 4 magic _ refl refl in
        let at_8 = drop_u32 file 4 8 version _ at_4 refl in
        let at_12 = drop_u32 file 8 12 (u32 n) _ at_8 refl in
        (
          u32_at_lem file 0 magic _ refl (omega arith),
          u32_at_lem file 4 version _ at_4 (omega arith),
          u32_at_lem file 8 (u32 n) _ at_8 (omega arith),
          u32_at_lem file 12 (u32 count) _ at_12 (omega arith),
        )

    footer_words :
        (u32_at file total ≡ header_size + length B)
        × (u32_at file (total + 4) ≡ length I)
        × (u32_at file (total + 8) ≡ header_size + length B + length I)
        × (u32_at file (total + 12) ≡ length F)
        × (u32_at file (total + 16) ≡ checksum)
    footer_words =
        let at_4 =
          drop_u32 file total (total + 4) (u32 (header_size + length B)) _ at_footer refl in
        let at_8 = drop_u32 file (total + 4) (total + 8) (u32 (length I)) _ at_4 (omega arith) in
        let at_12 =
          drop_u32 file (total + 8) (total + 12) (u32 (header_size + length B + length I)) _ at_8
            (omega arith) in
        let at_16 =
          drop_u32 file (total + 12) (total + 16) (u32 (length F)) _ at_12 (omega arith) in
        (
          u32_at_lem file total (u32 (header_size + length B)) _ at_footer (omega arith)
              ∙ omega arith,
          u32_at_lem file (total + 4) (u32 (length I)) _ at_4 (omega arith) ∙ omega arith,
          u32_at_lem file (total + 8) (u32 (header_size + length B + length I)) _ at_8 (omega arith)
              ∙ omega arith,
          u32_at_lem file (total + 12) (u32 (length F)) _ at_12 (omega arith) ∙ omega arith,
          u32_at_lem file (total + 16) checksum [] (at_16 ∙ sym (append-nil (to_le 4 checksum)))
              (crc32-lt (whole [])),
        )

    sealed_part : take (length file - 4) file ≡ whole []
    sealed_part =
        let size : length file - 4 ≡ length (whole []) =
          omega (arith, length-file, length-whole []) in
        ap (λ t. take (length file - 4) t) (sym (whole-append (to_le 4 checksum)))
        ∙ take_part (length file - 4) (whole []) (to_le 4 checksum) size

    index_part : part file (header_size + length B) (length I) ≡ ok I
    unfolding part
    index_part =
        rw
          (
            leb-true (header_size + length B + length I) (length file) (omega (arith, length-file)),
            slice_at file (header_size + length B) (header_size + length B + length I) I _ at_index
                refl,
          )
          refl

    filter_part : part file (header_size + length B + length I) (length F) ≡ ok F
    unfolding part
    filter_part =
        rw
          (
            leb-true total (length file) (omega (arith, length-file)),
            slice_at file (header_size + length B + length I) total F _ at_filter refl,
          )
          refl

    abbrev pub parsed : ℕ → Text → List IndexEntry → BloomFilter → SsTable
    parsed id path index bloom = record {
      id = id;
      path = path;
      data' = file;
      index = index;
      bloom = bloom;
      record_count = u32 n;
      block_count = u32 count;
      last_key = none;
    }

    pub parse-file :
        (id : ℕ) (path : Text) (index : List IndexEntry) (bloom : BloomFilter)
        → parse_index I ≡ ok index
        → Bloom.decode F ≡ some bloom
        → parse id path file ≡ ok (parsed id path index bloom)
    unfolding parse
    parse-file id path index bloom i f =
        let start : length file - footer_size ≡ total = omega (arith, length-file) in
        let h = header_words in
        let w = footer_words in
        rw
          (
            ltb-false (length file) (header_size + footer_size) (omega (arith, length-file)),
            h.0,
            h.1,
            start,
            w.4,
            sealed_part,
            ==_refl checksum,
            w.0,
            w.1,
            index_part,
            i,
            w.2,
            w.3,
            filter_part,
            f,
            h.2,
            h.3,
          )
          refl
