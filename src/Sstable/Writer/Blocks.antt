-- ===== src/Sstable/Writer/Blocks.antt =====
-- The blocks that the writer makes of the entries, and the index it keeps of them.
use pebble_db.Prelude.{ℕ, ◌+◌, List, [], ◌∷◌, ◌++◌, Text, Option, none, some, ok}
use pebble_db.Prelude.{
  ◌≡◌, ◌≢◌, refl, sym, ◌∙◌, ap, arith, length, length-append, map, concat, All, u32, append_assoc,
  append-nil, replicate,
}
use pebble_db.Sstable.Block.{SsTableEntry, Entries, record_bytes}
use pebble_db.Sstable.Block.RoundTrip.{block_bytes}
use pebble_db.Sstable.Table.{IndexEntry, header_size}
use pebble_db.Sstable.Holds.{head_key}
use pebble_db.Sstable.Writer.{Writer, start, close_block, note_first_key, append_record}

abbrev pub all_bytes : List Entries → List ℕ
all_bytes bs = concat (map block_bytes bs)

abbrev pub entry_at : ℕ → Text → Entries → IndexEntry
entry_at offset key b = record {
  first_key = key;
  block_offset = u32 offset;
  block_size = u32 (length (block_bytes b));
}

-- The index of blocks that stand in the file from `offset` on.
abbrev pub layout : ℕ → List Entries → List IndexEntry
layout offset [] = []
layout offset ([] ∷ bs) = layout offset bs
layout offset ((e ∷ es) ∷ bs) =
    entry_at offset e.0 (e ∷ es) ∷ layout (offset + length (block_bytes (e ∷ es))) bs

abbrev pub blank : List ℕ
blank = replicate header_size 0

-- The writer has put the blocks `bs` into the file, and holds the entries `cur` of the next.
pub record Wrote (w : Writer) (bs : List Entries) (cur : Entries) : Type 0 where
  pub in_file : w.file_buf ≡ blank ++ all_bytes bs
  pub indexed : w.index_entries ≡ layout header_size bs
  pub held : w.current_block ≡ block_bytes cur
  pub first : w.current_block_first_key ≡ head_key cur
  pub counted : length w.blocks ≡ length bs
  pub nonempty : All (λ b. b ≢ []) bs

pub start-Wrote : Wrote start [] []
start-Wrote = record {
  in_file = sym (append-nil blank);
  indexed = refl;
  held = refl;
  first = refl;
  counted = refl;
  nonempty = tt;
}

all_bytes-snoc :
    (bs : List Entries) (b : Entries) → all_bytes (bs ++ b ∷ []) ≡ all_bytes bs ++ block_bytes b
all_bytes-snoc [] b = append-nil (block_bytes b)
all_bytes-snoc (c ∷ bs) b =
    ap (λ t. block_bytes c ++ t) (all_bytes-snoc bs b)
    ∙ sym (append_assoc (block_bytes c) (all_bytes bs) (block_bytes b))

layout-snoc :
    (offset : ℕ) (bs : List Entries) (e : Text × SsTableEntry) (es : Entries)
    → layout offset (bs ++ (e ∷ es) ∷ [])
      ≡ layout offset bs ++ entry_at (offset + length (all_bytes bs)) e.0 (e ∷ es) ∷ []
layout-snoc offset [] e es =
    let here : offset ≡ offset + 0 = omega arith in
    ap (λ (o : ℕ). entry_at o e.0 (e ∷ es) ∷ []) here
layout-snoc offset ([] ∷ bs) e es = layout-snoc offset bs e es
layout-snoc offset ((f ∷ fs) ∷ bs) e es =
    let b : Entries = f ∷ fs in
    let next = offset + length (block_bytes b) in
    let far : next + length (all_bytes bs) ≡ offset + length (all_bytes (b ∷ bs)) =
      omega (arith, length-append (block_bytes b) (all_bytes bs)) in
    ap (λ t. entry_at offset f.0 b ∷ t)
      (layout-snoc next bs e es
        ∙ ap (λ (o : ℕ). layout next bs ++ entry_at o e.0 (e ∷ es) ∷ []) far)

All-snoc :
    (bs : List Entries) (b : Entries)
    → All (λ c. c ≢ []) bs
    → b ≢ []
    → All (λ c. c ≢ []) (bs ++ b ∷ [])
All-snoc [] b a n = (n, tt)
All-snoc (c ∷ bs) b a n = (a.0, All-snoc bs b a.1 n)

cons-ne-nil : (e : Text × SsTableEntry) (es : Entries) → (e ∷ es) ≢ []
cons-ne-nil e es h = cc h

pub concat-snoc : (bs : List Entries) (b : Entries) → concat (bs ++ b ∷ []) ≡ concat bs ++ b
concat-snoc [] b = append-nil b
concat-snoc (c ∷ bs) b = ap (λ t. c ++ t) (concat-snoc bs b) ∙ sym (append_assoc c (concat bs) b)

abbrev pub closed : Writer → Text → Option Text → Writer
closed w first_key next = record {
  file_buf = w.file_buf ++ w.current_block;
  blocks = w.blocks ++ w.current_block ∷ [];
  index_entries =
      w.index_entries
      ++ record {
        first_key = first_key;
        block_offset = u32 (length w.file_buf);
        block_size = u32 (length w.current_block);
      }
        ∷ [];
  current_block = [];
  current_block_first_key = next;
}

module _ (w : Writer) (bs : List Entries) (e : Text × SsTableEntry) (es : Entries)
    (wrote : Wrote w bs (e ∷ es)) where
  pub close_block-ok : (next : Option Text) → close_block w next ≡ ok (closed w e.0 next)
  unfolding close_block
  close_block-ok next = rw wrote.first refl

  closed-in_file : w.file_buf ++ w.current_block ≡ blank ++ all_bytes (bs ++ (e ∷ es) ∷ [])
  closed-in_file =
      rw (wrote.in_file, wrote.held, all_bytes-snoc bs (e ∷ es))
        (append_assoc blank (all_bytes bs) (block_bytes (e ∷ es)))

  closed-indexed : (closed w e.0 none).index_entries ≡ layout header_size (bs ++ (e ∷ es) ∷ [])
  closed-indexed =
      let size : length w.file_buf ≡ header_size + length (all_bytes bs) =
        ap length wrote.in_file ∙ length-append blank (all_bytes bs) in
      rw (wrote.indexed, size, wrote.held) (sym (layout-snoc header_size bs e es))

  closed-counted : length (w.blocks ++ w.current_block ∷ []) ≡ length (bs ++ (e ∷ es) ∷ [])
  closed-counted = omega (
    arith,
    length-append w.blocks (w.current_block ∷ []),
    length-append bs ((e ∷ es) ∷ []),
    wrote.counted,
  )

  pub closed-Wrote : Wrote (closed w e.0 none) (bs ++ (e ∷ es) ∷ []) []
  closed-Wrote = record {
    in_file = closed-in_file;
    indexed = closed-indexed;
    held = refl;
    first = refl;
    counted = closed-counted;
    nonempty = All-snoc bs (e ∷ es) wrote.nonempty (cons-ne-nil e es);
  }

  -- The first record of the next block.
  pub append_record-closed :
      (key : Text) (entry : SsTableEntry)
      → Wrote
          (append_record key (record_bytes key entry) (closed w e.0 (some key)))
          (bs ++ (e ∷ es) ∷ [])
          ((key, entry) ∷ [])
  unfolding append_record note_first_key
  append_record-closed key entry = record {
    in_file = closed-in_file;
    indexed = closed-indexed;
    held = sym (append-nil (record_bytes key entry));
    first = refl;
    counted = closed-counted;
    nonempty = All-snoc bs (e ∷ es) wrote.nonempty (cons-ne-nil e es);
  }
