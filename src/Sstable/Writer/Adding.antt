-- ===== src/Sstable/Writer/Adding.antt =====
-- The loop over the entries puts all of them into blocks.
use pebble_db.Prelude.{ℕ, ◌+◌, List, [], ◌∷◌, ◌++◌, Text, false, none, some, ok}
use pebble_db.Prelude.{
  ◌≡◌, ◌≢◌, inl, inr, refl, sym, ◌∙◌, ap, length, concat, All, Bool-cases, append_assoc, append-nil,
  is_empty, ltb,
}
use pebble_db.Sstable.Block.{SsTableEntry, Entries, record_bytes}
use pebble_db.Sstable.Block.RoundTrip.{block_bytes}
use pebble_db.Sstable.Table.{header_size}
use pebble_db.Sstable.Writer.{
  Writer, start, note_first_key, append_record, add_entry, add_entries, close_last,
}
use pebble_db.Sstable.Writer.Blocks.{
  all_bytes, layout, blank, Wrote, start-Wrote, closed, close_block-ok, closed-Wrote,
  append_record-closed, concat-snoc,
}

block_bytes-snoc :
    (es : Entries) (key : Text) (entry : SsTableEntry)
    → block_bytes (es ++ (key, entry) ∷ []) ≡ block_bytes es ++ record_bytes key entry
block_bytes-snoc [] key entry = append-nil (record_bytes key entry)
block_bytes-snoc (e ∷ es) key entry =
    ap (λ t. record_bytes e.0 e.1 ++ t) (block_bytes-snoc es key entry)
    ∙ sym (append_assoc (record_bytes e.0 e.1) (block_bytes es) (record_bytes key entry))

-- The writer with one more record in its block.
append_record-Wrote :
    (w : Writer) (bs : List Entries) (cur : Entries) (key : Text) (entry : SsTableEntry)
    → Wrote w bs cur
    → Wrote (append_record key (record_bytes key entry) w) bs (cur ++ (key, entry) ∷ [])
unfolding append_record note_first_key
append_record-Wrote w bs [] key entry wrote = record {
  in_file = wrote.in_file;
  indexed = wrote.indexed;
  held = rw wrote.held (sym (append-nil (record_bytes key entry)));
  first = rw wrote.first refl;
  counted = wrote.counted;
  nonempty = wrote.nonempty;
}
append_record-Wrote w bs (e ∷ es) key entry wrote = record {
  in_file = wrote.in_file;
  indexed = wrote.indexed;
  held = rw wrote.held (sym (block_bytes-snoc (e ∷ es) key entry));
  first = rw wrote.first refl;
  counted = wrote.counted;
  nonempty = wrote.nonempty;
}

-- The writer has put the entries `es` into its blocks.
abbrev Written : Writer → Entries → Type 0
Written w es = (bs : List Entries) × (cur : Entries) × Wrote w bs cur × (concat bs ++ cur ≡ es)

add_entry-Wrote :
    (size : ℕ) (w : Writer) (bs : List Entries) (cur : Entries) (key : Text) (entry : SsTableEntry)
    → Wrote w bs cur
    → (v : Writer) × (add_entry size w key entry ≡ ok v)
      × Written v ((concat bs ++ cur) ++ (key, entry) ∷ [])
unfolding add_entry
add_entry-Wrote size w bs [] key entry wrote = (
  append_record key (record_bytes key entry) w,
  rw wrote.held refl,
  (
    bs,
    (key, entry) ∷ [],
    append_record-Wrote w bs [] key entry wrote,
    ap (λ t. t ++ (key, entry) ∷ []) (sym (append-nil (concat bs))),
  ),
)
add_entry-Wrote size w bs (e ∷ es) key entry wrote =
    let held : is_empty w.current_block ≡ false = rw wrote.held (unfold record_bytes in refl) in
    elim (Bool-cases (ltb size (length w.current_block + length (record_bytes key entry)))) [
      | inl full ↦ (
        append_record key (record_bytes key entry) (closed w e.0 (some key)),
        rw (held, full, close_block-ok w bs e es wrote (some key)) refl,
        (
          bs ++ (e ∷ es) ∷ [],
          (key, entry) ∷ [],
          append_record-closed w bs e es wrote key entry,
          ap (λ t. t ++ (key, entry) ∷ []) (concat-snoc bs (e ∷ es)),
        ),
      )
      | inr fits ↦ (
        append_record key (record_bytes key entry) w,
        rw (held, fits) refl,
        (
          bs,
          (e ∷ es) ++ (key, entry) ∷ [],
          append_record-Wrote w bs (e ∷ es) key entry wrote,
          sym (append_assoc (concat bs) (e ∷ es) ((key, entry) ∷ [])),
        ),
      )
    ]

add_entries-Written :
    (size : ℕ) (w : Writer) (done es : Entries)
    → Written w done
    → (v : Writer) × (add_entries size w es ≡ ok v) × Written v (done ++ es)
unfolding add_entries
add_entries-Written size w done [] (bs, cur, wrote, e) =
    (w, refl, (bs, cur, wrote, e ∙ sym (append-nil done)))
add_entries-Written size w done (x ∷ es) (bs, cur, wrote, e) =
    let (u, here, (cs, more, wrote', e')) = add_entry-Wrote size w bs cur x.0 x.1 wrote in
    let all : (done ++ x ∷ []) ++ es ≡ done ++ x ∷ es = append_assoc done (x ∷ []) es in
    let (v, there, (ds, last, wrote'', e'')) =
      add_entries-Written size u (done ++ x ∷ []) es
        (cs, more, wrote', e' ∙ ap (λ t. t ++ x ∷ []) e) in
    (v, rw here there, (ds, last, wrote'', e'' ∙ all))

-- What the writer has at the end: all entries in blocks of the file, and the index of these.
pub record Finished (w : Writer) (es : Entries) : Type 0 where
  pub blocks : List Entries
  pub joined : concat blocks ≡ es
  pub nonempty : All (λ b. b ≢ []) blocks
  pub in_file : w.file_buf ≡ blank ++ all_bytes blocks
  pub indexed : w.index_entries ≡ layout header_size blocks
  pub counted : length w.blocks ≡ length blocks

finish :
    (w : Writer) (bs : List Entries) (cur es : Entries)
    → Wrote w bs cur
    → concat bs ++ cur ≡ es
    → (v : Writer) × (close_last w ≡ ok v) × Finished v es
unfolding close_last
finish w bs [] es wrote e = (
  w,
  rw wrote.held refl,
  record {
    blocks = bs;
    joined = sym (append-nil (concat bs)) ∙ e;
    nonempty = wrote.nonempty;
    in_file = wrote.in_file;
    indexed = wrote.indexed;
    counted = wrote.counted;
  },
)
finish w bs (x ∷ xs) es wrote e =
    let held : is_empty w.current_block ≡ false = rw wrote.held (unfold record_bytes in refl) in
    let done = closed-Wrote w bs x xs wrote in
    (
      closed w x.0 none,
      rw held (close_block-ok w bs x xs wrote none),
      record {
        blocks = bs ++ (x ∷ xs) ∷ [];
        joined = concat-snoc bs (x ∷ xs) ∙ e;
        nonempty = done.nonempty;
        in_file = done.in_file;
        indexed = done.indexed;
        counted = done.counted;
      },
    )

-- The loop of the writer over the entries, and what follows it, put all of them into blocks.
pub write-Finished :
    (size : ℕ) (es : Entries)
    → (w : Writer) × (v : Writer) × (add_entries size start es ≡ ok w)
      × (close_last w ≡ ok v)
      × Finished v es
write-Finished size es =
    let (w, runs, (bs, cur, wrote, e)) =
      add_entries-Written size start [] es ([], [], start-Wrote, refl) in
    let (v, ends, done) = finish w bs cur es wrote e in (w, v, runs, ends, done)
