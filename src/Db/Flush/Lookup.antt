-- ===== src/Db/Flush/Lookup.antt =====
-- A flush leaves what get answers as it is.
use pebble_db.Prelude.{
  ℕ, suc, ◌+◌, ◌<◌, ◌^◌, List, [], ◌∷◌, ◌++◌, Text, ok, none, some, true, false, length, is_empty,
  Bool-cases, inl, inr,
}
use pebble_db.Prelude.{◌≡◌, refl, sym, ◌∙◌, ap, arith}
use mathlib.Core.Path.{subst}
use mathlib.Core.Option
use pebble_db.Prelude.{◌≢◌, ◌⊎◌}
use pebble_db.Prelude.BTreeMap.Laws.{get-insert, get-insert_ne}
use pebble_db.Wal.Writer
use pebble_db.Db.Files.{write_file}
use pebble_db.Db.Names.{wal_file}
use pebble_db.Prelude.BTreeMap
use pebble_db.Prelude.BTreeMap.{BTreeMap}
use pebble_db.Prelude.BTreeMap.Ascending.{Ascending}
use pebble_db.Bloom.{Floats}
use pebble_db.Compaction.{pick_compaction}
use pebble_db.Compaction.Settled.{IsSettled, pick_compaction-none}
use pebble_db.Sstable.Block.RoundTrip.{AllValid}
use pebble_db.Sstable.Table.{SsTable, default_block_size}
use pebble_db.Sstable.Table
use pebble_db.Sstable.Writer.{write_sstable}
use pebble_db.Sstable.Writer.Refinement.{filter_bits, get-load-write_with_block_size}
use pebble_db.Db.Names.{sstable_file_name}
use pebble_db.Db.State.{Db, level_config}
use pebble_db.Db.Plan.{file_metas}
use pebble_db.Db.Read.{get}
use pebble_db.Db.Filter.{get-eq-get_inner}
use pebble_db.Db.Settled.{push-IsSettled}
use pebble_db.Db.Write.{sst_entry, sst_entries, push_l0, flush_full, flush}
use pebble_db.Db.Flush.{flushed, flush_full-ok, push_l0-ok}
use pebble_db.Db.Flush.Push.{
  as_table, as_table-Ascending, sst_entries-eq, get-as_table, get_inner-push,
}

is_empty-nil : {A : Type 0} (xs : List A) → is_empty xs ≡ true → xs ≡ []
is_empty-nil [] h = refl
is_empty-nil (x ∷ xs) h = cc

is_empty-ne-nil : {A : Type 0} (xs : List A) → is_empty xs ≡ false → xs ≢ []
is_empty-ne-nil [] h = cc
is_empty-ne-nil (x ∷ xs) h = λ e. cc

flush-nothing :
    (fl : Floats) (rounds : ℕ) (db : Db)
    → is_empty db.memtable ≡ true
    → flush fl rounds db ≡ (ok tt, db)
unfolding flush
flush-nothing fl rounds db h = rw h refl

flush-something :
    (fl : Floats) (rounds : ℕ) (db : Db)
    → is_empty db.memtable ≡ false
    → flush fl rounds db ≡ flush_full fl rounds db.memtable db
unfolding flush
flush-something fl rounds db h = rw h refl

-- The directory of `e` has the bytes under the name of the next table of `db`, loading them gives
-- the table that `e` has after the others of level 0, and the log is empty.
abbrev pub IsStored : Db → List SsTable → List (List SsTable) → List ℕ → Db → Type 0
IsStored db files rest bytes e =
    (t : SsTable) × (Table.load db.next_sst_id (sstable_file_name 0 db.next_sst_id) bytes ≡ ok t)
    × (e.levels ≡ (files ++ t ∷ []) ∷ rest)
    × (BTreeMap.get (sstable_file_name 0 db.next_sst_id) e.files ≡ some bytes)
    × (BTreeMap.get wal_file e.files ≡ some [])

module _ (fl : Floats) (rounds : ℕ) (db : Db) (files : List SsTable) (rest : List (List SsTable))
    (bytes : List ℕ) (quiet : db.fault.fault ≡ none) (levels : db.levels ≡ files ∷ rest)
    (sorted : Ascending db.memtable) (valid : AllValid (sst_entries db.memtable []))
    (fits : filter_bits fl (sst_entries db.memtable []) < 2 ^ 32)
    (wrote : write_sstable fl (sst_entries db.memtable []) ≡ ok bytes)
    (small : length bytes < 2 ^ 32)
    (settled : IsSettled (file_metas 0 db.levels) (level_config db.options))
    (room : length files + 1 < (level_config db.options).l0_compaction_threshold) where
  -- The table of the memtable, read back.
  table_answers :
      (t : SsTable) × (Table.load db.next_sst_id (sstable_file_name 0 db.next_sst_id) bytes ≡ ok t)
      × ((key : Text) → Table.get t key ≡ ok (Option.map sst_entry (BTreeMap.get key db.memtable)))
  unfolding write_sstable
  table_answers =
      let es = sst_entries db.memtable [] in
      let same : es ≡ as_table db.memtable = sst_entries-eq db.memtable sorted in
      let ordered = subst Ascending (sym same) (as_table-Ascending db.memtable sorted) in
      let (t, loads, answers) =
        get-load-write_with_block_size fl es default_block_size db.next_sst_id
          (sstable_file_name 0 db.next_sst_id) bytes valid ordered fits wrote small in
      (
        t,
        loads,
        λ key.
            answers key
            ∙ ap (λ m. ok (BTreeMap.get key m)) same
            ∙ ap ok (get-as_table key db.memtable),
      )

  -- No compaction follows the flush.
  idle :
      (t : SsTable)
      → pick_compaction (file_metas 0 ((files ++ t ∷ []) ∷ rest)) (level_config db.options)
        ≡ ok none
  idle t =
      let config = level_config db.options in
      let before = subst (λ ls. IsSettled (file_metas 0 ls) config) levels settled in
      (pick_compaction-none _ config (omega (arith, room))).1
        (push-IsSettled t files rest config before room)

  -- The table file and the log after the flush.
  flushed-files :
      (t : SsTable) (wide : List (List SsTable))
      → (BTreeMap.get (sstable_file_name 0 db.next_sst_id) (flushed db bytes t wide).files
          ≡ some bytes)
        × (BTreeMap.get wal_file (flushed db bytes t wide).files ≡ some [])
  unfolding write_file Writer.truncate
  flushed-files t wide = (
    get-insert_ne wal_file (sstable_file_name 0 db.next_sst_id) [] _
          (unfold sstable_file_name in refl)
        ∙ get-insert (sstable_file_name 0 db.next_sst_id) bytes _,
    get-insert wal_file [] _,
  )

  flush_full-same :
      (e : Db) × (flush_full fl (suc rounds) db.memtable db ≡ (ok tt, e))
      × (e.memtable ≡ [])
      × ((key : Text) → (get key e).0 ≡ (get key db).0)
      × IsStored db files rest bytes e
  flush_full-same =
      let (t, loads, answers) = table_answers in
      let wide : List (List SsTable) = (files ++ t ∷ []) ∷ rest in
      let pushed = ap (push_l0 t) levels ∙ push_l0-ok t files rest in
      let (table, log) = flushed-files t wide in
      (
        flushed db bytes t wide,
        flush_full-ok db bytes t wide fl rounds quiet wrote loads pushed (idle t),
        refl,
        λ key.
            get-eq-get_inner key (flushed db bytes t wide)
            ∙ get_inner-push key db (flushed db bytes t wide) t files rest (answers key) levels refl
                refl
            ∙ sym (get-eq-get_inner key db),
        (t, loads, refl, table, log),
      )

  -- Without a fault, on a settled database with room for a table in level 0, where the memtable is in
  -- key order and its table is below the bounds on the sizes, a flush succeeds, empties the memtable,
  -- and leaves what `get` answers for every key. Where the memtable was empty it changes nothing.
  -- Otherwise the directory then has a file with the name of the new table and the bytes that the
  -- writer makes of the memtable, the table that these bytes load as is the last of level 0, the other
  -- levels are as before, and the log is empty.
  pub get-flush :
      (e : Db) × (flush fl (suc rounds) db ≡ (ok tt, e))
      × (e.memtable ≡ [])
      × ((key : Text) → (get key e).0 ≡ (get key db).0)
      × (((db.memtable ≡ []) × (e ≡ db)) ⊎ ((db.memtable ≢ []) × IsStored db files rest bytes e))
  get-flush = elim (Bool-cases (is_empty db.memtable)) [
    | inl nothing ↦ (
      db,
      flush-nothing fl (suc rounds) db nothing,
      is_empty-nil db.memtable nothing,
      λ key. refl,
      inl (is_empty-nil db.memtable nothing, refl),
    )
    | inr something ↦
        let (e, runs, empty, answers, stored) = flush_full-same in
        (
          e,
          flush-something fl (suc rounds) db something ∙ runs,
          empty,
          answers,
          inr (is_empty-ne-nil db.memtable something, stored),
        )
  ]
