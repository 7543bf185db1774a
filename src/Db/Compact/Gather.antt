-- ===== src/Db/Compact/Gather.antt =====
-- src/db.rs: what the loop of execute_job gathers from the tables that it merges.
mod Examples
use pebble_db.Prelude.{
  ℕ, zero, suc, ◌+◌, ◌<◌, ◌≤◌, List, [], ◌∷◌, Option, none, some, Text, Bool, true, false, ◌&&◌,
  Bool-cases, ◌⊎◌, inl, inr, Outcome, ok, if◌then◌else◌, map, All, text_eq, length, leb, is_empty,
  sum_of,
}
use pebble_db.Prelude.{◌≡◌, refl, sym, ◌∙◌, ap, arith}
use mathlib.Core.Path.{subst}
use mathlib.Core.Option
use pebble_db.Prelude.Order.{text_eq_iff}
use pebble_db.Prelude.BTreeMap
use pebble_db.Prelude.BTreeMap.{BTreeMap}
use pebble_db.Prelude.BTreeMap.Laws.{get-insert, get-insert_ne}
use pebble_db.Prelude.BTreeMap.Ascending.{AllAbove, Ascending, get-AllAbove, insert-Ascending}
use pebble_db.Bloom.{Floats}
use pebble_db.Sstable.Block.{SsTableEntry, Entries, value, tombstone}
use pebble_db.Sstable.Table.{SsTable}
use pebble_db.Iter.Table.{value_part}
use pebble_db.Iter.Table as Cursor
use pebble_db.Iter.Child.{Child, child_storage, remaining}
use pebble_db.Iter.Merge
use pebble_db.Iter.Merge.{MergeIterator}
use pebble_db.Exec.{pure}
use pebble_db.Iter.Merge.Children.{Sources}
use pebble_db.Iter.Merge.Views.{Views}
use pebble_db.Iter.Merge.Reads.{key-Views, value-Views, Views-length}
use pebble_db.Iter.Merge.Moves.{advance-Views, build-Views}
use pebble_db.Iter.Range.Bounds.{value_of}
use pebble_db.Iter.Rows.{Rows, tail}
use pebble_db.Iter.Rows.Union.{union, get-union, union-Ascending}
use pebble_db.Iter.Rows.Visible.{visible}
use pebble_db.Iter.Cursor.OfChild.{child_cursor}
use pebble_db.Db.State.{Db, CompactionJob}
use pebble_db.Db.Plan.{sort_sources, record_size}
use pebble_db.Db.Read.{search_inner}
use pebble_db.Db.Readable.{IsReadable, tables_rows, cursors, cursors-Sources, search_inner-lookup}
use pebble_db.Db.Compact.{
  Progress, entry_of, is_tombstone, flush_current, merge_step, merge_loop, merge_all,
}

visible_all : (m : Rows) → visible true m ≡ m
visible_all [] = refl
visible_all (e ∷ es) = ap (λ r. e ∷ r) (visible_all es)

-- The bytes of the records of the rows, as `record_size` counts them.
unfoldable pub rows_size : Rows → ℕ
rows_size [] = 0
rows_size (e ∷ es) = record_size e.0 (entry_of e.1) + rows_size es

-- One row goes to the table, unless it is a tombstone that the job drops.
abbrev put : Bool → Text → Option Text → Entries → Entries
put drop k v current =
    if drop && is_tombstone (entry_of v) then current else BTreeMap.insert k (entry_of v) current

gather : Bool → Rows → Entries → Entries
gather drop [] current = current
gather drop (e ∷ es) current = gather drop es (put drop e.0 e.1 current)

-- What an entry, or no entry, says of a key.
abbrev pub said : Option SsTableEntry → Option Text
said o = value_of (Option.map value_part o)

get-put_ne :
    (drop : Bool) (j k : Text) (v : Option Text) (current : Entries)
    → text_eq k j ≡ false
    → BTreeMap.get j (put drop k v current) ≡ BTreeMap.get j current
get-put_ne drop j k v current h = elim (Bool-cases (drop && is_tombstone (entry_of v))) [
  | inl dropped ↦ rw dropped refl
  | inr kept ↦ rw kept (get-insert_ne k j (entry_of v) current h)
]

said-put :
    (drop : Bool) (k : Text) (v : Option Text) (current : Entries)
    → BTreeMap.get k current ≡ none
    → said (BTreeMap.get k (put drop k v current)) ≡ v
said-put true k none current h = ap said h
said-put false k none current h = ap said (get-insert k tombstone current)
said-put true k (some v) current h = ap said (get-insert k (value v) current)
said-put false k (some v) current h = ap said (get-insert k (value v) current)

put-Ascending :
    (drop : Bool) (k : Text) (v : Option Text) (current : Entries)
    → Ascending current
    → Ascending (put drop k v current)
put-Ascending drop k v current a = elim (Bool-cases (drop && is_tombstone (entry_of v))) [
  | inl dropped ↦ rw dropped a
  | inr kept ↦ rw kept (insert-Ascending k (entry_of v) current a)
]

gather-Ascending :
    (drop : Bool) (m : Rows) (current : Entries)
    → Ascending current
    → Ascending (gather drop m current)
unfolding gather
gather-Ascending drop [] current a = a
gather-Ascending drop (e ∷ es) current a =
    gather-Ascending drop es (put drop e.0 e.1 current) (put-Ascending drop e.0 e.1 current a)

get-gather_absent :
    (drop : Bool) (j : Text) (m : Rows) (current : Entries)
    → BTreeMap.get j m ≡ none
    → BTreeMap.get j (gather drop m current) ≡ BTreeMap.get j current
unfolding gather BTreeMap.get
get-gather_absent drop j [] current h = refl
get-gather_absent drop j (e ∷ es) current h = elim (Bool-cases (text_eq e.0 j)) [
  | inl here ↦ absurd (found (sym (rw here refl) ∙ h))
  | inr other ↦
      get-gather_absent drop j es (put drop e.0 e.1 current) (sym (rw other refl) ∙ h)
      ∙ get-put_ne drop j e.0 e.1 current other
]
  where
    found : some e.1 ≡ none → ⊥
    found p = cc

said-gather :
    (drop : Bool) (j : Text) (m : Rows) (current : Entries)
    → Ascending m
    → BTreeMap.get j current ≡ none
    → said (BTreeMap.get j (gather drop m current)) ≡ value_of (BTreeMap.get j m)
unfolding gather BTreeMap.get
said-gather drop j [] current a h = ap said h
said-gather drop j (e ∷ es) current a h = elim (Bool-cases (text_eq e.0 j)) [
  | inl here ↦
      let is : e.0 ≡ j = text_eq_iff e.0 j here in
      let later : BTreeMap.get j es ≡ none =
        get-AllAbove j es (subst (λ i. AllAbove i es) is a.0) in
      rw here (
        ap said (get-gather_absent drop j es (put drop e.0 e.1 current) later)
        ∙ subst (λ i. said (BTreeMap.get i (put drop e.0 e.1 current)) ≡ e.1) is
            (said-put drop e.0 e.1 current (ap (λ i. BTreeMap.get i current) is ∙ h)))
  | inr other ↦ rw other (
      said-gather drop j es (put drop e.0 e.1 current) a.1
        (get-put_ne drop j e.0 e.1 current other ∙ h))
]

-- The tables of a job, in the order in which it reads them.
abbrev pub job_tables : CompactionJob → List SsTable
job_tables job = map (λ i. i.1) (sort_sources job.inputs)

job_children :
    (inputs : List (ℕ × SsTable))
    → map (λ i. Child.table (Cursor.new i.1)) inputs ≡ cursors (map (λ i. i.1) inputs)
unfolding cursors
job_children [] = refl
job_children (i ∷ is) = ap (λ cs. Child.table (Cursor.new i.1) ∷ cs) (job_children is)

module _ (fl : Floats) (job : CompactionJob) where
  merge_step-row :
      (k : Text) (v : Option Text) (p : Progress) (db : Db)
      → Merge.value p.merged ≡ v
      → p.current_bytes + record_size k (entry_of v) < job.target_file_size
      → (q : Progress) × (merge_step fl job k p db ≡ (ok q, db))
        × (q.outputs ≡ p.outputs)
        × (q.merged ≡ Merge.advance p.merged)
        × (q.current ≡ put job.drop_tombstones k v p.current)
        × (q.current_bytes ≤ p.current_bytes + record_size k (entry_of v))
  unfolding merge_step
  merge_step-row k v p db is small =
      let entry = entry_of v in
      elim (Bool-cases (job.drop_tombstones && is_tombstone entry)) [
        | inl dropped ↦ (
          record p { merged = Merge.advance p.merged },
          rw (is, dropped) refl,
          refl,
          refl,
          rw dropped refl,
          omega arith,
        )
        | inr kept ↦
            let fits : leb job.target_file_size (p.current_bytes + record_size k entry) ≡ false =
              ground arith in
            (
              record p {
                merged = Merge.advance p.merged;
                current = BTreeMap.insert k entry p.current;
                current_bytes = p.current_bytes + record_size k entry;
              },
              rw (is, kept, fits) refl,
              refl,
              refl,
              rw kept refl,
              omega arith,
            )
      ]

  merge_loop-rows :
      (fuel : ℕ) (p : Progress) (db : Db) (alls : List Rows) (rows : Rows)
      → length rows < fuel
      → Views child_cursor p.merged alls rows
      → p.current_bytes + rows_size rows < job.target_file_size
      → (q : Progress) × (merge_loop fl fuel job p db ≡ (ok q, db))
        × (q.outputs ≡ p.outputs)
        × (q.current ≡ gather job.drop_tombstones rows p.current)
  unfolding merge_loop rows_size gather
  merge_loop-rows zero p db alls rows enough v small = absurd (omega arith)
  merge_loop-rows (suc fuel) p db alls [] enough v small =
      (p, rw (merge_loop, key-Views child_cursor p.merged alls [] v) refl, refl, refl)
  merge_loop-rows (suc fuel) p db alls (e ∷ es) enough v small =
      let rows : Rows = e ∷ es in
      let (q, steps, same, moved, puts, grown) =
        merge_step-row e.0 e.1 p db (value-Views child_cursor p.merged alls rows v)
          (omega (arith, small)) in
      let after : Views child_cursor q.merged alls es =
        subst (λ m. Views child_cursor m alls es) (sym moved)
          (advance-Views child_cursor p.merged alls rows v) in
      let (end, returns, unwritten, holds) =
        merge_loop-rows fuel q db alls es (omega (arith, enough)) after
          (omega (arith, small, grown)) in
      (
        end,
        rw (merge_loop, key-Views child_cursor p.merged alls rows v, steps) returns,
        unwritten ∙ same,
        holds ∙ ap (gather job.drop_tombstones es) puts,
      )

  -- For every job whose tables each hold entries in strict key order, and whose merged rows are
  -- together smaller than the target size of a file: the loop comes to its end without a failure
  -- or a change of the database, and has gathered entries in strict key order that answer every
  -- key as the search in the tables does, in the order in which the job reads them; a table is
  -- written of them unless there are none.
  pub merge_all-eq-search_inner :
      (db : Db)
      → (h : All IsReadable (job_tables job))
      → rows_size (union (tables_rows (job_tables job) h)) < job.target_file_size
      → (p : Progress) × (merge_all fl job db
          ≡ (if is_empty p.current then pure p else flush_current fl job p) db)
        × (p.outputs ≡ [])
        × Ascending p.current
        × ((k : Text) → ok (said (BTreeMap.get k p.current)) ≡ search_inner (job_tables job) k)
  unfolding merge_all Merge.new_with_tombstones
  merge_all-eq-search_inner db h small =
      let alls : List Rows = tables_rows (job_tables job) h in
      let m : Rows = union alls in
      let children : List Child =
        map (λ i. Child.table (Cursor.new i.1)) (sort_sources job.inputs) in
      let merged : MergeIterator Child = Merge.build children true in
      let start : Progress = record {
        merged = merged;
        outputs = [];
        bytes_written = 0;
        current = [];
        current_bytes = 0;
      } in
      let sources : Sources child_cursor children alls =
        subst (λ cs. Sources child_cursor cs alls) (sym (job_children (sort_sources job.inputs)))
          (cursors-Sources (job_tables job) h) in
      let views : Views child_cursor merged alls m =
        subst (Views child_cursor merged alls) (visible_all m)
          (build-Views child_cursor children true alls sources) in
      let (p, returns, unwritten, holds) =
        merge_loop-rows (suc (sum_of remaining merged.children)) start db alls m
          (omega (arith, Views-length child_cursor merged alls m views)) views
          (omega (arith, small)) in
      let sorted = union-Ascending alls in
      (
        p,
        rw returns refl,
        unwritten,
        subst Ascending (sym holds) (gather-Ascending job.drop_tombstones m [] tt),
        λ k.
            ap (λ es. ok (said (BTreeMap.get k es))) holds
            ∙ ap ok (said-gather job.drop_tombstones k m [] sorted (unfold BTreeMap.get in refl))
            ∙ ap (λ o. ok (value_of o)) (get-union k alls)
            ∙ sym (search_inner-lookup k (job_tables job) h),
      )
