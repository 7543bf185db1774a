-- ===== src/Db/WellFormed/Merge.antt =====
-- The merge of a compaction keeps the invariant, and the tables it writes have new numbers.
use pebble_db.Prelude.{
  ℕ, zero, suc, ◌+◌, List, [], ◌∷◌, ◌++◌, Bool, true, false, ◌&&◌, Text, Option, none, some, map,
  leb, if◌then◌else◌, sum_of, is_empty,
}
use pebble_db.Prelude.{◌≡◌, refl, sym, ap}
use mathlib.Core.Path.{subst}
use pebble_db.Prelude.BTreeMap
use pebble_db.Exec.{Exec, pure, ◌>>=◌}
use pebble_db.Bloom.{Floats}
use pebble_db.Sstable.Table.{SsTable}
use pebble_db.Iter.Table as Cursor
use pebble_db.Iter.Child.{Child, child_storage, remaining}
use pebble_db.Iter.Merge
use pebble_db.Db.State.{Db, CompactionJob}
use pebble_db.Db.Files.{write_level_file}
use pebble_db.Db.Plan.{sort_sources, record_size}
use pebble_db.Db.Compact.{
  Progress, entry_of, is_tombstone, flush_current, merge_step, merge_loop, merge_all,
}
use pebble_db.Db.WellFormed.{IsFine, IsFine-nil, Keeps, Keeps-bind, ids_of, write_level_file-Keeps}

abbrev pub written_ids : Progress → List ℕ
written_ids p = ids_of p.outputs

ids_of-snoc : (ts : List SsTable) (t : SsTable) → ids_of (ts ++ t ∷ []) ≡ ids_of ts ++ t.id ∷ []
ids_of-snoc [] t = refl
ids_of-snoc (u ∷ ts) t = ap (λ ids. u.id ∷ ids) (ids_of-snoc ts t)

module _ (fl : Floats) where
  flush_current-Keeps :
      (job : CompactionJob) (p : Progress)
      → Keeps (written_ids p) (flush_current fl job p) written_ids
  unfolding flush_current
  flush_current-Keeps job p =
      Keeps-bind (written_ids p) (λ t. written_ids p ++ t.id ∷ []) written_ids
        (write_level_file fl job.output_level p.current) _
        (write_level_file-Keeps (written_ids p) fl job.output_level p.current)
        (λ t db h. subst (λ ids. IsFine ids db) (sym (ids_of-snoc p.outputs t)) h)

  choose :
      (b : Bool) (ids : List ℕ) (m n : Exec Db Progress)
      → Keeps ids m written_ids
      → Keeps ids n written_ids
      → Keeps ids (if b then m else n) written_ids
  choose true ids m n h k = h
  choose false ids m n h k = k

  merge_step-Keeps :
      (job : CompactionJob) (key : Text) (p : Progress)
      → Keeps (written_ids p) (merge_step fl job key p) written_ids
  unfolding merge_step
  merge_step-Keeps job key p =
      let entry = entry_of (Merge.value p.merged) in
      let q : Progress = record p { merged = Merge.advance p.merged } in
      let grown : Progress = record q {
        current = BTreeMap.insert key entry q.current;
        current_bytes = q.current_bytes + record_size key entry;
      } in
      choose (job.drop_tombstones && is_tombstone entry) (written_ids p) (pure q) _ (λ db h. h)
        (choose (leb job.target_file_size grown.current_bytes) (written_ids p)
          (flush_current fl job grown) (pure grown) (flush_current-Keeps job grown) (λ db h. h))

  merge_loop-Keeps :
      (fuel : ℕ) (job : CompactionJob) (p : Progress)
      → Keeps (written_ids p) (merge_loop fl fuel job p) written_ids
  unfolding merge_loop
  merge_loop-Keeps zero job p db h = IsFine-nil (written_ids p) db h
  merge_loop-Keeps (suc fuel) job p db h =
      go (λ q. merge_loop-Keeps fuel job q) (Merge.key p.merged) db h
    where
      go :
          ((q : Progress) → Keeps (written_ids q) (merge_loop fl fuel job q) written_ids)
          → (o : Option Text)
          → Keeps
              (written_ids p)
              (elim o [
                | none ↦ pure p
                | some key ↦ (merge_step fl job key p >>= λ q. merge_loop fl fuel job q)
              ])
              written_ids
      go rest none = λ db h. h
      go rest (some key) =
          Keeps-bind (written_ids p) written_ids written_ids (merge_step fl job key p)
            (λ q. merge_loop fl fuel job q) (merge_step-Keeps job key p) rest

  pub merge_all-Keeps : (job : CompactionJob) → Keeps [] (merge_all fl job) written_ids
  unfolding merge_all
  merge_all-Keeps job =
      let children = map (λ i. Child.table (Cursor.new i.1)) (sort_sources job.inputs) in
      let merged = Merge.new_with_tombstones children in
      let begun : Progress = record {
        merged = merged;
        outputs = [];
        bytes_written = 0;
        current = [];
        current_bytes = 0;
      } in
      Keeps-bind [] written_ids written_ids
        (merge_loop fl (suc (sum_of remaining merged.children)) job begun) _
        (merge_loop-Keeps (suc (sum_of remaining merged.children)) job begun)
        (λ p.
          choose (is_empty p.current) (written_ids p) (pure p) (flush_current fl job p) (λ db h. h)
            (flush_current-Keeps job p))
