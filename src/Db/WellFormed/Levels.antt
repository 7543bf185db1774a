-- ===== src/Db/WellFormed/Levels.antt =====
-- The levels that a compaction leaves: no number that was not there or written.
use pebble_db.Prelude.{
  ℕ, zero, suc, ◌+◌, ◌-◌, ◌<◌, ◌≤◌, List, [], ◌∷◌, ◌++◌, Bool, not, map, keep, length,
  length-append, length-set, All, replicate, set, leb, Bool-cases,
}
use pebble_db.Prelude.{◌≡◌, inl, inr, refl, ap, arith}
use pebble_db.Sstable.Table.{SsTable}
use pebble_db.Db.State.{CompactionJob, ensure_level}
use pebble_db.Db.Compact.{is_input, level_or_empty, insert_table, sort_tables, replace_inputs}
use pebble_db.Db.WellFormed.{AllBelow, ids_of}

-- The numbers of a level are below `n`.
abbrev pub IsBelow : ℕ → List SsTable → Type 0
IsBelow n files = AllBelow n (ids_of files)

abbrev pub LevelsBelow : ℕ → List (List SsTable) → Type 0
LevelsBelow n ls = All (IsBelow n) ls

module _ (n : ℕ) where
  keep-IsBelow : (p : SsTable → Bool) (ts : List SsTable) → IsBelow n ts → IsBelow n (keep p ts)
  keep-IsBelow p [] a = tt
  keep-IsBelow p (t ∷ ts) a = elim (Bool-cases (p t)) [
    | inl taken ↦ rw taken (a.0, keep-IsBelow p ts a.1)
    | inr left_out ↦ rw left_out (keep-IsBelow p ts a.1)
  ]

  map-keep-LevelsBelow :
      (p : SsTable → Bool) (ls : List (List SsTable))
      → LevelsBelow n ls
      → LevelsBelow n (map (keep p) ls)
  map-keep-LevelsBelow p [] a = tt
  map-keep-LevelsBelow p (files ∷ ls) a = (keep-IsBelow p files a.0, map-keep-LevelsBelow p ls a.1)

  pub append-IsBelow : (ts us : List SsTable) → IsBelow n ts → IsBelow n us → IsBelow n (ts ++ us)
  append-IsBelow [] us a b = b
  append-IsBelow (t ∷ ts) us a b = (a.0, append-IsBelow ts us a.1 b)

  insert_table-IsBelow :
      (t : SsTable) (ts : List SsTable) → t.id < n → IsBelow n ts → IsBelow n (insert_table t ts)
  unfolding insert_table
  insert_table-IsBelow t [] h a = (h, tt)
  insert_table-IsBelow t (u ∷ us) h a = elim (Bool-cases (leb t.id u.id)) [
    | inl taken ↦ rw taken (h, a)
    | inr left_out ↦ rw left_out (a.0, insert_table-IsBelow t us h a.1)
  ]

  sort_tables-IsBelow : (ts : List SsTable) → IsBelow n ts → IsBelow n (sort_tables ts)
  unfolding sort_tables
  sort_tables-IsBelow [] a = tt
  sort_tables-IsBelow (t ∷ ts) a =
      insert_table-IsBelow t (sort_tables ts) a.0 (sort_tables-IsBelow ts a.1)

  append_empty :
      (ls : List (List SsTable)) (k : ℕ) → LevelsBelow n ls → LevelsBelow n (ls ++ replicate k [])
  append_empty [] zero a = tt
  append_empty [] (suc k) a = (tt, append_empty [] k a)
  append_empty (files ∷ ls) k a = (a.0, append_empty ls k a.1)

  pub ensure_level-LevelsBelow :
      (level : ℕ) (ls : List (List SsTable))
      → LevelsBelow n ls
      → LevelsBelow n (ensure_level level ls)
  unfolding ensure_level
  ensure_level-LevelsBelow level ls a = elim (Bool-cases (leb (length ls) level)) [
    | inl short ↦ rw short (append_empty ls (level + 1 - length ls) a)
    | inr wide ↦ rw wide a
  ]

  pub set-LevelsBelow :
      (ls : List (List SsTable)) (i : ℕ) (files : List SsTable)
      → LevelsBelow n ls
      → IsBelow n files
      → LevelsBelow n (set ls i files)
  set-LevelsBelow [] i files a b = tt
  set-LevelsBelow (x ∷ ls) zero files a b = (b, a.1)
  set-LevelsBelow (x ∷ ls) (suc i) files a b = (a.0, set-LevelsBelow ls i files a.1 b)

  pub level_or_empty-IsBelow :
      (ls : List (List SsTable)) (i : ℕ) → LevelsBelow n ls → IsBelow n (level_or_empty ls i)
  level_or_empty-IsBelow [] i a = tt
  level_or_empty-IsBelow (files ∷ ls) zero a = a.0
  level_or_empty-IsBelow (files ∷ ls) (suc i) a = level_or_empty-IsBelow ls i a.1

  pub replace_inputs-LevelsBelow :
      (job : CompactionJob) (outputs : List SsTable) (ls : List (List SsTable))
      → LevelsBelow n ls
      → IsBelow n outputs
      → LevelsBelow n (replace_inputs job outputs ls)
  unfolding replace_inputs
  replace_inputs-LevelsBelow job outputs ls a b =
      let kept = map (keep (λ sst. not (is_input job.inputs sst))) ls in
      let wide = ensure_level job.output_level kept in
      let below = ensure_level-LevelsBelow job.output_level kept (map-keep-LevelsBelow _ ls a) in
      set-LevelsBelow wide job.output_level _ below (
        sort_tables-IsBelow (level_or_empty wide job.output_level ++ outputs)
          (append-IsBelow _ outputs (level_or_empty-IsBelow wide job.output_level below) b))

length-map-keep :
    (p : SsTable → Bool) (ls : List (List SsTable)) → length (map (keep p) ls) ≡ length ls
length-map-keep p [] = refl
length-map-keep p (files ∷ ls) = ap suc (length-map-keep p ls)

pub length-ensure_level :
    (level : ℕ) (ls : List (List SsTable)) → length ls ≤ length (ensure_level level ls)
unfolding ensure_level
length-ensure_level level ls =
    ground (arith, length-append ls (replicate (level + 1 - length ls) []))

pub length-replace_inputs :
    (job : CompactionJob) (outputs : List SsTable) (ls : List (List SsTable))
    → length ls ≤ length (replace_inputs job outputs ls)
unfolding replace_inputs
length-replace_inputs job outputs ls =
    let kept = map (keep (λ sst. not (is_input job.inputs sst))) ls in
    let wide = ensure_level job.output_level kept in
    omega (
      arith,
      length-map-keep (λ sst. not (is_input job.inputs sst)) ls,
      length-ensure_level job.output_level kept,
      length-set wide job.output_level
          (sort_tables (level_or_empty wide job.output_level ++ outputs)),
    )
