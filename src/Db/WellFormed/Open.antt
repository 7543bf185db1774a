-- ===== src/Db/WellFormed/Open.antt =====
-- An opened database satisfies the invariant.
use pebble_db.Prelude.{
  ℕ, ◌+◌, ◌≤◌, List, [], ◌∷◌, ◌++◌, Text, Option, none, some, max, length, length-set,
}
use pebble_db.Prelude.{
  ◌≡◌, arith, sym, Bool, false, Bool-cases, inl, inr, ◌||◌, ◌<◌, ◌^◌, leb, u64, All,
}
use mathlib.Core.Path.{subst}
use pebble_db.Db.Names.{parse_sstable_file_name}
use pebble_db.Db.Names.Bounds.{Holds, IsU64, parse_sstable_file_name-IsU64}
use pebble_db.Prelude.BTreeMap
use pebble_db.Prelude.BTreeMap.{BTreeMap}
use pebble_db.Prelude.BTreeMap.Ascending.{Ascending, insert-Ascending}
use pebble_db.Exec.{Exec, pure, lift, reads, modify, ◌>>=◌, ◌>>◌}
use pebble_db.Exec.Triple.{Triple, Leaves-both, Triple-bind}
use pebble_db.Wal.Record.{WalRecord}
use pebble_db.Wal.Record
use pebble_db.Wal.Reader.{recover}
use pebble_db.Iter.Memtable.{MemtableEntry}
use pebble_db.Iter.Memtable
use pebble_db.Sstable.Table.{SsTable, load}
use pebble_db.Sstable.Table.Number.{load-id}
use pebble_db.Db.Names.{wal_file}
use pebble_db.Db.State.{Db, DbOptions, Files, ensure_level}
use pebble_db.Db.Files.{read_file}
use pebble_db.Db.Compact.{level_or_empty}
use pebble_db.Db.Open.{
  table_files, insert_file, sort_files, push_table, load_tables, apply_record, replay, replay_log,
  replay_wal, open_with_options, remove_all, temporary, names_of, finish_pending_merge,
  discover_sstables, open_wal, opened_db,
}
use pebble_db.Db.WellFormed.{IsWellFormed, levels_mono, limit, limit_lem}
use pebble_db.Db.WellFormed.Levels.{
  LevelsBelow, append-IsBelow, ensure_level-LevelsBelow, set-LevelsBelow, level_or_empty-IsBelow,
  length-ensure_level,
}

-- A method of the directory, of which only the result matters.
abbrev Gives : {A : Type 0} → Exec Files A → (A → Type 0) → Type 0
Gives m Q = Triple (λ _. Unit) (λ _. Unit) m (λ a _. Q a)

Gives-bind :
    {A B : Type 0} (Q : A → Type 0) (R : B → Type 0) (m : Exec Files A) (k : A → Exec Files B)
    → Gives m Q
    → ((a : A) → Q a → Gives (k a) R)
    → Gives (m >>= k) R
Gives-bind Q R m k h n =
    Triple-bind (λ _. Unit) (λ a _. Q a) (λ b _. R b) (λ _. Unit) m k h (λ a s q. n a q s tt)

Any : {A : Type 0} → A → Type 0
Any a = Unit

Gives-Any : {A : Type 0} (m : Exec Files A) → Gives m Any
unfolding Any
Gives-Any m s h = Leaves-both (λ _. Unit) (λ _ _. Unit) (m s).0 (m s).1 tt (λ _ _. tt)

-- The numbers, the levels and the names of the table files of a directory.
abbrev AllU64 : List (ℕ × ℕ × Text) → Type 0
AllU64 fs = All (λ f. f.0 < 2 ^ 64) fs

table_files-AllU64 : (names : List Text) → AllU64 (table_files names)
unfolding table_files
table_files-AllU64 [] = tt
table_files-AllU64 (name ∷ names) =
    go (parse_sstable_file_name name) (parse_sstable_file_name-IsU64 name)
      (table_files-AllU64 names)
  where
    go :
        (o : Option (ℕ × ℕ))
        → Holds IsU64 o
        → AllU64 (table_files names)
        → AllU64 (elim o as (λ _. List (ℕ × ℕ × Text)) [
          | none ↦ table_files names
          | some p ↦ (p.0, p.1, name) ∷ table_files names
        ])
    go none h a = a
    go (some p) h a = (h, a)

insert_file-AllU64 :
    (f : ℕ × ℕ × Text) (gs : List (ℕ × ℕ × Text))
    → f.0 < 2 ^ 64
    → AllU64 gs
    → AllU64 (insert_file f gs)
unfolding insert_file
insert_file-AllU64 f [] h a = (h, tt)
insert_file-AllU64 f (g ∷ gs) h a = elim (Bool-cases (leb f.0 g.0)) [
  | inl first ↦ rw first (h, a)
  | inr later ↦ rw later (a.0, insert_file-AllU64 f gs h a.1)
]

sort_files-AllU64 : (fs : List (ℕ × ℕ × Text)) → AllU64 fs → AllU64 (sort_files fs)
unfolding sort_files
sort_files-AllU64 [] a = tt
sort_files-AllU64 (f ∷ fs) a = insert_file-AllU64 f (sort_files fs) a.0 (sort_files-AllU64 fs a.1)

discover_sstables-AllU64 : (files : Files) → AllU64 (discover_sstables files)
unfolding discover_sstables
discover_sstables-AllU64 files =
    sort_files-AllU64 (table_files (names_of files)) (table_files-AllU64 (names_of files))

-- The levels and the next number, while the tables are loaded.
abbrev IsLoaded : List (List SsTable) × ℕ × Bool → Type 0
IsLoaded found =
    LevelsBelow (limit found.1 found.2) found.0 × (1 ≤ length found.0) × (found.1 < 2 ^ 64)

push_table-IsLoaded :
    (id level : ℕ) (sst : SsTable) (found : List (List SsTable) × ℕ × Bool)
    → sst.id ≡ id
    → id < 2 ^ 64
    → IsLoaded found
    → IsLoaded (
      push_table level sst found.0,
      u64 (max id found.1 + 1),
      found.2 || leb (2 ^ 64) (max id found.1 + 1),
    )
push_table-IsLoaded id level sst (ls, n, o) e small (below, based, fits) =
    let m = max id n + 1 in
    let (grows, taken, fits') = limit_lem n id m o fits small (omega arith) (omega arith) in
    let next = limit (u64 m) (o || leb (2 ^ 64) m) in
    let wide = ensure_level level ls in
    let wider =
      ensure_level-LevelsBelow next level ls (levels_mono (limit n o) next ls grows below) in
    let files = level_or_empty wide level ++ sst ∷ [] in
    (
      set-LevelsBelow next wide level files wider (
          append-IsBelow next (level_or_empty wide level) (sst ∷ [])
            (level_or_empty-IsBelow next wide level wider)
            (subst (λ (j : ℕ). j < next) (sym e) taken, tt)),
      omega (arith, based, length-ensure_level level ls, length-set wide level files),
      fits',
    )

load_tables-IsLoaded :
    (fs : List (ℕ × ℕ × Text)) (found : List (List SsTable) × ℕ × Bool)
    → AllU64 fs
    → IsLoaded found
    → Gives (load_tables fs found) IsLoaded
unfolding load_tables
load_tables-IsLoaded [] found a h s _ = h
load_tables-IsLoaded (f ∷ fs) found a h s u =
    Gives-bind Any IsLoaded (read_file f.2) _ (Gives-Any (read_file f.2))
      (λ bytes _.
        Gives-bind (λ t. t.id ≡ f.0) IsLoaded (lift (load f.0 f.2 bytes)) _
          (λ d _.
            Leaves-both (λ _. Unit) (λ t _. t.id ≡ f.0) (load f.0 f.2 bytes) d tt
              (λ t e. load-id f.0 f.2 bytes t e))
          (λ sst e. load_tables-IsLoaded fs _ a.1 (push_table-IsLoaded f.0 f.1 sst found e a.0 h)))
      s u

replay-Ascending :
    (rs : List WalRecord) (m : BTreeMap MemtableEntry) → Ascending m → Ascending (replay rs m)
unfolding replay apply_record
replay-Ascending [] m a = a
replay-Ascending (Record.set key v ∷ rs) m a =
    replay-Ascending rs _ (insert-Ascending key (Memtable.value v) m a)
replay-Ascending (Record.delete key ∷ rs) m a =
    replay-Ascending rs _ (insert-Ascending key Memtable.tombstone m a)

replay_log-Ascending : (o : Option (List ℕ)) → Gives (replay_log o) Ascending
unfolding replay_log
replay_log-Ascending none = λ s u. tt
replay_log-Ascending (some bytes) =
    Gives-bind Any Ascending (lift (recover bytes)) _ (Gives-Any (lift (recover bytes)))
      λ found _ s u. replay-Ascending found.records [] tt

-- What is left of `open_with_options` after each of its steps.
module _ (options : DbOptions) where
  abbrev with_log : List (List SsTable) × ℕ × Bool → BTreeMap MemtableEntry → Exec Files Db
  with_log loaded memtable = do
    modify open_wal
    files ← reads (λ f. f)
    pure (opened_db options memtable loaded files)

  abbrev with_tables : List (List SsTable) × ℕ × Bool → Exec Files Db
  with_tables loaded = replay_wal >>= with_log loaded

  abbrev with_names : List (ℕ × ℕ × Text) → Exec Files Db
  with_names found = load_tables found ([] ∷ [], 0, false) >>= with_tables

  with_tables-IsWellFormed :
      (loaded : List (List SsTable) × ℕ × Bool)
      → IsLoaded loaded
      → Gives (with_tables loaded) IsWellFormed
  unfolding replay_wal
  with_tables-IsWellFormed loaded h =
      Gives-bind Ascending IsWellFormed replay_wal (with_log loaded)
        (λ s u. replay_log-Ascending (BTreeMap.get wal_file s) s u)
        (λ memtable sorted s u. record {
          ordered = sorted;
          based = h.1;
          fits = h.2;
          numbered = h.0;
          written = tt;
        })

  with_names-IsWellFormed :
      (found : List (ℕ × ℕ × Text)) → AllU64 found → Gives (with_names found) IsWellFormed
  with_names-IsWellFormed found a =
      Gives-bind IsLoaded IsWellFormed (load_tables found ([] ∷ [], 0, false)) with_tables
        (load_tables-IsLoaded found ([] ∷ [], 0, false) a ((tt, tt), omega arith, omega arith))
        with_tables-IsWellFormed

  pub open_with_options-IsWellFormed : Gives (open_with_options options) IsWellFormed
  unfolding open_with_options
  open_with_options-IsWellFormed s u =
      let found : Exec Files Db = reads discover_sstables >>= with_names in
      Gives-bind Any IsWellFormed (remove_all (temporary (names_of s)))
        (λ _. finish_pending_merge >> found) (Gives-Any (remove_all (temporary (names_of s))))
        (λ _ _.
          Gives-bind Any IsWellFormed finish_pending_merge (λ _. found)
            (Gives-Any finish_pending_merge)
            (λ _ _ f v.
              with_names-IsWellFormed (discover_sstables f) (discover_sstables-AllU64 f) f v))
        s u
