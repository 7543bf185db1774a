-- ===== src/Db/Open.antt =====
-- src/db.rs: open_with_options, and what it does to a directory that a crash left.
use pebble_db.Prelude.{Outcome, err, io, is_utf8, u64, ◌||◌, ◌^◌, false}
use pebble_db.Prelude.{ℕ, ◌+◌, List, [], ◌∷◌, ◌++◌, Bool, Option, some, none, Text, map, max}
use pebble_db.Prelude.{
  ok, if◌then◌else◌, leb, ltb, ◌==◌, length, take, any, all, contains, get_elem?, set,
}
use pebble_db.Prelude.BTreeMap
use pebble_db.Prelude.BTreeMap.{BTreeMap}
use pebble_db.Prelude.Decimal.{ends_with}
use pebble_db.Exec.{Exec, pure, lift, reads, modify, ◌>>=◌, ◌>>◌}
use pebble_db.Fault
use pebble_db.Wal.Record.{WalRecord}
use pebble_db.Wal.Record
use pebble_db.Wal.Reader.{recover}
use pebble_db.Iter.Memtable.{MemtableEntry}
use pebble_db.Iter.Memtable
use pebble_db.Sstable.Table.{SsTable, load}
use pebble_db.Db.Names.{
  wal_file, merge_pending_file, tmp_suffix, parse_sstable_file_name, parse_pending,
}
use pebble_db.Db.State.{Db, DbOptions, Files, default_options, ensure_level}
use pebble_db.Db.Files.{read_file, remove_file, write_file}

-- `fs::read_dir`: the names of the files.
abbrev pub names_of : Files → List Text
names_of files = map (λ f. f.0) files

unfoldable pub remove_all : List Text → Exec Files (Unit {0})
remove_all [] = pure tt
remove_all (name ∷ names) = do remove_file name; remove_all names

abbrev pub temporary : List Text → List Text
temporary [] = []
temporary (name ∷ names) =
    let rest = temporary names in if ends_with tmp_suffix name then name ∷ rest else rest

-- The table files among the names: their numbers, levels and names.
unfoldable pub table_files : List Text → List (ℕ × ℕ × Text)
table_files [] = []
table_files (name ∷ names) = elim (parse_sstable_file_name name) [
  | none ↦ table_files names
  | some p ↦ (p.0, p.1, name) ∷ table_files names
]

unfoldable pub insert_file : ℕ × ℕ × Text → List (ℕ × ℕ × Text) → List (ℕ × ℕ × Text)
insert_file f [] = f ∷ []
insert_file f (g ∷ gs) = let rest = insert_file f gs in if leb f.0 g.0 then f ∷ g ∷ gs else g ∷ rest

-- `sort_by_key` on the numbers.
unfoldable pub sort_files : List (ℕ × ℕ × Text) → List (ℕ × ℕ × Text)
sort_files [] = []
sort_files (f ∷ fs) = insert_file f (sort_files fs)

unfoldable pub discover_sstables : Files → List (ℕ × ℕ × Text)
discover_sstables files = sort_files (table_files (names_of files))

-- `read_pending_merge`
unfoldable pub read_pending_merge : Files → Outcome (Option (List ℕ × List ℕ))
read_pending_merge files = elim (BTreeMap.get merge_pending_file files) [
  | none ↦ ok none
  | some content ↦ if is_utf8 content then ok (some (parse_pending content)) else err io
]

-- The names of the tables that a finished merge has replaced.
abbrev obsolete : List ℕ → List (ℕ × ℕ × Text) → List Text
obsolete inputs [] = []
obsolete inputs (f ∷ fs) =
    let rest = obsolete inputs fs in if contains inputs f.0 then f.2 ∷ rest else rest

abbrev all_present : List ℕ → List (ℕ × ℕ × Text) → Bool
all_present outputs found = all (λ id. any (λ f. f.0 == id) found) outputs

-- The rest of `finish_pending_merge`, where there is a marker.
unfoldable pub finish_merge : List ℕ × List ℕ → Exec Files (Unit {0})
finish_merge marker = do
  files ← reads (λ f. f)
  let found = table_files (names_of files)
  if all_present marker.0 found then remove_all (obsolete marker.1 found) else pure tt
  remove_file merge_pending_file

unfoldable pub finish_pending_merge : Exec Files (Unit {0})
finish_pending_merge = do
  files ← reads (λ f. f)
  found ← lift (read_pending_merge files)
  elim found [ none ↦ pure tt | some marker ↦ finish_merge marker ]

abbrev pub push_table : ℕ → SsTable → List (List SsTable) → List (List SsTable)
push_table level sst levels =
    let wide = ensure_level level levels in
    set wide level (elim (get_elem? wide level) [ none ↦ [] | some files ↦ files ] ++ sst ∷ [])

-- The loop that loads the tables, with the levels and the next number so far, and whether that
-- has wrapped around.
unfoldable pub load_tables :
    List (ℕ × ℕ × Text)
    → List (List SsTable) × ℕ × Bool
    → Exec Files (List (List SsTable) × ℕ × Bool)
load_tables [] found = pure found
load_tables (f ∷ fs) found = do
  bytes ← read_file f.2
  sst ← lift (load f.0 f.2 bytes)
  let next = max f.0 found.1 + 1
  load_tables fs (push_table f.1 sst found.0, u64 next, found.2 || leb (2 ^ 64) next)

-- The loop that replays the records of the log.
unfoldable pub apply_record : BTreeMap MemtableEntry → WalRecord → BTreeMap MemtableEntry
apply_record m (Record.set key v) = BTreeMap.insert key (Memtable.value v) m
apply_record m (Record.delete key) = BTreeMap.insert key Memtable.tombstone m

unfoldable pub replay : List WalRecord → BTreeMap MemtableEntry → BTreeMap MemtableEntry
replay [] m = m
replay (r ∷ rs) m = replay rs (apply_record m r)

-- The log is read, cut after its last whole record, and replayed.
unfoldable pub replay_log : Option (List ℕ) → Exec Files (BTreeMap MemtableEntry)
replay_log none = pure []
replay_log (some bytes) = do
  found ← lift (recover bytes)
  modify (λ f.
      if ltb found.valid_len (length bytes)
      then write_file wal_file (take found.valid_len bytes) f
      else f)
  pure (replay found.records [])

unfoldable pub replay_wal : Exec Files (BTreeMap MemtableEntry)
replay_wal files = replay_log (BTreeMap.get wal_file files) files

-- `WalWriter::open` creates the log.
unfoldable pub open_wal : Files → Files
open_wal files = elim (BTreeMap.get wal_file files) [
  | none ↦ write_file wal_file [] files
  | some _ ↦ files
]

-- The value that is returned, from the log, the tables and the files.
abbrev pub opened_db :
    DbOptions → BTreeMap MemtableEntry → List (List SsTable) × ℕ × Bool → Files → Db
opened_db options memtable loaded files = record {
  files = files;
  memtable = memtable;
  levels = loaded.0;
  next_sst_id = loaded.1;
  overflowed = loaded.2;
  options = options;
  counters = record { memtable_hits = 0; bloom_rejects = 0; block_reads = 0 };
  metrics = record {
    compactions = 0;
    full_compactions = 0;
    compactions_by_level = [];
    bytes_read = 0;
    bytes_written = 0;
    input_files = 0;
    output_files = 0;
    bytes_flushed = 0;
  };
  fault = Fault.injector options.fault;
}

-- What the opened database is, and what the directory holds after it; the files of the value are
-- those of the directory.
unfoldable pub open_with_options : DbOptions → Exec Files Db
open_with_options options = do
  files ← reads (λ f. f)
  remove_all (temporary (names_of files))
  finish_pending_merge
  found ← reads discover_sstables
  loaded ← load_tables found ([] ∷ [], 0, false)
  memtable ← replay_wal
  modify open_wal
  files' ← reads (λ f. f)
  pure (opened_db options memtable loaded files')

unfoldable open_with_threshold : ℕ → Exec Files Db
open_with_threshold flush_threshold =
    open_with_options (record default_options { flush_threshold = flush_threshold })
