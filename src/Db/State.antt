-- ===== src/Db/State.antt =====
-- src/db.rs: DbOptions, the counters and metrics, and DbInner with the directory it works in.
use pebble_db.Prelude.{ℕ, ◌+◌, ◌*◌, ◌-◌, List, [], ◌∷◌, ◌++◌, Bool, Option, some, none, u64}
use pebble_db.Prelude.{length, leb, if◌then◌else◌, get_or, set, replicate}
use pebble_db.Prelude.BTreeMap.{BTreeMap}
use pebble_db.Fault.{Fault, FaultInjector}
use pebble_db.Compaction
use pebble_db.Compaction.{LevelConfig}
use pebble_db.Iter.Memtable.{MemtableEntry}
use pebble_db.Sstable.Table.{SsTable}

pub record DbOptions : Type 0 where
  pub flush_threshold : ℕ
  pub l0_compaction_threshold : ℕ
  pub level_size_multiplier : ℕ
  pub target_level_size : ℕ
  pub target_file_size : ℕ
  pub fault : Option Fault

-- `DbOptions::default`
abbrev pub default_options : DbOptions
default_options = record {
  flush_threshold = 1024;
  l0_compaction_threshold = 4;
  level_size_multiplier = 10;
  target_level_size = 8 * 1024 * 1024;
  target_file_size = 2 * 1024 * 1024;
  fault = none;
}

unfoldable pub level_config : DbOptions → LevelConfig
level_config o =
    Compaction.new o.l0_compaction_threshold o.level_size_multiplier o.target_level_size

pub record Counters : Type 0 where
  pub memtable_hits : ℕ
  pub bloom_rejects : ℕ
  pub block_reads : ℕ

pub record Metrics : Type 0 where
  pub compactions : ℕ
  pub full_compactions : ℕ
  pub compactions_by_level : List ℕ
  pub bytes_read : ℕ
  pub bytes_written : ℕ
  pub input_files : ℕ
  pub output_files : ℕ
  pub bytes_flushed : ℕ

pub record JobOutcome : Type 0 where
  pub bytes_read : ℕ
  pub bytes_written : ℕ
  pub input_files : ℕ
  pub output_files : ℕ

-- `resize(index + 1, 0)` where the vector is shorter.
unfoldable pub grow_to : ℕ → List ℕ → List ℕ
grow_to index xs = if leb (length xs) index then xs ++ replicate (index + 1 - length xs) 0 else xs

-- `Metrics::record`
unfoldable pub record_job : Option ℕ → JobOutcome → Metrics → Metrics
record_job level outcome m =
    let counted = record m {
      compactions = u64 (m.compactions + 1);
      bytes_read = u64 (m.bytes_read + outcome.bytes_read);
      bytes_written = u64 (m.bytes_written + outcome.bytes_written);
      input_files = u64 (m.input_files + outcome.input_files);
      output_files = u64 (m.output_files + outcome.output_files);
    } in
    elim level [
      | none ↦ record counted { full_compactions = u64 (m.full_compactions + 1) }
      | some index ↦
          let grown = grow_to index m.compactions_by_level in
          record counted { compactions_by_level = set grown index (u64 (get_or grown index 0 + 1)) }
    ]

pub record CompactionJob : Type 0 where
  pub inputs : List (ℕ × SsTable)
  pub output_level : ℕ
  pub drop_tombstones : Bool
  pub target_file_size : ℕ

-- The files of the directory, by their names.
abbrev pub Files : Type 0
Files = BTreeMap (List ℕ)

-- DbInner, and the files of its path. Tables are immutable and shared, so a copy of the value
-- stands for each `Arc`.
pub record Db : Type 0 where
  pub files : Files
  pub memtable : BTreeMap MemtableEntry
  pub levels : List (List SsTable)
  pub next_sst_id : ℕ
  -- whether an addition to `next_sst_id` has wrapped around: what happened, which no field of the
  -- code keeps
  pub overflowed : Bool
  pub options : DbOptions
  pub counters : Counters
  pub metrics : Metrics
  pub fault : FaultInjector

unfoldable pub count_files : List (List SsTable) → ℕ
count_files [] = 0
count_files (files ∷ rest) = length files + count_files rest

unfoldable pub sst_count : Db → ℕ
sst_count db = count_files db.levels

-- `ensure_level`
unfoldable pub ensure_level : ℕ → List (List SsTable) → List (List SsTable)
ensure_level level levels =
    if leb (length levels) level then levels ++ replicate (level + 1 - length levels) [] else levels
