-- ===== src/Db/Stats.antt =====
-- src/db.rs: LevelStats, DbStats and stats_inner. The quotient of the write amplification is the
-- parameter's.
pub mod Totals
use pebble_db.Prelude.{
  ℕ, zero, suc, ◌+◌, List, [], ◌∷◌, ◌++◌, Text, Bool, Option, none, some, map, length, sum_of, u64,
  ltb, leb, if◌then◌else◌,
}
use pebble_db.Prelude.{◌≡◌, refl, sym, ◌∙◌, ap, arith}
use pebble_db.Prelude.BTreeMap
use pebble_db.Bloom.{Floats}
use pebble_db.Sstable.Table.{SsTable, file_size}
use pebble_db.Iter.Memtable.{MemtableEntry}
use pebble_db.Iter.Memtable
use pebble_db.Db.Names.{wal_file}
use pebble_db.Db.State.{Db, Files, sst_count, count_files}

pub record LevelStats : Type 0 where
  pub level : ℕ
  pub files : ℕ
  pub bytes : ℕ

pub record DbStats (F64 : Type 0) : Type 0 where
  pub memtable_entries : ℕ
  pub memtable_bytes : ℕ
  pub sst_count : ℕ
  pub total_sst_size : ℕ
  pub sst_sizes : List (ℕ × ℕ)
  pub wal_size : ℕ
  pub memtable_hits : ℕ
  pub bloom_rejects : ℕ
  pub block_reads : ℕ
  pub compactions_completed : ℕ
  pub full_compactions : ℕ
  pub compactions_by_level : List (ℕ × ℕ)
  pub compaction_bytes_read : ℕ
  pub compaction_bytes_written : ℕ
  pub compaction_input_files : ℕ
  pub compaction_output_files : ℕ
  pub bytes_flushed : ℕ
  pub write_amplification : Option F64
  pub levels : List LevelStats

abbrev pub value_len : MemtableEntry → ℕ
value_len (Memtable.value v) = length v
value_len Memtable.tombstone = 0

abbrev pub bytes_of : List SsTable → ℕ
bytes_of files = sum_of file_size files

-- The loop over the levels, which passes over the empty ones: the statistics of each.
unfoldable pub level_stats : ℕ → List (List SsTable) → List LevelStats
level_stats level [] = []
level_stats level ([] ∷ rest) = level_stats (level + 1) rest
level_stats level ((t ∷ ts) ∷ rest) =
    record { level = level; files = length (t ∷ ts); bytes = bytes_of (t ∷ ts) }
    ∷ level_stats (level + 1) rest

-- What the same loop pushes to `sst_sizes`.
unfoldable pub pushed_sizes : List (List SsTable) → List (ℕ × ℕ)
pushed_sizes [] = []
pushed_sizes (files ∷ rest) = map (λ t. (t.id, file_size t)) files ++ pushed_sizes rest

-- `sort_by_key` on the numbers.
unfoldable pub insert_size : ℕ × ℕ → List (ℕ × ℕ) → List (ℕ × ℕ)
insert_size s [] = s ∷ []
insert_size s (r ∷ rs) = let rest = insert_size s rs in if leb s.0 r.0 then s ∷ r ∷ rs else r ∷ rest

unfoldable pub sort_sizes : List (ℕ × ℕ) → List (ℕ × ℕ)
sort_sizes [] = []
sort_sizes (s ∷ ss) = insert_size s (sort_sizes ss)

-- The levels from `level` on that were compacted, with how often.
unfoldable pub compacted_levels : ℕ → List ℕ → List (ℕ × ℕ)
compacted_levels level [] = []
compacted_levels level (count ∷ counts) =
    let rest = compacted_levels (level + 1) counts in
    if ltb 0 count then (level, count) ∷ rest else rest

abbrev pub file_len : Option (List ℕ) → ℕ
file_len none = 0
file_len (some bytes) = length bytes

-- `stats_inner`
unfoldable pub stats : (fl : Floats) → Db → DbStats fl.F64
stats fl db =
    let sst_sizes = sort_sizes (pushed_sizes db.levels) in
    let m = db.metrics in
    let ratio =
      fl.div (fl.of_usize (u64 (m.bytes_flushed + m.bytes_written)))
        (fl.of_usize m.bytes_flushed) in
    record {
      memtable_entries = length db.memtable;
      memtable_bytes = sum_of (λ e. length e.0 + value_len e.1) db.memtable;
      sst_count = sst_count db;
      total_sst_size = sum_of (λ s. s.1) sst_sizes;
      sst_sizes = sst_sizes;
      wal_size = file_len (BTreeMap.get wal_file db.files);
      memtable_hits = db.counters.memtable_hits;
      bloom_rejects = db.counters.bloom_rejects;
      block_reads = db.counters.block_reads;
      compactions_completed = m.compactions;
      full_compactions = m.full_compactions;
      compactions_by_level = compacted_levels 0 m.compactions_by_level;
      compaction_bytes_read = m.bytes_read;
      compaction_bytes_written = m.bytes_written;
      compaction_input_files = m.input_files;
      compaction_output_files = m.output_files;
      bytes_flushed = m.bytes_flushed;
      write_amplification = if ltb 0 m.bytes_flushed then some ratio else none;
      levels = level_stats 0 db.levels;
    }
