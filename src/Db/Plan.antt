-- ===== src/Db/Plan.antt =====
-- src/db.rs: file_metas, plan_job, the order in which a job reads its tables, and record_size.
use pebble_db.Prelude.{ℕ, ◌+◌, List, [], ◌∷◌, ◌++◌, Bool, ◌&&◌, ◌||◌}
use pebble_db.Prelude.{Option, some, none, Text, map, if◌then◌else◌, ltb, leb, ◌==◌, length}
use pebble_db.Prelude.{keep, contains}
use pebble_db.Compaction.{FileMeta, CompactionPlan}
use pebble_db.Sstable.Block.{SsTableEntry, value_bytes}
use pebble_db.Sstable.Table.{SsTable, file_size, key_range}
use pebble_db.Iter.Child.{child_storage}
use pebble_db.Db.State.{Db, CompactionJob}

-- The record of one table before the records of others, where the table tells its range of keys.
abbrev pub with_meta : ℕ → SsTable → Option (Text × Text) → List FileMeta → List FileMeta
with_meta level sst none metas = metas
with_meta level sst (some span) metas =
    record { id = sst.id; level = level; smallest = span.0; largest = span.1; size = file_size sst }
    ∷ metas

abbrev pub metas_of : ℕ → List SsTable → List FileMeta
metas_of level [] = []
metas_of level (sst ∷ rest) = with_meta level sst (key_range sst) (metas_of level rest)

-- `file_metas`, from level `level` on.
unfoldable pub file_metas : ℕ → List (List SsTable) → List FileMeta
file_metas level [] = []
file_metas level (files ∷ rest) = metas_of level files ++ file_metas (level + 1) rest

-- The tables of one level that a plan takes.
abbrev wanted : CompactionPlan → ℕ → List ℕ
wanted plan level =
    if level == plan.level
    then plan.inputs
    else if level == plan.level + 1
    then plan.overlaps
    else []

abbrev take_wanted : List ℕ → ℕ → List SsTable → List (ℕ × SsTable)
take_wanted ids level files = map (λ sst. (level, sst)) (keep (λ sst. contains ids sst.id) files)

unfoldable pub job_inputs : CompactionPlan → ℕ → List (List SsTable) → List (ℕ × SsTable)
job_inputs plan level [] = []
job_inputs plan level (files ∷ rest) =
    take_wanted (wanted plan level) level files ++ job_inputs plan (level + 1) rest

unfoldable pub plan_job : Db → CompactionPlan → CompactionJob
plan_job db plan = record {
  inputs = job_inputs plan 0 db.levels;
  output_level = plan.level + 1;
  drop_tombstones = plan.drop_tombstones;
  target_file_size = db.options.target_file_size;
}

-- `a.0.cmp(&b.0).then(b.1.id.cmp(&a.1.id))` is not greater: the shallower level first, and in a
-- level the greater id.
abbrev comes_first : ℕ × SsTable → ℕ × SsTable → Bool
comes_first a b = ltb a.0 b.0 || (a.0 == b.0 && leb b.1.id a.1.id)

unfoldable pub insert_source : ℕ × SsTable → List (ℕ × SsTable) → List (ℕ × SsTable)
insert_source a [] = a ∷ []
insert_source a (b ∷ bs) =
    let rest = insert_source a bs in if comes_first a b then a ∷ b ∷ bs else b ∷ rest

-- `sources.sort_by(…)`, which is stable.
unfoldable pub sort_sources : List (ℕ × SsTable) → List (ℕ × SsTable)
sort_sources [] = []
sort_sources (a ∷ as') = insert_source a (sort_sources as')

-- `record_size`
unfoldable pub record_size : Text → SsTableEntry → ℕ
record_size key entry = 1 + 4 + 4 + length key + length (value_bytes entry)
