-- ===== src/Compaction.antt =====
-- src/compaction.rs: the picker of leveled compaction.
pub mod Ids
pub mod Plan
pub mod Settled
pub mod Capacity
mod Examples
use pebble_db.Prelude.{
  ℕ, zero, suc, ◌+◌, ◌-◌, ◌*◌, ◌^◌, List, [], ◌∷◌, Bool, true, false, ◌&&◌, Text, Option,
}
use pebble_db.Prelude.{
  some, none, Outcome, ok, panic, ◌>>=◌, max, min, text_le, text_lt, keep, map, leb, ltb,
}
use pebble_db.Prelude.{◌==◌, if◌then◌else◌, length, sum_of, is_empty, u64}

pub record LevelConfig : Type 0 where
  pub l0_compaction_threshold : ℕ
  pub level_size_multiplier : ℕ
  pub target_level_size : ℕ

-- `LevelConfig::new`
unfoldable pub new : ℕ → ℕ → ℕ → LevelConfig
new l0_compaction_threshold level_size_multiplier target_level_size = record {
  l0_compaction_threshold = max l0_compaction_threshold 1;
  level_size_multiplier = max level_size_multiplier 2;
  target_level_size = max target_level_size 1;
}

-- `saturating_mul` on u64
abbrev pub saturating_mul : ℕ → ℕ → ℕ
saturating_mul a b = min (a * b) (2 ^ 64 - 1)

unfoldable pub grow_capacity : ℕ → ℕ → ℕ → ℕ
grow_capacity zero multiplier capacity = capacity
grow_capacity (suc n) multiplier capacity =
    grow_capacity n multiplier (saturating_mul capacity multiplier)

unfoldable pub level_capacity : LevelConfig → ℕ → ℕ
level_capacity config level =
    grow_capacity (level - 1) config.level_size_multiplier config.target_level_size

pub record FileMeta : Type 0 where
  pub id : ℕ
  pub level : ℕ
  pub smallest : Text
  pub largest : Text
  pub size : ℕ

pub record CompactionPlan : Type 0 where
  pub level : ℕ
  pub inputs : List ℕ
  pub overlaps : List ℕ
  pub drop_tombstones : Bool

-- `min()` and `max()` over the keys of a list with this first element.
abbrev pub least : (FileMeta → Text) → Text → List FileMeta → Text
least key best [] = best
least key best (f ∷ fs) = least key (if text_lt (key f) best then key f else best) fs

abbrev pub greatest : (FileMeta → Text) → Text → List FileMeta → Text
greatest key best [] = best
greatest key best (f ∷ fs) = greatest key (if text_le best (key f) then key f else best) fs

-- The two `unwrap` calls panic on an empty list.
unfoldable pub union_range : List FileMeta → Outcome (Text × Text)
union_range [] = panic
union_range (f ∷ fs) =
    ok (least (λ g. g.smallest) f.smallest fs, greatest (λ g. g.largest) f.largest fs)

abbrev pub overlaps_range : ℕ → Text → Text → FileMeta → Bool
overlaps_range level smallest largest file =
    (file.level == level) && (text_le file.smallest largest && text_le smallest file.largest)

unfoldable pub overlapping : List FileMeta → ℕ → Text → Text → List FileMeta
overlapping files level smallest largest = keep (overlaps_range level smallest largest) files

-- `sort_unstable_by` with the greater number first.
unfoldable pub insert_id : ℕ → List ℕ → List ℕ
insert_id n [] = n ∷ []
insert_id n (m ∷ ms) = let rest = insert_id n ms in if leb m n then n ∷ m ∷ ms else m ∷ rest

unfoldable pub ids : List FileMeta → List ℕ
ids [] = []
ids (f ∷ fs) = insert_id f.id (ids fs)

-- `min_by_key(|file| file.id)` over a list with this first element; the first of equals wins.
abbrev pub oldest : FileMeta → List FileMeta → FileMeta
oldest best [] = best
oldest best (f ∷ fs) = oldest (if ltb f.id best.id then f else best) fs

abbrev pub at_level : ℕ → List FileMeta → List FileMeta
at_level level files = keep (λ f. f.level == level) files

abbrev pub deepest : List FileMeta → ℕ
deepest [] = 0
deepest (f ∷ fs) = max f.level (deepest fs)

-- The plan for a level that holds the files `f ∷ fs`.
unfoldable pub level_plan : List FileMeta → ℕ → FileMeta → List FileMeta → CompactionPlan
level_plan files level f fs =
    let input = oldest f fs in
    record {
      level = level;
      inputs = input.id ∷ [];
      overlaps = ids (overlapping files (level + 1) input.smallest input.largest);
      drop_tombstones = leb (deepest files) (level + 1);
    }

-- One round of the loop over the levels.
unfoldable pub try_level :
    List FileMeta → LevelConfig → ℕ → List FileMeta → Option CompactionPlan → Option CompactionPlan
try_level files config level [] next = next
try_level files config level (f ∷ fs) next =
    if leb (u64 (sum_of (λ g. g.size) (f ∷ fs))) (level_capacity config level)
    then next
    else some (level_plan files level f fs)

-- `for level in 1..=deepest`, from `level` on with `left` rounds to go. A level indexes a vector
-- in memory, so `level + 1` stays far below 2 ^ 32.
unfoldable pub pick_level : ℕ → ℕ → List FileMeta → LevelConfig → Option CompactionPlan
pick_level zero level files config = none
pick_level (suc left) level files config =
    let next = pick_level left (level + 1) files config in
    try_level files config level (at_level level files) next

unfoldable pub pick_compaction : List FileMeta → LevelConfig → Outcome (Option CompactionPlan)
pick_compaction [] config = ok none
pick_compaction (file ∷ files) config =
    let all = file ∷ files in
    let l0 = at_level 0 all in
    if leb config.l0_compaction_threshold (length l0)
    then (do
      (smallest, largest) ← union_range l0
      ok (
          some (record {
            level = 0;
            inputs = ids l0;
            overlaps = ids (overlapping all 1 smallest largest);
            drop_tombstones = leb (deepest all) 1;
          })))
    else ok (pick_level (deepest all) 1 all config)
