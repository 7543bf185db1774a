-- ===== src/Compaction/Settled.antt =====
-- The picker does not panic, and finds no work exactly when every level is within its limit.
use pebble_db.Prelude.{ℕ, zero, suc, ◌+◌, ◌≤◌, ◌<◌, List, [], ◌∷◌, Option, some, none, ok}
use pebble_db.Prelude.{◌≡◌, ◌↔◌, inl, inr, refl, arith, leb, Bool-cases}
use pebble_db.Prelude.{length, sum_of, u64}
use native.Mathlib.Decide.{ℕ_discrete}
use pebble_db.Compaction.Plan.{l0_plan}
use pebble_db.Compaction.{
  FileMeta, LevelConfig, CompactionPlan, at_level, deepest, union_range, try_level, pick_level,
  pick_compaction, level_capacity,
}

abbrev level_size : List FileMeta → ℕ → ℕ
level_size files level = u64 (sum_of (λ f. f.size) (at_level level files))

abbrev Fits : List FileMeta → LevelConfig → ℕ → Type 0
Fits files config level = level_size files level ≤ level_capacity config level

-- Level 0 has fewer files than its threshold, and no other level has more bytes than its capacity.
pub record IsSettled (files : List FileMeta) (config : LevelConfig) : Type 0 where
  pub few : length (at_level 0 files) < config.l0_compaction_threshold
  pub small : (level : ℕ) → 1 ≤ level → level ≤ deepest files → Fits files config level

try_level-none :
    (files : List FileMeta) (config : LevelConfig) (level : ℕ) (here : List FileMeta)
    (next : Option CompactionPlan)
    → (try_level files config level here next ≡ none)
      ↔ ((u64 (sum_of (λ f. f.size) here) ≤ level_capacity config level) × (next ≡ none))
unfolding try_level
try_level-none files config level [] next = ground arith
try_level-none files config level (f ∷ fs) next = ground arith

pick_level-none :
    (left level : ℕ) (files : List FileMeta) (config : LevelConfig)
    → (pick_level left level files config ≡ none)
      ↔ ((k : ℕ) → level ≤ k → k < level + left → Fits files config k)
unfolding pick_level
pick_level-none zero level files config = (λ h k p q. absurd (omega arith), λ h. refl)
pick_level-none (suc left) level files config =
    let here =
      try_level-none files config level (at_level level files)
        (pick_level left (level + 1) files config) in
    let rest = pick_level-none left (level + 1) files config in
    (
      λ h k p q. elim (ℕ_discrete level k) [
        | yes e ↦ rw (← e) (here.0 h).0
        | no n ↦ rest.0 (here.0 h).1 k (omega arith) (omega arith)
      ],
      λ h.
          here.1 (
            h level (omega arith) (omega arith),
            rest.1 (λ k p q. h k (omega arith) (omega arith)),
          ),
    )

union_range-ok :
    (fs : List FileMeta) → 1 ≤ length fs → (r : List ℕ × List ℕ) × (union_range fs ≡ ok r)
unfolding union_range
union_range-ok [] h = absurd (omega arith)
union_range-ok (f ∷ fs) h = (_, refl)

-- With a level-0 threshold of at least 1 the picker does not panic.
pub pick_compaction-ok :
    (files : List FileMeta) (config : LevelConfig)
    → 1 ≤ config.l0_compaction_threshold
    → (plan : Option CompactionPlan) × (pick_compaction files config ≡ ok plan)
unfolding pick_compaction
pick_compaction-ok [] config h = (none, refl)
pick_compaction-ok (x ∷ xs) config h =
    elim (Bool-cases (leb config.l0_compaction_threshold (length (at_level 0 (x ∷ xs))))) [
      | inl full ↦
          let (span, e) = union_range-ok (at_level 0 (x ∷ xs)) (ground arith) in
          (some (l0_plan (x ∷ xs) (at_level 0 (x ∷ xs)) span), rw (full, e))
      | inr few ↦ (pick_level (deepest (x ∷ xs)) 1 (x ∷ xs) config, rw few)
    ]

-- With a level-0 threshold of at least 1 there is no plan exactly when level 0 has fewer files than
-- the threshold and no level from 1 to the deepest has more bytes than its capacity.
pub pick_compaction-none :
    (files : List FileMeta) (config : LevelConfig)
    → 1 ≤ config.l0_compaction_threshold
    → (pick_compaction files config ≡ ok none) ↔ IsSettled files config
unfolding pick_compaction
pick_compaction-none [] config h =
    (λ _. record { few = h; small = λ level p q. absurd (omega arith) }, λ _. refl)
pick_compaction-none (x ∷ xs) config h =
    let files : List FileMeta = x ∷ xs in
    elim (Bool-cases (leb config.l0_compaction_threshold (length (at_level 0 files)))) [
      | inl full ↦
          let (span, e) = union_range-ok (at_level 0 files) (ground arith) in
          (
            λ g.
                let planned : ok (some (l0_plan files (at_level 0 files) span)) ≡ ok none =
                  rw (full, e) at g in
                absurd (cc planned),
            λ s. absurd (ground (arith, s.few)),
          )
      | inr few ↦
          let levels = pick_level-none (deepest files) 1 files config in
          (
            λ g. record {
              few = ground arith;
              small = λ level p q. levels.0 (cc (rw few at g)) level p (omega arith);
            },
            λ s. rw (few, levels.1 (λ k p q. s.small k p (omega arith))),
          )
    ]
