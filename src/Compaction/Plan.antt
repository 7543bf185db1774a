-- ===== src/Compaction/Plan.antt =====
-- What a plan promises to the job that carries it out, and when there is none.
use pebble_db.Prelude.{ℕ, zero, suc, ◌+◌, ◌≤◌, List, [], ◌∷◌, true, Text, In, inl, inr}
use pebble_db.Prelude.{◌⊎◌, ◌≡◌, refl, sym, ap, arith, text_le, leb, ◌==◌, Bool-cases}
use pebble_db.Prelude.{ok, Option, some, length, sum_of, u64, In-keep, keep-In, ◌>>=◌}
use pebble_db.Prelude.Order.{text_le_trans}
use mathlib.Core.Path.{subst}
use pebble_db.Compaction.{
  FileMeta, LevelConfig, CompactionPlan, ids, overlapping, at_level, deepest, oldest, union_range,
  least, greatest, level_plan, try_level, pick_level, pick_compaction, level_capacity,
  overlaps_range,
}
use pebble_db.Compaction.Ids.{In-ids, ids-In, oldest-In, le-deepest, least-le, greatest-ge}

-- The key ranges of two files have a key in common.
abbrev pub Meets : FileMeta → FileMeta → Type 0
Meets f g = (text_le f.smallest g.largest ≡ true) × (text_le g.smallest f.largest ≡ true)

abbrev pub HasUniqueIds : List FileMeta → Type 0
HasUniqueIds files = (f g : FileMeta) → In f files → In g files → f.id ≡ g.id → f ≡ g

pub record IsSound (files : List FileMeta) (plan : CompactionPlan) : Type 0 where
  -- a file of the level is moved, and only files of the level
  pub moves : (f : FileMeta) × In f files × (f.level ≡ plan.level) × In f.id plan.inputs
  pub inputs_at :
      (n : ℕ) → In n plan.inputs → (f : FileMeta) × In f files × (f.level ≡ plan.level) × (f.id ≡ n)
  -- they are merged with files of the next level, with all that meet them
  pub overlaps_at :
      (n : ℕ)
      → In n plan.overlaps
      → (f : FileMeta) × In f files × (f.level ≡ plan.level + 1) × (f.id ≡ n)
  pub closed :
      (f g : FileMeta)
      → In f files
      → f.level ≡ plan.level
      → In f.id plan.inputs
      → In g files
      → g.level ≡ plan.level + 1
      → Meets f g
      → In g.id plan.overlaps
  -- tombstones are dropped only where no file lies deeper than the output
  pub deepest_level :
      plan.drop_tombstones ≡ true → (f : FileMeta) → In f files → f.level ≤ plan.level + 1

In-at_level :
    (level : ℕ) (f : FileMeta) (files : List FileMeta)
    → In f files
    → f.level ≡ level
    → In f (at_level level files)
In-at_level level f files m e = In-keep (λ g. g.level == level) f files m (ground arith)

at_level-In :
    (level : ℕ) (f : FileMeta) (files : List FileMeta)
    → In f (at_level level files)
    → In f files × (f.level ≡ level)
at_level-In level f files m =
    let (there, e) = keep-In (λ g. g.level == level) f files m in (there, ground arith)

overlapping-In :
    (files : List FileMeta) (level : ℕ) (lo hi : Text) (n : ℕ)
    → In n (ids (overlapping files level lo hi))
    → (f : FileMeta) × In f files × (f.level ≡ level) × (f.id ≡ n)
unfolding overlapping
overlapping-In files level lo hi n m =
    let (f, there, e) = ids-In n _ m in
    let (kept, h) = keep-In (overlaps_range level lo hi) f files there in (f, kept, ground arith, e)

In-overlapping :
    (files : List FileMeta) (level : ℕ) (lo hi : Text) (g : FileMeta)
    → In g files
    → g.level ≡ level
    → text_le g.smallest hi ≡ true
    → text_le lo g.largest ≡ true
    → In g.id (ids (overlapping files level lo hi))
unfolding overlapping
In-overlapping files level lo hi g m e p q =
    In-ids g _ (In-keep (overlaps_range level lo hi) g files m (ground arith))

only : {n k : ℕ} → (n ≡ k) ⊎ ⊥ → n ≡ k
only (inl e) = e
only (inr m) = elim m [ ]

level_plan-IsSound :
    (files : List FileMeta) (level : ℕ) (f : FileMeta) (fs : List FileMeta)
    → HasUniqueIds files
    → at_level level files ≡ f ∷ fs
    → IsSound files (level_plan files level f fs)
unfolding level_plan
level_plan-IsSound files level f fs unique e =
    let input = oldest f fs in
    let held : In input files × (input.level ≡ level) =
      at_level-In level input files (subst (In input) (sym e) (oldest-In f fs)) in
    record {
      moves = (input, held.0, held.1, inl refl);
      inputs_at = λ n m. (input, held.0, held.1, sym (only m));
      overlaps_at = λ n m. overlapping-In files (level + 1) input.smallest input.largest n m;
      closed = λ x g mx lx ix mg lg meets.
          let same : x ≡ input = unique x input mx held.0 (only ix) in
          let near : Meets input g = subst (λ y. Meets y g) same meets in
          In-overlapping files (level + 1) input.smallest input.largest g mg lg near.1 near.0;
      deepest_level = λ h g m. ground (arith, le-deepest g files m);
    }

try_level-IsSound :
    (files : List FileMeta) (config : LevelConfig) (level : ℕ) (here : List FileMeta)
    (next : Option CompactionPlan) (plan : CompactionPlan)
    → HasUniqueIds files
    → at_level level files ≡ here
    → (next ≡ some plan → IsSound files plan)
    → try_level files config level here next ≡ some plan
    → IsSound files plan
unfolding try_level
try_level-IsSound files config level [] next plan unique e later h = later h
try_level-IsSound files config level (f ∷ fs) next plan unique e later h =
    elim (Bool-cases (leb (u64 (sum_of (λ g. g.size) (f ∷ fs))) (level_capacity config level))) [
      | inl fits ↦ later (rw fits at h)
      | inr over ↦
          let same : some (level_plan files level f fs) ≡ some plan = rw over at h in
          subst (IsSound files) (cc same) (level_plan-IsSound files level f fs unique e)
    ]

pick_level-IsSound :
    (left level : ℕ) (files : List FileMeta) (config : LevelConfig) (plan : CompactionPlan)
    → HasUniqueIds files
    → pick_level left level files config ≡ some plan
    → IsSound files plan
unfolding pick_level
pick_level-IsSound zero level files config plan unique h = cc
pick_level-IsSound (suc left) level files config plan unique h =
    try_level-IsSound files config level (at_level level files)
      (pick_level left (level + 1) files config) plan unique refl
      (pick_level-IsSound left (level + 1) files config plan unique) h

abbrev pub l0_plan : List FileMeta → List FileMeta → Text × Text → CompactionPlan
l0_plan files l0 span = record {
  level = 0;
  inputs = ids l0;
  overlaps = ids (overlapping files 1 span.0 span.1);
  drop_tombstones = leb (deepest files) 1;
}

l0_plan-IsSound :
    (files : List FileMeta) (f : FileMeta) (fs : List FileMeta)
    → HasUniqueIds files
    → at_level 0 files ≡ f ∷ fs
    → IsSound files (
        l0_plan files
          (f ∷ fs)
          (least (λ g. g.smallest) f.smallest fs, greatest (λ g. g.largest) f.largest fs))
l0_plan-IsSound files f fs unique e =
    let lo = least (λ g. g.smallest) f.smallest fs in
    let hi = greatest (λ g. g.largest) f.largest fs in
    let back : (x : FileMeta) → In x (f ∷ fs) → In x files × (x.level ≡ 0) =
      λ x m. at_level-In 0 x files (subst (In x) (sym e) m) in
    record {
      moves = (f, (back f (inl refl)).0, (back f (inl refl)).1, In-ids f (f ∷ fs) (inl refl));
      inputs_at = λ n m.
          let (x, there, same) = ids-In n (f ∷ fs) m in
          (x, (back x there).0, (back x there).1, same);
      overlaps_at = λ n m. overlapping-In files 1 lo hi n m;
      closed = λ x g mx lx ix mg lg meets.
          let there : In x (f ∷ fs) = subst (In x) e (In-at_level 0 x files mx lx) in
          In-overlapping files 1 lo hi g mg lg
            (text_le_trans g.smallest x.largest hi meets.1
              (greatest-ge (λ h. h.largest) f.largest fs x (first_key (λ h. h.largest) there)))
            (text_le_trans lo x.smallest g.largest
              (least-le (λ h. h.smallest) f.smallest fs x (first_key (λ h. h.smallest) there))
              meets.0);
      deepest_level = λ h g m. ground (arith, le-deepest g files m);
    }
  where
    first_key :
        {x : FileMeta} (key : FileMeta → Text) → (x ≡ f) ⊎ In x fs → (key x ≡ key f) ⊎ In x fs
    first_key key (inl e) = inl (ap key e)
    first_key key (inr m) = inr m

-- The part of `pick_compaction` that looks at level 0, once there is a file.
pick_l0 :
    (files l0 : List FileMeta) (plan : CompactionPlan)
    → HasUniqueIds files
    → at_level 0 files ≡ l0
    → (union_range l0 >>= λ span. ok (some (l0_plan files l0 span))) ≡ ok (some plan)
    → IsSound files plan
unfolding union_range
pick_l0 files [] plan unique e h = cc
pick_l0 files (f ∷ fs) plan unique e h =
    subst (IsSound files) (cc h) (l0_plan-IsSound files f fs unique e)

-- A plan over files with distinct numbers is sound: it moves a file of its level at least and only
-- such files, merges them with files of the next level only and with every one whose key range
-- meets an input, and drops tombstones only where no file lies deeper than its output.
pub pick_compaction-IsSound :
    (files : List FileMeta) (config : LevelConfig) (plan : CompactionPlan)
    → HasUniqueIds files
    → pick_compaction files config ≡ ok (some plan)
    → IsSound files plan
unfolding pick_compaction
pick_compaction-IsSound [] config plan unique h = cc
pick_compaction-IsSound (x ∷ xs) config plan unique h =
    let files : List FileMeta = x ∷ xs in
    elim (Bool-cases (leb config.l0_compaction_threshold (length (at_level 0 files)))) [
      | inl full ↦ pick_l0 files (at_level 0 files) plan unique refl (rw full at h)
      | inr few ↦
          let deep : ok (pick_level (deepest files) 1 files config) ≡ ok (some plan) =
            rw few at h in
          pick_level-IsSound (deepest files) 1 files config plan unique (cc deep)
    ]
