-- ===== src/Compaction/Examples.antt =====
-- Files of a store on which the theorems about the picker of src/compaction.rs are tried.
use pebble_db.Prelude.{
  ℕ, List, [], ◌∷◌, codes, true, Option, some, none, ok, ◌≡◌, ◌↔◌, refl, sym, ap, ◌∙◌, arith,
}
use pebble_db.Prelude.{inl, inr}
use pebble_db.Compaction.{
  FileMeta, LevelConfig, CompactionPlan, new, level_capacity, pick_compaction, union_range, ids,
  insert_id, overlapping,
}
use pebble_db.Compaction.Plan.{HasUniqueIds, IsSound, pick_compaction-IsSound}
use pebble_db.Compaction.Settled.{IsSettled, pick_compaction-ok, pick_compaction-none}
use pebble_db.Compaction.Capacity.{level_capacity-eq-min}

abbrev config : LevelConfig
config = record { l0_compaction_threshold = 1; level_size_multiplier = 2; target_level_size = 100 }

abbrev newer : FileMeta
newer = record { id = 2; level = 0; smallest = codes "b"; largest = codes "d"; size = 40 }

abbrev older : FileMeta
older = record { id = 1; level = 1; smallest = codes "a"; largest = codes "c"; size = 50 }

abbrev files : List FileMeta
files = newer ∷ older ∷ []

abbrev id_of : FileMeta → ℕ
id_of f = f.id

files-HasUniqueIds : HasUniqueIds files
files-HasUniqueIds f g (inl p) (inl q) e = p ∙ sym q
files-HasUniqueIds f g (inl p) (inr (inl q)) e =
    absurd (omega (arith, sym (ap id_of p) ∙ e ∙ ap id_of q))
files-HasUniqueIds f g (inr (inl p)) (inl q) e =
    absurd (omega (arith, sym (ap id_of p) ∙ e ∙ ap id_of q))
files-HasUniqueIds f g (inr (inl p)) (inr (inl q)) e = p ∙ sym q
files-HasUniqueIds f g (inl p) (inr (inr m)) e = elim m [ ]
files-HasUniqueIds f g (inr (inl p)) (inr (inr m)) e = elim m [ ]
files-HasUniqueIds f g (inr (inr m)) _ e = elim m [ ]

abbrev down : CompactionPlan
down = record { level = 0; inputs = 2 ∷ []; overlaps = 1 ∷ []; drop_tombstones = true }

files_down : pick_compaction files config ≡ ok (some down)
unfolding pick_compaction union_range ids insert_id overlapping
files_down = refl

pick_compaction-IsSound_example : IsSound files down
pick_compaction-IsSound_example =
    pick_compaction-IsSound files config down files-HasUniqueIds files_down

pick_compaction-ok_example :
    (plan : Option CompactionPlan) × (pick_compaction files config ≡ ok plan)
pick_compaction-ok_example = pick_compaction-ok files config (omega arith)

pick_compaction-none_example : (pick_compaction files config ≡ ok none) ↔ IsSettled files config
pick_compaction-none_example = pick_compaction-none files config (omega arith)

level_capacity-eq-min_example : level_capacity (new 4 1 100) 3 ≡ 400
level_capacity-eq-min_example = level_capacity-eq-min 4 1 100 2 (omega arith)
