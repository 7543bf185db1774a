-- ===== src/Db/Settled.antt =====
-- A settled database, as the picker sees it through file_metas, stays settled with one table more.
pub mod Compact
mod Examples
use pebble_db.Prelude.{keep, Bool, true, if◌then◌else◌}
use pebble_db.Prelude.{
  ℕ, suc, ◌+◌, ◌≤◌, ◌<◌, List, [], ◌∷◌, ◌++◌, Option, some, none, Text, length, length-append, ◌==◌,
  All, false,
}
use pebble_db.Prelude.{◌≡◌, refl, sym, ◌∙◌, ap, arith, u64, sum_of}
use mathlib.Core.Path.{subst}
use pebble_db.Compaction.{FileMeta, LevelConfig, at_level, deepest, level_capacity}
use pebble_db.Compaction.Settled.{IsSettled}
use pebble_db.Sstable.Table.{SsTable, key_range}
use pebble_db.Db.Plan.{with_meta, metas_of, file_metas}

AllAt : ℕ → List FileMeta → Type 0
AllAt level ms = All (λ m. m.level ≡ level) ms

with_meta-AllAt :
    (level : ℕ) (t : SsTable) (o : Option (Text × Text)) (ms : List FileMeta)
    → AllAt level ms
    → AllAt level (with_meta level t o ms)
unfolding AllAt
with_meta-AllAt level t none ms a = a
with_meta-AllAt level t (some span) ms a = (refl, a)

metas_of-AllAt : (level : ℕ) (ts : List SsTable) → AllAt level (metas_of level ts)
metas_of-AllAt level [] = unfold AllAt in tt
metas_of-AllAt level (t ∷ ts) =
    with_meta-AllAt level t (key_range t) (metas_of level ts) (metas_of-AllAt level ts)

length-with_meta :
    (level : ℕ) (t : SsTable) (o : Option (Text × Text)) (ms : List FileMeta)
    → length (with_meta level t o ms) ≤ suc (length ms)
length-with_meta level t none ms = omega arith
length-with_meta level t (some span) ms = omega arith

length-metas_of : (level : ℕ) (ts : List SsTable) → length (metas_of level ts) ≤ length ts
length-metas_of level [] = omega arith
length-metas_of level (t ∷ ts) =
    omega
      (arith, length-with_meta level t (key_range t) (metas_of level ts), length-metas_of level ts)

-- Records of one level are passed over by another.
at_level-AllAt :
    (level k : ℕ) (xs ms : List FileMeta)
    → AllAt level xs
    → (level == k) ≡ false
    → at_level k (xs ++ ms) ≡ at_level k ms
unfolding AllAt
at_level-AllAt level k [] ms a h = refl
at_level-AllAt level k (x ∷ xs) ms a h =
    let ih = at_level-AllAt level k xs ms a.1 h in ground (arith, ih, a.0)

deepest-AllAt : (xs ms : List FileMeta) → AllAt 0 xs → deepest (xs ++ ms) ≡ deepest ms
unfolding AllAt
deepest-AllAt [] ms a = refl
deepest-AllAt (x ∷ xs) ms a = omega (arith, deepest-AllAt xs ms a.1, a.0)

length-at_level :
    (k : ℕ) (xs ms : List FileMeta)
    → length (at_level k (xs ++ ms)) ≤ length xs + length (at_level k ms)
length-at_level k [] ms = omega arith
length-at_level k (x ∷ xs) ms = ground (arith, length-at_level k xs ms)

-- The levels from 1 on have no record of level 0.
file_metas-at_level :
    (level : ℕ) (rest : List (List SsTable)) → 1 ≤ level → at_level 0 (file_metas level rest) ≡ []
unfolding file_metas
file_metas-at_level level [] h = refl
file_metas-at_level level (files ∷ rest) h =
    at_level-AllAt level 0 (metas_of level files) (file_metas (level + 1) rest)
      (metas_of-AllAt level files) (ground arith)
    ∙ file_metas-at_level (level + 1) rest (omega arith)

abbrev is_some : Option (Text × Text) → Bool
is_some none = false
is_some (some span) = true

-- The tables of level 0 that tell a range of keys.
abbrev pub ranged : List (List SsTable) → List SsTable
ranged [] = []
ranged (files ∷ rest) = keep (λ t. is_some (key_range t)) files

-- Each table that tells a range of keys has its record.
at_level-metas_of :
    (files : List SsTable) (ms : List FileMeta)
    → at_level 0 ms ≡ []
    → length (at_level 0 (metas_of 0 files ++ ms)) ≡ length (ranged (files ∷ []))
at_level-metas_of [] ms h = ap length h
at_level-metas_of (t ∷ ts) ms h = go (key_range t) (at_level-metas_of ts ms h)
  where
    go :
        (o : Option (Text × Text))
        → length (at_level 0 (metas_of 0 ts ++ ms)) ≡ length (ranged (ts ∷ []))
        → length (at_level 0 (with_meta 0 t o (metas_of 0 ts) ++ ms))
          ≡ length (if is_some o then t ∷ ranged (ts ∷ []) else ranged (ts ∷ []))
    go none ih = ih
    go (some span) ih = ap suc ih

pub at_level-file_metas :
    (levels : List (List SsTable))
    → length (at_level 0 (file_metas 0 levels)) ≡ length (ranged levels)
unfolding file_metas
at_level-file_metas [] = refl
at_level-file_metas (files ∷ rest) =
    at_level-metas_of files (file_metas 1 rest) (file_metas-at_level 1 rest (omega arith))

-- Where level 0 has room for one table below its threshold, a settled database stays settled when a
-- table is pushed to it.
pub push-IsSettled :
    (t : SsTable) (files : List SsTable) (rest : List (List SsTable)) (config : LevelConfig)
    → IsSettled (file_metas 0 (files ∷ rest)) config
    → length files + 1 < config.l0_compaction_threshold
    → IsSettled (file_metas 0 ((files ++ t ∷ []) ∷ rest)) config
unfolding file_metas
push-IsSettled t files rest config s room =
    let deep = file_metas 1 rest in
    let more = metas_of 0 (files ++ t ∷ []) in
    let at_zero : at_level 0 deep ≡ [] = file_metas-at_level 1 rest (omega arith) in
    let same : (k : ℕ) → 1 ≤ k → at_level k (more ++ deep) ≡ at_level k (metas_of 0 files ++ deep) =
      λ k h.
        at_level-AllAt 0 k more deep (metas_of-AllAt 0 (files ++ t ∷ [])) (ground arith)
        ∙ sym
            (at_level-AllAt 0 k (metas_of 0 files) deep (metas_of-AllAt 0 files) (ground arith)) in
    let depth : deepest (more ++ deep) ≡ deepest (metas_of 0 files ++ deep) =
      deepest-AllAt more deep (metas_of-AllAt 0 (files ++ t ∷ []))
      ∙ sym (deepest-AllAt (metas_of 0 files) deep (metas_of-AllAt 0 files)) in
    record {
      few = omega (
        arith,
        length-at_level 0 more deep,
        ap length at_zero,
        length-metas_of 0 (files ++ t ∷ []),
        length-append files (t ∷ []),
      );
      small = λ k p q.
          subst (λ ms. u64 (sum_of (λ m. m.size) ms) ≤ level_capacity config k) (sym (same k p))
            (s.small k p (omega (arith, depth)));
    }
