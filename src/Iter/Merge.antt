-- ===== src/Iter/Merge.antt =====
-- src/iter.rs: MergeIterator over any boxed cursors, the newest source first.
pub mod Children
pub mod Views
pub mod Reads
pub mod Moves
use pebble_db.Prelude.{
  ℕ, zero, suc, ◌+◌, List, [], ◌∷◌, Bool, true, false, ◌||◌, Option, some, none, Text, map,
}
use pebble_db.Prelude.{get_elem?, text_le, text_eq, if◌then◌else◌, sum_of}
use pebble_db.Iter.Storage.{StorageIterator}

pub record CurrentEntry : Type 0 where
  pub key : Text
  pub source : ℕ

pub record MergeIterator (I : Type 0) : Type 0 where
  pub children : List I
  pub current : Option CurrentEntry
  pub keep_tombstones : Bool

-- One round of the loop of `smallest`: the best source so far wins at equal keys.
abbrev pub better : Option CurrentEntry → Option Text → ℕ → Option CurrentEntry
better best none source = best
better none (some key) source = some (record { key = key; source = source })
better (some b) (some key) source =
    if text_le b.key key then some b else some (record { key = key; source = source })

abbrev pub has_key : Option Text → Text → Bool
has_key none key = false
has_key (some k) key = text_eq k key

abbrev pub is_some : Option Text → Bool
is_some none = false
is_some (some v) = true

module _ {I : Type 0} ⦃s : StorageIterator I⦄ where
  unfoldable pub smallest_loop : ℕ → Option CurrentEntry → List I → Option CurrentEntry
  smallest_loop source best [] = best
  smallest_loop source best (child ∷ children) =
      smallest_loop (source + 1) (better best (s.key child) source) children

  unfoldable pub smallest : List I → Option CurrentEntry
  smallest children = smallest_loop 0 none children

  unfoldable pub skip_child : Text → I → I
  skip_child key child = if has_key (s.key child) key then s.advance child else child

  unfoldable pub skip_key : Text → List I → List I
  skip_key key children = map (skip_child key) children

  -- `self.children[source].value()`; `smallest` yields the place of a child.
  unfoldable pub value_at : List I → ℕ → Option Text
  value_at children source = elim (get_elem? children source) [ none ↦ none | some c ↦ s.value c ]

  -- The loop of `normalize`, one unit of fuel for each key that it skips.
  unfoldable pub normalize_loop : ℕ → MergeIterator I → MergeIterator I
  normalize_loop zero it = record it { current = none }
  normalize_loop (suc fuel) it = elim (smallest it.children) [
    | none ↦ record it { current = none }
    | some c ↦
        if it.keep_tombstones || is_some (value_at it.children c.source)
        then record it { current = some c }
        else normalize_loop fuel (record it { children = skip_key c.key it.children })
  ]

  -- Every round that goes on advances a child.
  unfoldable pub normalize : MergeIterator I → MergeIterator I
  normalize it = normalize_loop (suc (sum_of s.remaining it.children)) it

  unfoldable pub build : List I → Bool → MergeIterator I
  build children keep_tombstones = normalize (record {
    children = map s.seek_to_first children;
    current = none;
    keep_tombstones = keep_tombstones;
  })

  unfoldable pub new : List I → MergeIterator I
  new children = build children false

  unfoldable pub new_with_tombstones : List I → MergeIterator I
  new_with_tombstones children = build children true

  unfoldable pub seek_to_first : MergeIterator I → MergeIterator I
  seek_to_first it = normalize (record it { children = map s.seek_to_first it.children })

  unfoldable pub seek : Text → MergeIterator I → MergeIterator I
  seek target it = normalize (record it { children = map (s.seek target) it.children })

  unfoldable pub advance : MergeIterator I → MergeIterator I
  advance it = elim it.current [
    | none ↦ it
    | some c ↦ normalize (record it { current = none; children = skip_key c.key it.children })
  ]

  unfoldable pub valid : MergeIterator I → Bool
  valid it = elim it.current [ none ↦ false | some c ↦ true ]

  unfoldable pub key : MergeIterator I → Option Text
  key it = elim it.current [ none ↦ none | some c ↦ some c.key ]

  unfoldable pub value : MergeIterator I → Option Text
  value it = elim it.current [ none ↦ none | some c ↦ value_at it.children c.source ]
