-- ===== src/Db/Names.antt =====
-- src/db.rs: the names of the table files, and the text of the merge marker.
pub mod Bounds
pub mod RoundTrip
use pebble_db.Prelude.{ℕ, ◌^◌, List, [], ◌∷◌, ◌++◌, Option, some, none, Text, codes, map}
use pebble_db.Prelude.Decimal.{
  decimal, padded, parse_unsigned, strip_prefix, strip_suffix, split_once, split, trim,
}

abbrev pub wal_file : Text
wal_file = codes "wal.log"

abbrev pub merge_pending_file : Text
merge_pending_file = codes "merge.pending"

abbrev pub tmp_suffix : Text
tmp_suffix = codes ".tmp"

unfoldable pub sstable_file_name : ℕ → ℕ → Text
sstable_file_name level id =
    codes "sstable_L" ++ (decimal level ++ (codes "_" ++ (padded 6 id ++ codes ".sst")))

-- The `?` chains of `parse_sstable_file_name`.
infixl 5 ◌>>=◌
abbrev ◌>>=◌ : {A B : Type 0} → Option A → (A → Option B) → Option B
none >>= f = none
some a >>= f = f a

unfoldable pub parse_sstable_file_name : Text → Option (ℕ × ℕ)
parse_sstable_file_name name = do
  rest ← strip_prefix (codes "sstable_") name
  stem ← strip_suffix (codes ".sst") rest
  elim (strip_prefix (codes "L") stem) [
    | some tail ↦ do
      parts ← split_once 95 tail
      id ← parse_unsigned (2 ^ 64) parts.1
      level ← parse_unsigned (2 ^ 32) parts.0
      some (id, level)
    | none ↦ do id ← parse_unsigned (2 ^ 64) stem; some (id, 0)
  ]

-- `join(",")` over the numbers.
unfoldable pub join_ids : List ℕ → Text
join_ids [] = []
join_ids (n ∷ []) = decimal n
join_ids (n ∷ m ∷ ns) = decimal n ++ 44 ∷ join_ids (m ∷ ns)

abbrev collect_some : List (Option ℕ) → List ℕ
collect_some [] = []
collect_some (none ∷ os) = collect_some os
collect_some (some n ∷ os) = n ∷ collect_some os

unfoldable pub parse_ids : Text → List ℕ
parse_ids text = collect_some (map (λ id. parse_unsigned (2 ^ 64) (trim id)) (split 44 text))

-- The text that `write_pending_merge` writes.
unfoldable pub pending_content : List ℕ → List ℕ → Text
pending_content outputs inputs =
    codes "outputs: "
    ++ (join_ids outputs ++ 10 ∷ (codes "inputs: " ++ (join_ids inputs ++ 10 ∷ [])))

-- One line of the marker, over the numbers read so far.
unfoldable pub read_line : Text → List ℕ × List ℕ → List ℕ × List ℕ
read_line line found = elim (strip_prefix (codes "outputs:") line) [
  | some rest ↦ (parse_ids rest, found.1)
  | none ↦ elim (strip_prefix (codes "inputs:") line) [
    | some rest ↦ (found.0, parse_ids rest)
    | none ↦ found
  ]
]

unfoldable pub read_lines : List Text → List ℕ × List ℕ → List ℕ × List ℕ
read_lines [] found = found
read_lines (l ∷ ls) found = read_lines ls (read_line l found)

-- The loop of `read_pending_merge` over `lines()`; what `trim` cuts includes a carriage return.
unfoldable pub parse_pending : Text → List ℕ × List ℕ
parse_pending content = read_lines (split 10 content) ([], [])
