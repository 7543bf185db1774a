-- ===== src/Iter/Storage.antt =====
-- src/iter.rs: the trait StorageIterator, as the record of its methods.
use pebble_db.Prelude.{ℕ, suc, List, [], ◌∷◌, Bool, Option, Text, text_lt, if◌then◌else◌}

-- `remaining` is no method of the trait: it bounds how often a cursor can still be advanced, which
-- is the fuel of the loops over cursors.
pub record StorageIterator (I : Type 0) : Type 0 where
  pub seek_to_first : I → I
  pub seek : Text → I → I
  pub advance : I → I
  pub valid : I → Bool
  pub key : I → Option Text
  pub value : I → Option Text
  pub remaining : I → ℕ

-- `partition_point(|(key, _)| key < target)` over entries in key order.
unfoldable pub partition_point : {V : Type 0} → Text → List (Text × V) → ℕ
partition_point target [] = 0
partition_point target (e ∷ es) =
    let rest = suc (partition_point target es) in if text_lt e.0 target then rest else 0
