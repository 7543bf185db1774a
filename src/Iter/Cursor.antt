-- ===== src/Iter/Cursor.antt =====
-- What an implementor of StorageIterator promises: it moves through the rows of its source.
pub mod OfMemtable
pub mod Seek
pub mod Blocks
pub mod Standing
pub mod OfTable
pub mod OfChild
use pebble_db.Prelude.{ℕ, ◌≤◌, Text, length, ◌≡◌}
use pebble_db.Prelude.BTreeMap.Ascending.{Ascending}
use pebble_db.Iter.Storage.{StorageIterator}
use pebble_db.Iter.Rows.{Rows, tail, head_key, head_value, from}

-- `IsSource it all`: the cursor is made for the rows `all`. `Views it all rest`: it stands before the
-- rows `rest` of them.
pub record Cursor {I : Type 0} (s : StorageIterator I) : Type 1 where
  pub IsSource : I → Rows → Type 0
  pub Views : I → Rows → Rows → Type 0
  pub Views-IsSource : (it : I) (all rest : Rows) → Views it all rest → IsSource it all
  pub IsSource-Ascending : (it : I) (all : Rows) → IsSource it all → Ascending all
  pub Views-Ascending : (it : I) (all rest : Rows) → Views it all rest → Ascending rest
  pub key-Views : (it : I) (all rest : Rows) → Views it all rest → s.key it ≡ head_key rest
  pub value-Views : (it : I) (all rest : Rows) → Views it all rest → s.value it ≡ head_value rest
  pub advance-Views :
      (it : I) (all rest : Rows) → Views it all rest → Views (s.advance it) all (tail rest)
  pub seek_to_first-Views :
      (it : I) (all : Rows) → IsSource it all → Views (s.seek_to_first it) all all
  pub seek-Views :
      (k : Text) (it : I) (all : Rows) → IsSource it all → Views (s.seek k it) all (from k all)
  pub remaining-Views :
      (it : I) (all rest : Rows) → Views it all rest → length rest ≤ s.remaining it
