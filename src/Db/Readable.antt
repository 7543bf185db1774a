-- ===== src/Db/Readable.antt =====
-- Tables that hold entries in key order: the cursors over them, and the search in them.
use pebble_db.Prelude.{List, [], ◌∷◌, Option, none, some, Text, ok, map, All}
use pebble_db.Prelude.{◌≡◌, refl, sym, ◌∙◌, ap, arith}
use mathlib.Core.Option
use pebble_db.Prelude.BTreeMap
use pebble_db.Prelude.BTreeMap.{BTreeMap}
use pebble_db.Prelude.BTreeMap.Ascending.{Ascending}
use pebble_db.Sstable.Block.{SsTableEntry, Entries, value, tombstone}
use pebble_db.Sstable.Table.{SsTable}
use pebble_db.Sstable.Holds.{Holds, get-Holds}
use pebble_db.Iter.Table.{value_part}
use pebble_db.Iter.Table as Cursor
use pebble_db.Iter.Child.{Child, child_storage}
use pebble_db.Iter.Merge.Children.{Sources, no_source, source}
use pebble_db.Iter.Range.Bounds.{value_of}
use pebble_db.Iter.Rows.{Rows}
use pebble_db.Iter.Rows.Union.{lookup, or_else}
use pebble_db.Iter.Cursor.OfTable
use pebble_db.Iter.Cursor.Blocks
use pebble_db.Iter.Cursor.OfChild.{child_cursor}
use pebble_db.Db.Read.{settle_inner, search_inner}

-- The table holds entries in strict key order.
abbrev pub IsReadable : SsTable → Type 0
IsReadable sst = (es : Entries) × Holds sst es × Ascending es

unfoldable pub tables_rows : (tables : List SsTable) → All IsReadable tables → List Rows
tables_rows [] h = []
tables_rows (sst ∷ rest) h = Blocks.rows_of h.0.0 ∷ tables_rows rest h.1

unfoldable pub cursors : List SsTable → List Child
cursors tables = map (λ sst. Child.table (Cursor.new sst)) tables

pub cursors-Sources :
    (tables : List SsTable) (h : All IsReadable tables)
    → Sources child_cursor (cursors tables) (tables_rows tables h)
unfolding tables_rows cursors
cursors-Sources [] h = no_source
cursors-Sources (sst ∷ rest) h =
    source (OfTable.new-IsSource sst h.0.0 h.0.1 h.0.2) (cursors-Sources rest h.1)

pub get-table_rows :
    (k : Text) (es : Entries)
    → BTreeMap.get k (Blocks.rows_of es) ≡ Option.map value_part (BTreeMap.get k es)
unfolding BTreeMap.get
get-table_rows k [] = refl
get-table_rows k (e ∷ es) = ground (arith, get-table_rows k es)

pub search_inner-lookup :
    (k : Text) (tables : List SsTable) (h : All IsReadable tables)
    → search_inner tables k ≡ ok (value_of (lookup k (tables_rows tables h)))
unfolding search_inner tables_rows lookup
search_inner-lookup k [] h = refl
search_inner-lookup k (sst ∷ rest) h =
    ap (λ o. settle_inner o (search_inner rest k)) (get-Holds sst h.0.0 k h.0.1 h.0.2)
    ∙ ap (settle_inner (ok (BTreeMap.get k h.0.0))) (search_inner-lookup k rest h.1)
    ∙ settled (BTreeMap.get k h.0.0) (lookup k (tables_rows rest h.1))
    ∙ ap (λ o. ok (value_of (or_else o (lookup k (tables_rows rest h.1)))))
        (sym (get-table_rows k h.0.0))
  where
    settled :
        (o : Option SsTableEntry) (later : Option (Option Text))
        → settle_inner (ok o) (ok (value_of later))
          ≡ ok (value_of (or_else (Option.map value_part o) later))
    settled none later = refl
    settled (some (value v)) later = refl
    settled (some tombstone) later = refl
