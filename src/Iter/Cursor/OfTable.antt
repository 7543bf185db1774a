-- ===== src/Iter/Cursor/OfTable.antt =====
-- SsTableIterator keeps the promises of a cursor, over a table that holds entries in key order.
use pebble_db.Prelude.{◌≤◌, Text, length}
use pebble_db.Prelude.{◌≡◌, refl, sym, ◌∙◌, ap, arith}
use mathlib.Core.Path.{subst}
use pebble_db.Prelude.BTreeMap.Ascending.{Ascending}
use pebble_db.Sstable.Block.{Entries}
use pebble_db.Sstable.Table.{SsTable}
use pebble_db.Sstable.Holds.{Holds}
use pebble_db.Iter.Table.{
  SsTableIterator, new, seek_to_first, seek, advance, key, value_at, remaining,
}
use pebble_db.Iter.Rows.{Rows, tail, head_value, from, from-Ascending}
use pebble_db.Iter.Rows as Rows
use pebble_db.Iter.Cursor.Blocks.{
  rows_of, rows-length, rows-tail, rows-from, rows_of-Ascending, tail-Ascending,
}
use pebble_db.Iter.Cursor.Standing.{
  Stands, seek_to_first-Stands, seek-Stands, advance-Stands, remaining-Stands, Views-Stands,
}

abbrev pub IsSource : SsTableIterator → Rows → Type 0
IsSource it all =
    (sst : SsTable) × (es : Entries) × Holds sst es
    × Ascending es
    × (it.sst ≡ sst)
    × (rows_of es ≡ all)

-- The iterator stands in a table before the entries `rest` of the entries `es`.
pub record Views (it : SsTableIterator) (all rest : Rows) : Type 0 where
  pub table : SsTable
  pub entries : Entries
  pub holds : Holds table entries
  pub ascending : Ascending entries
  pub whole : rows_of entries ≡ all
  pub more : Entries
  pub more_ascending : Ascending more
  pub more_rows : rows_of more ≡ rest
  pub stands : Stands table holds.blocks it more

pub new-IsSource :
    (sst : SsTable) (es : Entries) → Holds sst es → Ascending es → IsSource (new sst) (rows_of es)
unfolding new
new-IsSource sst es h a = (sst, es, h, a, refl, refl)

pub Views-IsSource : (it : SsTableIterator) (all rest : Rows) → Views it all rest → IsSource it all
Views-IsSource it all rest v = (v.table, v.entries, v.holds, v.ascending, v.stands.of, v.whole)

pub IsSource-Ascending : (it : SsTableIterator) (all : Rows) → IsSource it all → Ascending all
IsSource-Ascending it all (sst, es, h, a, of, whole) =
    subst Ascending whole (rows_of-Ascending es a)

pub Views-Ascending : (it : SsTableIterator) (all rest : Rows) → Views it all rest → Ascending rest
Views-Ascending it all rest v =
    subst Ascending v.more_rows (rows_of-Ascending v.more v.more_ascending)

pub key-Views :
    (it : SsTableIterator) (all rest : Rows) → Views it all rest → key it ≡ Rows.head_key rest
key-Views it all rest v =
    (Views-Stands v.table v.entries v.holds it v.more v.stands).0 ∙ ap Rows.head_key v.more_rows

pub value_at-Views :
    (it : SsTableIterator) (all rest : Rows) → Views it all rest → value_at it ≡ head_value rest
value_at-Views it all rest v =
    (Views-Stands v.table v.entries v.holds it v.more v.stands).1 ∙ ap head_value v.more_rows

pub advance-Views :
    (it : SsTableIterator) (all rest : Rows)
    → Views it all rest
    → Views (advance it) all (tail rest)
advance-Views it all rest v = record {
  table = v.table;
  entries = v.entries;
  holds = v.holds;
  ascending = v.ascending;
  whole = v.whole;
  more = tail v.more;
  more_ascending = tail-Ascending v.more v.more_ascending;
  more_rows = rows-tail v.more ∙ ap tail v.more_rows;
  stands = advance-Stands v.table v.entries v.holds it v.more v.stands;
}

pub seek_to_first-Views :
    (it : SsTableIterator) (all : Rows) → IsSource it all → Views (seek_to_first it) all all
seek_to_first-Views it all (sst, es, h, a, of, whole) = record {
  table = sst;
  entries = es;
  holds = h;
  ascending = a;
  whole = whole;
  more = es;
  more_ascending = a;
  more_rows = whole;
  stands = seek_to_first-Stands sst es h it of;
}

pub seek-Views :
    (k : Text) (it : SsTableIterator) (all : Rows)
    → IsSource it all
    → Views (seek k it) all (from k all)
seek-Views k it all (sst, es, h, a, of, whole) = record {
  table = sst;
  entries = es;
  holds = h;
  ascending = a;
  whole = whole;
  more = from k es;
  more_ascending = from-Ascending k es a;
  more_rows = rows-from k es ∙ ap (from k) whole;
  stands = seek-Stands sst es h k it of a;
}

pub remaining-Views :
    (it : SsTableIterator) (all rest : Rows) → Views it all rest → length rest ≤ remaining it
remaining-Views it all rest v =
    let rows : length rest ≡ length v.more = sym (ap length v.more_rows) ∙ rows-length v.more in
    omega (arith, rows, remaining-Stands v.table v.entries v.holds it v.more v.stands)
