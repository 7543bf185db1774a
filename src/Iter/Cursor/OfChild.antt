-- ===== src/Iter/Cursor/OfChild.antt =====
-- The boxed cursors keep the promises of a cursor, as the cursors in the boxes do.
use pebble_db.Prelude.{◌≤◌, Text, length, ◌≡◌}
use pebble_db.Prelude.BTreeMap.Ascending.{Ascending}
use pebble_db.Iter.Child.{
  Child, memtable, table, child_storage, key, value, advance, seek_to_first, seek, remaining,
}
use pebble_db.Iter.Rows.{Rows, tail, head_key, head_value, from}
use pebble_db.Iter.Cursor.{Cursor}
use pebble_db.Iter.Cursor.OfMemtable
use pebble_db.Iter.Cursor.OfTable

abbrev pub IsSource : Child → Rows → Type 0
IsSource (memtable it) all = OfMemtable.IsSource it all
IsSource (table it) all = OfTable.IsSource it all

abbrev pub Views : Child → Rows → Rows → Type 0
Views (memtable it) all rest = OfMemtable.Views it all rest
Views (table it) all rest = OfTable.Views it all rest

pub Views-IsSource : (it : Child) (all rest : Rows) → Views it all rest → IsSource it all
Views-IsSource (memtable it) all rest v = v.0
Views-IsSource (table it) all rest v = OfTable.Views-IsSource it all rest v

pub IsSource-Ascending : (it : Child) (all : Rows) → IsSource it all → Ascending all
IsSource-Ascending (memtable it) all h = h.1
IsSource-Ascending (table it) all h = OfTable.IsSource-Ascending it all h

pub Views-Ascending : (it : Child) (all rest : Rows) → Views it all rest → Ascending rest
Views-Ascending (memtable it) all rest v = OfMemtable.Views-Ascending it all rest v
Views-Ascending (table it) all rest v = OfTable.Views-Ascending it all rest v

pub key-Views : (it : Child) (all rest : Rows) → Views it all rest → key it ≡ head_key rest
unfolding key
key-Views (memtable it) all rest v = OfMemtable.key-Views it all rest v
key-Views (table it) all rest v = OfTable.key-Views it all rest v

pub value-Views : (it : Child) (all rest : Rows) → Views it all rest → value it ≡ head_value rest
unfolding value
value-Views (memtable it) all rest v = OfMemtable.value_at-Views it all rest v
value-Views (table it) all rest v = OfTable.value_at-Views it all rest v

pub advance-Views :
    (it : Child) (all rest : Rows) → Views it all rest → Views (advance it) all (tail rest)
unfolding advance
advance-Views (memtable it) all rest v = OfMemtable.advance-Views it all rest v
advance-Views (table it) all rest v = OfTable.advance-Views it all rest v

pub seek_to_first-Views :
    (it : Child) (all : Rows) → IsSource it all → Views (seek_to_first it) all all
unfolding seek_to_first
seek_to_first-Views (memtable it) all h = OfMemtable.seek_to_first-Views it all h
seek_to_first-Views (table it) all h = OfTable.seek_to_first-Views it all h

pub seek-Views :
    (k : Text) (it : Child) (all : Rows) → IsSource it all → Views (seek k it) all (from k all)
unfolding seek
seek-Views k (memtable it) all h = OfMemtable.seek-Views k it all h
seek-Views k (table it) all h = OfTable.seek-Views k it all h

pub remaining-Views :
    (it : Child) (all rest : Rows) → Views it all rest → length rest ≤ remaining it
unfolding remaining
remaining-Views (memtable it) all rest v = OfMemtable.remaining-Views it all rest v
remaining-Views (table it) all rest v = OfTable.remaining-Views it all rest v

abbrev pub child_cursor : Cursor child_storage
child_cursor = record {
  IsSource = IsSource;
  Views = Views;
  Views-IsSource = Views-IsSource;
  IsSource-Ascending = IsSource-Ascending;
  Views-Ascending = Views-Ascending;
  key-Views = key-Views;
  value-Views = value-Views;
  advance-Views = advance-Views;
  seek_to_first-Views = seek_to_first-Views;
  seek-Views = seek-Views;
  remaining-Views = remaining-Views;
}
