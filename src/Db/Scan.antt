-- ===== src/Db/Scan.antt =====
-- src/db.rs: what scan and range list is what get finds.
pub mod Examples
use pebble_db.Prelude.{
  List, [], ◌∷◌, ◌++◌, Option, none, some, Text, Bool, true, false, ◌&&◌, Bool-cases, ◌⊎◌, inl, inr,
  Outcome, ok, if◌then◌else◌, map, All, text_eq,
}
use pebble_db.Prelude.{◌≡◌, refl, sym, ◌∙◌, ap, arith}
use mathlib.Core.Path.{subst}
use mathlib.Core.Option
use pebble_db.Prelude.BTreeMap
use pebble_db.Prelude.BTreeMap.{BTreeMap}
use pebble_db.Prelude.BTreeMap.Ascending.{Ascending}
use pebble_db.Sstable.Block.{SsTableEntry, Entries, value, tombstone}
use pebble_db.Sstable.Table.{SsTable}
use pebble_db.Sstable.Table
use pebble_db.Sstable.Holds.{Holds, get-Holds}
use pebble_db.Iter.Memtable.{MemtableEntry}
use pebble_db.Iter.Memtable
use pebble_db.Iter.Table.{value_part}
use pebble_db.Iter.Table as Cursor
use pebble_db.Iter.Child.{Child, child_storage}
use pebble_db.Iter.Merge
use pebble_db.Iter.Merge.Children.{Sources, no_source, source}
use pebble_db.Iter.Merge.Moves.{build-Views, build-keep_tombstones}
use pebble_db.Iter.Range.{Bound, unbounded, below_end}
use pebble_db.Iter.Range
use pebble_db.Iter.Range.Bounds.{above_start, value_of, listed, listed-Ascending, get-listed}
use pebble_db.Iter.Range.Views.{collect-Views}
use pebble_db.Iter.Rows.{Rows}
use pebble_db.Iter.Rows.Union.{union, lookup, or_else, get-union, union-Ascending}
use pebble_db.Iter.Cursor.OfMemtable
use pebble_db.Iter.Cursor.OfTable
use pebble_db.Iter.Cursor.Blocks
use pebble_db.Iter.Cursor.OfChild.{child_cursor}
use pebble_db.Db.State.{Db}
use pebble_db.Db.Read.{
  settle_inner, search_inner, inner_from, read_order, get, get_inner, range, scan,
}
use pebble_db.Db.Readable.{IsReadable, tables_rows, cursors, cursors-Sources, search_inner-lookup}
use pebble_db.Db.Filter.{get-eq-get_inner}

get-memtable_rows :
    (k : Text) (m : BTreeMap MemtableEntry)
    → BTreeMap.get k (OfMemtable.rows_of m) ≡ Option.map Memtable.value_of (BTreeMap.get k m)
unfolding BTreeMap.get
get-memtable_rows k [] = refl
get-memtable_rows k (e ∷ es) = ground (arith, get-memtable_rows k es)

get_inner-lookup :
    (k : Text) (db : Db) (h : All IsReadable (read_order db.levels))
    → get_inner db k
      ≡ ok (
          value_of
            (lookup k (OfMemtable.rows_of db.memtable ∷ tables_rows (read_order db.levels) h)))
unfolding get_inner inner_from lookup
get_inner-lookup k db h =
    ap (inner_from (BTreeMap.get k db.memtable)) (search_inner-lookup k (read_order db.levels) h)
    ∙ found (BTreeMap.get k db.memtable) (lookup k (tables_rows (read_order db.levels) h))
    ∙ ap (λ o. ok (value_of (or_else o (lookup k (tables_rows (read_order db.levels) h)))))
        (sym (get-memtable_rows k db.memtable))
  where
    found :
        (o : Option MemtableEntry) (later : Option (Option Text))
        → inner_from o (ok (value_of later))
          ≡ ok (value_of (or_else (Option.map Memtable.value_of o) later))
    found none later = refl
    found (some (Memtable.value v)) later = refl
    found (some Memtable.tombstone) later = refl

collect-range :
    (db : Db) (start end : Bound)
    → Ascending db.memtable
    → (h : All IsReadable (read_order db.levels))
    → Range.collect (range db start end)
      ≡ listed start end
          (union (OfMemtable.rows_of db.memtable ∷ tables_rows (read_order db.levels) h))
unfolding range Merge.new cursors
collect-range db start end a h =
    let children : List Child =
      Child.memtable (Memtable.new db.memtable) ∷ cursors (read_order db.levels) in
    let alls : List Rows = OfMemtable.rows_of db.memtable ∷ tables_rows (read_order db.levels) h in
    let sources : Sources child_cursor children alls =
      source (OfMemtable.new-IsSource db.memtable a) (cursors-Sources (read_order db.levels) h) in
    collect-Views child_cursor start end (Merge.build children false) alls
      (build-keep_tombstones children false) (build-Views child_cursor children false alls sources)

-- For every database whose memtable is in strict key order and whose tables each hold entries in
-- strict key order, and for every pair of bounds: collecting the range lists pairs in strict key
-- order, and it has a pair for exactly the keys within the bounds that get finds, with the value
-- that get returns.
pub range-eq-get :
    (db : Db) (start end : Bound)
    → Ascending db.memtable
    → All IsReadable (read_order db.levels)
    → Ascending (Range.collect (range db start end))
      × ((k : Text)
          → ok (BTreeMap.get k (Range.collect (range db start end)))
            ≡ (if above_start start k && below_end end (some k) then (get k db).0 else ok none))
range-eq-get db start end a h =
    let alls : List Rows = OfMemtable.rows_of db.memtable ∷ tables_rows (read_order db.levels) h in
    let sorted = union-Ascending alls in
    let lists = collect-range db start end a h in
    (
      subst Ascending (sym lists) (listed-Ascending start end (union alls) sorted),
      λ k.
          let found : (get k db).0 ≡ ok (value_of (BTreeMap.get k (union alls))) =
            get-eq-get_inner k db
            ∙ get_inner-lookup k db h
            ∙ ap (λ o. ok (value_of o)) (sym (get-union k alls)) in
          ap (λ ps. ok (BTreeMap.get k ps)) lists
          ∙ ap ok (get-listed k start end (union alls) sorted)
          ∙ elim (Bool-cases (above_start start k && below_end end (some k))) [
            | inl inside ↦ rw inside (sym found)
            | inr outside ↦ rw outside refl
          ],
    )
