-- ===== src/Db/Filter.antt =====
-- `get`, which asks the filters, against `get_inner`, which reads every table.
use pebble_db.Prelude.{
  List, [], ◌∷◌, Text, Outcome, ok, err, panic, aborted, diverged, Bool, Option, none, some, true,
  false,
}
use pebble_db.Prelude.{◌≡◌, refl}
use pebble_db.Prelude.BTreeMap
use pebble_db.Exec.{Exec, follow}
use pebble_db.Bloom
use pebble_db.Sstable.Block.{SsTableEntry}
use pebble_db.Sstable.Block
use pebble_db.Sstable.Table.{SsTable}
use pebble_db.Sstable.Table
use pebble_db.Iter.Memtable.{MemtableEntry}
use pebble_db.Iter.Memtable
use pebble_db.Db.State.{Db}
use pebble_db.Db.Read.{
  settle, settle_inner, count_read, count_reject, read_table, probe, search_tables, search_inner,
  read_order, get_from, get, inner_from, get_inner,
}

settle-eq :
    (o : Outcome (Option SsTableEntry)) (rest : Exec Db (Option Text))
    (later : Outcome (Option Text))
    → ((d : Db) → (rest d).0 ≡ later)
    → (d : Db) → (follow (λ found. settle found rest) o d).0 ≡ settle_inner o later
settle-eq (ok none) rest later h d = h d
settle-eq (ok (some (Block.value v))) rest later h d = refl
settle-eq (ok (some Block.tombstone)) rest later h d = refl
settle-eq (err e) rest later h d = refl
settle-eq panic rest later h d = refl
settle-eq aborted rest later h d = refl
settle-eq diverged rest later h d = refl

probe-eq :
    (sst : SsTable) (key : Text) (rest : Exec Db (Option Text)) (later : Outcome (Option Text))
    → ((d : Db) → (rest d).0 ≡ later)
    → (d : Db) → (probe sst key rest d).0 ≡ settle_inner (Table.get sst key) later
unfolding probe read_table
probe-eq sst key rest later h d = go (Bloom.might_contain sst.bloom key) refl
  where
    go :
        (o : Outcome Bool)
        → Bloom.might_contain sst.bloom key ≡ o
        → (probe sst key rest d).0 ≡ settle_inner (Table.get sst key) later
    go (ok true) e = rw e (settle-eq (Table.get sst key) rest later h (count_read d))
    go (ok false) e = unfold Table.get in rw e (h (count_reject d))
    go (err x) e = unfold Table.get in rw e refl
    go panic e = unfold Table.get in rw e refl
    go aborted e = unfold Table.get in rw e refl
    go diverged e = unfold Table.get in rw e refl

search_tables-eq :
    (tables : List SsTable) (key : Text) (d : Db)
    → (search_tables tables key d).0 ≡ search_inner tables key
unfolding search_tables search_inner
search_tables-eq [] key d = refl
search_tables-eq (sst ∷ rest) key d =
    probe-eq sst key (search_tables rest key) (search_inner rest key) (search_tables-eq rest key) d

get_from-eq :
    (o : Option MemtableEntry) (key : Text) (db : Db)
    → (get_from o key db).0 ≡ inner_from o (search_inner (read_order db.levels) key)
unfolding get_from inner_from
get_from-eq (some (Memtable.value v)) key db = refl
get_from-eq (some Memtable.tombstone) key db = refl
get_from-eq none key db = search_tables-eq (read_order db.levels) key db

-- `get`, which asks the filter of each table first and counts, answers what `get_inner` answers,
-- which `delete` uses, panics included.
pub get-eq-get_inner : (key : Text) (db : Db) → (get key db).0 ≡ get_inner db key
unfolding get get_inner
get-eq-get_inner key db = get_from-eq (BTreeMap.get key db.memtable) key db
