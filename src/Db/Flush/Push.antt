-- ===== src/Db/Flush/Push.antt =====
-- The table of a memtable, and what get_inner finds where it has been pushed to level 0.
use pebble_db.Prelude.{List, [], ◌∷◌, ◌++◌, Text, Outcome, ok, Option, none, some, map}
use pebble_db.Prelude.{◌≡◌, refl, sym, ◌∙◌, ap, arith, append_assoc, append-nil}
use mathlib.Core.Path.{subst}
use mathlib.Core.List.{reverse-append}
use mathlib.Core.Option
use pebble_db.Prelude.BTreeMap
use pebble_db.Prelude.BTreeMap.{BTreeMap}
use pebble_db.Prelude.BTreeMap.Ascending.{AllAbove, Ascending, insert-append}
use pebble_db.Sstable.Block.{SsTableEntry, Entries}
use pebble_db.Sstable.Table.{SsTable, default_block_size}
use pebble_db.Sstable.Table
use pebble_db.Iter.Memtable.{MemtableEntry}
use pebble_db.Iter.Memtable
use pebble_db.Db.State.{Db}
use pebble_db.Db.Read.{read_order, search_inner, settle_inner, inner_from, get_inner}
use pebble_db.Db.Write.{sst_entry, sst_entries}

abbrev pub as_table : BTreeMap MemtableEntry → Entries
as_table m = map (λ e. (e.0, sst_entry e.1)) m

as_table-AllAbove :
    (key : Text) (m : BTreeMap MemtableEntry) → AllAbove key m → AllAbove key (as_table m)
as_table-AllAbove key [] a = tt
as_table-AllAbove key (e ∷ m) a = (a.0, as_table-AllAbove key m a.1)

pub as_table-Ascending : (m : BTreeMap MemtableEntry) → Ascending m → Ascending (as_table m)
as_table-Ascending [] a = tt
as_table-Ascending (e ∷ m) a = (as_table-AllAbove e.0 m a.0, as_table-Ascending m a.1)

sst_entries-append :
    (m : BTreeMap MemtableEntry) (done : Entries)
    → Ascending (done ++ as_table m)
    → sst_entries m done ≡ done ++ as_table m
unfolding sst_entries
sst_entries-append [] done a = sym (append-nil done)
sst_entries-append (e ∷ m) done a =
    let x : Text × SsTableEntry = (e.0, sst_entry e.1) in
    let all : (done ++ x ∷ []) ++ as_table m ≡ done ++ x ∷ as_table m =
      append_assoc done (x ∷ []) (as_table m) in
    ap (λ t. sst_entries m t) (insert-append e.0 (sst_entry e.1) done (as_table m) a)
    ∙ sst_entries-append m (done ++ x ∷ []) (subst Ascending (sym all) a)
    ∙ all

-- The map of a flush has the memtable's entries.
pub sst_entries-eq : (m : BTreeMap MemtableEntry) → Ascending m → sst_entries m [] ≡ as_table m
sst_entries-eq m a = sst_entries-append m [] (as_table-Ascending m a)

pub get-as_table :
    (key : Text) (m : BTreeMap MemtableEntry)
    → BTreeMap.get key (as_table m) ≡ Option.map sst_entry (BTreeMap.get key m)
unfolding BTreeMap.get
get-as_table key [] = refl
get-as_table key (e ∷ m) = ground (arith, get-as_table key m)

-- A table that answers as the memtable does takes its place before the other tables.
settle_inner-eq :
    (o : Option MemtableEntry) (later : Outcome (Option Text))
    → settle_inner (ok (Option.map sst_entry o)) later ≡ inner_from o later
unfolding inner_from
settle_inner-eq none later = refl
settle_inner-eq (some (Memtable.value v)) later = refl
settle_inner-eq (some Memtable.tombstone) later = refl

read_order-push :
    (t : SsTable) (files : List SsTable) (rest : List (List SsTable))
    → read_order ((files ++ t ∷ []) ∷ rest) ≡ t ∷ read_order (files ∷ rest)
unfolding read_order
read_order-push t files rest = ap (λ ts. ts ++ read_order rest) (reverse-append files (t ∷ []))

-- A database whose memtable went to a new table of level 0.
pub get_inner-push :
    (key : Text) (d e : Db) (t : SsTable) (files : List SsTable) (rest : List (List SsTable))
    → Table.get t key ≡ ok (Option.map sst_entry (BTreeMap.get key d.memtable))
    → d.levels ≡ files ∷ rest
    → e.levels ≡ (files ++ t ∷ []) ∷ rest
    → e.memtable ≡ []
    → get_inner e key ≡ get_inner d key
unfolding get_inner
get_inner-push key d e t files rest answer old new empty =
    let later = search_inner (read_order (files ∷ rest)) key in
    let here : search_inner (t ∷ read_order (files ∷ rest)) key
        ≡ settle_inner (Table.get t key) later =
      unfold search_inner in refl in
    let nothing : BTreeMap.get key e.memtable ≡ none =
      ap (BTreeMap.get key) empty ∙ unfold BTreeMap.get in refl in
    ap (λ o. inner_from o (search_inner (read_order e.levels) key)) nothing
    ∙ ap (λ ls. inner_from none (search_inner (read_order ls) key)) new
    ∙ unfold inner_from in
      ap (λ ts. search_inner ts key) (read_order-push t files rest)
      ∙ here
      ∙ ap (λ o. settle_inner o later) answer
      ∙ settle_inner-eq (BTreeMap.get key d.memtable) later
      ∙ ap (λ ls. inner_from (BTreeMap.get key d.memtable) (search_inner (read_order ls) key))
          (sym old)
