-- ===== src/Db/Flush.antt =====
-- A flush without a fault: the table it writes, the state it leaves, and what get finds then.
pub mod Push
pub mod Lookup
mod Examples
use pebble_db.Prelude.{
  ℕ, suc, ◌+◌, ◌<◌, ◌^◌, List, [], ◌∷◌, ◌++◌, Text, Outcome, ok, Option, none, some, false, length,
  u64, ◌||◌, leb,
}
use pebble_db.Prelude.{◌≡◌, refl, sym, ◌∙◌, ap, arith, is_empty}
use pebble_db.Prelude.BTreeMap
use pebble_db.Prelude.BTreeMap.{BTreeMap}
use pebble_db.Prelude.BTreeMap.Laws.{get-insert}
use pebble_db.Exec.{Exec, ◌>>=◌, follow}
use pebble_db.Fault.{FaultPoint}
use pebble_db.Fault
use pebble_db.Fault.Firing.{hit-none}
use pebble_db.Bloom.{Floats}
use pebble_db.Compaction.{pick_compaction}
use pebble_db.Sstable.Block.{Entries}
use pebble_db.Sstable.Table.{SsTable, file_size}
use pebble_db.Sstable.Table
use pebble_db.Sstable.Writer.{write_sstable}
use pebble_db.Iter.Memtable.{MemtableEntry}
use pebble_db.Wal.Writer
use pebble_db.Db.Names.{sstable_file_name, tmp_suffix, wal_file}
use pebble_db.Db.State.{Db, Files, level_config}
use pebble_db.Db.Files.{
  hit, rename_file, read_file, write_file, on_files, wal_bytes, wal_truncate, write_level_file,
}
use pebble_db.Db.Plan.{file_metas}
use pebble_db.Db.Compact.{compact_pending}
use pebble_db.Db.Write.{sst_entries, push_l0, flush_full, flush}

-- What follows a call that succeeds.
bind_ok :
    {A B : Type 0} (m : Exec Db A) (k : A → Exec Db B) (d e : Db) (a : A)
    → m d ≡ (ok a, e)
    → (m >>= k) d ≡ k a e
bind_ok m k d e a h = ap (λ r. follow k r.0 r.1) h

hit-ok : (p : FaultPoint) (db : Db) → db.fault.fault ≡ none → hit p db ≡ (ok tt, db)
unfolding hit
hit-ok p db h = ap (λ r. (r.0, record db { fault = r.1 })) (hit-none p db.fault h)

rename_file-ok :
    (from to : Text) (bytes : List ℕ) (files : Files)
    → BTreeMap.get from files ≡ some bytes
    → rename_file from to files ≡ (ok tt, BTreeMap.insert to bytes (BTreeMap.remove from files))
unfolding rename_file
rename_file-ok from to bytes files h = rw (rename_file, h) refl

read_file-ok :
    (name : Text) (bytes : List ℕ) (files : Files)
    → BTreeMap.get name files ≡ some bytes
    → read_file name files ≡ (ok bytes, files)
unfolding read_file
read_file-ok name bytes files h = rw (read_file, h) refl

module _ (level : ℕ) (db : Db) (bytes : List ℕ) where
  abbrev final : Text
  final = sstable_file_name level db.next_sst_id

  abbrev tmp : Text
  tmp = final ++ tmp_suffix

  abbrev renamed : Files
  renamed = BTreeMap.insert final bytes (BTreeMap.remove tmp (BTreeMap.insert tmp bytes db.files))

  -- The database with the table file that was written.
  abbrev saved : Db
  saved = record db {
    files = renamed;
    next_sst_id = u64 (db.next_sst_id + 1);
    overflowed = db.overflowed || leb (2 ^ 64) (db.next_sst_id + 1);
  }

  module _ (fl : Floats) (es : Entries) (t : SsTable) (quiet : db.fault.fault ≡ none)
      (wrote : write_sstable fl es ≡ ok bytes)
      (loads : Table.load db.next_sst_id final bytes ≡ ok t) where
    write_level_file-ok : write_level_file fl level es db ≡ (ok t, saved)
    unfolding write_level_file write_file
    write_level_file-ok =
        let numbered : Db = record db {
          next_sst_id = u64 (db.next_sst_id + 1);
          overflowed = db.overflowed || leb (2 ^ 64) (db.next_sst_id + 1);
        } in
        let staged : Db = record numbered { files = BTreeMap.insert tmp bytes db.files } in
        let rename =
          ap (λ r. (r.0, record staged { files = r.1 }))
            (rename_file-ok tmp final bytes staged.files (get-insert tmp bytes db.files)) in
        let read =
          ap (λ r. (r.0, record saved { files = r.1 }))
            (read_file-ok final bytes renamed (get-insert final bytes _)) in
        bind_ok (hit Fault.before_sstable_creation) _ numbered numbered tt (hit-ok _ numbered quiet)
        ∙ rw (wrote) (
            bind_ok (hit Fault.after_sstable_write) _ staged staged tt (hit-ok _ staged quiet)
            ∙ bind_ok (hit Fault.before_atomic_rename) _ staged staged tt (hit-ok _ staged quiet)
            ∙ bind_ok (on_files (rename_file tmp final)) _ staged saved tt rename
            ∙ bind_ok (hit Fault.after_atomic_rename) _ saved saved tt (hit-ok _ saved quiet)
            ∙ bind_ok (on_files (read_file final)) _ saved saved bytes read
            ∙ ap (λ o. (o, saved)) loads)

pub push_l0-ok :
    (t : SsTable) (files : List SsTable) (rest : List (List SsTable))
    → push_l0 t (files ∷ rest) ≡ ok ((files ++ t ∷ []) ∷ rest)
unfolding push_l0
push_l0-ok t files rest = refl

-- Nothing is compacted where the picker finds nothing.
pub compact_pending-none :
    (fl : Floats) (rounds : ℕ) (db : Db)
    → pick_compaction (file_metas 0 db.levels) (level_config db.options) ≡ ok none
    → compact_pending fl (suc rounds) db ≡ (ok tt, db)
unfolding compact_pending
compact_pending-none fl rounds db h = rw h refl

module _ (db : Db) (bytes : List ℕ) (t : SsTable) (levels : List (List SsTable)) where
  abbrev stored : Db
  stored = saved 0 db bytes

  abbrev emptied : Db
  emptied = record stored {
    files = write_file wal_file (Writer.truncate (wal_bytes stored.files)) stored.files;
  }

  abbrev counted : Db
  counted = record emptied {
    metrics = record db.metrics { bytes_flushed = u64 (db.metrics.bytes_flushed + file_size t) };
  }

  -- What a flush leaves that wrote the table `t`.
  abbrev pub flushed : Db
  flushed = record counted { levels = levels; memtable = [] }

  module _ (fl : Floats) (rounds : ℕ) (quiet : db.fault.fault ≡ none)
      (wrote : write_sstable fl (sst_entries db.memtable []) ≡ ok bytes)
      (loads : Table.load db.next_sst_id (sstable_file_name 0 db.next_sst_id) bytes ≡ ok t)
      (pushed : push_l0 t db.levels ≡ ok levels)
      (settled : pick_compaction (file_metas 0 levels) (level_config db.options) ≡ ok none) where
    pub flush_full-ok : flush_full fl (suc rounds) db.memtable db ≡ (ok tt, flushed)
    unfolding flush_full wal_truncate
    flush_full-ok =
        bind_ok (write_level_file fl 0 (sst_entries db.memtable [])) _ db stored t
          (write_level_file-ok 0 db bytes fl (sst_entries db.memtable []) t quiet wrote loads)
        ∙ bind_ok (hit Fault.before_wal_truncation) _ stored stored tt (hit-ok _ stored quiet)
        ∙ bind_ok (hit Fault.after_wal_truncation) _ emptied emptied tt (hit-ok _ emptied quiet)
        ∙ bind_ok (hit Fault.before_metadata_update) _ counted counted tt (hit-ok _ counted quiet)
        ∙ rw pushed (
            bind_ok (hit Fault.after_metadata_update) _ flushed flushed tt (hit-ok _ flushed quiet)
            ∙ compact_pending-none fl rounds flushed settled)
