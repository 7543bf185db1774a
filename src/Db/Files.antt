-- ===== src/Db/Files.antt =====
-- src/db.rs: the calls of std::fs and of the log, on the files of the directory. Such a call fails
-- only on a file that is not there; other failures of the operating system are not modelled.
use pebble_db.Prelude.{u64, leb, ◌||◌, ◌^◌}
use pebble_db.Prelude.{ℕ, ◌+◌, List, [], ◌++◌, some, none, Text, map, ok, err, io}
use pebble_db.Prelude.BTreeMap
use pebble_db.Prelude.BTreeMap.{BTreeMap}
use pebble_db.Exec.{Exec, pure, lift, modify, ◌>>=◌, ◌>>◌}
use pebble_db.Fault
use pebble_db.Fault.{FaultPoint}
use pebble_db.Wal.Record.{WalRecord}
use pebble_db.Wal.Writer
use pebble_db.Bloom.{Floats}
use pebble_db.Sstable.Block.{Entries}
use pebble_db.Sstable.Table.{SsTable}
use pebble_db.Sstable.Table
use pebble_db.Sstable.Writer.{write_sstable}
use pebble_db.Db.Names.{
  wal_file, merge_pending_file, tmp_suffix, sstable_file_name, pending_content,
}
use pebble_db.Db.State.{Db, Files}

-- `fs::write`
unfoldable pub write_file : Text → List ℕ → Files → Files
write_file name bytes files = BTreeMap.insert name bytes files

-- `fs::rename`, over what has the new name.
unfoldable pub rename_file : Text → Text → Exec Files (Unit {0})
rename_file from to files = elim (BTreeMap.get from files) [
  | none ↦ (err io, files)
  | some bytes ↦ (ok tt, BTreeMap.insert to bytes (BTreeMap.remove from files))
]

-- `fs::read`
unfoldable pub read_file : Text → Exec Files (List ℕ)
read_file name files = elim (BTreeMap.get name files) [
  | none ↦ (err io, files)
  | some bytes ↦ (ok bytes, files)
]

-- `fs::remove_file`
unfoldable pub remove_file : Text → Exec Files (Unit {0})
remove_file name files = elim (BTreeMap.get name files) [
  | none ↦ (err io, files)
  | some bytes ↦ (ok tt, BTreeMap.remove name files)
]

-- A call on the files, made by a method of the database.
abbrev pub on_files : {A : Type 0} → Exec Files A → Exec Db A
on_files m db = let r = m db.files in (r.0, record db { files = r.1 })

abbrev pub wal_bytes : Files → List ℕ
wal_bytes files = BTreeMap.get_or wal_file [] files

-- `inner.wal.append_record`, `truncate`; `sync` changes no file.
unfoldable pub wal_append : WalRecord → Exec Db (Unit {0})
wal_append r = modify λ db. record db {
  files = write_file wal_file (Writer.append_record (wal_bytes db.files) r) db.files;
}

unfoldable pub wal_sync : Exec Db (Unit {0})
wal_sync = pure tt

unfoldable pub wal_truncate : Exec Db (Unit {0})
wal_truncate =
    modify λ db. record db {
      files = write_file wal_file (Writer.truncate (wal_bytes db.files)) db.files;
    }

-- `inner.fault.hit`
unfoldable pub hit : FaultPoint → Exec Db (Unit {0})
hit point db = let r = Fault.hit db.fault point in (r.0, record db { fault = r.1 })

-- `write_level_file`
unfoldable pub write_level_file : Floats → ℕ → Entries → Exec Db SsTable
write_level_file fl level entries db =
    let id = db.next_sst_id in
    let final_path = sstable_file_name level id in
    let tmp_path = final_path ++ tmp_suffix in
    let body : Exec Db SsTable = (do
      hit Fault.before_sstable_creation
      bytes ← lift (write_sstable fl entries)
      modify (λ d. record d { files = write_file tmp_path bytes d.files })
      hit Fault.after_sstable_write
      hit Fault.before_atomic_rename
      on_files (rename_file tmp_path final_path)
      hit Fault.after_atomic_rename
      data' ← on_files (read_file final_path)
      lift (Table.load id final_path data')) in
    body (record db {
      next_sst_id = u64 (id + 1);
      overflowed = db.overflowed || leb (2 ^ 64) (id + 1);
    })

abbrev ids_of : List SsTable → List ℕ
ids_of tables = map (λ t. t.id) tables

-- `write_pending_merge`
unfoldable pub write_pending_merge : List SsTable → List (ℕ × SsTable) → Exec Db (Unit {0})
write_pending_merge outputs inputs = do
  let tmp = merge_pending_file ++ tmp_suffix
  let content = pending_content (ids_of outputs) (map (λ i. i.1.id) inputs)
  modify (λ d. record d { files = write_file tmp content d.files })
  on_files (rename_file tmp merge_pending_file)

-- `clear_pending_merge`
unfoldable pub clear_pending_merge : Exec Db (Unit {0})
clear_pending_merge db = elim (BTreeMap.get merge_pending_file db.files) [
  | none ↦ (ok tt, db)
  | some _ ↦ on_files (remove_file merge_pending_file) db
]
