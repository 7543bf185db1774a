-- ===== src/Cli.antt =====
-- src/cli.rs: the command line, from its arguments to what it prints and the code it exits with. The
-- texts of an error and of a quotient with two digits are arguments.
pub mod Exits
mod Examples
use pebble_db.Prelude.{
  ℕ, List, [], ◌∷◌, ◌++◌, Bool, true, false, Option, some, none, Text, codes, text_eq, map,
}
use pebble_db.Prelude.{Outcome, ok, err, panic, aborted, diverged, PebbleError, if◌then◌else◌}
use pebble_db.Prelude.Decimal.{decimal}
use pebble_db.Exec.{Exec}
use pebble_db.Bloom.{Floats}
use pebble_db.Db.State.{Db, Files, default_options}
use pebble_db.Db.Open.{open_with_options}
use pebble_db.Db.Read.{get, exists, keys, scan}
use pebble_db.Db.Write.{set, delete, compact}
use pebble_db.Db.Stats.{DbStats, LevelStats, stats}

-- The lines of the standard output and of the standard error, and the exit code.
pub record Printed : Type 0 where
  pub out : List Text
  pub errors : List Text
  pub code : ℕ

abbrev pub prints : List Text → Printed
prints lines = record { out = lines; errors = []; code = 0 }

-- `eprintln!`, and then `process::exit(1)`.
abbrev pub fails : Text → List Text → Printed
fails line lines = record { out = []; errors = line ∷ lines; code = 1 }

abbrev usage_line : Text
usage_line = codes "Commands: set, get, delete, exists, keys, scan, compact, stats"

-- A call that may fail, and what is printed for its result or for its error.
unfoldable pub report :
    {A : Type 0} → (A → Printed) → (PebbleError → Printed) → Outcome A × Db → Outcome Printed × Db
report out bad (ok a, db) = (ok (out a), db)
report out bad (err e, db) = (ok (bad e), db)
report out bad (panic, db) = (panic, db)
report out bad (aborted, db) = (aborted, db)
report out bad (diverged, db) = (diverged, db)

-- The same for a call that the source gives no error.
unfoldable pub answer : {A : Type 0} → (A → Printed) → Outcome A × Db → Outcome Printed × Db
answer out (ok a, db) = (ok (out a), db)
answer out (err e, db) = (err e, db)
answer out (panic, db) = (panic, db)
answer out (aborted, db) = (aborted, db)
answer out (diverged, db) = (diverged, db)

abbrev pub or_null : Option Text → Printed
or_null none = prints (codes "(null)" ∷ [])
or_null (some value) = prints (value ∷ [])

abbrev pub done : Bool → Printed
done true = prints (codes "OK" ∷ [])
done false = prints (codes "(null)" ∷ [])

abbrev pub truth : Bool → Printed
truth true = prints (codes "true" ∷ [])
truth false = prints (codes "false" ∷ [])

module _ (fl : Floats) (rounds : ℕ) (display : PebbleError → Text)
    (two_digits : fl.F64 → Text) where
  abbrev pub failed : PebbleError → Printed
  failed e = fails (codes "Error: " ++ display e) []

  unfoldable pub run_set : List Text → Exec Db Printed
  run_set (key ∷ value ∷ rest) db =
      report (λ _. prints (codes "OK" ∷ [])) failed (set fl rounds key value db)
  run_set _ db = (ok (fails (codes "Usage: pebbledb set <key> <value>") []), db)

  unfoldable pub run_get : List Text → Exec Db Printed
  run_get (key ∷ rest) db = answer or_null (get key db)
  run_get [] db = (ok (fails (codes "Usage: pebbledb get <key>") []), db)

  unfoldable pub run_delete : List Text → Exec Db Printed
  run_delete (key ∷ rest) db = report done failed (delete fl rounds key db)
  run_delete [] db = (ok (fails (codes "Usage: pebbledb delete <key>") []), db)

  unfoldable pub run_exists : List Text → Exec Db Printed
  run_exists (key ∷ rest) db = answer truth (exists key db)
  run_exists [] db = (ok (fails (codes "Usage: pebbledb exists <key>") []), db)

  unfoldable pub run_keys : Exec Db Printed
  run_keys db = (ok (prints (keys db)), db)

  unfoldable pub run_scan : Exec Db Printed
  run_scan db = (ok (prints (map (λ p. p.0 ++ (codes ": " ++ p.1)) (scan db))), db)

  unfoldable pub run_compact : Exec Db Printed
  run_compact db = report (λ _. prints (codes "OK" ∷ [])) failed (compact fl rounds db)

  abbrev level_line : LevelStats → Text
  level_line l =
      codes "  L"
      ++ (decimal l.level ++ (codes ":           " ++ (decimal l.files ++ codes " files")))

  abbrev amplification : Option fl.F64 → Text
  amplification none = codes "  write amplification: --"
  amplification (some wa) = codes "  write amplification: " ++ two_digits wa

  -- The lines that `stats` prints.
  unfoldable pub stats_lines : DbStats fl.F64 → List Text
  stats_lines s =
      (codes "Memtable"
        ∷ (codes "  entries:       " ++ decimal s.memtable_entries)
        ∷ (codes "  bytes:         " ++ decimal s.memtable_bytes)
        ∷ codes "SSTables"
        ∷ (codes "  count:         " ++ decimal s.sst_count)
        ∷ (codes "  total size:    " ++ (decimal s.total_sst_size ++ codes " bytes"))
        ∷ [])
      ++ (map level_line s.levels
          ++ (codes "WAL"
              ∷ (codes "  size:          " ++ (decimal s.wal_size ++ codes " bytes"))
              ∷ codes "Performance Counters"
              ∷ (codes "  memtable hits: " ++ decimal s.memtable_hits)
              ∷ (codes "  bloom rejects: " ++ decimal s.bloom_rejects)
              ∷ (codes "  block reads:   " ++ decimal s.block_reads)
              ∷ (codes "  compactions:   " ++ decimal s.compactions_completed)
              ∷ (codes "  full compactions: " ++ decimal s.full_compactions)
              ∷ amplification s.write_amplification
              ∷ []))

  unfoldable pub run_stats : Exec Db Printed
  run_stats db = (ok (prints (stats_lines (stats fl db))), db)

  unfoldable pub run_unknown : Text → Exec Db Printed
  run_unknown command db = (ok (fails (codes "Unknown command: " ++ command) (usage_line ∷ [])), db)

  -- `match command`, with the arguments after it.
  unfoldable pub run_command : Text → List Text → Exec Db Printed
  run_command command args =
      if text_eq command (codes "set")
      then run_set args
      else if text_eq command (codes "get")
      then run_get args
      else if text_eq command (codes "delete")
      then run_delete args
      else if text_eq command (codes "exists")
      then run_exists args
      else if text_eq command (codes "keys")
      then run_keys
      else if text_eq command (codes "scan")
      then run_scan
      else if text_eq command (codes "compact")
      then run_compact
      else if text_eq command (codes "stats")
      then run_stats
      else run_unknown command

  -- The rest of `run`, where the database was opened or not.
  unfoldable pub run_opened : Text → List Text → Outcome Db × Files → Outcome Printed × Files
  run_opened command args (ok db, files) = let r = run_command command args db in (r.0, r.1.files)
  run_opened command args (err e, files) =
      (ok (fails (codes "Error opening database: " ++ display e) []), files)
  run_opened command args (panic, files) = (panic, files)
  run_opened command args (aborted, files) = (aborted, files)
  run_opened command args (diverged, files) = (diverged, files)

  -- `run`, on the directory of the database.
  unfoldable pub run : List Text → Exec Files Printed
  run [] files = (ok (fails (codes "Usage: pebbledb <command> [args]") (usage_line ∷ [])), files)
  run (command ∷ args) files = run_opened command args (open_with_options default_options files)
