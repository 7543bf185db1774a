-- ===== src/Cli/Exits.antt =====
-- What the command line prints and the code it exits with.
use pebble_db.Prelude.{
  ℕ, List, [], ◌∷◌, Bool, true, false, Option, some, none, Text, codes, text_eq,
}
use pebble_db.Prelude.{
  Outcome, ok, err, panic, aborted, diverged, PebbleError, if◌then◌else◌, ◌≡◌, ◌≢◌, ◌⊎◌, inl, inr,
  refl,
}
use pebble_db.Bloom.{Floats}
use pebble_db.Db.State.{Db, Files, default_options}
use pebble_db.Db.Open.{open_with_options}
use pebble_db.Db.Read.{get, exists}
use pebble_db.Db.Write.{set, delete, compact}
use pebble_db.Cli.{
  Printed, prints, fails, report, answer, run_set, run_get, run_delete, run_exists, run_keys,
  run_scan, run_compact, run_stats, run_unknown, run_command, run_opened, run, or_null, done, truth,
}
use pebble_db.Exec.{Exec}

-- A success prints no error and exits with 0, and a failure prints errors only and exits with 1.
abbrev pub IsExit : Printed → Type 0
IsExit p = ((p.errors ≡ []) × (p.code ≡ 0)) ⊎ ((p.out ≡ []) × (p.errors ≢ []) × (p.code ≡ 1))

abbrev pub Exits : Outcome Printed → Type 0
Exits (ok p) = IsExit p
Exits _ = Unit

prints-IsExit : (lines : List Text) → IsExit (prints lines)
prints-IsExit lines = inl (refl, refl)

fails-IsExit : (line : Text) (lines : List Text) → IsExit (fails line lines)
fails-IsExit line lines = inr (refl, (λ h. cc), refl)

report-Exits :
    {A : Type 0} (out : A → Printed) (bad : PebbleError → Printed) (r : Outcome A × Db)
    → ((a : A) → IsExit (out a))
    → ((e : PebbleError) → IsExit (bad e))
    → Exits (report out bad r).0
unfolding report
report-Exits out bad (ok a, db) h k = h a
report-Exits out bad (err e, db) h k = k e
report-Exits out bad (panic, db) h k = tt
report-Exits out bad (aborted, db) h k = tt
report-Exits out bad (diverged, db) h k = tt

answer-Exits :
    {A : Type 0} (out : A → Printed) (r : Outcome A × Db)
    → ((a : A) → IsExit (out a))
    → Exits (answer out r).0
unfolding answer
answer-Exits out (ok a, db) h = h a
answer-Exits out (err e, db) h = tt
answer-Exits out (panic, db) h = tt
answer-Exits out (aborted, db) h = tt
answer-Exits out (diverged, db) h = tt

module _ (fl : Floats) (rounds : ℕ) (display : PebbleError → Text)
    (two_digits : fl.F64 → Text) where
  run_set-Exits :
      (args : List Text) (db : Db) → Exits (run_set fl rounds display two_digits args db).0
  unfolding run_set
  run_set-Exits [] db = fails-IsExit _ _
  run_set-Exits (key ∷ []) db = fails-IsExit _ _
  run_set-Exits (key ∷ value ∷ rest) db =
      report-Exits _ _ (set fl rounds key value db) (λ _. prints-IsExit _) (λ _. fails-IsExit _ _)

  run_get-Exits :
      (args : List Text) (db : Db) → Exits (run_get fl rounds display two_digits args db).0
  unfolding run_get
  run_get-Exits [] db = fails-IsExit _ _
  run_get-Exits (key ∷ rest) db = answer-Exits _ (get key db) found
    where
      found : (o : Option Text) → IsExit (or_null o)
      found none = prints-IsExit _
      found (some v) = prints-IsExit _

  run_delete-Exits :
      (args : List Text) (db : Db) → Exits (run_delete fl rounds display two_digits args db).0
  unfolding run_delete
  run_delete-Exits [] db = fails-IsExit _ _
  run_delete-Exits (key ∷ rest) db =
      report-Exits _ _ (delete fl rounds key db) deleted (λ _. fails-IsExit _ _)
    where
      deleted : (b : Bool) → IsExit (done b)
      deleted true = prints-IsExit _
      deleted false = prints-IsExit _

  run_exists-Exits :
      (args : List Text) (db : Db) → Exits (run_exists fl rounds display two_digits args db).0
  unfolding run_exists
  run_exists-Exits [] db = fails-IsExit _ _
  run_exists-Exits (key ∷ rest) db = answer-Exits _ (exists key db) there
    where
      there : (b : Bool) → IsExit (truth b)
      there true = prints-IsExit _
      there false = prints-IsExit _

  choose :
      (b : Bool) (m n : Exec Db Printed) (db : Db)
      → Exits (m db).0
      → Exits (n db).0
      → Exits ((if b then m else n) db).0
  choose true m n db h k = h
  choose false m n db h k = k

  run_command-Exits :
      (command : Text) (args : List Text) (db : Db)
      → Exits (run_command fl rounds display two_digits command args db).0
  unfolding run_command run_keys run_scan run_compact run_stats run_unknown
  run_command-Exits command args db =
      choose (text_eq command (codes "set")) _ _ db (run_set-Exits args db) (
        choose (text_eq command (codes "get")) _ _ db (run_get-Exits args db) (
          choose (text_eq command (codes "delete")) _ _ db (run_delete-Exits args db) (
            choose (text_eq command (codes "exists")) _ _ db (run_exists-Exits args db) (
              choose (text_eq command (codes "keys")) _ _ db (prints-IsExit _) (
                choose (text_eq command (codes "scan")) _ _ db (prints-IsExit _) (
                  choose (text_eq command (codes "compact")) _ _ db
                    (report-Exits _ _ (compact fl rounds db) (λ _. prints-IsExit _)
                      (λ _. fails-IsExit _ _))
                    (choose (text_eq command (codes "stats")) _ _ db (prints-IsExit _)
                      (fails-IsExit _ _))))))))

  run_opened-Exits :
      (command : Text) (args : List Text) (r : Outcome Db × Files)
      → Exits (run_opened fl rounds display two_digits command args r).0
  unfolding run_opened
  run_opened-Exits command args (ok db, files) = run_command-Exits command args db
  run_opened-Exits command args (err e, files) = fails-IsExit _ _
  run_opened-Exits command args (panic, files) = tt
  run_opened-Exits command args (aborted, files) = tt
  run_opened-Exits command args (diverged, files) = tt

  -- Whatever the arguments and the directory, a run that comes to its end prints no error line and
  -- exits with 0, or prints error lines and nothing else and exits with 1.
  pub run-Exits :
      (args : List Text) (files : Files) → Exits (run fl rounds display two_digits args files).0
  unfolding run
  run-Exits [] files = fails-IsExit _ _
  run-Exits (command ∷ args) files =
      run_opened-Exits command args (open_with_options default_options files)
