-- ===== src/Crash/Exits.antt =====
-- The code that the child process exits with, and the line that it printed last.
mod Examples
use pebble_db.Prelude.{ℕ, List, [], ◌∷◌, ◌++◌, Option, some, none, Text, codes, Bool, true, false}
use pebble_db.Prelude.{
  Outcome, ok, err, panic, aborted, diverged, PebbleError, if◌then◌else◌, ◌≡◌, ap,
}
use pebble_db.Exec.{Exec, pure, ◌>>=◌, ◌>>◌}
use pebble_db.Db.State.{Db}
use pebble_db.Fault.{Fault}
use pebble_db.Crash.{Process, fault_of, env_u64, fault_line}

last : List Text → Option Text
last [] = none
last (line ∷ []) = some line
last (line ∷ next ∷ lines) = last (next ∷ lines)

-- The lines tell the code of the exit: the last is DONE where it is 0, and the error of a call of
-- the database where it is 2; where it is 3, the only one is the error of the opening.
data Told (display : PebbleError → Text) : ℕ → List Text → Type 0 where
  finished : {lines : List Text} → last lines ≡ some (codes "DONE") → Told display 0 lines
  faulted :
      {lines : List Text} (call : Text) (index : ℕ) (e : PebbleError)
      → last lines ≡ some (fault_line display call index e)
      → Told display 2 lines
  unopened :
      {lines : List Text} (e : PebbleError)
      → lines ≡ (codes "OPEN_FAILED " ++ display e) ∷ []
      → Told display 3 lines

-- Where the process is after a run of it.
abbrev Ends : (PebbleError → Text) → Outcome (Option ℕ) × Process → Type 0
Ends display (ok none, c) = Told display 0 c.printed
Ends display (ok (some code), c) = Told display code c.printed
Ends display (err e, c) = ⊥
Ends display (panic, c) = Unit
Ends display (aborted, c) = Unit
Ends display (diverged, c) = Unit

abbrev AllEnd : (PebbleError → Text) → Exec Process (Option ℕ) → Type 0
AllEnd display m = (c : Process) → Ends display (m c)
