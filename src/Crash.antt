-- ===== src/Crash.antt =====
-- src/bin/crash_child.rs: the child process of the crash tests, from its environment to the lines
-- that it prints and the code it exits with. The text of an error is an argument.
mod Exits
mod Examples
use pebble_db.Prelude.{
  ℕ, zero, suc, ◌+◌, ◌*◌, ◌^◌, ◌%◌, List, [], ◌∷◌, ◌++◌, Option, some, none, Text, codes, text_eq,
}
use pebble_db.Prelude.{
  Outcome, ok, err, panic, aborted, diverged, PebbleError, if◌then◌else◌, ◌==◌, u64,
}
use pebble_db.Prelude.Decimal.{decimal, padded, parse_unsigned}
use pebble_db.Exec.{Exec, pure, lift, reads, modify, ◌>>=◌, ◌>>◌}
use pebble_db.Bloom.{Floats}
use pebble_db.Fault.{Fault, FaultMode, FaultPoint}
use pebble_db.Fault
use pebble_db.Db.State.{Db, DbOptions, Files}
use pebble_db.Db.Open.{open_with_options}
use pebble_db.Db.Write.{set, delete, flush, compact}

abbrev key_space : ℕ
key_space = 24

unfoldable next_state : ℕ → ℕ
next_state state = u64 (u64 (state * 6364136223846793005) + 1442695040888963407)

-- The variables of the process, by their names.
abbrev Environment : Type 0
Environment = Text → Option Text

abbrev or_default : Option ℕ → ℕ → ℕ
or_default none default = default
or_default (some n) default = n

-- `value.parse::<u64>()`
abbrev parse_u64 : Option Text → Option ℕ
parse_u64 none = none
parse_u64 (some value) = parse_unsigned (2 ^ 64) value

unfoldable env_u64 : Environment → Text → ℕ → ℕ
env_u64 env name default = or_default (parse_u64 (env name)) default

abbrev mode_of : Option Text → FaultMode
mode_of none = Fault.abort_process
mode_of (some mode) = if text_eq mode (codes "error") then Fault.error else Fault.abort_process

-- The fault that is asked for; an unknown point panics.
abbrev fault_of : Environment → Option Text → Outcome (Option Fault)
fault_of env none = ok none
fault_of env (some name) = elim (Fault.parse name) [
  | none ↦ panic
  | some point ↦ ok (
      some (record {
        point = point;
        at = env_u64 env (codes "PEBBLEDB_CRASH_AT") 1;
        mode = mode_of (env (codes "PEBBLEDB_CRASH_MODE"));
      }))
]

unfoldable options_of : Environment → Option Fault → DbOptions
options_of env fault = record {
  flush_threshold = env_u64 env (codes "PEBBLEDB_CRASH_FLUSH") 4;
  l0_compaction_threshold = env_u64 env (codes "PEBBLEDB_CRASH_L0") 2;
  level_size_multiplier = 2;
  target_level_size = 512;
  target_file_size = 256;
  fault = fault;
}

-- The process: its database, the state of its generator and the lines that it has printed.
record Process : Type 0 where
  db : Db
  state : ℕ
  printed : List Text

unfoldable announce : Text → Exec Process (Unit {0})
announce line = modify λ c. record c { printed = c.printed ++ line ∷ [] }

-- `state = next_state(state)`
unfoldable draw : Exec Process ℕ
draw = do modify (λ c. record c { state = next_state c.state }); reads (λ c. c.state)

-- Goes on after a call of the database, or announces its error and exits with 2. The result is the
-- code of the exit, if there is one.
unfoldable after_call :
    {A : Type 0}
    → (PebbleError → Text)
    → Exec Process (Option ℕ)
    → Outcome A × Db
    → Exec Process (Option ℕ)
after_call line rest (ok a, db) c = rest (record c { db = db })
after_call line rest (err e, db) c = (do announce (line e); pure (some 2)) (record c { db = db })
after_call line rest (panic, db) c = (panic, record c { db = db })
after_call line rest (aborted, db) c = (aborted, record c { db = db })
after_call line rest (diverged, db) c = (diverged, record c { db = db })

unfoldable attempt :
    {A : Type 0}
    → Exec Db A
    → (PebbleError → Text)
    → Exec Process (Option ℕ)
    → Exec Process (Option ℕ)
attempt m line rest c = after_call line rest (m c.db) c

abbrev fault_line : (PebbleError → Text) → Text → ℕ → PebbleError → Text
fault_line display call index e =
    codes "FAULT " ++ (call ++ (codes " " ++ (decimal index ++ (codes " " ++ display e))))

-- `process::exit`, and the end of `main`, which exits with 0.
abbrev exits : Outcome (Option ℕ) → Outcome ℕ
exits (ok none) = ok 0
exits (ok (some code)) = ok code
exits (err e) = err e
exits panic = panic
exits aborted = aborted
exits diverged = diverged

module _ (fl : Floats) (rounds : ℕ) (display : PebbleError → Text) where
  unfoldable run_delete : ℕ → Text → Exec Process (Option ℕ) → Exec Process (Option ℕ)
  run_delete index key rest = do
    let what = codes " del " ++ (decimal index ++ (codes " " ++ key))
    announce (codes "TRY" ++ what)
    attempt (delete fl rounds key) (fault_line display (codes "delete") index)
        (do announce (codes "ACK" ++ what); rest)

  unfoldable run_put : ℕ → Text → Exec Process (Option ℕ) → Exec Process (Option ℕ)
  run_put index key rest = do
    state ← draw
    let value = codes "value" ++ (decimal index ++ (codes "_" ++ decimal (state % 1000)))
    let what = codes " put " ++ (decimal index ++ (codes " " ++ (key ++ (codes " " ++ value))))
    announce (codes "TRY" ++ what)
    attempt (set fl rounds key value) (fault_line display (codes "set") index)
        (do announce (codes "ACK" ++ what); rest)

  -- The flush and the compaction that an operation may be followed by.
  unfoldable maintain : ℕ → Exec Process (Option ℕ) → Exec Process (Option ℕ)
  maintain index rest =
      let then_compact =
        if index % 32 == 31
        then attempt (compact fl rounds) (fault_line display (codes "compact") index) rest
        else rest in
      if index % 16 == 15
      then attempt (flush fl rounds) (fault_line display (codes "flush") index) then_compact
      else then_compact

  unfoldable operation : ℕ → Exec Process (Option ℕ) → Exec Process (Option ℕ)
  operation index rest = do
    state ← draw
    let key = codes "key" ++ padded 3 (state % key_space)
    let after = maintain index rest
    if state % 5 == 0 then run_delete index key after else run_put index key after

  -- `for index in 0..operations`, with `left` operations from `index` on.
  unfoldable operations_loop : ℕ → ℕ → Exec Process (Option ℕ)
  operations_loop zero index = do announce (codes "DONE"); pure none
  operations_loop (suc left) index = operation index (operations_loop left (index + 1))

  -- The part of `main` after the database was opened or not.
  unfoldable main_opened : ℕ → ℕ → Outcome Db × Files → Outcome ℕ × List Text × Files
  main_opened seed operations (ok db, files) =
      let r = operations_loop operations 0 (record { db = db; state = seed; printed = [] }) in
      (exits r.0, r.1.printed, r.1.db.files)
  main_opened seed operations (err e, files) =
      (ok 3, (codes "OPEN_FAILED " ++ display e) ∷ [], files)
  main_opened seed operations (panic, files) = (panic, [], files)
  main_opened seed operations (aborted, files) = (aborted, [], files)
  main_opened seed operations (diverged, files) = (diverged, [], files)

  -- `main` without a path, or with an unknown fault point, panics.
  unfoldable main_from :
      Environment → Files → Option Text → Outcome (Option Fault) → Outcome ℕ × List Text × Files
  main_from env files (some path) (ok fault) =
      main_opened (env_u64 env (codes "PEBBLEDB_CRASH_SEED") 12345)
        (env_u64 env (codes "PEBBLEDB_CRASH_OPS") 120)
        (open_with_options (options_of env fault) files)
  main_from env files _ _ = (panic, [], files)

  -- `main`, on the directory of the database.
  unfoldable main : Environment → Files → Outcome ℕ × List Text × Files
  main env files =
      main_from env files (env (codes "PEBBLEDB_CRASH_PATH"))
        (fault_of env (env (codes "PEBBLEDB_CRASH_POINT")))
