-- ===== src/Crash/Examples.antt =====
-- The first draw, and the environments that ask for a fault or for none.
use pebble_db.Prelude.{some, none, codes, text_eq, ok, panic, if◌then◌else◌}
use pebble_db.Prelude.{◌≡◌, refl}
use pebble_db.Prelude.Decimal.{parse_unsigned, parse_digits}
use pebble_db.Fault
use pebble_db.Crash.{Environment, next_state, env_u64, fault_of}

abbrev asked : Environment
asked name =
    if text_eq name (codes "PEBBLEDB_CRASH_AT")
    then some (codes "7")
    else if text_eq name (codes "PEBBLEDB_CRASH_MODE")
    then some (codes "error")
    else none

next_state-test : next_state 12345 ≡ 2021368500568277588
unfolding next_state
next_state-test = refl

fault_of-test :
    fault_of asked (some (codes "after_wal_append"))
    ≡ ok (some (record { point = Fault.after_wal_append; at = 7; mode = Fault.error }))
unfolding Fault.parse env_u64 parse_unsigned parse_digits
fault_of-test = refl

unknown-test : fault_of asked (some (codes "nowhere")) ≡ panic
unfolding Fault.parse
unknown-test = refl
