-- ===== src/Crash/Exits/Examples.antt =====
-- A child process whose first operation runs into an injected error.
use pebble_db.Prelude.{Text, some, none, codes, text_eq, PebbleError, if◌then◌else◌}
use pebble_db.Prelude.BTreeMap
use pebble_db.Fault
use pebble_db.Db.Open
use pebble_db.Crash.{Environment}

abbrev stopped_at_once : Environment
stopped_at_once name =
    if text_eq name (codes "PEBBLEDB_CRASH_PATH")
    then some (codes "data")
    else if text_eq name (codes "PEBBLEDB_CRASH_OPS")
    then some (codes "1")
    else if text_eq name (codes "PEBBLEDB_CRASH_POINT")
    then some (codes "before_wal_append")
    else if text_eq name (codes "PEBBLEDB_CRASH_MODE")
    then some (codes "error")
    else none

abbrev fault_text : PebbleError → Text
fault_text e = codes "injected"
