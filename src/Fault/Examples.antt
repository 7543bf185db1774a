-- ===== src/Fault/Examples.antt =====
-- Faults on which the theorems about the injector of src/fault.rs are tried.
use pebble_db.Prelude.{List, [], ◌∷◌, some, ◌≡◌}
use pebble_db.Fault.{FaultPoint, Fault, before_wal_append, after_wal_append, name, parse, error}
use pebble_db.Fault.Firing.{parse-name}

abbrev second_append : Fault
second_append = record { point = before_wal_append; at = 2; mode = error }

abbrev boundaries : List FaultPoint
boundaries = before_wal_append ∷ after_wal_append ∷ before_wal_append ∷ []

parse-name_example : parse (name after_wal_append) ≡ some after_wal_append
parse-name_example = parse-name after_wal_append
