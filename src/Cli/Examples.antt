-- ===== src/Cli/Examples.antt =====
-- A run of the command line.
use pebble_db.Prelude.{[], ◌∷◌, codes}
use pebble_db.Bloom.Examples.{whole_floats}
use pebble_db.Cli.{run}
use pebble_db.Cli.Exits.{Exits, run-Exits}

run-Exits_example :
    Exits
      (run whole_floats 1
        (λ e. codes "error")
        (λ n. codes "1.00")
        (codes "set" ∷ codes "key" ∷ codes "one" ∷ [])
        []).0
run-Exits_example =
    run-Exits whole_floats 1 (λ e. codes "error") (λ n. codes "1.00")
      (codes "set" ∷ codes "key" ∷ codes "one" ∷ []) []
