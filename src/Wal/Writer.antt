-- ===== src/Wal/Writer.antt =====
-- src/wal.rs: WalWriter, as what its methods leave in the log file. Appending flushes the buffer,
-- so the file holds every record that was appended.
use pebble_db.Prelude.{ℕ, List, [], ◌∷◌, ◌++◌}
use pebble_db.Wal.Record.{WalRecord, encode}

unfoldable pub append_record : List ℕ → WalRecord → List ℕ
append_record file r = file ++ encode r

unfoldable pub truncate : List ℕ → List ℕ
truncate file = []

-- The file after one call of `append_record` for each record.
unfoldable pub append_all : List ℕ → List WalRecord → List ℕ
append_all file [] = file
append_all file (r ∷ rs) = append_all (append_record file r) rs
