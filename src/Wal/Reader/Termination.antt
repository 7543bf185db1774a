-- ===== src/Wal/Reader/Termination.antt =====
-- The reader ends on every file.
use pebble_db.Prelude.{ℕ, zero, suc, ◌+◌, ◌<◌, ◌≤◌, List, Outcome, ok, diverged, Bool}
use pebble_db.Prelude.{◌≡◌, ◌≢◌, refl, arith, take, drop, length}
use pebble_db.Prelude.{length-drop}
use pebble_db.Wal.Record.{WalRecord, decode}
use pebble_db.Wal.Reader.{WalRecovery, nothing, stop_at_tail, read_payload, read_loop, read_records}
use pebble_db.Wal.Reader.Truncation.{total_len, extend}

read_payload-ne-diverged : (payload : List ℕ) (n : ℕ) → read_payload payload n ≢ diverged
unfolding read_payload decode
read_payload-ne-diverged payload n = ground arith

read_loop-ne-diverged :
    (n file_len : ℕ) (rest : List ℕ) (found : WalRecovery) (tolerate : Bool)
    → length rest < n
    → read_loop n rest file_len found tolerate ≢ diverged
read_loop-ne-diverged zero file_len rest found tolerate p = absurd (omega arith)
read_loop-ne-diverged (suc n) file_len rest found tolerate p =
    go (read_payload (take (4 + total_len rest + 4) rest) (total_len rest)) refl (λ r size.
      read_loop-ne-diverged n file_len (drop (4 + total_len rest + 4) rest)
        (extend found r (total_len rest)) tolerate
        (omega (arith, length-drop (4 + total_len rest + 4) rest, size)))
  where
    go :
        (p : Outcome WalRecord)
        → read_payload (take (4 + total_len rest + 4) rest) (total_len rest) ≡ p
        → ((r : WalRecord)
            → 4 + total_len rest + 4 ≤ length rest
            → read_loop n
                (drop (4 + total_len rest + 4) rest)
                file_len
                (extend found r (total_len rest))
                tolerate
              ≢ diverged)
        → read_loop (suc n) rest file_len found tolerate ≢ diverged
    go diverged e ih = absurd (read_payload-ne-diverged _ _ e)
    go (ok r) e ih = unfold read_loop stop_at_tail in ground (arith, ih r)
    go _ e ih = unfold read_loop stop_at_tail in ground arith

-- On every file and in both modes the reader ends within the fuel it is given.
pub read_records-ne-diverged :
    (file : List ℕ) (tolerate : Bool) → read_records file tolerate ≢ diverged
unfolding read_records
read_records-ne-diverged file tolerate =
    read_loop-ne-diverged (suc (length file)) (length file) file nothing tolerate (omega arith)
