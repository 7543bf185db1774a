-- ===== src/Wal/Reader/Truncation.antt =====
-- The reader over arbitrary bytes: what it accepts is all that a truncated log keeps.
use pebble_db.Prelude.{ℕ, zero, suc, ◌+◌, ◌-◌, ◌<◌, ◌≤◌, List, [], ◌∷◌, ◌++◌, Outcome, ok, Bool}
use pebble_db.Prelude.{true, ◌≡◌, refl, sym, ◌∙◌, ap, arith, take, drop, length, from_le}
use pebble_db.Prelude.{length-take, length-drop, take-take, drop-take, ltb-false}
use pebble_db.Prelude.{leb, ◌&&◌, Bool-cases, ◌⊎◌, inl, inr}
use pebble_db.Wal.Record.{WalRecord}
use pebble_db.Wal.Reader.{
  WalRecovery, nothing, stop_at_tail, read_payload, read_loop, read_records, recover,
}

abbrev pub total_len : List ℕ → ℕ
total_len rest = from_le (take 4 rest)

abbrev pub extend : WalRecovery → WalRecord → ℕ → WalRecovery
extend found r n = record { records = found.records ++ r ∷ []; valid_len = found.valid_len + 8 + n }

-- `rest` starts with a record that the loop takes.
record Accepts (rest : List ℕ) (file_len : ℕ) (found : WalRecovery) (r : WalRecord) : Type 0 where
  at_least : 9 ≤ total_len rest
  in_file : found.valid_len + 8 + total_len rest ≤ file_len
  in_rest : 4 + total_len rest + 4 ≤ length rest
  reads : read_payload (take (4 + total_len rest + 4) rest) (total_len rest) ≡ ok r

read_loop-Accepts :
    (fuel file_len : ℕ) (rest : List ℕ) (found : WalRecovery) (r : WalRecord) (tolerate : Bool)
    → Accepts rest file_len found r
    → read_loop (suc fuel) rest file_len found tolerate
      ≡ read_loop fuel
          (drop (4 + total_len rest + 4) rest)
          file_len
          (extend found r (total_len rest))
          tolerate
unfolding read_loop
read_loop-Accepts fuel file_len rest found r tolerate a =
    let four : length (take 4 rest) ≡ 4 = omega (arith, length-take 4 rest, a.in_rest) in
    rw (
      four,
      ltb-false _ 9 a.at_least,
      ltb-false file_len _ a.in_file,
      ltb-false (length rest) _ a.in_rest,
      a.reads,
    )

abbrev accepts : List ℕ → ℕ → WalRecovery → Bool
accepts rest file_len found =
    leb 9 (total_len rest)
    && (leb (found.valid_len + 8 + total_len rest) file_len
        && leb (4 + total_len rest + 4) (length rest))

-- A successful run stops here, or takes one record and goes on.
read_loop-cases :
    (fuel file_len : ℕ) (rest : List ℕ) (found out : WalRecovery)
    → read_loop (suc fuel) rest file_len found true ≡ ok out
    → (out ≡ found)
      ⊎ ((r : WalRecord) × Accepts rest file_len found r
          × (read_loop fuel
                (drop (4 + total_len rest + 4) rest)
                file_len
                (extend found r (total_len rest))
                true
              ≡ ok out))
unfolding read_loop stop_at_tail
read_loop-cases fuel file_len rest found out h =
    go (read_payload (take (4 + total_len rest + 4) rest) (total_len rest)) refl
  where
    go :
        (p : Outcome WalRecord)
        → read_payload (take (4 + total_len rest + 4) rest) (total_len rest) ≡ p
        → (out ≡ found)
          ⊎ ((r : WalRecord) × Accepts rest file_len found r
              × (read_loop fuel
                    (drop (4 + total_len rest + 4) rest)
                    file_len
                    (extend found r (total_len rest))
                    true
                  ≡ ok out))
    go (ok r) e = elim (Bool-cases (accepts rest file_len found)) [
      | inl yes_all ↦
          let a : Accepts rest file_len found r = record {
            at_least = ground arith;
            in_file = ground arith;
            in_rest = ground arith;
            reads = e;
          } in
          inr (r, a, sym (read_loop-Accepts fuel file_len rest found r true a) ∙ h)
      | inr stopped ↦ inl (ground arith)
    ]
    go _ e = inl (ground arith)

-- The run ends at `out`, within the file, and a file cut at `out.valid_len` gives the same.
abbrev Cut : ℕ → ℕ → List ℕ → WalRecovery → WalRecovery → Type 0
Cut fuel file_len rest found out =
    (found.valid_len ≤ out.valid_len)
    × (out.valid_len ≤ file_len)
    × (read_loop fuel (take (out.valid_len - found.valid_len) rest) out.valid_len found true
        ≡ ok out)

truncated_here :
    (fuel file_len : ℕ) (rest : List ℕ) (found out : WalRecovery)
    → out ≡ found
    → found.valid_len + length rest ≡ file_len
    → Cut (suc fuel) file_len rest found out
truncated_here fuel file_len rest found out same e =
    let v : out.valid_len ≡ found.valid_len = ap (λ f. f.valid_len) same in
    let none_left : found.valid_len - found.valid_len ≡ 0 = omega arith in
    (omega arith, omega arith, rw (same, none_left) (unfold read_loop in refl))

truncated_later :
    (fuel : ℕ) {file_len : ℕ} (rest : List ℕ) (found out : WalRecovery) (r : WalRecord)
    → Accepts rest file_len found r
    → Cut fuel file_len (drop (4 + total_len rest + 4) rest) (extend found r (total_len rest)) out
    → Cut (suc fuel) file_len rest found out
truncated_later fuel rest found out r a (more, inside, run) =
    let k = out.valid_len - found.valid_len in
    let head : take 4 (take k rest) ≡ take 4 rest = take-take 4 k rest (omega arith) in
    let word : total_len (take k rest) ≡ total_len rest = ap from_le head in
    let piece : take (4 + total_len rest + 4) (take k rest) ≡ take (4 + total_len rest + 4) rest =
      take-take (4 + total_len rest + 4) k rest (omega arith) in
    let left : k - (4 + total_len rest + 4)
        ≡ out.valid_len - (found.valid_len + 8 + total_len rest) =
      omega arith in
    let kept : Accepts (take k rest) out.valid_len found r = record {
      at_least = rw word a.at_least;
      in_file = rw word more;
      in_rest = rw word (omega (arith, length-take k rest, a.in_rest));
      reads = rw (word, piece) a.reads;
    } in
    (
      omega arith,
      inside,
      read_loop-Accepts fuel out.valid_len (take k rest) found r true kept
          ∙ rw (word, drop-take (4 + total_len rest + 4) k rest, left) run,
    )

read_loop-truncated :
    (fuel file_len : ℕ) (rest : List ℕ) (found out : WalRecovery)
    → found.valid_len + length rest ≡ file_len
    → read_loop fuel rest file_len found true ≡ ok out
    → Cut fuel file_len rest found out
read_loop-truncated zero file_len rest found out e h = absurd (unfold read_loop in cc h)
read_loop-truncated (suc fuel) file_len rest found out e h =
    elim (read_loop-cases fuel file_len rest found out h) [
      | inl same ↦ truncated_here fuel file_len rest found out same e
      | inr (r, a, more) ↦ truncated_later fuel rest found out r a (
          read_loop-truncated fuel file_len (drop (4 + total_len rest + 4) rest)
            (extend found r (total_len rest)) out
            (omega (arith, length-drop (4 + total_len rest + 4) rest, a.in_rest, e)) more)
    ]

-- The fuel of the loop does not matter once it passes what is left to read.
read_loop_enough :
    (n m file_len : ℕ) (rest : List ℕ) (found : WalRecovery) (tolerate : Bool)
    → length rest < n
    → length rest < m
    → read_loop n rest file_len found tolerate ≡ read_loop m rest file_len found tolerate
read_loop_enough zero m file_len rest found tolerate p q = absurd (omega arith)
read_loop_enough (suc n) zero file_len rest found tolerate p q = absurd (omega arith)
read_loop_enough (suc n) (suc m) file_len rest found tolerate p q =
    go (read_payload (take (4 + total_len rest + 4) rest) (total_len rest)) refl (λ r size.
      read_loop_enough n m file_len (drop (4 + total_len rest + 4) rest)
        (extend found r (total_len rest)) tolerate
        (omega (arith, length-drop (4 + total_len rest + 4) rest, size))
        (omega (arith, length-drop (4 + total_len rest + 4) rest, size)))
  where
    go :
        (p : Outcome WalRecord)
        → read_payload (take (4 + total_len rest + 4) rest) (total_len rest) ≡ p
        → ((r : WalRecord)
            → 4 + total_len rest + 4 ≤ length rest
            → read_loop n
                (drop (4 + total_len rest + 4) rest)
                file_len
                (extend found r (total_len rest))
                tolerate
              ≡ read_loop m
                  (drop (4 + total_len rest + 4) rest)
                  file_len
                  (extend found r (total_len rest))
                  tolerate)
        → read_loop (suc n) rest file_len found tolerate
          ≡ read_loop (suc m) rest file_len found tolerate
    go (ok r) e ih = elim (Bool-cases (accepts rest file_len found)) [
      | inl yes_all ↦
          let a : Accepts rest file_len found r = record {
            at_least = ground arith;
            in_file = ground arith;
            in_rest = ground arith;
            reads = e;
          } in
          read_loop-Accepts n file_len rest found r tolerate a
          ∙ ih r a.in_rest
          ∙ sym (read_loop-Accepts m file_len rest found r tolerate a)
      | inr stopped ↦ unfold read_loop in ground arith
    ]
    go _ e ih = unfold read_loop in ground arith

-- When recovery of a file succeeds, the length it reports lies within the file, and the file cut at
-- that length is recovered to the same records and the same length.
pub recover-truncated :
    (file : List ℕ) (out : WalRecovery)
    → recover file ≡ ok out
    → (out.valid_len ≤ length file) × (recover (take out.valid_len file) ≡ ok out)
unfolding recover read_records
recover-truncated file out h =
    let (low, inside, run) =
      read_loop-truncated (suc (length file)) (length file) file nothing out (omega arith) h in
    let size : length (take out.valid_len file) ≡ out.valid_len =
      omega (arith, length-take out.valid_len file, inside) in
    let whole : out.valid_len - 0 ≡ out.valid_len = omega arith in
    (
      inside,
      rw size (
          read_loop_enough (suc out.valid_len) (suc (length file)) out.valid_len
            (take out.valid_len file) nothing true (omega (arith, size))
            (omega (arith, size, inside))
          ∙ rw whole at run),
    )
