-- ===== src/Wal/Reader/Log.antt =====
-- What the two readers make of a log of whole records, and of one that a crash cut short.
use native.Mathlib.Nat.{add-zero, zero-add}
use pebble_db.Prelude.{
  ℕ, zero, suc, ◌+◌, ◌-◌, ◌<◌, ◌≤◌, List, [], ◌∷◌, ◌++◌, ok, err, wal_incomplete, Bool,
}
use pebble_db.Prelude.{true, false, ◌≡◌, refl, sym, ◌∙◌, ap, arith, take, length, length-append}
use pebble_db.Prelude.{append_assoc, append-nil, length-take}
use pebble_db.Wal.Record.{WalRecord, encode}
use pebble_db.Wal.Record.RoundTrip.{payload, IsValid}
use pebble_db.Wal.Writer.{append_record, append_all}
use pebble_db.Wal.Reader.{
  WalRecovery, nothing, stop_at_tail, read_loop, read_records, recover, read_all,
}
use pebble_db.Wal.Reader.Step.{length-encode, read_loop-encode, read_loop-torn}

abbrev pub AllValid : List WalRecord → Type 0
AllValid [] = Unit
AllValid (r ∷ rs) = IsValid r × AllValid rs

abbrev pub log : List WalRecord → List ℕ
log [] = []
log (r ∷ rs) = encode r ++ log rs

append_all-eq-append : (file : List ℕ) (rs : List WalRecord) → append_all file rs ≡ file ++ log rs
unfolding append_all append_record
append_all-eq-append file [] = sym (append-nil file)
append_all-eq-append file (r ∷ rs) =
    append_all-eq-append (file ++ encode r) rs ∙ append_assoc file (encode r) (log rs)

length-log : (rs : List WalRecord) → AllValid rs → length rs ≤ length (log rs)
length-log [] v = omega arith
length-log (r ∷ rs) v =
    omega (arith, length-append (encode r) (log rs), length-encode r v.0, length-log rs v.1)

abbrev found_all : WalRecovery → List WalRecord → WalRecovery
found_all found rs = record {
  records = found.records ++ rs;
  valid_len = found.valid_len + length (log rs);
}

regroup : (v p l t : ℕ) → t ≡ 8 + p + l → v + 8 + p + l ≡ v + t
regroup v p l t e = omega arith

-- The rounds over whole records, with `k` units of fuel left for what follows them.
read_loop-log :
    (rs : List WalRecord) (tail : List ℕ) (n k file_len : ℕ) (found : WalRecovery) (tolerate : Bool)
    → AllValid rs
    → n ≡ length rs + k
    → found.valid_len + length (log rs) ≤ file_len
    → read_loop n (log rs ++ tail) file_len found tolerate
      ≡ read_loop k tail file_len (found_all found rs) tolerate
read_loop-log [] tail n k file_len found tolerate v e fits =
    let same : n ≡ k = omega arith in
    let kept : found_all found [] ≡ found = λ i. record {
      records = append-nil found.records i;
      valid_len = add-zero found.valid_len i;
    } in
    rw (same, kept)
read_loop-log (r ∷ rs) tail n k file_len found tolerate v e fits =
    let more : n ≡ suc (length rs + k) = omega arith in
    let total : length (log (r ∷ rs)) ≡ 8 + length (payload r) + length (log rs) =
      omega (arith, length-append (encode r) (log rs), length-encode r v.0) in
    let one : WalRecovery = record {
      records = found.records ++ r ∷ [];
      valid_len = found.valid_len + 8 + length (payload r);
    } in
    let grown : found_all one rs ≡ found_all found (r ∷ rs) = λ i. record {
      records = append_assoc found.records (r ∷ []) rs i;
      valid_len = regroup found.valid_len (length (payload r)) (length (log rs)) _ total i;
    } in
    rw (more, append_assoc (encode r) (log rs) tail)
      (read_loop-encode r v.0 (log rs ++ tail) (length rs + k) file_len found tolerate (omega arith)
        ∙ read_loop-log rs tail (length rs + k) k file_len one tolerate v.1 refl (omega arith)
        ∙ ap (λ f. read_loop k tail file_len f tolerate) grown)

read_records-log :
    (rs : List WalRecord) (tail : List ℕ) (tolerate : Bool)
    → AllValid rs
    → (k : ℕ) × (read_records (log rs ++ tail) tolerate
        ≡ read_loop
            (suc k)
            tail
            (length (log rs) + length tail)
            (record { records = rs; valid_len = length (log rs) })
            tolerate)
unfolding read_records
read_records-log rs tail tolerate v =
    let size : length (log rs ++ tail) ≡ length (log rs) + length tail =
      length-append (log rs) tail in
    let k : ℕ = length (log rs) + length tail - length rs in
    let start : found_all nothing rs ≡ record { records = rs; valid_len = length (log rs) } =
      λ i. record { records = rs; valid_len = zero-add (length (log rs)) i } in
    (
      k,
      rw size (
          read_loop-log rs tail (suc (length (log rs) + length tail)) (suc k)
            (length (log rs) + length tail) nothing tolerate v (omega (arith, length-log rs v))
            (omega arith)
          ∙ ap (λ f. read_loop (suc k) tail (length (log rs) + length tail) f tolerate) start),
    )

-- The log that `append_record` writes for a list of valid records is recovered to these records,
-- with `valid_len` the length of the log.
pub recover-append_all :
    (rs : List WalRecord)
    → AllValid rs
    → recover (append_all [] rs)
      ≡ ok (record { records = rs; valid_len = length (append_all [] rs) })
unfolding recover read_loop
recover-append_all rs v =
    let (k, e) = read_records-log rs [] true v in
    rw (append_all-eq-append [] rs) (ap (λ t. read_records t true) (sym (append-nil (log rs))) ∙ e)

-- A log of valid records to which a proper prefix of one more valid record was appended is
-- recovered to the records before it, and `valid_len` is the length of the log that holds just them.
pub recover-torn_tail :
    (rs : List WalRecord) (r : WalRecord) (n : ℕ)
    → AllValid rs
    → IsValid r
    → n < length (encode r)
    → recover (append_all [] rs ++ take n (encode r))
      ≡ ok (record { records = rs; valid_len = length (append_all [] rs) })
unfolding recover stop_at_tail
recover-torn_tail rs r n v w short =
    let (k, e) = read_records-log rs (take n (encode r)) true v in
    rw (append_all-eq-append [] rs) (e ∙ stops k n short)
  where
    stops :
        (k n : ℕ)
        → n < length (encode r)
        → read_loop
            (suc k)
            (take n (encode r))
            (length (log rs) + length (take n (encode r)))
            (record { records = rs; valid_len = length (log rs) })
            true
          ≡ ok (record { records = rs; valid_len = length (log rs) })
    stops k zero short = unfold read_loop in refl
    stops k (suc n) short =
        read_loop-torn r w (suc n) k _ _ true (omega arith) (omega (arith, length-encode r w))
          (omega (arith, length-take (suc n) (encode r)))

-- The strict reader returns the records of a log of valid records.
pub read_all-append_all : (rs : List WalRecord) → AllValid rs → read_all (append_all [] rs) ≡ ok rs
unfolding read_all read_loop
read_all-append_all rs v =
    let (k, e) = read_records-log rs [] false v in
    rw (append_all-eq-append [] rs, sym (append-nil (log rs)), e)

-- On a log of valid records followed by a nonempty proper prefix of one more valid record, the
-- strict reader reports `wal_incomplete`.
pub read_all-torn_tail :
    (rs : List WalRecord) (r : WalRecord) (n : ℕ)
    → AllValid rs
    → IsValid r
    → 0 < n
    → n < length (encode r)
    → read_all (append_all [] rs ++ take n (encode r)) ≡ err wal_incomplete
unfolding read_all stop_at_tail
read_all-torn_tail rs r n v w pos short =
    let (k, e) = read_records-log rs (take n (encode r)) false v in
    let stops =
      read_loop-torn r w n k (length (log rs) + length (take n (encode r)))
        (record { records = rs; valid_len = length (log rs) }) false pos
        (omega (arith, length-encode r w)) (omega (arith, length-take n (encode r))) in
    rw (append_all-eq-append [] rs, e, stops)
