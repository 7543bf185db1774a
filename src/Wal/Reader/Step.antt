-- ===== src/Wal/Reader/Step.antt =====
-- One round of the reader's loop: over a whole record, and over what a crash left of one.
use pebble_db.Prelude.{ℕ, suc, ◌+◌, ◌<◌, ◌≤◌, ◌^◌, List, [], ◌∷◌, ◌++◌, ok, Bool, ◌≡◌, refl, sym}
use pebble_db.Prelude.{
  ◌∙◌, ap, arith, take, drop, length, to_le, from_le, length-append, length-to_le,
}
use pebble_db.Prelude.{take_append, append_assoc, from_le-to_le4, ==_refl}
use pebble_db.Prelude.{
  length-take, ltb-false, take_part, take-take, Bool-cases, inl, inr, true, slice_at, drop_next,
  drop_u32, u32_at_lem, append-nil, false, ltb-true, ltb,
}
use pebble_db.Wal.Crc.{crc32, crc32-lt}
use pebble_db.Wal.Record.{WalRecord, set, delete, body, encode}
use pebble_db.Wal.Record.RoundTrip.{payload, IsValid, body-eq-payload, decode-payload}
use pebble_db.Wal.Record.RoundTrip.{length-payload-set, length-payload-delete}
use pebble_db.Wal.Reader.{WalRecovery, stop_at_tail, read_payload, read_loop}

pub payload-fits :
    (r : WalRecord) → IsValid r → (9 ≤ length (payload r)) × (length (payload r) < 2 ^ 32)
payload-fits (set key value) h = omega (arith, length-payload-set key value)
payload-fits (delete key) h = omega (arith, length-payload-delete key)

module _ (r : WalRecord) (h : IsValid r) where
  abbrev size : ℕ
  size = length (payload r)

  length-body : length (body r) ≡ 4 + size
  length-body =
      rw (body-eq-payload r h)
        (omega (arith, length-append (to_le 4 size) (payload r), length-to_le 4 size))

  pub length-encode : length (encode r) ≡ 8 + size
  unfolding encode
  length-encode = omega (
    arith,
    length-append (body r) (to_le 4 (crc32 (body r))),
    length-to_le 4 (crc32 (body r)),
    length-body,
  )

  encode-layout : encode r ≡ to_le 4 size ++ (payload r ++ to_le 4 (crc32 (body r)))
  unfolding encode
  encode-layout =
      ap (λ t. t ++ to_le 4 (crc32 (body r))) (body-eq-payload r h)
      ∙ append_assoc (to_le 4 size) (payload r) (to_le 4 (crc32 (body r)))

  abbrev stamp : List ℕ
  stamp = to_le 4 (crc32 (body r))

  at_stamp : drop (4 + size) (encode r) ≡ stamp ++ []
  unfolding encode
  at_stamp =
      drop_next (encode r) 0 (4 + size) (body r) stamp refl (omega (arith, length-body))
      ∙ sym (append-nil stamp)

  read_stamp : from_le (take 4 (drop (4 + size) (encode r))) ≡ crc32 (body r)
  read_stamp = u32_at_lem (encode r) (4 + size) (crc32 (body r)) [] at_stamp (crc32-lt (body r))

  read_body : take (4 + size) (encode r) ≡ body r
  unfolding encode
  read_body = take_part (4 + size) (body r) stamp (omega (arith, length-body))

  read_middle : take size (drop 4 (encode r)) ≡ payload r
  read_middle =
      let e : drop 4 (encode r) ≡ payload r ++ stamp =
        drop_u32 (encode r) 0 4 size (payload r ++ stamp) encode-layout refl in
      rw e (take_append (payload r) stamp)

  -- A whole record passes the checksum and decodes.
  pub read_payload-encode : read_payload (encode r) size ≡ ok r
  unfolding read_payload
  read_payload-encode =
      rw (read_stamp, read_body, ==_refl (crc32 (body r)), read_middle) (decode-payload r h)

  module _ (tail : List ℕ) where
    abbrev whole : List ℕ
    whole = encode r ++ tail

    whole-layout : whole ≡ to_le 4 size ++ ((payload r ++ stamp) ++ tail)
    whole-layout =
        ap (λ t. t ++ tail) encode-layout ∙ append_assoc (to_le 4 size) (payload r ++ stamp) tail

    pub first_word : take 4 whole ≡ to_le 4 size
    first_word =
        slice_at whole 0 4 (to_le 4 size) ((payload r ++ stamp) ++ tail) whole-layout
          (omega (arith, length-to_le 4 size))

    pub first_record : take (4 + size + 4) whole ≡ encode r
    first_record = take_part (4 + size + 4) (encode r) tail (omega (arith, length-encode))

    pub after_record : drop (4 + size + 4) whole ≡ tail
    after_record =
        drop_next whole 0 (4 + size + 4) (encode r) tail refl (omega (arith, length-encode))

    -- One round of the loop over a whole record.
    pub read_loop-encode :
        (fuel file_len : ℕ) (found : WalRecovery) (tolerate : Bool)
        → found.valid_len + 8 + size ≤ file_len
        → read_loop (suc fuel) whole file_len found tolerate
          ≡ read_loop fuel tail file_len
              (record { records = found.records ++ r ∷ []; valid_len = found.valid_len + 8 + size })
              tolerate
    unfolding read_loop
    read_loop-encode fuel file_len found tolerate fits =
        let word : from_le (to_le 4 size) ≡ size = from_le-to_le4 size (payload-fits r h).1 in
        let enough : ltb (length whole) (4 + size + 4) ≡ false =
          ltb-false _ _ (omega (arith, length-append (encode r) tail, length-encode)) in
        let wide : ltb size 9 ≡ false = ltb-false size 9 (payload-fits r h).0 in
        let inside : ltb file_len (found.valid_len + 8 + size) ≡ false = ltb-false _ _ fits in
        rw (
          first_word,
          word,
          length-to_le 4 size,
          wide,
          inside,
          enough,
          first_record,
          after_record,
          read_payload-encode,
        )

  -- One round over a proper part of a record stops there.
  pub read_loop-torn :
      (n fuel file_len : ℕ) (found : WalRecovery) (tolerate : Bool)
      → 0 < n
      → n < 8 + size
      → file_len ≡ found.valid_len + n
      → read_loop (suc fuel) (take n (encode r)) file_len found tolerate
        ≡ stop_at_tail found tolerate
  unfolding read_loop
  read_loop-torn n fuel file_len found tolerate pos short e =
      let part : length (take n (encode r)) ≡ n =
        omega (arith, length-take n (encode r), length-encode) in
      elim (Bool-cases (ltb n 4)) [
        | inl few ↦ ground (arith, length-take 4 (take n (encode r)), part)
        | inr many ↦
            let word : take 4 (take n (encode r)) ≡ to_le 4 size =
              take-take 4 n (encode r) (ground arith)
              ∙ ap (take 4) encode-layout
              ∙ take_part 4 (to_le 4 size) (payload r ++ stamp) (sym (length-to_le 4 size)) in
            let outside : ltb file_len (found.valid_len + 8 + size) ≡ true =
              ltb-true _ _ (omega arith) in
            rw (
              word,
              from_le-to_le4 size (payload-fits r h).1,
              length-to_le 4 size,
              ltb-false size 9 (payload-fits r h).0,
              outside,
            )
      ]
