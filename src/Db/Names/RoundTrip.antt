-- ===== src/Db/Names/RoundTrip.antt =====
-- The names of table files and the text of the merge marker are read back.
use pebble_db.Prelude.{
  ℕ, ◌^◌, ◌<◌, All, List, refl, [], ◌∷◌, ◌++◌, Text, codes, some, ◌≡◌, ◌∙◌, ap, sym, inl, inr,
  arith, append_assoc,
}
use pebble_db.Prelude.Decimal.{decimal, padded, strip_prefix, split, trim, parse_unsigned}
use pebble_db.Prelude.Decimal.Laws.{
  Lacks, AllDigits-Lacks, decimal-AllDigits, split_once_lem, strip_suffix_lem,
  parse_unsigned-decimal, parse_unsigned-padded, split_lem, split_last, trim-AllDigits, trim-space,
  Lacks-append,
}
use pebble_db.Db.Names.{
  sstable_file_name, parse_sstable_file_name, join_ids, parse_ids, pending_content, read_line,
  read_lines, parse_pending,
}

-- The name of a table file tells its number, a u64, and its level, a u32.
pub parse-sstable_file_name :
    (level id : ℕ)
    → level < 2 ^ 32
    → id < 2 ^ 64
    → parse_sstable_file_name (sstable_file_name level id) ≡ some (id, level)
unfolding parse_sstable_file_name sstable_file_name strip_prefix
parse-sstable_file_name level id h b =
    let stem = 76 ∷ (decimal level ++ 95 ∷ padded 6 id) in
    let whole : 76 ∷ (decimal level ++ (codes "_" ++ (padded 6 id ++ codes ".sst")))
        ≡ stem ++ codes ".sst" =
      ap (λ t. 76 ∷ t) (sym (append_assoc (decimal level) (95 ∷ padded 6 id) (codes ".sst"))) in
    rw (
      whole,
      strip_suffix_lem (codes ".sst") stem,
      split_once_lem 95 (decimal level) (padded 6 id)
          (AllDigits-Lacks 95 (decimal level) (decimal-AllDigits level) (inr (omega arith))),
      parse_unsigned-padded (2 ^ 64) 6 id b,
      parse_unsigned-decimal (2 ^ 32) level h,
    )

-- What may stand before a number of the list: nothing, or a space.
abbrev IsLead : Text → Type 0
IsLead lead = Lacks 44 lead × ((n : ℕ) → trim (lead ++ decimal n) ≡ decimal n)

no-IsLead : IsLead []
no-IsLead = (tt, λ n. trim-AllDigits (decimal n) (decimal-AllDigits n))

space-IsLead : IsLead (32 ∷ [])
space-IsLead = ((omega arith, tt), λ n. trim-space (decimal n) (decimal-AllDigits n))

lead-Lacks : (lead : Text) (n : ℕ) → IsLead lead → Lacks 44 (lead ++ decimal n)
lead-Lacks lead n l =
    Lacks-append 44 lead (decimal n) l.0
      (AllDigits-Lacks 44 (decimal n) (decimal-AllDigits n) (inl (omega arith)))

parse_ids-join_ids :
    (lead : Text) (n : ℕ) (ns : List ℕ)
    → IsLead lead
    → All (λ m. m < 2 ^ 64) (n ∷ ns)
    → parse_ids (lead ++ join_ids (n ∷ ns)) ≡ n ∷ ns
unfolding parse_ids join_ids
parse_ids-join_ids lead n [] l b =
    rw
      (
        split_last 44 (lead ++ decimal n) (lead-Lacks lead n l),
        l.1 n,
        parse_unsigned-decimal (2 ^ 64) n b.0,
      )
      refl
parse_ids-join_ids lead n (m ∷ ns) l b =
    rw
      (
        sym (append_assoc lead (decimal n) (44 ∷ join_ids (m ∷ ns))),
        split_lem 44 (lead ++ decimal n) (join_ids (m ∷ ns)) (lead-Lacks lead n l),
        l.1 n,
        parse_unsigned-decimal (2 ^ 64) n b.0,
      )
      (ap (λ t. n ∷ t) (parse_ids-join_ids [] m ns no-IsLead b.1))

parse_ids-space : (ns : List ℕ) → All (λ m. m < 2 ^ 64) ns → parse_ids (32 ∷ join_ids ns) ≡ ns
parse_ids-space [] b =
    unfold parse_ids join_ids parse_unsigned in
    rw (split_last 44 (32 ∷ []) (omega arith, tt), trim-space [] tt) refl
parse_ids-space (n ∷ ns) b = parse_ids-join_ids (32 ∷ []) n ns space-IsLead b

join_ids-Lacks : (ns : List ℕ) → Lacks 10 (join_ids ns)
unfolding join_ids
join_ids-Lacks [] = tt
join_ids-Lacks (n ∷ []) = AllDigits-Lacks 10 (decimal n) (decimal-AllDigits n) (inl (omega arith))
join_ids-Lacks (n ∷ m ∷ ns) =
    Lacks-append 10 (decimal n) (44 ∷ join_ids (m ∷ ns))
      (AllDigits-Lacks 10 (decimal n) (decimal-AllDigits n) (inl (omega arith)))
      (omega arith, join_ids-Lacks (m ∷ ns))

label-Lacks : (label : Text) (ns : List ℕ) → Lacks 10 label → Lacks 10 (label ++ join_ids ns)
label-Lacks label ns l = Lacks-append 10 label (join_ids ns) l (join_ids-Lacks ns)

outputs_line :
    (ns : List ℕ) (found : List ℕ × List ℕ)
    → All (λ m. m < 2 ^ 64) ns
    → read_line (codes "outputs: " ++ join_ids ns) found ≡ (ns, found.1)
unfolding read_line strip_prefix
outputs_line ns found b = ap (λ t. (t, found.1)) (parse_ids-space ns b)

inputs_line :
    (ns : List ℕ) (found : List ℕ × List ℕ)
    → All (λ m. m < 2 ^ 64) ns
    → read_line (codes "inputs: " ++ join_ids ns) found ≡ (found.0, ns)
unfolding read_line strip_prefix
inputs_line ns found b = ap (λ t. (found.0, t)) (parse_ids-space ns b)

-- The marker of a pending merge is read back as the two lists of numbers it was written for.
pub parse_pending-content :
    (outputs inputs : List ℕ)
    → All (λ m. m < 2 ^ 64) outputs
    → All (λ m. m < 2 ^ 64) inputs
    → parse_pending (pending_content outputs inputs) ≡ (outputs, inputs)
unfolding parse_pending pending_content read_lines read_line strip_prefix split
parse_pending-content outputs inputs a b =
    let out = codes "outputs: " ++ join_ids outputs in
    let inp = codes "inputs: " ++ join_ids inputs in
    let lines : split 10 (out ++ 10 ∷ (inp ++ 10 ∷ [])) ≡ out ∷ inp ∷ [] ∷ [] =
      split_lem 10 out (inp ++ 10 ∷ []) (label-Lacks (codes "outputs: ") outputs (ground arith))
      ∙ ap (λ t. out ∷ t)
          (split_lem 10 inp [] (label-Lacks (codes "inputs: ") inputs (ground arith))) in
    ap (λ t. read_lines t ([], [])) lines
    ∙ ap (λ f. read_lines (inp ∷ [] ∷ []) f) (outputs_line outputs ([], []) a)
    ∙ ap (λ f. read_lines ([] ∷ []) f) (inputs_line inputs (outputs, []) b)
