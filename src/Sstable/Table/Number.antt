-- ===== src/Sstable/Table/Number.antt =====
-- A loaded table has the number it was loaded under.
use pebble_db.Prelude.{
  ℕ, List, Text, Outcome, ok, err, panic, aborted, diverged, ◌>>=◌, ◌≡◌, refl, ◌∙◌, arith, ◌==◌,
  length,
}
use mathlib.Core.Path.{subst}
use pebble_db.Prelude.{
  ◌+◌, ◌-◌, take, ltb, not, fail_if, ok_or, u32_at, sstable_corruption, file_too_short,
  invalid_magic, unsupported_version, checksum_mismatch, invalid_bloom,
}
use pebble_db.Wal.Crc.{crc32}
use pebble_db.Bloom
use pebble_db.Sstable.Table.{header_size, footer_size, magic, version, part, parse_index}
use pebble_db.Sstable.Table.{SsTable, parse, derive_last_key, load}

abbrev Returns : {A : Type 0} → (A → Type 0) → Outcome A → Type 0
Returns Q (ok a) = Q a
Returns Q _ = Unit

Returns-bind :
    {A B : Type 0} (Q : B → Type 0) (m : Outcome A) (k : A → Outcome B)
    → ((a : A) → Returns Q (k a))
    → Returns Q (m >>= k)
Returns-bind Q (ok a) k h = h a
Returns-bind Q (err e) k h = tt
Returns-bind Q panic k h = tt
Returns-bind Q aborted k h = tt
Returns-bind Q diverged k h = tt

parse-id : (id : ℕ) (path : Text) (data' : List ℕ) → Returns (λ t. t.id ≡ id) (parse id path data')
unfolding parse
parse-id id path data' =
    let Q : SsTable → Type 0 = λ t. t.id ≡ id in
    let start = length data' - footer_size in
    let check = crc32 (take (length data' - 4) data') in
    let bad = sstable_corruption in
    Returns-bind Q (fail_if (ltb (length data') (header_size + footer_size)) (bad file_too_short)) _
      λ _. Returns-bind Q (fail_if (not (u32_at data' 0 == magic)) (bad invalid_magic)) _ λ _.
        Returns-bind Q
          (fail_if (not (u32_at data' 4 == version)) (bad (unsupported_version (u32_at data' 4)))) _
          λ _.
            Returns-bind Q
              (fail_if (not (u32_at data' (start + 16) == check)) (bad checksum_mismatch)) _
              λ _.
                Returns-bind Q (part data' (u32_at data' start) (u32_at data' (start + 4))) _
                  λ index_data. Returns-bind Q (parse_index index_data) _ λ _.
                    Returns-bind Q
                      (part data' (u32_at data' (start + 8)) (u32_at data' (start + 12))) _
                      λ bloom_data.
                        Returns-bind Q (ok_or (Bloom.decode bloom_data) (bad invalid_bloom)) _
                          λ _. refl

derive_last_key-id : (t : SsTable) → (derive_last_key t).id ≡ t.id
unfolding derive_last_key
derive_last_key-id t = ground arith

load-Returns :
    (id : ℕ) (path : Text) (data' : List ℕ) → Returns (λ t. t.id ≡ id) (load id path data')
unfolding load
load-Returns id path data' = go (parse id path data') (parse-id id path data')
  where
    go :
        (o : Outcome SsTable)
        → Returns (λ t. t.id ≡ id) o
        → Returns (λ t. t.id ≡ id) (o >>= λ sst. ok (derive_last_key sst))
    go (ok t) h = derive_last_key-id t ∙ h
    go (err e) h = tt
    go panic h = tt
    go aborted h = tt
    go diverged h = tt

pub load-id :
    (id : ℕ) (path : Text) (data' : List ℕ) (t : SsTable) → load id path data' ≡ ok t → t.id ≡ id
load-id id path data' t e = subst (Returns (λ u. u.id ≡ id)) e (load-Returns id path data')
