-- ===== src/Db/Names/Bounds.antt =====
-- The numbers that the names of table files tell.
use pebble_db.Prelude.{
  ℕ, ◌+◌, ◌*◌, ◌-◌, ◌<◌, ◌^◌, [], ◌∷◌, Text, codes, Option, none, some, Bool-cases, ◌&&◌, ◌==◌, inl,
  inr, leb, ltb,
}
use pebble_db.Prelude.{arith}
use pebble_db.Prelude.Decimal.{parse_digits, parse_unsigned, strip_prefix, strip_suffix, split_once}
use pebble_db.Db.Names.{parse_sstable_file_name, ◌>>=◌}

abbrev pub Holds : {A : Type 0} → (A → Type 0) → Option A → Type 0
Holds P none = Unit
Holds P (some a) = P a

Holds-bind :
    {A B : Type 0} (P : A → Type 0) (Q : B → Type 0) (m : Option A) (k : A → Option B)
    → Holds P m
    → ((a : A) → P a → Holds Q (k a))
    → Holds Q (m >>= k)
Holds-bind P Q none k h n = tt
Holds-bind P Q (some a) k h n = n a h

anything : {A : Type 0} (m : Option A) → Holds (λ _. Unit) m
anything none = tt
anything (some a) = tt

module _ (limit : ℕ) where
  abbrev IsUnder : ℕ → Type 0
  IsUnder n = n < limit

  parse_digits-IsUnder :
      (acc : ℕ) (text : Text) → acc < limit → Holds IsUnder (parse_digits limit acc text)
  unfolding parse_digits
  parse_digits-IsUnder acc [] h = h
  parse_digits-IsUnder acc (c ∷ cs) h =
      let next = acc * 10 + (c - 48) in
      elim (Bool-cases (leb 48 c && (leb c 57 && ltb next limit))) [
        | inl digit ↦
            let small : next < limit = ground (arith, digit) in
            rw digit (parse_digits-IsUnder next cs small)
        | inr other ↦ rw other tt
      ]

  parse_unsigned-IsUnder : (text : Text) → 0 < limit → Holds IsUnder (parse_unsigned limit text)
  unfolding parse_unsigned
  parse_unsigned-IsUnder [] h = tt
  parse_unsigned-IsUnder (c ∷ []) h = elim (Bool-cases (c == 43)) [
    | inl plus ↦ rw plus tt
    | inr other ↦ rw other (parse_digits-IsUnder 0 (c ∷ []) h)
  ]
  parse_unsigned-IsUnder (c ∷ d ∷ cs) h = elim (Bool-cases (c == 43)) [
    | inl plus ↦ rw plus (parse_digits-IsUnder 0 (d ∷ cs) h)
    | inr other ↦ rw other (parse_digits-IsUnder 0 (c ∷ d ∷ cs) h)
  ]

-- The number is a u64.
abbrev pub IsU64 : ℕ × ℕ → Type 0
IsU64 p = p.0 < 2 ^ 64

pub parse_sstable_file_name-IsU64 : (name : Text) → Holds IsU64 (parse_sstable_file_name name)
unfolding parse_sstable_file_name
parse_sstable_file_name-IsU64 name =
    Holds-bind (λ _. Unit) IsU64 (strip_prefix (codes "sstable_") name) _ (anything _)
      λ rest _.
        Holds-bind (λ _. Unit) IsU64 (strip_suffix (codes ".sst") rest) _ (anything _)
          λ stem _. go stem (strip_prefix (codes "L") stem)
  where
    go :
        (stem : Text) (o : Option Text)
        → Holds IsU64 (elim o as (λ _. Option (ℕ × ℕ)) [
          | some tail ↦ do
            parts ← split_once 95 tail
            id ← parse_unsigned (2 ^ 64) parts.1
            level ← parse_unsigned (2 ^ 32) parts.0
            some (id, level)
          | none ↦ do id ← parse_unsigned (2 ^ 64) stem; some (id, 0)
        ])
    go stem none =
        Holds-bind (IsUnder (2 ^ 64)) IsU64 (parse_unsigned (2 ^ 64) stem) _
          (parse_unsigned-IsUnder (2 ^ 64) stem (omega arith)) (λ id h. h)
    go stem (some tail) =
        Holds-bind (λ _. Unit) IsU64 (split_once 95 tail) _ (anything _)
          λ parts _.
            Holds-bind (IsUnder (2 ^ 64)) IsU64 (parse_unsigned (2 ^ 64) parts.1) _
              (parse_unsigned-IsUnder (2 ^ 64) parts.1 (omega arith))
              λ id h.
                Holds-bind (λ _. Unit) IsU64 (parse_unsigned (2 ^ 32) parts.0) _ (anything _)
                  (λ level _. h)
