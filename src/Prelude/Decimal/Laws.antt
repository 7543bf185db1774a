-- ===== src/Prelude/Decimal/Laws.antt =====
-- Numbers are read back from their decimal digits, and texts from between their separators.
use Prim.Native.Nat.{ℕ, zero, suc, ◌+◌, ◌-◌, ◌/◌, ◌%◌, ◌≤◌, ◌<◌}
use mathlib.Core.Path.{◌≡◌, refl, ◌∙◌}
use mathlib.Core.Logic.{◌≢◌, ◌⊎◌, inl, inr}
use mathlib.Core.List.{[], ◌∷◌, ◌++◌, reverse, reverse_aux, reverse-reverse}
use mathlib.Core.Option.{some}
use native.Mathlib.Omega.{arith}
use pebble_db.Prelude.Lists.{length, replicate, length-append, take_append, drop_append}
use pebble_db.Prelude.Strings.{Text}
use pebble_db.Prelude.Order.{text_eq_refl}
use pebble_db.Prelude.Tests.{ltb, Bool-cases, leb-true}
use pebble_db.Prelude.Decimal.{
  digits_loop, decimal, padded, parse_digits, parse_unsigned, strip_suffix, split_once, split, trim,
  trim_start,
}

abbrev pub AllDigits : Text → Type 0
AllDigits [] = Unit
AllDigits (c ∷ cs) = ((48 ≤ c) × (c ≤ 57)) × AllDigits cs

-- No character of the text is `sep`.
abbrev pub Lacks : ℕ → Text → Type 0
Lacks sep [] = Unit
Lacks sep (c ∷ cs) = (c ≢ sep) × Lacks sep cs

pub AllDigits-Lacks : (sep : ℕ) (t : Text) → AllDigits t → (sep < 48) ⊎ (57 < sep) → Lacks sep t
AllDigits-Lacks sep [] d h = tt
AllDigits-Lacks sep (c ∷ cs) d h = (ground (arith, d.0), AllDigits-Lacks sep cs d.1 h)

digits_loop-AllDigits :
    (fuel n : ℕ) (rest : Text) → AllDigits rest → AllDigits (digits_loop fuel n rest)
unfolding digits_loop
digits_loop-AllDigits zero n rest d = d
digits_loop-AllDigits (suc fuel) n rest d = elim (Bool-cases (ltb n 10)) [
  | inl last ↦ rw last ((omega arith, ground arith), d)
  | inr more ↦
      rw more
        (digits_loop-AllDigits fuel (n / 10) ((48 + n % 10) ∷ rest) ((omega arith, omega arith), d))
]

length-digits_loop : (fuel n : ℕ) (rest : Text) → length rest ≤ length (digits_loop fuel n rest)
unfolding digits_loop
length-digits_loop zero n rest = omega arith
length-digits_loop (suc fuel) n rest =
    ground (arith, length-digits_loop fuel (n / 10) ((48 + n % 10) ∷ rest))

parse_digits-digits_loop :
    (limit fuel n : ℕ) (rest : Text)
    → n < fuel
    → n < limit
    → parse_digits limit 0 (digits_loop fuel n rest) ≡ parse_digits limit n rest
unfolding digits_loop parse_digits
parse_digits-digits_loop limit zero n rest h b = absurd (omega arith)
parse_digits-digits_loop limit (suc fuel) n rest h b =
    ground (arith, parse_digits-digits_loop limit fuel (n / 10) ((48 + n % 10) ∷ rest))

pub decimal-AllDigits : (n : ℕ) → AllDigits (decimal n)
unfolding decimal
decimal-AllDigits n = digits_loop-AllDigits (suc n) n [] tt

decimal-ne-nil : (n : ℕ) → 0 < length (decimal n)
unfolding decimal digits_loop
decimal-ne-nil n = ground (arith, length-digits_loop n (n / 10) ((48 + n % 10) ∷ []))

-- A text of digits is parsed as its digits are.
parse_unsigned-AllDigits :
    (limit : ℕ) (t : Text)
    → AllDigits t
    → 0 < length t
    → parse_unsigned limit t ≡ parse_digits limit 0 t
unfolding parse_unsigned
parse_unsigned-AllDigits limit [] d h = absurd (omega arith)
parse_unsigned-AllDigits limit (c ∷ []) d h = ground arith
parse_unsigned-AllDigits limit (c ∷ e ∷ cs) d h = ground arith

parse_digits-decimal : (limit n : ℕ) → n < limit → parse_digits limit 0 (decimal n) ≡ some n
unfolding decimal
parse_digits-decimal limit n h =
    parse_digits-digits_loop limit (suc n) n [] (omega arith) h ∙ (unfold parse_digits in refl)

-- `parse` reads back what `to_string` writes.
pub parse_unsigned-decimal : (limit n : ℕ) → n < limit → parse_unsigned limit (decimal n) ≡ some n
parse_unsigned-decimal limit n h =
    parse_unsigned-AllDigits limit (decimal n) (decimal-AllDigits n) (decimal-ne-nil n)
    ∙ parse_digits-decimal limit n h

AllDigits-zeros : (k : ℕ) (t : Text) → AllDigits t → AllDigits (replicate k 48 ++ t)
AllDigits-zeros zero t d = d
AllDigits-zeros (suc k) t d = ((omega arith, omega arith), AllDigits-zeros k t d)

parse_digits-zeros :
    (limit k : ℕ) (t : Text)
    → 0 < limit
    → parse_digits limit 0 (replicate k 48 ++ t) ≡ parse_digits limit 0 t
unfolding parse_digits
parse_digits-zeros limit zero t h = refl
parse_digits-zeros limit (suc k) t h = ground (arith, parse_digits-zeros limit k t h)

pub padded-AllDigits : (width n : ℕ) → AllDigits (padded width n)
unfolding padded
padded-AllDigits width n =
    AllDigits-zeros (width - length (decimal n)) (decimal n) (decimal-AllDigits n)

-- Leading zeros are read over.
pub parse_unsigned-padded :
    (limit width n : ℕ) → n < limit → parse_unsigned limit (padded width n) ≡ some n
unfolding padded
parse_unsigned-padded limit width n h =
    let zeros = width - length (decimal n) in
    parse_unsigned-AllDigits limit (replicate zeros 48 ++ decimal n)
      (AllDigits-zeros zeros (decimal n) (decimal-AllDigits n))
      (omega (arith, length-append (replicate zeros 48) (decimal n), decimal-ne-nil n))
    ∙ parse_digits-zeros limit zeros (decimal n) (omega arith)
    ∙ parse_digits-decimal limit n h

pub split_once_lem :
    (sep : ℕ) (t rest : Text) → Lacks sep t → split_once sep (t ++ sep ∷ rest) ≡ some (t, rest)
unfolding split_once
split_once_lem sep [] rest h = ground arith
split_once_lem sep (c ∷ cs) rest h = ground (arith, split_once_lem sep cs rest h.1, h.0)

pub split_lem :
    (sep : ℕ) (t rest : Text) → Lacks sep t → split sep (t ++ sep ∷ rest) ≡ t ∷ split sep rest
unfolding split
split_lem sep [] rest h = ground arith
split_lem sep (c ∷ cs) rest h = ground (arith, split_lem sep cs rest h.1, h.0)

pub split_last : (sep : ℕ) (t : Text) → Lacks sep t → split sep t ≡ t ∷ []
unfolding split
split_last sep [] h = refl
split_last sep (c ∷ cs) h = ground (arith, split_last sep cs h.1, h.0)

pub strip_suffix_lem : (suffix t : Text) → strip_suffix suffix (t ++ suffix) ≡ some t
unfolding strip_suffix
strip_suffix_lem suffix t =
    let size : length (t ++ suffix) - length suffix ≡ length t =
      omega (arith, length-append t suffix) in
    rw
      (
        size,
        drop_append t suffix,
        take_append t suffix,
        text_eq_refl suffix,
        leb-true (length suffix) (length (t ++ suffix)) (omega (arith, length-append t suffix)),
      )
      refl

AllDigits-reverse_aux : (t acc : Text) → AllDigits t → AllDigits acc → AllDigits (reverse_aux t acc)
AllDigits-reverse_aux [] acc d e = e
AllDigits-reverse_aux (c ∷ cs) acc d e = AllDigits-reverse_aux cs (c ∷ acc) d.1 (d.0, e)

trim_start-AllDigits : (t : Text) → AllDigits t → trim_start t ≡ t
unfolding trim_start
trim_start-AllDigits [] d = refl
trim_start-AllDigits (c ∷ cs) d = ground arith

pub trim-AllDigits : (t : Text) → AllDigits t → trim t ≡ t
unfolding trim
trim-AllDigits t d =
    rw
      (trim_start-AllDigits t d, trim_start-AllDigits (reverse t) (AllDigits-reverse_aux t [] d tt))
      (reverse-reverse t)

pub trim-space : (t : Text) → AllDigits t → trim (32 ∷ t) ≡ t
unfolding trim trim_start
trim-space t d = trim-AllDigits t d

pub Lacks-append : (sep : ℕ) (s t : Text) → Lacks sep s → Lacks sep t → Lacks sep (s ++ t)
Lacks-append sep [] t a b = b
Lacks-append sep (c ∷ cs) t a b = (a.0, Lacks-append sep cs t a.1 b)
