-- ===== src/Prelude/Decimal.antt =====
-- Decimal numbers in texts, and the `str` methods that the program uses to take texts apart.
pub mod Laws
use Prim.Native.Nat.{ℕ, zero, suc, ◌+◌, ◌-◌, ◌*◌, ◌/◌, ◌%◌}
use mathlib.Core.Bool.{Bool, true, false, ◌&&◌, ◌||◌}
use mathlib.Core.List.{List, [], ◌∷◌, ◌++◌, reverse}
use mathlib.Core.Option.{Option, none, some}
use pebble_db.Prelude.Tests.{ltb, leb, ◌==◌, if◌then◌else◌}
use pebble_db.Prelude.Lists.{length, take, drop, replicate}
use pebble_db.Prelude.Strings.{Text, text_eq}

-- The digits of a number, the last of them put before `rest`; a number has fewer digits than
-- its value plus one.
unfoldable pub digits_loop : ℕ → ℕ → Text → Text
digits_loop zero n rest = rest
digits_loop (suc fuel) n rest =
    let more = digits_loop fuel (n / 10) ((48 + n % 10) ∷ rest) in
    if ltb n 10 then (48 + n) ∷ rest else more

-- `to_string()`
unfoldable pub decimal : ℕ → Text
decimal n = digits_loop (suc n) n []

-- `{:0width}`
unfoldable pub padded : ℕ → ℕ → Text
padded width n = replicate (width - length (decimal n)) 48 ++ decimal n

unfoldable pub parse_digits : ℕ → ℕ → Text → Option ℕ
parse_digits limit acc [] = some acc
parse_digits limit acc (c ∷ cs) =
    let next = acc * 10 + (c - 48) in
    let rest = parse_digits limit next cs in
    if leb 48 c && (leb c 57 && ltb next limit) then rest else none

-- `parse` at an unsigned type of `limit` values: an optional plus, and digits without overflow.
unfoldable pub parse_unsigned : ℕ → Text → Option ℕ
parse_unsigned limit [] = none
parse_unsigned limit (c ∷ []) = if c == 43 then none else parse_digits limit 0 (c ∷ [])
parse_unsigned limit (c ∷ d ∷ cs) =
    if c == 43 then parse_digits limit 0 (d ∷ cs) else parse_digits limit 0 (c ∷ d ∷ cs)

unfoldable pub strip_prefix : Text → Text → Option Text
strip_prefix [] text = some text
strip_prefix (p ∷ ps) [] = none
strip_prefix (p ∷ ps) (c ∷ cs) = let rest = strip_prefix ps cs in if p == c then rest else none

unfoldable pub strip_suffix : Text → Text → Option Text
strip_suffix suffix text =
    let n = length text - length suffix in
    if leb (length suffix) (length text) && text_eq (drop n text) suffix
    then some (take n text)
    else none

unfoldable pub ends_with : Text → Text → Bool
ends_with suffix text = elim (strip_suffix suffix text) [ none ↦ false | some _ ↦ true ]

-- `split_once` at an ASCII character.
unfoldable pub split_once : ℕ → Text → Option (Text × Text)
split_once sep [] = none
split_once sep (c ∷ cs) =
    let rest = split_once sep cs in
    if c == sep then some ([], cs) else elim rest [ none ↦ none | some p ↦ some (c ∷ p.0, p.1) ]

abbrev put_first : ℕ → List Text → List Text
put_first c [] = (c ∷ []) ∷ []
put_first c (t ∷ ts) = (c ∷ t) ∷ ts

-- `split` at an ASCII character.
unfoldable pub split : ℕ → Text → List Text
split sep [] = [] ∷ []
split sep (c ∷ cs) = let rest = split sep cs in if c == sep then [] ∷ rest else put_first c rest

-- ASCII white space; the other white space of Unicode does not occur in what the program writes.
abbrev is_space : ℕ → Bool
is_space c = c == 32 || (leb 9 c && leb c 13)

trim_start : Text → Text
trim_start [] = []
trim_start (c ∷ cs) = let rest = trim_start cs in if is_space c then rest else c ∷ cs

unfoldable pub trim : Text → Text
unfolding trim_start
trim text = reverse (trim_start (reverse (trim_start text)))
