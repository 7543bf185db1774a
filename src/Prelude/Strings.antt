-- ===== src/Prelude/Strings.antt =====
-- Rust strings as their bytes: valid UTF-8, and the byte order of `str`'s comparison.
use Prim.Native.Nat.{ℕ, compare, Ordering}
use Prim.Native.Char.{code}
use Prim.Native.String.{String}
use mathlib.Core.Bool.{Bool, true, false, ◌&&◌}
use mathlib.Core.List.{List, [], ◌∷◌}
use mathlib.Core.Option.{Option, none, some}
use pebble_db.Prelude.Tests.{leb, if◌then◌else◌}

abbrev pub Text : Type 0
Text = List ℕ

-- The bytes of an ASCII literal.
abbrev pub codes : String → Text
codes String.[] = []
codes (String.◌∷◌ c s) = code c ∷ codes s

-- `str::cmp`: the bytes in turn, a proper prefix being smaller.
abbrev pub cmp : Text → Text → Ordering
cmp [] [] = Ordering.eq
cmp [] (y ∷ ys) = Ordering.lt
cmp (x ∷ xs) [] = Ordering.gt
cmp (x ∷ xs) (y ∷ ys) =
    let rest = cmp xs ys in
    elim (compare x y) [
      | Ordering.lt ↦ Ordering.lt
      | Ordering.eq ↦ rest
      | Ordering.gt ↦ Ordering.gt
    ]

abbrev pub is_lt : Ordering → Bool
is_lt Ordering.lt = true
is_lt _ = false

abbrev pub is_eq : Ordering → Bool
is_eq Ordering.eq = true
is_eq _ = false

abbrev pub is_le : Ordering → Bool
is_le Ordering.gt = false
is_le _ = true

abbrev pub text_lt : Text → Text → Bool
text_lt a b = is_lt (cmp a b)

abbrev pub text_le : Text → Text → Bool
text_le a b = is_le (cmp a b)

abbrev pub text_eq : Text → Text → Bool
text_eq a b = is_eq (cmp a b)

abbrev within : ℕ → ℕ → ℕ → Bool
within lo hi b = leb lo b && leb b hi

-- A lead byte says how many continuation bytes follow, and the range of the first of them.
abbrev second_ok : ℕ → ℕ → Bool
second_ok lead b =
    if within 0xe0 0xe0 lead
    then within 0xa0 0xbf b
    else if within 0xed 0xed lead
    then within 0x80 0x9f b
    else if within 0xf0 0xf0 lead
    then within 0x90 0xbf b
    else if within 0xf4 0xf4 lead
    then within 0x80 0x8f b
    else within 0x80 0xbf b

-- The test that `String::from_utf8` makes (the well-formed sequences of Unicode's table 3-7).
unfoldable pub is_utf8 : List ℕ → Bool
is_utf8 [] = true
is_utf8 (a ∷ []) = leb a 0x7f
is_utf8 (a ∷ b ∷ []) =
    let ascii = is_utf8 (b ∷ []) in
    if leb a 0x7f then ascii else within 0xc2 0xdf a && within 0x80 0xbf b
is_utf8 (a ∷ b ∷ c ∷ []) =
    let ascii = is_utf8 (b ∷ c ∷ []) in
    let two = is_utf8 (c ∷ []) in
    if leb a 0x7f
    then ascii
    else if leb a 0xdf
    then within 0xc2 0xdf a && (within 0x80 0xbf b && two)
    else within 0xe0 0xef a && (second_ok a b && within 0x80 0xbf c)
is_utf8 (a ∷ b ∷ c ∷ d ∷ s) =
    let ascii = is_utf8 (b ∷ c ∷ d ∷ s) in
    let two = is_utf8 (c ∷ d ∷ s) in
    let three = is_utf8 (d ∷ s) in
    let four = is_utf8 s in
    if leb a 0x7f
    then ascii
    else if leb a 0xdf
    then within 0xc2 0xdf a && (within 0x80 0xbf b && two)
    else if leb a 0xef
    then within 0xe0 0xef a && (second_ok a b && (within 0x80 0xbf c && three))
    else within 0xf0 0xf4 a
      && (second_ok a b && (within 0x80 0xbf c && (within 0x80 0xbf d && four)))

-- `String::from_utf8`
unfoldable pub from_utf8 : List ℕ → Option Text
from_utf8 bytes = if is_utf8 bytes then some bytes else none
