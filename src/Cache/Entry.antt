-- ===== src/Cache/Entry.antt =====
-- src/cache.rs: cache_key, encode, decode and is_expired.
use pebble_db.Prelude.{ℕ, ◌^◌, ◌∷◌, ◌++◌, Bool, ◌&&◌, not, some, none, Text, codes}
use pebble_db.Prelude.{
  Outcome, ok, err, cache_corruption, no_expiration, invalid_expiration, ◌==◌, leb,
}
use pebble_db.Prelude.Decimal.{decimal, parse_unsigned, split_once}

abbrev pub key_prefix : Text
key_prefix = codes "cache:"

abbrev pub no_expiry : ℕ
no_expiry = 0

unfoldable pub cache_key : Text → Text
cache_key key = key_prefix ++ key

unfoldable pub encode : ℕ → Text → Text
encode expires_at value = decimal expires_at ++ 58 ∷ value

unfoldable pub decode : Text → Outcome (ℕ × Text)
decode raw = elim (split_once 58 raw) [
  | none ↦ err (cache_corruption (no_expiration raw))
  | some parts ↦ elim (parse_unsigned (2 ^ 64) parts.0) [
    | none ↦ err (cache_corruption (invalid_expiration parts.0))
    | some expires_at ↦ ok (expires_at, parts.1)
  ]
]

-- At the time `now`, in milliseconds.
unfoldable pub is_expired : ℕ → ℕ → Bool
is_expired now expires_at = not (expires_at == no_expiry) && leb expires_at now
