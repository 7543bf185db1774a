-- ===== src/Cache/RoundTrip.antt =====
-- What the cache stores is read back.
use pebble_db.Prelude.{ℕ, ◌^◌, ◌<◌, Text, ok, ◌≡◌, inr, arith}
use pebble_db.Prelude.Decimal.{decimal}
use pebble_db.Prelude.Decimal.Laws.{
  decimal-AllDigits, AllDigits-Lacks, split_once_lem, parse_unsigned-decimal,
}
use pebble_db.Cache.Entry.{encode, decode}

-- A value stored with an expiration time that is a u64 is read back with this time, whatever
-- characters it has, the separator included.
pub decode_entry-encode :
    (expires_at : ℕ) (value : Text)
    → expires_at < 2 ^ 64
    → decode (encode expires_at value) ≡ ok (expires_at, value)
unfolding decode encode
decode_entry-encode expires_at value h = ground (
  arith,
  split_once_lem 58 (decimal expires_at) value
      (AllDigits-Lacks 58 (decimal expires_at) (decimal-AllDigits expires_at) (inr (omega arith))),
  parse_unsigned-decimal (2 ^ 64) expires_at h,
)
