-- ===== src/Cache/Lifetime.antt =====
-- A stored value is served until it expires.
use pebble_db.Prelude.{
  ℕ, ◌<◌, ◌^◌, Bool, true, false, none, some, Text, ok, ◌≡◌, refl, arith, length,
}
use pebble_db.Prelude.BTreeMap
use pebble_db.Bloom.{Floats}
use pebble_db.Iter.Memtable
use pebble_db.Db.Lookup.{get-set}
use pebble_db.Cache.Entry.{cache_key, encode, is_expired}
use pebble_db.Cache.RoundTrip.{decode_entry-encode}
use pebble_db.Cache.Cache.{PebbleCache, expiry, set, serve, get}

expiry-lt :
    (fl : Floats) (rounds now ttl_ms : ℕ) (is_zero : Bool)
    → expiry fl rounds now is_zero ttl_ms < 2 ^ 64
expiry-lt fl rounds now ttl_ms true = omega arith
expiry-lt fl rounds now ttl_ms false = omega arith

-- Without a fault, and where the entry does not fill the memtable, a value that the cache stores at
-- one time is found at any time at which its expiration time has not passed.
pub cache_get-set :
    (fl : Floats) (rounds stored now : ℕ) (key value : Text) (is_zero : Bool) (ttl_ms : ℕ)
    (c : PebbleCache)
    → c.db.fault.fault ≡ none
    → length (
        BTreeMap.insert
          (cache_key key)
          (Memtable.value (encode (expiry fl rounds stored is_zero ttl_ms) value))
          c.db.memtable)
      < c.db.options.flush_threshold
    → is_expired now (expiry fl rounds stored is_zero ttl_ms) ≡ false
    → (get fl rounds now key (set fl rounds stored key value is_zero ttl_ms c).1).0
      ≡ ok (some value)
unfolding set get serve
cache_get-set fl rounds stored now key value is_zero ttl_ms c h few fresh =
    let at = expiry fl rounds stored is_zero ttl_ms in
    let (done, found) = get-set fl rounds (cache_key key) (encode at value) c.db h few in
    rw
      (done, found, decode_entry-encode at value (expiry-lt fl rounds stored ttl_ms is_zero), fresh)
      refl
