-- ===== src/Cache/Examples.antt =====
-- A stored value on which the theorems about the entries of src/cache.rs is tried.
use pebble_db.Prelude.{codes, none, some, false, ok, ◌≡◌, refl, arith}
use pebble_db.Prelude.BTreeMap
use pebble_db.Fault.{injector}
use pebble_db.Bloom.Examples.{whole_floats}
use pebble_db.Db.Examples.{store}
use pebble_db.Cache.Entry.{encode, decode, is_expired}
use pebble_db.Cache.Cache.{PebbleCache, get, set}
use pebble_db.Cache.Lifetime.{cache_get-set}
use pebble_db.Cache.RoundTrip.{decode_entry-encode}

decode_entry-encode_example : decode (encode 1700 (codes "a:b")) ≡ ok (1700, codes "a:b")
decode_entry-encode_example = decode_entry-encode 1700 (codes "a:b") (omega arith)

abbrev cold : PebbleCache
cold = record {
  db = store none;
  stats = record { hits = 0; misses = 0; sets = 0; deletes = 0; expired = 0; clears = 0 };
}

cache_get-set_example :
    (get whole_floats 9 120
      (codes "k")
      (set whole_floats 9 100 (codes "k") (codes "v") false 50 cold).1).0
    ≡ ok (some (codes "v"))
unfolding injector BTreeMap.insert is_expired
cache_get-set_example =
    cache_get-set whole_floats 9 100 120 (codes "k") (codes "v") false 50 cold refl (omega arith)
      refl
