-- ===== src/Cache/Cache.antt =====
-- src/cache.rs: the methods of PebbleCache, each at the time `now` that `now_ms` reads.
use pebble_db.Prelude.{ℕ, ◌+◌, List, [], ◌∷◌, Bool, true, false, Option, some, none, Text}
use pebble_db.Prelude.{if◌then◌else◌, length, u64}
use pebble_db.Prelude.Decimal.{strip_prefix}
use pebble_db.Exec.{Exec, pure, lift, reads, modify, ◌>>=◌, ◌>>◌}
use pebble_db.Bloom.{Floats}
use pebble_db.Iter.Child.{child_storage}
use pebble_db.Iter.Range
use pebble_db.Iter.Range.{included, unbounded}
use pebble_db.Db.State.{Db, DbOptions, Files}
use pebble_db.Db.Open
use pebble_db.Db.Read
use pebble_db.Db.Write
use pebble_db.Cache.Entry.{key_prefix, no_expiry, cache_key, encode, decode, is_expired}

pub record CacheStats : Type 0 where
  pub hits : ℕ
  pub misses : ℕ
  pub sets : ℕ
  pub deletes : ℕ
  pub expired : ℕ
  pub clears : ℕ

pub record PebbleCache : Type 0 where
  pub db : Db
  pub stats : CacheStats

unfoldable open_with_options : DbOptions → Exec Files PebbleCache
open_with_options options = do
  db ← Open.open_with_options options
  pure (record {
    db = db;
    stats = record { hits = 0; misses = 0; sets = 0; deletes = 0; expired = 0; clears = 0 };
  })

-- A call of the database that the cache holds.
abbrev pub on_db : {A : Type 0} → Exec Db A → Exec PebbleCache A
on_db m c = let r = m c.db in (r.0, record c { db = r.1 })

-- `record`
abbrev pub count : (CacheStats → CacheStats) → Exec PebbleCache (Unit {0})
count update = modify λ c. record c { stats = update c.stats }

module _ (fl : Floats) (rounds now : ℕ) where
  -- `ttl` in milliseconds and whether it is zero; a shorter one than a millisecond is not zero.
  abbrev pub expiry : Bool → ℕ → ℕ
  expiry is_zero ttl_ms = if is_zero then no_expiry else u64 (now + u64 ttl_ms)

  unfoldable pub set : Text → Text → Bool → ℕ → Exec PebbleCache (Unit {0})
  set key value ttl_is_zero ttl_ms = do
    on_db (Write.set fl rounds (cache_key key) (encode (expiry ttl_is_zero ttl_ms) value))
    count (λ s. record s { sets = u64 (s.sets + 1) })

  -- An entry that was read: dropped where it is expired.
  unfoldable pub serve : Text → ℕ × Text → Exec PebbleCache (Option Text)
  serve stored_key entry =
      if is_expired now entry.0
      then (do
        on_db (Write.delete fl rounds stored_key)
        count (λ s. record s { misses = u64 (s.misses + 1); expired = u64 (s.expired + 1) })
        pure none)
      else (do count (λ s. record s { hits = u64 (s.hits + 1) }); pure (some entry.1))

  unfoldable pub get : Text → Exec PebbleCache (Option Text)
  get key = do
    let stored_key = cache_key key
    raw ← on_db (Read.get stored_key)
    elim raw [
      | none ↦ do count (λ s. record s { misses = u64 (s.misses + 1) }); pure none
      | some text ↦ do entry ← lift (decode text); serve stored_key entry
    ]

  unfoldable pub delete : Text → Exec PebbleCache Bool
  delete key = do
    existed ← on_db (Write.delete fl rounds (cache_key key))
    count (λ s. record s { deletes = u64 (s.deletes + 1) })
    pure existed

  unfoldable pub exists : Text → Exec PebbleCache Bool
  exists key = do found ← get key; pure (elim found [ none ↦ false | some v ↦ true ])

  -- The keys up to the first without the prefix.
  unfoldable pub prefixed : List (Text × Text) → List Text
  prefixed [] = []
  prefixed (p ∷ ps) = elim (strip_prefix key_prefix p.0) [ none ↦ [] | some _ ↦ p.0 ∷ prefixed ps ]

  unfoldable pub delete_all : List Text → Exec PebbleCache (Unit {0})
  delete_all [] = pure tt
  delete_all (key ∷ keys) = do on_db (Write.delete fl rounds key); delete_all keys

  unfoldable pub clear : Exec PebbleCache (Unit {0})
  clear = do
    c ← reads (λ c. c)
    let keys = prefixed (Range.collect (Read.range c.db (included key_prefix) unbounded))
    delete_all keys
    count (λ s. record s { deletes = u64 (s.deletes + length keys); clears = u64 (s.clears + 1) })
