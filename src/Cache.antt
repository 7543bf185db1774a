-- ===== src/Cache.antt =====
-- src/cache.rs: PebbleCache.
pub mod Entry
pub mod RoundTrip
pub mod Cache
pub mod Lifetime
mod Examples
