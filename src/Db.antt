-- ===== src/Db.antt =====
-- src/db.rs: PebbleDB.
pub mod Names
pub mod State
pub mod Files
pub mod Open
pub mod Read
pub mod Plan
pub mod Compact
pub mod Write
pub mod Log
pub mod Durable
pub mod Flush
pub mod Lookup
pub mod WellFormed
pub mod Readable
pub mod Scan
pub mod Stats
pub mod Settled
pub mod Filter
pub mod Examples
