-- ===== src/Wal.antt =====
-- src/wal.rs: the checksum, the records of the write-ahead log, and the readers and writers of
-- a log file, which is the list of its bytes.
pub mod Crc
pub mod Record
pub mod Writer
pub mod Reader
mod Examples
