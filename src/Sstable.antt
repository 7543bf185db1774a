-- ===== src/Sstable.antt =====
-- src/sstable.rs: the table files, written once and read back in blocks.
pub mod Table
pub mod Holds
pub mod Block
pub mod Writer
pub mod Examples
