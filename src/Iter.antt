-- ===== src/Iter.antt =====
-- src/iter.rs: the cursors over one source, and the iterators that merge them.
pub mod Storage
pub mod Rows
pub mod Memtable
pub mod Table
pub mod Child
pub mod Cursor
pub mod Merge
pub mod Range
