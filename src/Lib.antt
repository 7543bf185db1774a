-- ===== src/Lib.antt =====
-- PebbleDB: a key-value store as a log-structured merge tree, with a cache on top (src/*.rs).
--
-- A write goes to the write-ahead log, then to the memtable; a full memtable is flushed to a table
-- file of level 0, and the log is truncated. Compaction merges tables of one level into the next.
-- Opening a directory finishes an interrupted merge, loads the tables and replays the log. A fault
-- injector is consulted at every boundary of these steps.
--
-- The files and the code they model:
--   Prelude     the shared vocabulary: native numbers, u32 and u64 words and their bytes, Rust
--               strings as lists of bytes with the order of `str`, decimal numbers, BTreeMap as
--               the list of its entries in key order, and the outcome of a fallible call with the
--               errors of src/error.rs
--   Wal         src/wal.rs: crc32, WalRecord::encode and decode, WalWriter, WalReader
--   Bloom       src/bloom.rs: BloomFilter
--   Fault       src/fault.rs: FaultPoint, Fault, FaultInjector
--   Compaction  src/compaction.rs: level capacities and pick_compaction
--   Sstable     src/sstable.rs: Block (records and blocks), Table (parse, load, get, entries),
--               Writer (write_sstable). Holds says when a loaded table holds given entries and is
--               about the lookup in it; the modules below Writer follow the bytes of a file from
--               the writer (Adding, Blocks, Sealed) to the parser (Reading, Load), and Refinement
--               composes the two
--   Iter        src/iter.rs: Storage (the trait StorageIterator), Memtable, Table, Child (the
--               boxed cursors), Merge, Range. Rows is the list of what a cursor still has to yield,
--               with the map of several sources, of which an earlier one hides the later ones;
--               Cursor is what an implementor of the trait promises over Rows, which OfMemtable,
--               OfTable and OfChild fill and the modules below Merge and Range take as a parameter
--   Exec        methods that change a state and may fail; Triple is about what they leave
--   Db          src/db.rs: Names, State, Files, Open, Read, Plan, Compact, Write, Stats; Log and
--               Durable are about the log and the memtable, Lookup and Filter about reads, Readable
--               and Scan about range and scan, the modules below Compact about the merge of
--               tables, Flush and Settled about a flush, WellFormed about the invariant of all
--               states
--   Cache       src/cache.rs: Entry (the codec), Cache (PebbleCache), Lifetime
--   Cli         src/cli.rs: run, from the arguments to the lines it prints and the exit code
--   Crash       src/bin/crash_child.rs: main, from the environment to the lines it prints and the
--               exit code
-- The modules Examples hold the concrete inputs on which the theorems are tried.
--
-- Conventions. A file is the list of its bytes and a directory a map from names to files. A Rust
-- panic, an abort of the process and an error are different outcomes; what a method did before it
-- failed stays done. Integers keep the wrap-around of their width where it can show.
-- Whether the number of the next table has wrapped around, where a build with overflow checks
-- panics, stands in a field of Db that the code does not have.
--
-- Fuel. The log reader has one round for each byte of the file and one more, and every round but
-- the last consumes bytes. A cursor over a table loads at most the blocks that are left. A merge
-- and the loop that collects a range or gathers the rows of a compaction have one round for each
-- row that the cursors have left and one more, and each round but the last moves past a row; the
-- record of a cursor has the number of these rows beside the operations of the trait. Compaction of all pending levels takes its number of rounds as an
-- argument, since the loop of the code has no bound of its own.
--
-- Parameters. The f64 arithmetic that sizes a Bloom filter and gives the write amplification is a
-- record of operations, the current time of the cache is an argument, and so are the texts of an
-- error and of a number with two digits that the command line and the child process print.
--
-- Not modelled: failures of the operating system other than a missing file, fsync and buffering
-- (an append is in the file when it returns), threads (each method holds the lock for its whole
-- length), and arguments of the command line that are no UTF-8.
pub mod Prelude
pub mod Wal
pub mod Bloom
pub mod Fault
pub mod Compaction
pub mod Sstable
pub mod Iter
pub mod Exec
pub mod Db
pub mod Cache
pub mod Cli
pub mod Crash
