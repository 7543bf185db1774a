-- ===== src/Db/Examples.antt =====
-- A small store on which the theorems about src/db.rs are tried.
use pebble_db.Prelude.{
  [], ◌∷◌, ◌++◌, Text, codes, Option, none, some, ok, false, ◌≡◌, refl, arith, take, ◌<◌, length,
  is_utf8, to_le, sum_of,
}
use pebble_db.Prelude.BTreeMap
use pebble_db.Fault.{FaultInjector, Fault, injector}
use pebble_db.Fault
use pebble_db.Bloom.Examples.{whole_floats}
use pebble_db.Wal.Record.{WalRecord, encode, body}
use pebble_db.Wal.Record
use pebble_db.Wal.Record.RoundTrip.{IsValid}
use pebble_db.Wal.Writer.{append_all}
use pebble_db.Iter.Memtable.{MemtableEntry}
use pebble_db.Iter.Memtable
use pebble_db.Db.Names.{
  wal_file, sstable_file_name, parse_sstable_file_name, pending_content, parse_pending,
}
use pebble_db.Db.Names.RoundTrip.{parse-sstable_file_name, parse_pending-content}
use pebble_db.Db.State.{Db, Files, default_options}
use pebble_db.Db.Open.{replay, replay_wal}
use pebble_db.Db.Read.{get, get_inner, inner_from, search_inner, read_order}
use pebble_db.Db.Write.{set, delete}
use pebble_db.Db.Log.{IsLogged, replay_wal-IsLogged, replay_wal-torn}
use pebble_db.Db.Filter.{get-eq-get_inner}
use pebble_db.Sstable.Table.{SsTable}
use pebble_db.Db.Durable.{Ends, set-Ends, delete-Ends}
use pebble_db.Db.Lookup.{get-set, get-set_ne, get-delete}
use pebble_db.Db.Stats.{stats}
use pebble_db.Db.Stats.Totals.{IsSorted, stats-totals}

abbrev empty_log : Files
empty_log = (wal_file, []) ∷ []

abbrev pub store : Option Fault → Db
store fault = record {
  files = empty_log;
  memtable = [];
  levels = [] ∷ [];
  next_sst_id = 0;
  overflowed = false;
  options = default_options;
  counters = record { memtable_hits = 0; bloom_rejects = 0; block_reads = 0 };
  metrics = record {
    compactions = 0;
    full_compactions = 0;
    compactions_by_level = [];
    bytes_read = 0;
    bytes_written = 0;
    input_files = 0;
    output_files = 0;
    bytes_flushed = 0;
  };
  fault = injector fault;
}

abbrev key : Text
key = codes "key"

-- A fault at the boundary after the append.
abbrev after_append : Option Fault
after_append = some (record { point = Fault.after_wal_append; at = 1; mode = Fault.abort_process })

empty_log-IsLogged : IsLogged empty_log []
unfolding BTreeMap.get append_all replay
empty_log-IsLogged = record { records = []; are_valid = tt; holds = refl; replays = refl }

one-IsValid : IsValid (Record.set key key)
unfolding is_utf8
one-IsValid = (refl, refl, omega arith)

gone-IsValid : IsValid (Record.delete key)
unfolding is_utf8
gone-IsValid = (refl, omega arith)

set-Ends_example :
    Ends
      (store after_append)
      ((key, Memtable.value key) ∷ [])
      (set whole_floats 9 key key (store after_append))
unfolding BTreeMap.insert
set-Ends_example =
    set-Ends whole_floats 9 key key (store after_append) empty_log-IsLogged one-IsValid
      (omega arith)

delete-Ends_example :
    Ends
      (store after_append)
      ((key, Memtable.tombstone) ∷ [])
      (delete whole_floats 9 key (store after_append))
unfolding BTreeMap.insert
delete-Ends_example =
    delete-Ends whole_floats 9 key (store after_append) empty_log-IsLogged gone-IsValid
      (omega arith)

replay_wal-IsLogged_example : replay_wal empty_log ≡ (ok [], empty_log)
replay_wal-IsLogged_example = replay_wal-IsLogged empty_log [] empty_log-IsLogged

abbrev set_key : WalRecord
set_key = Record.set key key

abbrev torn_log : Files
torn_log = (wal_file, append_all [] (set_key ∷ []) ++ take 5 (encode set_key)) ∷ []

five-lt : 5 < length (encode set_key)
unfolding encode body to_le
five-lt = omega arith

torn_log-holds :
    BTreeMap.get wal_file torn_log ≡ some (append_all [] (set_key ∷ []) ++ take 5 (encode set_key))
unfolding BTreeMap.get
torn_log-holds = refl

replay_wal-torn_example :
    ((replay_wal torn_log).0 ≡ ok (replay (set_key ∷ []) []))
    × (BTreeMap.get wal_file (replay_wal torn_log).1 ≡ some (append_all [] (set_key ∷ [])))
replay_wal-torn_example =
    replay_wal-torn torn_log (set_key ∷ []) set_key 5 (one-IsValid, tt) one-IsValid five-lt
      torn_log-holds

get-set_example :
    ((set whole_floats 9 key key (store none)).0 ≡ ok tt)
    × ((get key (set whole_floats 9 key key (store none)).1).0 ≡ ok (some key))
unfolding injector BTreeMap.insert
get-set_example = get-set whole_floats 9 key key (store none) refl (omega arith)

get-set_ne_example :
    (get (codes "other") (set whole_floats 9 key key (store none)).1).0
    ≡ (get (codes "other") (store none)).0
unfolding injector BTreeMap.insert
get-set_ne_example =
    get-set_ne whole_floats 9 key key (codes "other") (store none) refl (omega arith) refl

get-delete_example :
    ((delete whole_floats 9 key (store none)).0 ≡ ok false)
    × ((get key (delete whole_floats 9 key (store none)).1).0 ≡ ok none)
unfolding injector BTreeMap.insert BTreeMap.get get_inner inner_from search_inner read_order
get-delete_example = get-delete whole_floats 9 key none (store none) refl (omega arith) refl

parse-sstable_file_name_example : parse_sstable_file_name (sstable_file_name 1 42) ≡ some (42, 1)
parse-sstable_file_name_example = parse-sstable_file_name 1 42 (omega arith) (omega arith)

parse_pending-content_example :
    parse_pending (pending_content (7 ∷ []) (3 ∷ 12 ∷ [])) ≡ (7 ∷ [], 3 ∷ 12 ∷ [])
parse_pending-content_example =
    parse_pending-content (7 ∷ []) (3 ∷ 12 ∷ []) (omega arith, tt) (omega arith, (omega arith, tt))

-- A table without blocks, whose filter has no bit set.
abbrev pub bare_table : SsTable
bare_table = record {
  id = 0;
  path = [];
  data' = [];
  index = [];
  bloom = record { bits = 0 ∷ []; num_bits = 64; num_hashes = 1 };
  record_count = 0;
  block_count = 0;
  last_key = none;
}

abbrev one_table : Db
one_table = record (store none) { levels = (bare_table ∷ []) ∷ [] }

get-eq-get_inner_example : (get key one_table).0 ≡ get_inner one_table key
get-eq-get_inner_example = get-eq-get_inner key one_table

stats-totals_example :
    (sum_of (λ s. s.bytes) (stats whole_floats one_table).levels
      ≡ (stats whole_floats one_table).total_sst_size)
    × (sum_of (λ s. s.files) (stats whole_floats one_table).levels
        ≡ (stats whole_floats one_table).sst_count)
    × (length (stats whole_floats one_table).sst_sizes ≡ (stats whole_floats one_table).sst_count)
    × IsSorted (stats whole_floats one_table).sst_sizes
stats-totals_example = stats-totals whole_floats one_table
