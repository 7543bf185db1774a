-- ===== src/Db/WellFormed.antt =====
-- The invariant of the database: the memtable in key order, a level 0, and numbers of tables below
-- the next one, until that wraps around. Calls on the files and the boundaries of faults keep it.
pub mod Compact
pub mod Levels
pub mod Merge
pub mod Open
pub mod Reachable
mod Examples
pub mod Write
use pebble_db.Prelude.{Bool, true, false, Bool-cases, inl, inr, ◌||◌, ◌^◌, leb, u64}
use pebble_db.Prelude.{ℕ, ◌+◌, ◌<◌, ◌≤◌, List, [], ◌∷◌, ◌++◌, Text, Outcome, ok, map, length, All}
use pebble_db.Prelude.{◌≡◌, refl, sym, ap, arith}
use mathlib.Core.Path.{subst}
use pebble_db.Prelude.BTreeMap.{BTreeMap}
use pebble_db.Prelude.BTreeMap.Ascending.{Ascending}
use pebble_db.Exec.{Exec, pure, lift, modify, ◌>>=◌, ◌>>◌}
use pebble_db.Exec.Triple.{Leaves, Triple, Leaves-both, Triple-bind}
use pebble_db.Fault.{FaultPoint}
use pebble_db.Fault
use pebble_db.Bloom.{Floats}
use pebble_db.Sstable.Block.{Entries}
use pebble_db.Sstable.Table.{SsTable}
use pebble_db.Sstable.Table
use pebble_db.Sstable.Table.Number.{load-id}
use pebble_db.Sstable.Writer.{write_sstable}
use pebble_db.Iter.Memtable.{MemtableEntry}
use pebble_db.Db.Names.{sstable_file_name, tmp_suffix}
use pebble_db.Db.State.{Db, Files}
use pebble_db.Db.Files.{hit, on_files, write_file, rename_file, read_file, write_level_file}

abbrev pub AllBelow : ℕ → List ℕ → Type 0
AllBelow n ids = All (λ id. id < n) ids

abbrev pub ids_of : List SsTable → List ℕ
ids_of tables = map (λ t. t.id) tables

-- Numbers are below the next one until that wraps around, and a u64 after that.
abbrev pub limit : ℕ → Bool → ℕ
limit next true = 2 ^ 64
limit next false = next

abbrev pub bound : Db → ℕ
bound db = limit db.next_sst_id db.overflowed

-- `ids` are the numbers of tables that a job has written and that no level holds yet.
pub record WellFormed (ids : List ℕ) (memtable : BTreeMap MemtableEntry)
    (levels : List (List SsTable)) (next : ℕ) (overflowed : Bool) : Type 0 where
  pub ordered : Ascending memtable
  pub based : 1 ≤ length levels
  pub fits : next < 2 ^ 64
  pub numbered : All (λ files. AllBelow (limit next overflowed) (ids_of files)) levels
  pub written : AllBelow (limit next overflowed) ids

abbrev pub IsFine : List ℕ → Db → Type 0
IsFine ids db = WellFormed ids db.memtable db.levels db.next_sst_id db.overflowed

-- A number and the next one, both below `m`, are below the limit after `m` is taken as the next.
pub limit_lem :
    (next id m : ℕ) (o : Bool)
    → next < 2 ^ 64
    → id < 2 ^ 64
    → next < m
    → id < m
    → (limit next o ≤ limit (u64 m) (o || leb (2 ^ 64) m))
      × (id < limit (u64 m) (o || leb (2 ^ 64) m))
      × (u64 m < 2 ^ 64)
limit_lem next id m true p q r t = (omega arith, q, omega arith)
limit_lem next id m false p q r t = elim (Bool-cases (leb (2 ^ 64) m)) [
  | inl wraps ↦ rw wraps (omega arith, q, omega arith)
  | inr within ↦
      let small : m < 2 ^ 64 = ground (arith, within) in
      rw within (omega (arith, small), omega (arith, small), omega arith)
]

abbrev pub IsWellFormed : Db → Type 0
IsWellFormed db = IsFine [] db

pub IsFine-nil : (ids : List ℕ) (db : Db) → IsFine ids db → IsWellFormed db
IsFine-nil ids db h = record {
  ordered = h.ordered;
  fits = h.fits;
  based = h.based;
  numbered = h.numbered;
  written = tt;
}

-- A method that takes the tables `ids` and leaves those that its result tells.
abbrev pub Keeps : {A : Type 0} → List ℕ → Exec Db A → (A → List ℕ) → Type 0
Keeps ids m f = Triple IsWellFormed (IsFine ids) m (λ a. IsFine (f a))

pub Keeps-bind :
    {A B : Type 0} (ids : List ℕ) (f : A → List ℕ) (g : B → List ℕ) (m : Exec Db A)
    (k : A → Exec Db B)
    → Keeps ids m f
    → ((a : A) → Keeps (f a) (k a) g)
    → Keeps ids (m >>= k) g
Keeps-bind ids f g m k h n =
    Triple-bind IsWellFormed (λ a. IsFine (f a)) (λ b. IsFine (g b)) (IsFine ids) m k h n

pub hit-Keeps : (ids : List ℕ) (p : FaultPoint) → Keeps ids (hit p) (λ _. ids)
unfolding hit
hit-Keeps ids p db h =
    Leaves-both IsWellFormed (λ _. IsFine ids) (Fault.hit db.fault p).0
      (record db { fault = (Fault.hit db.fault p).1 })
      (record {
        ordered = h.ordered;
        fits = h.fits;
        based = h.based;
        numbered = h.numbered;
        written = tt;
      })
      (λ _ _. h)

pub lift-Keeps : {A : Type 0} (ids : List ℕ) (o : Outcome A) → Keeps ids (lift o) (λ _. ids)
lift-Keeps ids o db h =
    Leaves-both IsWellFormed (λ _. IsFine ids) o db (IsFine-nil ids db h) (λ _ _. h)

pub on_files-Keeps :
    {A : Type 0} (ids : List ℕ) (m : Exec Files A) → Keeps ids (on_files m) (λ _. ids)
on_files-Keeps ids m db h =
    Leaves-both IsWellFormed (λ _. IsFine ids) (m db.files).0 (record db { files = (m db.files).1 })
      (record {
        ordered = h.ordered;
        fits = h.fits;
        based = h.based;
        numbered = h.numbered;
        written = tt;
      })
      (λ _ _. h)

AllBelow-mono : (n k : ℕ) (ids : List ℕ) → n ≤ k → AllBelow n ids → AllBelow k ids
AllBelow-mono n k [] h a = tt
AllBelow-mono n k (id ∷ ids) h a = (omega (arith, a.0), AllBelow-mono n k ids h a.1)

pub AllBelow-append :
    (n : ℕ) (xs ys : List ℕ) → AllBelow n xs → AllBelow n ys → AllBelow n (xs ++ ys)
AllBelow-append n [] ys a b = b
AllBelow-append n (x ∷ xs) ys a b = (a.0, AllBelow-append n xs ys a.1 b)

pub levels_mono :
    (n k : ℕ) (ls : List (List SsTable))
    → n ≤ k
    → All (λ files. AllBelow n (ids_of files)) ls
    → All (λ files. AllBelow k (ids_of files)) ls
levels_mono n k [] h a = tt
levels_mono n k (files ∷ ls) h a =
    (AllBelow-mono n k (ids_of files) h a.0, levels_mono n k ls h a.1)

-- The table that is written takes a number that no table has.
pub write_level_file-Keeps :
    (ids : List ℕ) (fl : Floats) (level : ℕ) (es : Entries)
    → Keeps ids (write_level_file fl level es) (λ t. ids ++ t.id ∷ [])
unfolding write_level_file
write_level_file-Keeps ids fl level es db h =
    let id = db.next_sst_id in
    let more = ids ++ id ∷ [] in
    let final = sstable_file_name level id in
    let g : SsTable → List ℕ = λ t. ids ++ t.id ∷ [] in
    let numbered : Db = record db {
      next_sst_id = u64 (id + 1);
      overflowed = db.overflowed || leb (2 ^ 64) (id + 1);
    } in
    let last : (bytes : List ℕ) → Keeps more (lift (Table.load id final bytes)) g = λ bytes d k.
      Leaves-both IsWellFormed (λ t. IsFine (g t)) (Table.load id final bytes) d
        (IsFine-nil more d k)
        (λ t e. subst (λ (j : ℕ). IsFine (ids ++ j ∷ []) d) (sym (load-id id final bytes t e)) k) in
    let body =
      Keeps-bind more (λ _. more) g (hit Fault.before_sstable_creation) _ (hit-Keeps more _)
        λ _.
          Keeps-bind more (λ _. more) g (lift (write_sstable fl es)) _ (lift-Keeps more _)
            λ bytes.
              Keeps-bind more (λ _. more) g
                (modify (λ d. record d { files = write_file (final ++ tmp_suffix) bytes d.files }))
                _ (λ d k. k)
                λ _.
                  Keeps-bind more (λ _. more) g (hit Fault.after_sstable_write) _ (hit-Keeps more _)
                    λ _.
                      Keeps-bind more (λ _. more) g (hit Fault.before_atomic_rename) _
                        (hit-Keeps more _)
                        λ _.
                          Keeps-bind more (λ _. more) g
                            (on_files (rename_file (final ++ tmp_suffix) final)) _
                            (on_files-Keeps more _)
                            λ _.
                              Keeps-bind more (λ _. more) g (hit Fault.after_atomic_rename) _
                                (hit-Keeps more _)
                                λ _.
                                  Keeps-bind more (λ _. more) g (on_files (read_file final)) _
                                    (on_files-Keeps more _) last in
    let (grows, taken, fits) =
      limit_lem id id (id + 1) db.overflowed h.fits h.fits (omega arith) (omega arith) in
    body numbered (record {
      ordered = h.ordered;
      based = h.based;
      fits = fits;
      numbered = levels_mono (bound db) (bound numbered) db.levels grows h.numbered;
      written =
          AllBelow-append (bound numbered) ids (id ∷ [])
            (AllBelow-mono (bound db) (bound numbered) ids grows h.written) (taken, tt);
    })
