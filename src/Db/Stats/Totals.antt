-- ===== src/Db/Stats/Totals.antt =====
-- The totals of the statistics against the statistics of the levels.
use pebble_db.Prelude.{
  ℕ, suc, ◌+◌, ◌≤◌, List, [], ◌∷◌, ◌++◌, map, length, length-append, sum_of, leb, All, Bool-cases,
}
use pebble_db.Prelude.{◌≡◌, inl, inr, refl, sym, ◌∙◌, arith}
use pebble_db.Bloom.{Floats}
use pebble_db.Sstable.Table.{SsTable, file_size}
use pebble_db.Db.State.{Db, sst_count, count_files}
use pebble_db.Db.Stats.{bytes_of, level_stats, pushed_sizes, insert_size, sort_sizes, stats}

abbrev total : List (ℕ × ℕ) → ℕ
total sizes = sum_of (λ s. s.1) sizes

total-append : (xs ys : List (ℕ × ℕ)) → total (xs ++ ys) ≡ total xs + total ys
total-append [] ys = omega arith
total-append (x ∷ xs) ys = omega (arith, total-append xs ys)

abbrev sizes_of : List SsTable → List (ℕ × ℕ)
sizes_of files = map (λ t. (t.id, file_size t)) files

total-sizes_of : (files : List SsTable) → total (sizes_of files) ≡ bytes_of files
total-sizes_of [] = refl
total-sizes_of (t ∷ ts) = omega (arith, total-sizes_of ts)

length-sizes_of : (files : List SsTable) → length (sizes_of files) ≡ length files
length-sizes_of [] = refl
length-sizes_of (t ∷ ts) = omega (arith, length-sizes_of ts)

level_stats-bytes :
    (level : ℕ) (ls : List (List SsTable))
    → sum_of (λ s. s.bytes) (level_stats level ls) ≡ total (pushed_sizes ls)
unfolding level_stats pushed_sizes
level_stats-bytes level [] = refl
level_stats-bytes level ([] ∷ ls) = level_stats-bytes (level + 1) ls
level_stats-bytes level ((t ∷ ts) ∷ ls) = omega (
  arith,
  level_stats-bytes (level + 1) ls,
  total-append (sizes_of (t ∷ ts)) (pushed_sizes ls),
  total-sizes_of (t ∷ ts),
)

level_stats-files :
    (level : ℕ) (ls : List (List SsTable))
    → sum_of (λ s. s.files) (level_stats level ls) ≡ count_files ls
unfolding level_stats count_files
level_stats-files level [] = refl
level_stats-files level ([] ∷ ls) = omega (arith, level_stats-files (level + 1) ls)
level_stats-files level ((t ∷ ts) ∷ ls) = omega (arith, level_stats-files (level + 1) ls)

length-pushed_sizes : (ls : List (List SsTable)) → length (pushed_sizes ls) ≡ count_files ls
unfolding pushed_sizes count_files
length-pushed_sizes [] = refl
length-pushed_sizes (files ∷ ls) = omega (
  arith,
  length-append (sizes_of files) (pushed_sizes ls),
  length-sizes_of files,
  length-pushed_sizes ls,
)

-- Sorting keeps the total and the length, and gives the numbers in order.
insert_size-total : (s : ℕ × ℕ) (ss : List (ℕ × ℕ)) → total (insert_size s ss) ≡ s.1 + total ss
unfolding insert_size
insert_size-total s [] = refl
insert_size-total s (r ∷ rs) = ground (arith, insert_size-total s rs)

length-insert_size : (s : ℕ × ℕ) (ss : List (ℕ × ℕ)) → length (insert_size s ss) ≡ suc (length ss)
unfolding insert_size
length-insert_size s [] = refl
length-insert_size s (r ∷ rs) = ground (arith, length-insert_size s rs)

abbrev AllFrom : ℕ → List (ℕ × ℕ) → Type 0
AllFrom n ss = All (λ s. n ≤ s.0) ss

-- The numbers are in order.
abbrev pub IsSorted : List (ℕ × ℕ) → Type 0
IsSorted [] = Unit
IsSorted (s ∷ ss) = AllFrom s.0 ss × IsSorted ss

insert_size-AllFrom :
    (n : ℕ) (s : ℕ × ℕ) (ss : List (ℕ × ℕ)) → n ≤ s.0 → AllFrom n ss → AllFrom n (insert_size s ss)
unfolding insert_size
insert_size-AllFrom n s [] h a = (h, tt)
insert_size-AllFrom n s (r ∷ rs) h a = elim (Bool-cases (leb s.0 r.0)) [
  | inl first ↦ rw first (h, a)
  | inr later ↦ rw later (a.0, insert_size-AllFrom n s rs h a.1)
]

AllFrom-trans : (n m : ℕ) (ss : List (ℕ × ℕ)) → n ≤ m → AllFrom m ss → AllFrom n ss
AllFrom-trans n m [] h a = tt
AllFrom-trans n m (s ∷ ss) h a = (omega (arith, a.0), AllFrom-trans n m ss h a.1)

insert_size-IsSorted : (s : ℕ × ℕ) (ss : List (ℕ × ℕ)) → IsSorted ss → IsSorted (insert_size s ss)
unfolding insert_size
insert_size-IsSorted s [] a = (tt, tt)
insert_size-IsSorted s (r ∷ rs) a = elim (Bool-cases (leb s.0 r.0)) [
  | inl first ↦
      let below : s.0 ≤ r.0 = ground arith in
      rw first ((below, AllFrom-trans s.0 r.0 rs below a.0), a)
  | inr later ↦
      let above : r.0 ≤ s.0 = ground arith in
      rw later (insert_size-AllFrom r.0 s rs above a.0, insert_size-IsSorted s rs a.1)
]

sort_sizes-IsSorted :
    (ss : List (ℕ × ℕ))
    → (total (sort_sizes ss) ≡ total ss)
      × (length (sort_sizes ss) ≡ length ss)
      × IsSorted (sort_sizes ss)
unfolding sort_sizes
sort_sizes-IsSorted [] = (refl, refl, tt)
sort_sizes-IsSorted (s ∷ ss) =
    let (t, l, sorted) = sort_sizes-IsSorted ss in
    (
      omega (arith, insert_size-total s (sort_sizes ss), t),
      omega (arith, length-insert_size s (sort_sizes ss), l),
      insert_size-IsSorted s (sort_sizes ss) sorted,
    )

-- In the statistics of any database the bytes of the levels add up to the total size, their files
-- to the number of tables, and the sizes are listed for as many tables, by ascending numbers.
pub stats-totals :
    (fl : Floats) (db : Db)
    → (sum_of (λ s. s.bytes) (stats fl db).levels ≡ (stats fl db).total_sst_size)
      × (sum_of (λ s. s.files) (stats fl db).levels ≡ (stats fl db).sst_count)
      × (length (stats fl db).sst_sizes ≡ (stats fl db).sst_count)
      × IsSorted (stats fl db).sst_sizes
unfolding stats sst_count
stats-totals fl db =
    let (t, l, sorted) = sort_sizes-IsSorted (pushed_sizes db.levels) in
    (
      level_stats-bytes 0 db.levels ∙ sym t,
      level_stats-files 0 db.levels,
      l ∙ length-pushed_sizes db.levels,
      sorted,
    )
