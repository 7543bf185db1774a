-- ===== src/Bloom/Membership.antt =====
-- A filter has no false negatives: what was inserted might be contained, ever after.
use pebble_db.Prelude.{
  ℕ, zero, suc, ◌+◌, ◌*◌, ◌%◌, ◌<◌, ◌≤◌, max, length, List, [], ◌∷◌, Text, ok, Bool, true, false,
  if◌then◌else◌,
}
use pebble_db.Prelude.{◌≡◌, refl, sym, ◌∙◌, arith, u64}
use pebble_db.Prelude.{replicate, length-replicate}
use native.Mathlib.Nat.{mod-lt}
use mathlib.Core.Path.{subst}
use pebble_db.Bloom.{
  BloomFilter, Floats, hash_1, hash_2, bit_of, insert_loop, insert, contain_loop, might_contain,
  insert_all, from_entries, new,
}
use pebble_db.Bloom.Bits.{
  AllWords, IsWellFormed, HasBit, after, set_bit-ok, after-IsWellFormed, after_self, after_other,
  is_clear-HasBit, is_clear-ok,
}

abbrev bit_at : ℕ → Text → ℕ → ℕ
bit_at num_bits key i = u64 (hash_1 key + u64 (u64 i * hash_2 key)) % num_bits

bit_of-ok : (n : ℕ) (key : Text) (i : ℕ) → 0 < n → bit_of n key i ≡ ok (bit_at n key i)
unfolding bit_of
bit_of-ok n key i h = ground arith

-- The bits of the rounds from `i` on, `left` of them, are set.
abbrev HasRounds : BloomFilter → Text → ℕ → ℕ → Type 0
HasRounds f key zero i = Unit
HasRounds f key (suc left) i = HasBit f (bit_at f.num_bits key i) × HasRounds f key left (i + 1)

-- `g` has the size of `f` and every bit of it.
record Grows (f g : BloomFilter) : Type 0 where
  num_bits : g.num_bits ≡ f.num_bits
  num_hashes : g.num_hashes ≡ f.num_hashes
  has_all : (c : ℕ) → HasBit f c → HasBit g c

Grows-refl : (f : BloomFilter) → Grows f f
Grows-refl f = record { num_bits = refl; num_hashes = refl; has_all = λ c h. h }

Grows-trans : {f g h : BloomFilter} → Grows f g → Grows g h → Grows f h
Grows-trans a b = record {
  num_bits = b.num_bits ∙ a.num_bits;
  num_hashes = b.num_hashes ∙ a.num_hashes;
  has_all = λ c h. b.has_all c (a.has_all c h);
}

HasRounds-Grows :
    {f g : BloomFilter} (key : Text) (left i : ℕ)
    → Grows f g
    → HasRounds f key left i
    → HasRounds g key left i
HasRounds-Grows key zero i w h = tt
HasRounds-Grows {f} key (suc left) i w h = (
  rw w.num_bits (w.has_all (bit_at f.num_bits key i) h.0),
  HasRounds-Grows key left (i + 1) w h.1,
)

insert_loop-ok :
    (left i : ℕ) (key : Text) (f : BloomFilter)
    → IsWellFormed f
    → (g : BloomFilter) × (insert_loop left i key f ≡ ok g)
      × IsWellFormed g
      × Grows f g
      × HasRounds g key left i
unfolding insert_loop
insert_loop-ok zero i key f wf = (f, refl, wf, Grows-refl f, tt)
insert_loop-ok (suc left) i key f wf =
    let bit = bit_at f.num_bits key i in
    let small : bit < f.num_bits =
      mod-lt (u64 (hash_1 key + u64 (u64 i * hash_2 key))) wf.has_bits in
    let step : Grows f (after f bit) = record {
      num_bits = refl;
      num_hashes = refl;
      has_all = after_other f bit wf small;
    } in
    let (g, runs, kept, grown, rounds) =
      insert_loop-ok left (i + 1) key (after f bit) (after-IsWellFormed f bit wf small) in
    (
      g,
      rw (bit_of-ok f.num_bits key i wf.has_bits, set_bit-ok f bit wf small) runs,
      kept,
      Grows-trans step grown,
      (rw grown.num_bits (grown.has_all bit (after_self f bit wf small)), rounds),
    )

contain_loop-HasRounds :
    (left i : ℕ) (key : Text) (f : BloomFilter)
    → IsWellFormed f
    → HasRounds f key left i
    → contain_loop left i key f ≡ ok true
unfolding contain_loop
contain_loop-HasRounds zero i key f wf h = refl
contain_loop-HasRounds (suc left) i key f wf h =
    let bit = bit_at f.num_bits key i in
    let small : bit < f.num_bits =
      mod-lt (u64 (hash_1 key + u64 (u64 i * hash_2 key))) wf.has_bits in
    rw (bit_of-ok f.num_bits key i wf.has_bits, is_clear-HasBit f bit wf small h.0)
      (contain_loop-HasRounds left (i + 1) key f wf h.1)

-- In a well-formed filter every lookup has an answer.
contain_loop-ok :
    (left i : ℕ) (key : Text) (f : BloomFilter)
    → IsWellFormed f
    → (b : Bool) × (contain_loop left i key f ≡ ok b)
unfolding contain_loop
contain_loop-ok zero i key f wf = (true, refl)
contain_loop-ok (suc left) i key f wf =
    let bit = bit_at f.num_bits key i in
    let small : bit < f.num_bits =
      mod-lt (u64 (hash_1 key + u64 (u64 i * hash_2 key))) wf.has_bits in
    let (clear, e) = is_clear-ok f bit wf small in
    let (b, rest) = contain_loop-ok left (i + 1) key f wf in
    (
      if clear then false else b,
      rw (bit_of-ok f.num_bits key i wf.has_bits, e, rest) (ground arith),
    )

pub might_contain-ok :
    (f : BloomFilter) (key : Text) → IsWellFormed f → (b : Bool) × (might_contain f key ≡ ok b)
unfolding might_contain
might_contain-ok f key wf = contain_loop-ok f.num_hashes 0 key f wf

-- `Might f key`: the lookup of the key does not panic, and does not rule the key out.
abbrev pub Might : BloomFilter → Text → Type 0
Might f key = HasRounds f key f.num_hashes 0

abbrev pub AllMight : BloomFilter → List Text → Type 0
AllMight f [] = Unit
AllMight f (key ∷ keys) = (might_contain f key ≡ ok true) × AllMight f keys

insert-ok :
    (f : BloomFilter) (key : Text)
    → IsWellFormed f
    → (g : BloomFilter) × (insert f key ≡ ok g) × IsWellFormed g × Grows f g × Might g key
unfolding insert
insert-ok f key wf =
    let (g, runs, kept, grown, rounds) = insert_loop-ok f.num_hashes 0 key f wf in
    (g, runs, kept, grown, rw grown.num_hashes rounds)

-- Inserting a key into a well-formed filter does not panic and gives a well-formed filter of which
-- `might_contain` answers true for the key.
pub might_contain-insert :
    (f : BloomFilter) (key : Text)
    → IsWellFormed f
    → (g : BloomFilter) × (insert f key ≡ ok g) × IsWellFormed g × (might_contain g key ≡ ok true)
unfolding might_contain
might_contain-insert f key wf =
    let (g, runs, kept, grown, might) = insert-ok f key wf in
    (g, runs, kept, contain_loop-HasRounds g.num_hashes 0 key g kept might)

insert_all-ok :
    (keys : List Text) (f : BloomFilter)
    → IsWellFormed f
    → (g : BloomFilter) × (insert_all keys f ≡ ok g) × IsWellFormed g × Grows f g × AllMight g keys
unfolding insert_all might_contain
insert_all-ok [] f wf = (f, refl, wf, Grows-refl f, tt)
insert_all-ok (key ∷ keys) f wf =
    let (g, runs, kept, grown, might) = insert-ok f key wf in
    let (h, runs', kept', grown', all) = insert_all-ok keys g kept in
    let still : Might h key =
      subst (λ n. HasRounds h key n 0) (sym grown'.num_hashes)
        (HasRounds-Grows key g.num_hashes 0 grown' might) in
    (
      h,
      rw runs runs',
      kept',
      Grows-trans grown grown',
      (contain_loop-HasRounds h.num_hashes 0 key h kept' still, all),
    )

AllWords-replicate : (n : ℕ) → AllWords (replicate n 0)
AllWords-replicate zero = tt
AllWords-replicate (suc n) = (omega arith, AllWords-replicate n)

pub new-IsWellFormed : (fl : Floats) (n : ℕ) (rate : fl.F64) → IsWellFormed (new fl n rate)
unfolding new
new-IsWellFormed fl n rate = record {
  has_bits = omega arith;
  has_words = length-replicate _ 0;
  are_words = AllWords-replicate _;
}

-- The filter of a list of keys has the size that the float arithmetic gave it.
pub from_entries-sized :
    (fl : Floats) (keys : List Text)
    → (f : BloomFilter) × (from_entries fl keys ≡ ok f)
      × IsWellFormed f
      × AllMight f keys
      × (f.num_bits ≡ (new fl (max (length keys) 1) fl.one_hundredth).num_bits)
      × (f.num_hashes ≤ 30)
unfolding from_entries
from_entries-sized fl keys =
    let start = new fl (max (length keys) 1) fl.one_hundredth in
    let (f, runs, kept, grown, all) = insert_all-ok keys start (new-IsWellFormed fl _ _) in
    let few : start.num_hashes ≤ 30 = unfold new in omega arith in
    (f, runs, kept, all, grown.num_bits, omega (arith, grown.num_hashes, few))

-- Whatever the float arithmetic sizes it to, the filter of a list of keys is built without a panic,
-- is well formed, and `might_contain` answers true for each of the keys.
pub from_entries-AllMight :
    (fl : Floats) (keys : List Text)
    → (f : BloomFilter) × (from_entries fl keys ≡ ok f) × IsWellFormed f × AllMight f keys
from_entries-AllMight fl keys =
    let (f, runs, kept, all, bits, hashes) = from_entries-sized fl keys in (f, runs, kept, all)
