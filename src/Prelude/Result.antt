-- ===== src/Prelude/Result.antt =====
-- error.rs, and how a call ends: `panic` is a Rust panic, `aborted` is `process::abort`, and
-- `diverged` says that a loop of the model used up its fuel.
use Prim.Native.Nat.{ℕ}
use mathlib.Core.Bool.{Bool, true, false}
use mathlib.Core.Option.{Option, none, some}
use mathlib.Core.List.{List}

-- The texts of the messages, one constructor for each place that builds one.
pub data Message : Type 0 where
  record_too_short record_truncated invalid_key invalid_value delete_with_value : Message
  unknown_operation : ℕ → Message
  checksum_mismatch file_too_short invalid_magic invalid_bloom : Message
  unsupported_version : ℕ → Message
  truncated_index_key invalid_index_key truncated_block_record : Message
  hit_at : List ℕ → ℕ → Message
  no_expiration invalid_expiration : List ℕ → Message

pub data PebbleError : Type 0 where
  io : PebbleError
  wal_corruption : Message → PebbleError
  wal_incomplete : PebbleError
  sstable_corruption : Message → PebbleError
  injected_fault : Message → PebbleError
  cache_corruption : Message → PebbleError

pub data Outcome {ℓ} (A : Type ℓ) : Type ℓ where
  ok : A → Outcome A
  err : PebbleError → Outcome A
  panic aborted diverged : Outcome A

infixl 5 ◌>>=◌ ◌>>◌
abbrev pub ◌>>=◌ {ℓ κ} : {A : Type ℓ} {B : Type κ} → Outcome A → (A → Outcome B) → Outcome B
ok a >>= f = f a
err e >>= f = err e
panic >>= f = panic
aborted >>= f = aborted
diverged >>= f = diverged

abbrev pub ◌>>◌ {ℓ} : {B : Type ℓ} → Outcome (Unit {0}) → Outcome B → Outcome B
m >> k = m >>= λ _. k

-- `if bad { return Err(e) }`
abbrev pub fail_if : Bool → PebbleError → Outcome (Unit {0})
fail_if true e = err e
fail_if false e = ok tt

-- `ok_or_else` and `map_err`
abbrev pub ok_or {ℓ} : {A : Type ℓ} → Option A → PebbleError → Outcome A
ok_or none e = err e
ok_or (some a) e = ok a
