-- ===== src/Wal/Crc.antt =====
-- src/wal.rs: CRC32_TABLE and crc32.
use pebble_db.Prelude.{ℕ, zero, suc, ◌/◌, ◌^◌, ◌<◌, ◌≡◌, refl, List, [], ◌∷◌, arith}
use pebble_db.Prelude.{bit_and, bit_xor, ◌==◌, if◌then◌else◌, codes}
use pebble_db.Prelude.Bits.{bit_xor-lt, bit_and-lt}

abbrev crc32_poly : ℕ
crc32_poly = 0xEDB88320

-- One of the eight rounds that build an entry of the table.
table_round : ℕ → ℕ
table_round crc = if bit_and crc 1 == 0 then crc / 2 else bit_xor (crc / 2) crc32_poly

rounds : ℕ → ℕ → ℕ
rounds zero crc = crc
rounds (suc n) crc = rounds n (table_round crc)

-- `CRC32_TABLE[i]`
crc32_table : ℕ → ℕ
unfolding rounds table_round
crc32_table i = rounds 8 i

update : ℕ → List ℕ → ℕ
update crc [] = crc
update crc (byte ∷ data') =
    update (bit_xor (crc / 2 ^ 8) (crc32_table (bit_and (bit_xor crc byte) 0xFF))) data'

unfoldable pub crc32 : List ℕ → ℕ
unfolding update crc32_table
crc32 data' = bit_xor (update 0xFFFFFFFF data') 0xFFFFFFFF

-- The check value of the CRC-32 in common use.
crc32_check : crc32 (codes "123456789") ≡ 0xCBF43926
unfolding crc32
crc32_check = refl

table_round-lt : (crc : ℕ) → crc < 2 ^ 32 → table_round crc < 2 ^ 32
unfolding table_round
table_round-lt crc h =
    ground (arith, bit_xor-lt 32 (crc / 2) crc32_poly (omega arith) (omega arith))

rounds-lt : (n crc : ℕ) → crc < 2 ^ 32 → rounds n crc < 2 ^ 32
unfolding rounds
rounds-lt zero crc h = h
rounds-lt (suc n) crc h = rounds-lt n (table_round crc) (table_round-lt crc h)

entry-lt : (i : ℕ) → i < 256 → crc32_table i < 2 ^ 32
unfolding crc32_table
entry-lt i h = rounds-lt 8 i (omega arith)

update-lt : (data' : List ℕ) (crc : ℕ) → crc < 2 ^ 32 → update crc data' < 2 ^ 32
unfolding update
update-lt [] crc h = h
update-lt (byte ∷ data') crc h =
    let i = bit_and (bit_xor crc byte) 0xFF in
    let entry : crc32_table i < 2 ^ 32 = entry-lt i (bit_and-lt 8 _ 0xFF (omega arith)) in
    update-lt data' (bit_xor (crc / 2 ^ 8) (crc32_table i))
      (bit_xor-lt 32 (crc / 2 ^ 8) (crc32_table i) (omega arith) entry)

pub crc32-lt : (data' : List ℕ) → crc32 data' < 2 ^ 32
unfolding crc32
crc32-lt data' =
    bit_xor-lt 32 (update 0xFFFFFFFF data') 0xFFFFFFFF (update-lt data' 0xFFFFFFFF (omega arith))
      (omega arith)
