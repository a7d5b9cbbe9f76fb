-- ===== src/Crc32.antt =====
-- include/persistence/CRC32.hpp: CRC-32 by a table of 256 entries, one for each byte.
pub mod Bitwise
pub mod Detects
mod Tests
use lite_speed_store.Base.{
  ℕ, zero, suc, ◌+◌, ◌-◌, ◌==◌, ◌≡◌, refl, List, [], ◌∷◌, shr, bit_and, bit_xor, get_or,
  if◌then◌else◌,
}

abbrev pub polynomial : ℕ
polynomial = 0xEDB88320

-- One round of the inner loop of the table's construction, `c & 1` the bit that drops out.
unfoldable pub shift_bit : ℕ → ℕ
shift_bit c = if bit_and c 1 == 0 then shr c 1 else bit_xor polynomial (shr c 1)

unfoldable pub shift_bits : ℕ → ℕ → ℕ
shift_bits zero c = c
shift_bits (suc rounds) c = shift_bits rounds (shift_bit c)

-- The entries from index `i` on, `left` of them.
unfoldable pub table_from : ℕ → ℕ → List ℕ
table_from zero i = []
table_from (suc left) i = shift_bits 8 i ∷ table_from left (i + 1)

unfoldable pub table : List ℕ
unfolding table_from shift_bits shift_bit
table = table_from 256 0

-- One round of the loop of `calculate`; the index is a byte, so it stays inside the table.
unfoldable pub step : ℕ → ℕ → ℕ
step crc b = bit_xor (get_or table (bit_and (bit_xor crc b) 0xFF) 0) (shr crc 8)

unfoldable pub run : ℕ → List ℕ → ℕ
run crc [] = crc
run crc (b ∷ bytes) = run (step crc b) bytes

-- `~crc` of a uint32_t.
unfoldable pub calculate : List ℕ → ℕ
calculate bytes = 0xFFFFFFFF - run 0xFFFFFFFF bytes

-- The check value of CRC-32: the text "123456789".
check_value : calculate (49 ∷ 50 ∷ 51 ∷ 52 ∷ 53 ∷ 54 ∷ 55 ∷ 56 ∷ 57 ∷ []) ≡ 0xCBF43926
unfolding calculate run step table
check_value = refl
