-- ===== src/Sha256/Standard.antt =====
-- SHA-256 on a whole message, as FIPS 180-4 describes it: the message is padded, and the blocks of the
-- padded message go through the compression one by one.
use lite_speed_store.Base.{
  ℕ, zero, suc, ◌-◌, ◌*◌, ◌/◌, ◌%◌, Option, some, List, [], ◌∷◌, ◌++◌, u8, u64, shr, length, take,
  drop, replicate,
}
use lite_speed_store.Endian.{◌>>=◌}
use lite_speed_store.Sha256.{initial_state}
use lite_speed_store.Sha256.Compress.{transform}

-- The low `n` bytes of a number, the highest first.
abbrev pub big_endian : ℕ → ℕ → List ℕ
big_endian zero v = []
big_endian (suc n) v = u8 (shr v (n * 8)) ∷ big_endian n v

-- A byte with the highest bit, zeros up to 8 bytes before a multiple of 64, and the length in bits.
abbrev pub padding : ℕ → List ℕ
padding size = 0x80 ∷ (replicate ((119 - size % 64) % 64) 0 ++ big_endian 8 (u64 (size * 8)))

abbrev pub padded : List ℕ → List ℕ
padded message = message ++ padding (length message)

-- The state after the first `n` blocks, of 64 bytes each.
abbrev pub blocks : ℕ → List ℕ → List ℕ → Option (List ℕ)
blocks zero state bytes = some state
blocks (suc n) state bytes = do
  next ← transform state (take 64 bytes)
  blocks n next (drop 64 bytes)

abbrev pub final_state : List ℕ → Option (List ℕ)
final_state message = blocks (length (padded message) / 64) initial_state (padded message)

-- The words of a state, each with its highest byte first.
abbrev pub big_endian_words : List ℕ → List ℕ
big_endian_words [] = []
big_endian_words (w ∷ ws) = big_endian 4 w ++ big_endian_words ws
