-- ===== src/Sha256.antt =====
-- include/persistence/SHA256.hpp: the streaming hash. `m_state`, `m_buffer` and the message schedule
-- are arrays, here lists. An access past the end of one is undefined in the source; here it sets
-- `past_end`, a field that only the model has, or gives `none`.
pub mod Compress
pub mod Stream
pub mod Standard
pub mod Feed
pub mod Loops
pub mod Meets
mod Tests
use lite_speed_store.Base.{
  ℕ, zero, suc, ◌+◌, ◌*◌, ◌<◌, List, [], ◌∷◌, ◌++◌, u8, u32, u64, shr, get_elem?, set, replicate,
  Bool, true, false, not, ◌||◌, Option, none, some, length, ltb, ◌==◌, if◌then◌else◌, ◌≡◌, refl,
}
use lite_speed_store.Endian.{◌>>=◌}
use lite_speed_store.Sha256.Compress.{transform}

pub record Sha256 : Type 0 where
  pub state : List ℕ
  pub buffer : List ℕ
  pub buf_len : ℕ
  pub bit_len : ℕ
  pub past_end : Bool

abbrev pub initial_state : List ℕ
initial_state =
    0x6a09e667 ∷ 0xbb67ae85 ∷ 0x3c6ef372 ∷ 0xa54ff53a ∷ 0x510e527f ∷ 0x9b05688c ∷ 0x1f83d9ab
    ∷ 0x5be0cd19 ∷ []

unfoldable pub init : Sha256
init = record {
  state = initial_state;
  buffer = replicate 64 0;
  buf_len = 0;
  bit_len = 0;
  past_end = false;
}

-- `m_buffer[m_bufLen++] = b`
unfoldable pub put_byte : Sha256 → ℕ → Sha256
put_byte c b = record c {
  buffer = set c.buffer c.buf_len b;
  buf_len = c.buf_len + 1;
  past_end = c.past_end || not (ltb c.buf_len (length c.buffer));
}

unfoldable pub absorb : Sha256 → Sha256
absorb c = elim (transform c.state c.buffer) [
  | none ↦ record c { buf_len = 0; past_end = true }
  | some state ↦ record c { state = state; buf_len = 0 }
]

-- One round of the loop of `update`.
unfoldable pub update_byte : Sha256 → ℕ → Sha256
update_byte c b =
    let d = put_byte c b in
    if d.buf_len == 64 then (record (absorb d) { bit_len = u64 (d.bit_len + 512) }) else d

unfoldable pub update : Sha256 → List ℕ → Sha256
update c [] = c
update c (b ∷ bytes) = update (update_byte c b) bytes

-- `while (m_bufLen < limit) m_buffer[m_bufLen++] = 0`, with `fuel` rounds at most;
-- `digest` gives it 64, since the buffer has no room for more.
unfoldable pub pad_zeros : ℕ → ℕ → Sha256 → Sha256
pad_zeros zero limit c = c
pad_zeros (suc fuel) limit c =
    let rest = pad_zeros fuel limit (put_byte c 0) in if ltb c.buf_len limit then rest else c

-- The bytes of the length, highest first: the loop from `i = left - 1` down to 0.
unfoldable pub put_length : ℕ → ℕ → Sha256 → Sha256
put_length zero total c = c
put_length (suc i) total c = put_length i total (put_byte c (u8 (shr total (i * 8))))

unfoldable pub word_bytes : ℕ → List ℕ
word_bytes w = u8 (shr w 24) ∷ u8 (shr w 16) ∷ u8 (shr w 8) ∷ u8 w ∷ []

-- `out[i * 4 + j]` for `left` words from index `i` on.
unfoldable pub digest_from : ℕ → ℕ → List ℕ → Option (List ℕ)
digest_from zero i state = some []
digest_from (suc left) i state = do
  w ← get_elem? state i
  out ← digest_from left (i + 1) state
  some (word_bytes w ++ out)

unfoldable pub finish_padding : Sha256 → Sha256
finish_padding c =
    let d = put_byte c 0x80 in
    pad_zeros 64 56 (if ltb 56 d.buf_len then absorb (pad_zeros 64 64 d) else d)

-- The context after the last `transform` of `digest`.
abbrev pub finish : Sha256 → Sha256
finish c =
    let total = u64 (c.bit_len + u64 (c.buf_len * 8)) in
    absorb (put_length 8 total (finish_padding c))

-- `out` is made of zeros, which an undefined run would leave.
unfoldable pub digest : Sha256 → List ℕ
digest c = elim (digest_from 8 0 (finish c).state) [ none ↦ replicate 32 0 | some out ↦ out ]

-- The one-shot hash of one buffer.
unfoldable pub hash : List ℕ → List ℕ
hash bytes = digest (update init bytes)
