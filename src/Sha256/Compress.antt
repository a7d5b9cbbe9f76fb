-- ===== src/Sha256/Compress.antt =====
-- `rotr` and `transform` of SHA256.hpp: one block of 64 bytes into the eight words of the state. A
-- read of an array past its end is undefined in the source; it gives `none` here.
pub mod Total
use lite_speed_store.Base.{
  ℕ, zero, suc, ◌+◌, ◌-◌, ◌*◌, List, [], ◌∷◌, ◌++◌, u32, shl, shr, bit_and, bit_or, bit_xor,
  get_elem?, Option, some, none,
}
use lite_speed_store.Endian.{◌>>=◌}

pub rotr : ℕ → ℕ → ℕ
rotr x n = bit_or (shr x n) (u32 (shl x (32 - n)))

abbrev round_constants : List ℕ
round_constants =
    0x428a2f98 ∷ 0x71374491 ∷ 0xb5c0fbcf ∷ 0xe9b5dba5 ∷ 0x3956c25b ∷ 0x59f111f1 ∷ 0x923f82a4
    ∷ 0xab1c5ed5 ∷ 0xd807aa98 ∷ 0x12835b01 ∷ 0x243185be ∷ 0x550c7dc3 ∷ 0x72be5d74 ∷ 0x80deb1fe
    ∷ 0x9bdc06a7 ∷ 0xc19bf174 ∷ 0xe49b69c1 ∷ 0xefbe4786 ∷ 0x0fc19dc6 ∷ 0x240ca1cc ∷ 0x2de92c6f
    ∷ 0x4a7484aa ∷ 0x5cb0a9dc ∷ 0x76f988da ∷ 0x983e5152 ∷ 0xa831c66d ∷ 0xb00327c8 ∷ 0xbf597fc7
    ∷ 0xc6e00bf3 ∷ 0xd5a79147 ∷ 0x06ca6351 ∷ 0x14292967 ∷ 0x27b70a85 ∷ 0x2e1b2138 ∷ 0x4d2c6dfc
    ∷ 0x53380d13 ∷ 0x650a7354 ∷ 0x766a0abb ∷ 0x81c2c92e ∷ 0x92722c85 ∷ 0xa2bfe8a1 ∷ 0xa81a664b
    ∷ 0xc24b8b70 ∷ 0xc76c51a3 ∷ 0xd192e819 ∷ 0xd6990624 ∷ 0xf40e3585 ∷ 0x106aa070 ∷ 0x19a4c116
    ∷ 0x1e376c08 ∷ 0x2748774c ∷ 0x34b0bcb5 ∷ 0x391c0cb3 ∷ 0x4ed8aa4a ∷ 0x5b9cca4f ∷ 0x682e6ff3
    ∷ 0x748f82ee ∷ 0x78a5636f ∷ 0x84c87814 ∷ 0x8cc70208 ∷ 0x90befffa ∷ 0xa4506ceb ∷ 0xbef9a3f7
    ∷ 0xc67178f2 ∷ []

-- `~x` of a uint32_t.
abbrev complement : ℕ → ℕ
complement x = 0xFFFFFFFF - x

join_bytes : ℕ → ℕ → ℕ → ℕ → ℕ
join_bytes b0 b1 b2 b3 =
    bit_or (bit_or (bit_or (u32 (shl b0 24)) (u32 (shl b1 16))) (u32 (shl b2 8))) b3

-- w[i] of the first 16 words, from the block `p`.
load_word : List ℕ → ℕ → Option ℕ
unfolding join_bytes
load_word p i = do
  b0 ← get_elem? p (i * 4 + 0)
  b1 ← get_elem? p (i * 4 + 1)
  b2 ← get_elem? p (i * 4 + 2)
  b3 ← get_elem? p (i * 4 + 3)
  some (join_bytes b0 b1 b2 b3)

load_words : ℕ → ℕ → List ℕ → Option (List ℕ)
load_words zero i p = some []
load_words (suc left) i p = do w ← load_word p i; ws ← load_words left (i + 1) p; some (w ∷ ws)

-- w[i] from w[i - 15], w[i - 2], w[i - 16] and w[i - 7].
sum_words : ℕ → ℕ → ℕ → ℕ → ℕ
sum_words w15 w2 w16 w7 =
    let s0 = bit_xor (bit_xor (rotr w15 7) (rotr w15 18)) (shr w15 3) in
    let s1 = bit_xor (bit_xor (rotr w2 17) (rotr w2 19)) (shr w2 10) in
    u32 (u32 (u32 (w16 + s0) + w7) + s1)

next_word : List ℕ → ℕ → Option ℕ
unfolding sum_words
next_word w i = do
  w15 ← get_elem? w (i - 15)
  w2 ← get_elem? w (i - 2)
  w16 ← get_elem? w (i - 16)
  w7 ← get_elem? w (i - 7)
  some (sum_words w15 w2 w16 w7)

-- The loop from index `i` on: `w` holds the words below `i`, so that a read of a word that is not
-- yet written is past its end as well.
extend : ℕ → ℕ → List ℕ → Option (List ℕ)
extend zero i w = some w
extend (suc left) i w = do next ← next_word w i; extend left (i + 1) (w ++ next ∷ [])

unfoldable pub schedule : List ℕ → Option (List ℕ)
unfolding load_word load_words join_bytes next_word sum_words extend rotr
schedule p = do w ← load_words 16 0 p; extend 48 16 w

pub record Working : Type 0 where
  pub a : ℕ
  pub b : ℕ
  pub c : ℕ
  pub d : ℕ
  pub e : ℕ
  pub f : ℕ
  pub g : ℕ
  pub h : ℕ

-- A round on the constant `k` and the word `w`.
mix : ℕ → ℕ → Working → Working
mix k w v =
    let s1 = bit_xor (bit_xor (rotr v.e 6) (rotr v.e 11)) (rotr v.e 25) in
    let ch = bit_xor (bit_and v.e v.f) (bit_and (complement v.e) v.g) in
    let t1 = u32 (u32 (u32 (u32 (v.h + s1) + ch) + k) + w) in
    let s0 = bit_xor (bit_xor (rotr v.a 2) (rotr v.a 13)) (rotr v.a 22) in
    let maj = bit_xor (bit_xor (bit_and v.a v.b) (bit_and v.a v.c)) (bit_and v.b v.c) in
    let t2 = u32 (s0 + maj) in
    record {
      a = u32 (t1 + t2);
      b = v.a;
      c = v.b;
      d = v.c;
      e = u32 (v.d + t1);
      f = v.e;
      g = v.f;
      h = v.g;
    }

round : List ℕ → ℕ → Working → Option Working
unfolding mix
round w i v = do k ← get_elem? round_constants i; wi ← get_elem? w i; some (mix k wi v)

rounds : ℕ → ℕ → List ℕ → Working → Option Working
rounds zero i w v = some v
rounds (suc left) i w v = do next ← round w i v; rounds left (i + 1) w next

-- The eight words of `m_state` before the rounds.
working : List ℕ → Option Working
working s = do
  a ← get_elem? s 0
  b ← get_elem? s 1
  c ← get_elem? s 2
  d ← get_elem? s 3
  e ← get_elem? s 4
  f ← get_elem? s 5
  g ← get_elem? s 6
  h ← get_elem? s 7
  some (record { a = a; b = b; c = c; d = d; e = e; f = f; g = g; h = h })

-- `m_state[0] += a` and so on, on the words `u` of the state.
add_words : Working → Working → List ℕ
add_words u v =
    u32 (u.a + v.a)
    ∷ u32 (u.b + v.b)
    ∷ u32 (u.c + v.c)
    ∷ u32 (u.d + v.d)
    ∷ u32 (u.e + v.e)
    ∷ u32 (u.f + v.f)
    ∷ u32 (u.g + v.g)
    ∷ u32 (u.h + v.h)
    ∷ []

unfoldable pub transform : List ℕ → List ℕ → Option (List ℕ)
unfolding schedule mix round rounds add_words working rotr
transform s p = do w ← schedule p; u ← working s; v ← rounds 64 0 w u; some (add_words u v)
