-- ===== src/Endian.antt =====
-- include/persistence/Endian.hpp: integers in little-endian order. A byte vector is a list, a
-- pointer into one the list from there on; a read past the end is `none`.
pub mod Value
pub mod Total
use lite_speed_store.Base.{
  ℕ, zero, suc, ◌+◌, ◌*◌, Option, none, some, List, [], ◌∷◌, ◌++◌, u8, u32, u64, shl, shr, bit_or,
  get_elem?,
}

infixl 5 ◌>>=◌
abbrev pub ◌>>=◌ {ℓ κ} : {A : Type ℓ} {B : Type κ} → Option A → (A → Option B) → Option B
none >>= f = none
some a >>= f = f a

-- buf.push_back(static_cast<uint8_t>(v))
abbrev push_back : List ℕ → ℕ → List ℕ
push_back buf b = buf ++ b ∷ []

unfoldable pub put_le32 : List ℕ → ℕ → List ℕ
put_le32 buf v =
    let buf1 = push_back buf (u8 v) in
    let buf2 = push_back buf1 (u8 (shr v 8)) in
    let buf3 = push_back buf2 (u8 (shr v 16)) in push_back buf3 (u8 (shr v 24))

-- The loop of putLE64 with `left` rounds to go, at index `i`.
put_le64_loop : ℕ → ℕ → List ℕ → ℕ → List ℕ
put_le64_loop zero i buf v = buf
put_le64_loop (suc left) i buf v = put_le64_loop left (i + 1) (push_back buf (u8 (shr v (8 * i)))) v

unfoldable pub put_le64 : List ℕ → ℕ → List ℕ
unfolding put_le64_loop
put_le64 buf v = put_le64_loop 8 0 buf v

unfoldable pub get_le32 : List ℕ → Option ℕ
get_le32 p = do
  p0 ← get_elem? p 0
  p1 ← get_elem? p 1
  p2 ← get_elem? p 2
  p3 ← get_elem? p 3
  some (bit_or (bit_or (bit_or p0 (u32 (shl p1 8))) (u32 (shl p2 16))) (u32 (shl p3 24)))

-- The loop of getLE64 with `left` rounds to go, at index `i`; `v` is what was read so far.
unfoldable pub get_le64_loop : ℕ → ℕ → ℕ → List ℕ → Option ℕ
get_le64_loop zero i v p = some v
get_le64_loop (suc left) i v p = do
  b ← get_elem? p i
  get_le64_loop left (i + 1) (bit_or v (u64 (shl b (8 * i)))) p

unfoldable pub get_le64 : List ℕ → Option ℕ
unfolding get_le64_loop
get_le64 p = get_le64_loop 8 0 0 p
