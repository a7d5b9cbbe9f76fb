-- ===== src/Endian/Value.antt =====
-- What the little-endian routines compute, in plain arithmetic: the base-256 digits of a number,
-- lowest first, and the number that such digits stand for.
use lite_speed_store.Base.{
  ℕ, zero, suc, ◌+◌, ◌*◌, ◌/◌, ◌%◌, ◌^◌, ◌<◌, ◌≡◌, refl, ap, ◌∙◌, arith, some, List, [], ◌∷◌, ◌++◌,
  append_assoc, u32, u64, shl, IsByte, IsU32, IsU64, length, All, bit_or, bit_or_shl,
}
use native.Mathlib.Nat.{mod-eq_of_lt}
use lite_speed_store.Endian.{put_le32, put_le64, get_le32, get_le64}

abbrev pub le_bytes : ℕ → ℕ → List ℕ
le_bytes zero v = []
le_bytes (suc n) v = v % 256 ∷ le_bytes n (v / 256)

abbrev pub le_value : List ℕ → ℕ
le_value [] = 0
le_value (b ∷ bs) = b + 256 * le_value bs

pub length-le_bytes : (n v : ℕ) → length (le_bytes n v) ≡ n
length-le_bytes zero v = refl
length-le_bytes (suc n) v = ap suc (length-le_bytes n (v / 256))

pub le_bytes-IsByte : (n v : ℕ) → All IsByte (le_bytes n v)
le_bytes-IsByte zero v = tt
le_bytes-IsByte (suc n) v = (omega arith, le_bytes-IsByte n (v / 256))

pub le_value-le_bytes4 : (v : ℕ) → IsU32 v → le_value (le_bytes 4 v) ≡ v
le_value-le_bytes4 v h = omega arith

pub le_value-le_bytes8 : (v : ℕ) → IsU64 v → le_value (le_bytes 8 v) ≡ v
le_value-le_bytes8 v h = omega arith

pub le_value_inj :
    (xs ys : List ℕ)
    → All IsByte xs
    → All IsByte ys
    → length xs ≡ length ys
    → le_value xs ≡ le_value ys
    → xs ≡ ys
le_value_inj [] [] hx hy e q = refl
le_value_inj [] (y ∷ ys) hx hy e q = absurd (omega arith)
le_value_inj (x ∷ xs) [] hx hy e q = absurd (omega arith)
le_value_inj (x ∷ xs) (y ∷ ys) (hx, hxs) (hy, hys) e q =
    let head : x ≡ y = omega arith in
    let rest = le_value_inj xs ys hxs hys (omega arith) (omega arith) in
    ap (λ (t : ℕ). t ∷ xs) head ∙ ap (λ (t : List ℕ). y ∷ t) rest

-- `putLE32` and `putLE64` append the base-256 digits of their argument.
pub put_le32-le_bytes : (buf : List ℕ) (v : ℕ) → put_le32 buf v ≡ buf ++ le_bytes 4 v
unfolding put_le32
put_le32-le_bytes buf v = simp append_assoc (ground arith)

pub put_le64-le_bytes : (buf : List ℕ) (v : ℕ) → put_le64 buf v ≡ buf ++ le_bytes 8 v
unfolding put_le64
put_le64-le_bytes buf v = simp append_assoc (ground arith)

-- One more byte read: it is shifted above what was read so far.
or_byte32 :
    (k acc b : ℕ) → acc < 2 ^ k → b * 2 ^ k < 2 ^ 32 → bit_or acc (u32 (shl b k)) ≡ acc + b * 2 ^ k
or_byte32 k acc b low fits = ap (bit_or acc) (mod-eq_of_lt fits) ∙ bit_or_shl k acc b low

or_byte64 :
    (k acc b : ℕ) → acc < 2 ^ k → b * 2 ^ k < 2 ^ 64 → bit_or acc (u64 (shl b k)) ≡ acc + b * 2 ^ k
or_byte64 k acc b low fits = ap (bit_or acc) (mod-eq_of_lt fits) ∙ bit_or_shl k acc b low

pub get_le32-le_value :
    (p rest : List ℕ) → length p ≡ 4 → All IsByte p → get_le32 (p ++ rest) ≡ some (le_value p)
unfolding get_le32
get_le32-le_value (b0 ∷ b1 ∷ b2 ∷ b3 ∷ []) rest h bytes =
    rw
      (
        or_byte32 8 b0 b1 (omega arith) (omega arith),
        or_byte32 16 (b0 + b1 * 2 ^ 8) b2 (omega arith) (omega arith),
        or_byte32 24 (b0 + b1 * 2 ^ 8 + b2 * 2 ^ 16) b3 (omega arith) (omega arith),
      )
      (ap some (omega arith))
get_le32-le_value p rest h bytes = absurd (omega arith)

pub get_le64-le_value :
    (p rest : List ℕ) → length p ≡ 8 → All IsByte p → get_le64 (p ++ rest) ≡ some (le_value p)
unfolding get_le64
get_le64-le_value (b0 ∷ b1 ∷ b2 ∷ b3 ∷ b4 ∷ b5 ∷ b6 ∷ b7 ∷ []) rest h bytes =
    let s0 = 0 + b0 * 2 ^ 0 in
    let s1 = s0 + b1 * 2 ^ 8 in
    let s2 = s1 + b2 * 2 ^ 16 in
    let s3 = s2 + b3 * 2 ^ 24 in
    let s4 = s3 + b4 * 2 ^ 32 in
    let s5 = s4 + b5 * 2 ^ 40 in
    let s6 = s5 + b6 * 2 ^ 48 in
    rw
      (
        or_byte64 0 0 b0 (omega arith) (omega arith),
        or_byte64 8 s0 b1 (omega arith) (omega arith),
        or_byte64 16 s1 b2 (omega arith) (omega arith),
        or_byte64 24 s2 b3 (omega arith) (omega arith),
        or_byte64 32 s3 b4 (omega arith) (omega arith),
        or_byte64 40 s4 b5 (omega arith) (omega arith),
        or_byte64 48 s5 b6 (omega arith) (omega arith),
        or_byte64 56 s6 b7 (omega arith) (omega arith),
      )
      (ap some (omega arith))
get_le64-le_value p rest h bytes = absurd (omega arith)

-- `getLE32` reads back a 32-bit number that `putLE32` wrote to an empty buffer, whatever follows
-- it.
pub get_le32-put_le32 :
    (v : ℕ) (rest : List ℕ) → IsU32 v → get_le32 (put_le32 [] v ++ rest) ≡ some v
get_le32-put_le32 v rest h = rw (put_le32-le_bytes [] v) (
    get_le32-le_value (le_bytes 4 v) rest (length-le_bytes 4 v) (le_bytes-IsByte 4 v)
    ∙ ap some (le_value-le_bytes4 v h))

-- `getLE64` reads back a 64-bit number that `putLE64` wrote to an empty buffer, whatever follows
-- it.
pub get_le64-put_le64 :
    (v : ℕ) (rest : List ℕ) → IsU64 v → get_le64 (put_le64 [] v ++ rest) ≡ some v
get_le64-put_le64 v rest h = rw (put_le64-le_bytes [] v) (
    get_le64-le_value (le_bytes 8 v) rest (length-le_bytes 8 v) (le_bytes-IsByte 8 v)
    ∙ ap some (le_value-le_bytes8 v h))
