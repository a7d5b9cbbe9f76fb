-- ===== src/Crc32/Bitwise.antt =====
-- The division by the polynomial, bit by bit, beside the loop over the table.
use lite_speed_store.Base.{
  ℕ, zero, suc, ◌+◌, ◌*◌, ◌/◌, ◌%◌, ◌^◌, ◌<◌, ◌≡◌, refl, sym, ap, ap₂, ◌∙◌, arith, List, [], ◌∷◌,
  All, IsByte, shr, bit_xor, get_or, bit_and_mask, zero-xor, xor_half, xor_digit, xor_comm,
  xor_assoc, xor_sum, xor-zero, ◌==◌, if◌then◌else◌,
}
use Prim.Native.Nat.{differ}
use native.Mathlib.Nat.{pow-suc}
use lite_speed_store.Crc32.{polynomial, shift_bit, shift_bits, table_from, table, step, run}

-- What the bit that drops out puts in.
abbrev pub feedback : ℕ → ℕ
feedback zero = 0
feedback (suc d) = polynomial

digit_of : (c d : ℕ) → c % 2 ≡ d → shift_bit c ≡ bit_xor (feedback d) (c / 2)
unfolding shift_bit
digit_of c zero is = rw (shift_bit, bit_and_mask 1 c, is) (sym (zero-xor (c / 2)))
digit_of c (suc zero) is = rw (shift_bit, bit_and_mask 1 c, is) refl
digit_of c (suc (suc d)) is = absurd (omega (arith, is))

pub shift_bit_lem : (c : ℕ) → shift_bit c ≡ bit_xor (feedback (c % 2)) (c / 2)
shift_bit_lem c = digit_of c (c % 2) refl

xor_swap : (a b c d : ℕ) → bit_xor (bit_xor a b) (bit_xor c d) ≡ bit_xor (bit_xor a c) (bit_xor b d)
xor_swap a b c d =
    xor_assoc a b (bit_xor c d)
    ∙ ap (bit_xor a)
        (sym (xor_assoc b c d) ∙ ap (λ (x : ℕ). bit_xor x d) (xor_comm b c) ∙ xor_assoc c b d)
    ∙ sym (xor_assoc a c (bit_xor b d))

feedback_sum : (x y : ℕ) → x < 2 → y < 2 → feedback (differ x y) ≡ bit_xor (feedback x) (feedback y)
feedback_sum zero y p q = sym (zero-xor (feedback y))
feedback_sum (suc zero) zero p q = refl
feedback_sum (suc zero) (suc zero) p q = refl
feedback_sum (suc zero) (suc (suc y)) p q = absurd (omega arith)
feedback_sum (suc (suc x)) y p q = absurd (omega arith)

-- A round is linear over exclusive or.
shift_bit-xor : (a b : ℕ) → shift_bit (bit_xor a b) ≡ bit_xor (shift_bit a) (shift_bit b)
shift_bit-xor a b =
    shift_bit_lem (bit_xor a b)
    ∙ ap₂ (λ (d h : ℕ). bit_xor (feedback d) h) (xor_digit a b) (xor_half a b)
    ∙ ap (λ (f : ℕ). bit_xor f (bit_xor (a / 2) (b / 2)))
        (feedback_sum (a % 2) (b % 2) (omega arith) (omega arith))
    ∙ xor_swap (feedback (a % 2)) (feedback (b % 2)) (a / 2) (b / 2)
    ∙ sym (ap₂ bit_xor (shift_bit_lem a) (shift_bit_lem b))

shift_bits-xor :
    (n a b : ℕ) → shift_bits n (bit_xor a b) ≡ bit_xor (shift_bits n a) (shift_bits n b)
unfolding shift_bits
shift_bits-xor zero a b = refl
shift_bits-xor (suc n) a b =
    ap (shift_bits n) (shift_bit-xor a b) ∙ shift_bits-xor n (shift_bit a) (shift_bit b)

-- Bits above the rounds are only moved.
shift_bits_high : (n q : ℕ) → shift_bits n (q * 2 ^ n) ≡ q
unfolding shift_bits
shift_bits_high zero q = omega arith
shift_bits_high (suc n) q =
    let twice : q * 2 ^ suc n ≡ q * 2 ^ n + q * 2 ^ n =
      omega (arith, ap (λ (p : ℕ). q * p) (pow-suc 2 n)) in
    let even : q * 2 ^ suc n % 2 ≡ 0 = omega (arith, twice) in
    let half : q * 2 ^ suc n / 2 ≡ q * 2 ^ n = omega (arith, twice) in
    ap (shift_bits n) (
      shift_bit_lem (q * 2 ^ suc n)
      ∙ ap₂ (λ (d h : ℕ). bit_xor (feedback d) h) even half
      ∙ zero-xor (q * 2 ^ n))
    ∙ shift_bits_high n q

byte_sum : (x : ℕ) → x ≡ bit_xor (x % 256) (x / 256 * 2 ^ 8)
byte_sum x = omega (arith, xor_sum 8 (x % 256) (x / 256) (omega arith))

-- Eight rounds are a look at the byte that drops out, and a move.
shift_byte : (x : ℕ) → shift_bits 8 x ≡ bit_xor (shift_bits 8 (x % 256)) (x / 256)
shift_byte x =
    ap (shift_bits 8) (byte_sum x)
    ∙ shift_bits-xor 8 (x % 256) (x / 256 * 2 ^ 8)
    ∙ ap (bit_xor (shift_bits 8 (x % 256))) (shift_bits_high 8 (x / 256))

table_from-get : (left i j : ℕ) → j < left → get_or (table_from left i) j 0 ≡ shift_bits 8 (i + j)
unfolding table_from
table_from-get zero i j h = absurd (omega arith)
table_from-get (suc left) i zero h = ap (shift_bits 8) {x = i} {y = i + 0} (omega arith)
table_from-get (suc left) i (suc j) h =
    table_from-get left (i + 1) j (omega arith)
    ∙ ap (shift_bits 8) {x = i + 1 + j} {y = i + suc j} (omega arith)

table-get : (j : ℕ) → j < 256 → get_or table j 0 ≡ shift_bits 8 j
unfolding table
table-get j h = table_from-get 256 0 j h ∙ ap (shift_bits 8) {x = 0 + j} {y = j} (omega arith)

xor_cong : (a c b d : ℕ) → a ≡ c → b ≡ d → bit_xor a b ≡ bit_xor c d
xor_cong a c b d p q = ap₂ bit_xor p q

xor_4 : (a b : ℕ) → bit_xor a b / 4 ≡ bit_xor (a / 4) (b / 4)
xor_4 a b = omega (
  arith,
  xor_half a b,
  xor_half (a / 2) (b / 2),
  xor_cong (a / 2 / 2) (a / 4) (b / 2 / 2) (b / 4) (omega arith) (omega arith),
)

xor_16 : (a b : ℕ) → bit_xor a b / 16 ≡ bit_xor (a / 16) (b / 16)
xor_16 a b = omega (
  arith,
  xor_4 a b,
  xor_4 (a / 4) (b / 4),
  xor_cong (a / 4 / 4) (a / 16) (b / 4 / 4) (b / 16) (omega arith) (omega arith),
)

xor_256 : (a b : ℕ) → bit_xor a b / 256 ≡ bit_xor (a / 256) (b / 256)
xor_256 a b = omega (
  arith,
  xor_16 a b,
  xor_16 (a / 16) (b / 16),
  xor_cong (a / 16 / 16) (a / 256) (b / 16 / 16) (b / 256) (omega arith) (omega arith),
)

-- A byte does not reach the bits above it.
above_byte : (crc b : ℕ) → IsByte b → bit_xor crc b / 256 ≡ crc / 256
above_byte crc b h =
    xor_256 crc b
    ∙ ap (bit_xor (crc / 256)) {x = b / 256} {y = 0} (omega arith)
    ∙ xor-zero (crc / 256)

-- A round of `calculate` is the eight rounds on the byte.
pub step-shift_bits : (crc b : ℕ) → IsByte b → step crc b ≡ shift_bits 8 (bit_xor crc b)
unfolding step
step-shift_bits crc b h =
    ap (λ (i : ℕ). bit_xor (get_or table i 0) (shr crc 8)) (bit_and_mask 8 (bit_xor crc b))
    ∙ ap₂ bit_xor (table-get (bit_xor crc b % 256) (omega arith)) (sym (above_byte crc b h))
    ∙ sym (shift_byte (bit_xor crc b))

-- The shift register of the division: a bit of the message goes in, and the polynomial is subtracted
-- where the bits that meet differ.
unfoldable pub shift_in : ℕ → ℕ → ℕ
shift_in crc bit = if crc % 2 == bit then crc / 2 else bit_xor polynomial (crc / 2)

-- The lowest bit of a byte first, `left` of them.
unfoldable pub shift_in_byte : ℕ → ℕ → ℕ → ℕ
shift_in_byte zero crc b = crc
shift_in_byte (suc left) crc b = shift_in_byte left (shift_in crc (b % 2)) (b / 2)

unfoldable pub divide : ℕ → List ℕ → ℕ
unfolding shift_in_byte
divide crc [] = crc
divide crc (b ∷ bytes) = divide (shift_in_byte 8 crc b) bytes

shift_in_lem :
    (crc c d : ℕ) → crc % 2 ≡ c → d < 2 → shift_in crc d ≡ bit_xor (feedback (differ c d)) (crc / 2)
unfolding shift_in
shift_in_lem crc zero zero is h = rw (shift_in, is) (sym (zero-xor (crc / 2)))
shift_in_lem crc zero (suc zero) is h = rw (shift_in, is) refl
shift_in_lem crc zero (suc (suc d)) is h = absurd (omega arith)
shift_in_lem crc (suc zero) zero is h = rw (shift_in, is) refl
shift_in_lem crc (suc zero) (suc zero) is h = rw (shift_in, is) (sym (zero-xor (crc / 2)))
shift_in_lem crc (suc zero) (suc (suc d)) is h = absurd (omega arith)
shift_in_lem crc (suc (suc c)) d is h = absurd (omega (arith, is))

shift_bits-shift_in :
    (n crc b : ℕ) → b < 2 ^ n → shift_bits n (bit_xor crc b) ≡ shift_in_byte n crc b
unfolding shift_bits shift_in_byte
shift_bits-shift_in zero crc b h = ap (bit_xor crc) {x = b} {y = 0} (omega arith) ∙ xor-zero crc
shift_bits-shift_in (suc n) crc b h =
    let round : shift_bit (bit_xor crc b) ≡ bit_xor (shift_in crc (b % 2)) (b / 2) =
      shift_bit_lem (bit_xor crc b)
      ∙ ap₂ (λ (d h : ℕ). bit_xor (feedback d) h) (xor_digit crc b) (xor_half crc b)
      ∙ sym (xor_assoc (feedback (differ (crc % 2) (b % 2))) (crc / 2) (b / 2))
      ∙ ap (λ (x : ℕ). bit_xor x (b / 2))
          (sym (shift_in_lem crc (crc % 2) (b % 2) refl (omega arith))) in
    ap (shift_bits n) round
    ∙ shift_bits-shift_in n (shift_in crc (b % 2)) (b / 2) (omega (arith, h, pow-suc 2 n))

-- From any register, the loop of `CRC32::calculate` over the table is the shift register of the
-- division by the polynomial, which takes in the bits of the bytes one by one, the lowest first.
pub run-divide : (crc : ℕ) (bytes : List ℕ) → All IsByte bytes → run crc bytes ≡ divide crc bytes
unfolding run divide
run-divide crc [] h = refl
run-divide crc (b ∷ bytes) h =
    ap (λ (c : ℕ). run c bytes) (step-shift_bits crc b h.0 ∙ shift_bits-shift_in 8 crc b h.0)
    ∙ run-divide (shift_in_byte 8 crc b) bytes h.1
