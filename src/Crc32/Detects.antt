-- ===== src/Crc32/Detects.antt =====
-- What a change of one byte does to the CRC.
use lite_speed_store.Base.{
  ℕ, zero, suc, ◌/◌, ◌%◌, ◌^◌, ◌<◌, ◌≡◌, ◌≢◌, refl, sym, ap, ◌∙◌, arith, List, [], ◌∷◌, ◌++◌, All,
  IsByte, IsU32, bit_xor, zero-xor, xor_comm, xor_inj, xor_cancel, xor-lt,
}
use lite_speed_store.Crc32.{polynomial, shift_bit, shift_bits, run, calculate}
use lite_speed_store.Crc32.Bitwise.{feedback, shift_bit_lem, step-shift_bits}
use lite_speed_store.Crc32.{step}

feedback-IsU32 : (d : ℕ) → IsU32 (feedback d)
feedback-IsU32 zero = omega arith
feedback-IsU32 (suc d) = omega arith

shift_bit-IsU32 : (c : ℕ) → IsU32 c → IsU32 (shift_bit c)
shift_bit-IsU32 c h = omega (
  arith,
  shift_bit_lem c,
  xor-lt 32 (feedback (c % 2)) (c / 2) (feedback-IsU32 (c % 2)) (omega (arith, h)),
)

shift_bits-IsU32 : (n c : ℕ) → IsU32 c → IsU32 (shift_bits n c)
unfolding shift_bits
shift_bits-IsU32 zero c h = h
shift_bits-IsU32 (suc n) c h = shift_bits-IsU32 n (shift_bit c) (shift_bit-IsU32 c h)

-- The polynomial's highest bit tells which bit dropped out.
high_bit : (x y : ℕ) → x < 2 ^ 31 → y < 2 ^ 31 → x ≢ bit_xor polynomial y
high_bit x y p q e =
    let is : bit_xor y x ≡ polynomial =
      ap (bit_xor y) (e ∙ xor_comm polynomial y) ∙ xor_cancel y polynomial in
    omega (arith, xor-lt 31 y x q p, is)

same_feedback :
    (x y c d : ℕ)
    → x < 2 ^ 31
    → y < 2 ^ 31
    → c < 2
    → d < 2
    → bit_xor (feedback c) x ≡ bit_xor (feedback d) y
    → (c ≡ d) × (x ≡ y)
same_feedback x y zero zero p q r s e = (refl, xor_inj 0 x y e)
same_feedback x y zero (suc zero) p q r s e = absurd (high_bit x y p q (sym (zero-xor x) ∙ e))
same_feedback x y (suc zero) zero p q r s e = absurd (high_bit y x q p (sym (zero-xor y) ∙ sym e))
same_feedback x y (suc zero) (suc zero) p q r s e = (refl, xor_inj polynomial x y e)
same_feedback x y (suc (suc c)) d p q r s e = absurd (omega arith)
same_feedback x y c (suc (suc d)) p q r s e = absurd (omega arith)

shift_bit_inj : (c d : ℕ) → IsU32 c → IsU32 d → shift_bit c ≡ shift_bit d → c ≡ d
shift_bit_inj c d p q e =
    let (low, high) =
      same_feedback (c / 2) (d / 2) (c % 2) (d % 2) (omega (arith, p)) (omega (arith, q))
        (omega arith) (omega arith) (sym (shift_bit_lem c) ∙ e ∙ shift_bit_lem d) in
    omega (arith, low, high)

shift_bits_inj : (n c d : ℕ) → IsU32 c → IsU32 d → shift_bits n c ≡ shift_bits n d → c ≡ d
unfolding shift_bits
shift_bits_inj zero c d p q e = e
shift_bits_inj (suc n) c d p q e =
    shift_bit_inj c d p q
      (shift_bits_inj n (shift_bit c) (shift_bit d) (shift_bit-IsU32 c p) (shift_bit-IsU32 d q) e)

step-IsU32 : (crc b : ℕ) → IsU32 crc → IsByte b → IsU32 (step crc b)
step-IsU32 crc b p h = omega (
  arith,
  step-shift_bits crc b h,
  shift_bits-IsU32 8 (bit_xor crc b) (xor-lt 32 crc b p (omega (arith, h))),
)

run-IsU32 : (crc : ℕ) (bytes : List ℕ) → IsU32 crc → All IsByte bytes → IsU32 (run crc bytes)
unfolding run
run-IsU32 crc [] p h = p
run-IsU32 crc (b ∷ bytes) p h = run-IsU32 (step crc b) bytes (step-IsU32 crc b p h.0) h.1

-- Two registers that are one after the same byte are one before it.
step_inj :
    (crc crc' b : ℕ) → IsU32 crc → IsU32 crc' → IsByte b → step crc b ≡ step crc' b → crc ≡ crc'
step_inj crc crc' b p q h e =
    let same =
      shift_bits_inj 8 (bit_xor crc b) (bit_xor crc' b) (xor-lt 32 crc b p (omega (arith, h)))
        (xor-lt 32 crc' b q (omega (arith, h)))
        (sym (step-shift_bits crc b h) ∙ e ∙ step-shift_bits crc' b h) in
    xor_inj b crc crc' (xor_comm b crc ∙ same ∙ xor_comm crc' b)

run_inj :
    (crc crc' : ℕ) (bytes : List ℕ)
    → IsU32 crc
    → IsU32 crc'
    → All IsByte bytes
    → run crc bytes ≡ run crc' bytes
    → crc ≡ crc'
unfolding run
run_inj crc crc' [] p q h e = e
run_inj crc crc' (b ∷ bytes) p q h e = step_inj crc crc' b p q h.0 (
    run_inj (step crc b) (step crc' b) bytes (step-IsU32 crc b p h.0) (step-IsU32 crc' b q h.0) h.1
      e)

run-append : (crc : ℕ) (xs ys : List ℕ) → run crc (xs ++ ys) ≡ run (run crc xs) ys
unfolding run
run-append crc [] ys = refl
run-append crc (x ∷ xs) ys = run-append (step crc x) xs ys

-- Different bytes make different registers.
step_byte_inj : (crc b c : ℕ) → IsU32 crc → IsByte b → IsByte c → step crc b ≡ step crc c → b ≡ c
step_byte_inj crc b c p hb hc e = xor_inj crc b c (
    shift_bits_inj 8 (bit_xor crc b) (bit_xor crc c) (xor-lt 32 crc b p (omega (arith, hb)))
      (xor-lt 32 crc c p (omega (arith, hc)))
      (sym (step-shift_bits crc b hb) ∙ e ∙ step-shift_bits crc c hc))

-- Where one byte of a buffer is changed for another, `CRC32::calculate` gives another value.
pub calculate-differs :
    (xs ys : List ℕ) (b c : ℕ)
    → All IsByte xs
    → All IsByte ys
    → IsByte b
    → IsByte c
    → b ≢ c
    → calculate (xs ++ b ∷ ys) ≢ calculate (xs ++ c ∷ ys)
unfolding calculate run
calculate-differs xs ys b c hx hy hb hc ne e =
    let front = run 0xFFFFFFFF xs in
    let start : IsU32 0xFFFFFFFF = omega arith in
    let p = run-IsU32 0xFFFFFFFF xs start hx in
    let pb = step-IsU32 front b p hb in
    let pc = step-IsU32 front c p hc in
    let same : run (step front b) ys ≡ run (step front c) ys = omega (
      arith,
      e,
      run-append 0xFFFFFFFF xs (b ∷ ys),
      run-append 0xFFFFFFFF xs (c ∷ ys),
      run-IsU32 (step front b) ys pb hy,
      run-IsU32 (step front c) ys pc hy,
    ) in
    ne (step_byte_inj front b c p hb hc (run_inj (step front b) (step front c) ys pb pc hy same))
