-- ===== src/Base/Bits.antt =====
-- Bitwise operations as arithmetic, by recursion on the binary digits that they stand for.
use Prim.Native.Nat.{ℕ, zero, suc, ◌+◌, ◌-◌, ◌*◌, ◌/◌, ◌%◌, ◌^◌, ◌≤◌, ◌<◌, min, max}
use Prim.Native.Nat.{bit_and, bit_or, digits, bit_and-bitwise, bit_or-bitwise}
use mathlib.Core.Path.{◌≡◌, refl, ap, ◌∙◌}
use native.Mathlib.Nat.{
  le_refl, pow-suc, one-le-pow, div-add-mod, mod-lt, mod-eq_of_lt, add-mul-mod_self_right,
}
use native.Mathlib.Omega.{arith}

-- The digits of `|` and of `&`, with fuel for the left operand.
abbrev or_digits : ℕ → ℕ → ℕ → ℕ
or_digits = digits (λ y. y) max

abbrev and_digits : ℕ → ℕ → ℕ → ℕ
and_digits = digits (λ y. 0) min

double_power : (q k : ℕ) → q * 2 ^ suc k ≡ q * 2 ^ k + q * 2 ^ k
double_power q k = omega (arith, ap (λ (power : ℕ). q * power) (pow-suc 2 k))

halve_power : (q k : ℕ) → q * 2 ^ suc k / 2 ≡ q * 2 ^ k
halve_power q k = omega (arith, double_power q k)

or_digits_high :
    (fuel k r q : ℕ) → r ≤ fuel → r < 2 ^ k → or_digits fuel r (q * 2 ^ k) ≡ r + q * 2 ^ k
or_digits_high zero k zero q enough fits = omega arith
or_digits_high zero k (suc r) q enough fits = absurd (omega arith)
or_digits_high (suc fuel) k zero q enough fits = omega arith
or_digits_high (suc fuel) zero (suc r) q enough fits = absurd (omega arith)
or_digits_high (suc fuel) (suc k) (suc r) q enough fits =
    let below : suc r / 2 < 2 ^ k = omega (arith, fits, pow-suc 2 k) in
    let rest = or_digits_high fuel k (suc r / 2) q (omega arith) below in
    let moved = ap (or_digits fuel (suc r / 2)) (halve_power q k) in
    omega (arith, double_power q k, moved, rest)

or_digits_low :
    (fuel k a q r : ℕ) → a ≤ fuel → a ≡ q * 2 ^ k → r < 2 ^ k → or_digits fuel a r ≡ q * 2 ^ k + r
or_digits_low zero k zero q r enough is fits = omega (arith, is)
or_digits_low zero k (suc a) q r enough is fits = absurd (omega arith)
or_digits_low (suc fuel) k zero q r enough is fits = omega (arith, is)
or_digits_low (suc fuel) zero (suc a) q r enough is fits =
    let rest =
      or_digits_low fuel zero (suc a / 2) (suc a / 2) (r / 2) (omega arith) (omega arith)
        (omega arith) in
    omega (arith, is, rest)
or_digits_low (suc fuel) (suc k) (suc a) q r enough is fits =
    let rest =
      or_digits_low fuel k (suc a / 2) q (r / 2) (omega arith) (omega (arith, is, double_power q k))
        (omega (arith, fits, pow-suc 2 k)) in
    omega (arith, is, double_power q k, rest)

-- The lowest `suc k` bits are the lowest one and the `k` above it.
low_bits : (k a : ℕ) → a % 2 ^ suc k ≡ a / 2 % 2 ^ k + a / 2 % 2 ^ k + a % 2
low_bits k a =
    let above = a / 2 / 2 ^ k in
    let bits = a / 2 % 2 ^ k + a / 2 % 2 ^ k + a % 2 in
    let positive = one-le-pow k 2 (omega arith) in
    let bound = mod-lt (a / 2) {m = 2 ^ k} positive in
    let sum : a ≡ bits + above * 2 ^ suc k =
      omega (arith, double_power above k, div-add-mod (a / 2) (2 ^ k)) in
    let fits : bits < 2 ^ suc k = omega (arith, bound, pow-suc 2 k) in
    ap (λ (n : ℕ). n % 2 ^ suc k) sum
    ∙ (add-mul-mod_self_right bits above (2 ^ suc k) ∙ mod-eq_of_lt fits)

empty_low : (k : ℕ) → 0 % 2 ^ k ≡ 0
empty_low k = mod-eq_of_lt (one-le-pow k 2 (omega arith))

and_digits_mask : (fuel k a : ℕ) → a ≤ fuel → and_digits fuel a (2 ^ k - 1) ≡ a % 2 ^ k
and_digits_mask zero k zero enough = omega (arith, empty_low k)
and_digits_mask zero k (suc a) enough = absurd (omega arith)
and_digits_mask (suc fuel) k zero enough = omega (arith, empty_low k)
and_digits_mask (suc fuel) zero (suc a) enough =
    omega (arith, and_digits_mask fuel zero (suc a / 2) (omega arith))
and_digits_mask (suc fuel) (suc k) (suc a) enough =
    let positive = one-le-pow k 2 (omega arith) in
    let mask : (2 ^ suc k - 1) / 2 ≡ 2 ^ k - 1 = omega (arith, positive, pow-suc 2 k) in
    let rest = and_digits_mask fuel k (suc a / 2) (omega arith) in
    let moved = ap (and_digits fuel (suc a / 2)) mask in
    omega (arith, positive, pow-suc 2 k, low_bits k (suc a), moved, rest)

-- `r | (q << k)` is a sum where `r` fits in `k` bits.
pub bit_or_shl : (k r q : ℕ) → r < 2 ^ k → bit_or r (q * 2 ^ k) ≡ r + q * 2 ^ k
bit_or_shl k r q fits = bit_or-bitwise r (q * 2 ^ k) ∙ or_digits_high r k r q (le_refl r) fits

-- The same with the operands the other way round.
pub shl_bit_or : (k q r : ℕ) → r < 2 ^ k → bit_or (q * 2 ^ k) r ≡ q * 2 ^ k + r
shl_bit_or k q r fits =
    bit_or-bitwise (q * 2 ^ k) r
    ∙ or_digits_low (q * 2 ^ k) k (q * 2 ^ k) q r (le_refl (q * 2 ^ k)) refl fits

-- `x & (2 ^ k - 1)` is the remainder by `2 ^ k`.
pub bit_and_mask : (k a : ℕ) → bit_and a (2 ^ k - 1) ≡ a % 2 ^ k
bit_and_mask k a = bit_and-bitwise a (2 ^ k - 1) ∙ and_digits_mask a k a (le_refl a)
