-- ===== src/Base/Xor.antt =====
-- Laws of exclusive or, by recursion on the binary digits that it stands for.
use Prim.Native.Nat.{ℕ, zero, suc, ◌+◌, ◌-◌, ◌*◌, ◌/◌, ◌%◌, ◌^◌, ◌≤◌, ◌<◌}
use Prim.Native.Nat.{bit_xor, digits, differ, bit_xor-bitwise}
use mathlib.Core.Path.{◌≡◌, refl, sym, ap, ◌∙◌}
use native.Mathlib.Nat.{le_refl, pow-suc}
use native.Mathlib.Omega.{arith}

-- The digits of `^`, with fuel for the left operand: one unit more than enough changes nothing.
abbrev xor_digits : ℕ → ℕ → ℕ → ℕ
xor_digits = digits (λ y. y) differ

spare_unit : (a b fuel : ℕ) → a ≤ fuel → xor_digits (suc fuel) a b ≡ xor_digits fuel a b
spare_unit zero b zero enough = refl
spare_unit zero b (suc fuel) enough = refl
spare_unit (suc a) b zero enough = absurd (omega arith)
spare_unit (suc a) b (suc fuel) enough =
    ap (λ (high : ℕ). high * 2 + differ (suc a % 2) (b % 2))
      (spare_unit (suc a / 2) (b / 2) fuel (omega arith))

spare_fuel :
    (spare fuel a b : ℕ) → a ≤ fuel → spare ≡ fuel - a → xor_digits fuel a b ≡ xor_digits a a b
spare_fuel zero fuel a b enough is =
    ap (λ (n : ℕ). xor_digits n a b) {x = fuel} {y = a} (omega (arith, is))
spare_fuel (suc spare) zero a b enough is = absurd (omega (arith, is))
spare_fuel (suc spare) (suc fuel) a b enough is =
    let below : a ≤ fuel = omega (arith, is) in
    spare_unit a b fuel below ∙ spare_fuel spare fuel a b below (omega (arith, is))

-- The law of the lowest digit.
xor_step : (a b : ℕ) → bit_xor a b ≡ bit_xor (a / 2) (b / 2) * 2 + differ (a % 2) (b % 2)
xor_step zero b = omega (arith, bit_xor-bitwise 0 b, bit_xor-bitwise 0 (b / 2))
xor_step (suc a) b =
    let half = suc a / 2 in
    let higher = spare_fuel (a - half) a half (b / 2) (omega arith) refl in
    omega (arith, higher, bit_xor-bitwise half (b / 2), bit_xor-bitwise (suc a) b)

-- A number is its half and its lowest digit.
differ-lt : (x y : ℕ) → x < 2 → y < 2 → differ x y < 2
differ-lt zero y p q = q
differ-lt (suc zero) zero p q = omega arith
differ-lt (suc zero) (suc zero) p q = omega arith
differ-lt (suc zero) (suc (suc y)) p q = absurd (omega arith)
differ-lt (suc (suc x)) y p q = absurd (omega arith)

differ_comm : (x y : ℕ) → differ x y ≡ differ y x
differ_comm zero zero = refl
differ_comm zero (suc y) = refl
differ_comm (suc x) zero = refl
differ_comm (suc x) (suc y) = differ_comm x y

differ_self : (x : ℕ) → differ x x ≡ 0
differ_self zero = refl
differ_self (suc x) = differ_self x

differ_assoc : (x y z : ℕ) → x < 2 → y < 2 → z < 2 → differ (differ x y) z ≡ differ x (differ y z)
differ_assoc zero y z p q r = refl
differ_assoc (suc zero) zero z p q r = refl
differ_assoc (suc zero) (suc zero) zero p q r = refl
differ_assoc (suc zero) (suc zero) (suc zero) p q r = refl
differ_assoc (suc zero) (suc zero) (suc (suc z)) p q r = absurd (omega arith)
differ_assoc (suc zero) (suc (suc y)) z p q r = absurd (omega arith)
differ_assoc (suc (suc x)) y z p q r = absurd (omega arith)

pub xor_half : (a b : ℕ) → bit_xor a b / 2 ≡ bit_xor (a / 2) (b / 2)
xor_half a b = omega (arith, xor_step a b, differ-lt (a % 2) (b % 2) (omega arith) (omega arith))

pub xor_digit : (a b : ℕ) → bit_xor a b % 2 ≡ differ (a % 2) (b % 2)
xor_digit a b = omega (arith, xor_step a b, differ-lt (a % 2) (b % 2) (omega arith) (omega arith))

-- Two numbers with one half and one lowest digit are equal.
half_inj : (a b : ℕ) → a / 2 ≡ b / 2 → a % 2 ≡ b % 2 → a ≡ b
half_inj a b h d = omega (arith, h, d)

pub zero-xor : (b : ℕ) → bit_xor 0 b ≡ b
zero-xor b = bit_xor-bitwise 0 b

xor_comm_fuel : (n a b : ℕ) → a ≤ n → b ≤ n → bit_xor a b ≡ bit_xor b a
xor_comm_fuel zero zero zero p q = refl
xor_comm_fuel zero zero (suc b) p q = absurd (omega arith)
xor_comm_fuel zero (suc a) b p q = absurd (omega arith)
xor_comm_fuel (suc n) a b p q =
    half_inj (bit_xor a b) (bit_xor b a)
      (xor_half a b
        ∙ xor_comm_fuel n (a / 2) (b / 2) (omega arith) (omega arith)
        ∙ sym (xor_half b a))
      (xor_digit a b ∙ differ_comm (a % 2) (b % 2) ∙ sym (xor_digit b a))

pub xor_comm : (a b : ℕ) → bit_xor a b ≡ bit_xor b a
xor_comm a b = xor_comm_fuel (a + b) a b (omega arith) (omega arith)

pub xor-zero : (a : ℕ) → bit_xor a 0 ≡ a
xor-zero a = xor_comm a 0 ∙ zero-xor a

xor_self_fuel : (n a : ℕ) → a ≤ n → bit_xor a a ≡ 0
xor_self_fuel zero zero p = refl
xor_self_fuel zero (suc a) p = absurd (omega arith)
xor_self_fuel (suc n) a p =
    half_inj (bit_xor a a) 0 (xor_half a a ∙ xor_self_fuel n (a / 2) (omega arith))
      (xor_digit a a ∙ differ_self (a % 2))

xor_self : (a : ℕ) → bit_xor a a ≡ 0
xor_self a = xor_self_fuel a a (le_refl a)

xor_assoc_fuel :
    (n a b c : ℕ) → a ≤ n → b ≤ n → c ≤ n → bit_xor (bit_xor a b) c ≡ bit_xor a (bit_xor b c)
xor_assoc_fuel zero zero b c p q r =
    ap (λ (x : ℕ). bit_xor x c) (zero-xor b) ∙ sym (zero-xor (bit_xor b c))
xor_assoc_fuel zero (suc a) b c p q r = absurd (omega arith)
xor_assoc_fuel (suc n) a b c p q r =
    half_inj (bit_xor (bit_xor a b) c) (bit_xor a (bit_xor b c))
      (xor_half (bit_xor a b) c
        ∙ ap (λ (x : ℕ). bit_xor x (c / 2)) (xor_half a b)
        ∙ xor_assoc_fuel n (a / 2) (b / 2) (c / 2) (omega arith) (omega arith) (omega arith)
        ∙ sym (xor_half a (bit_xor b c) ∙ ap (bit_xor (a / 2)) (xor_half b c)))
      (xor_digit (bit_xor a b) c
        ∙ ap (λ (x : ℕ). differ x (c % 2)) (xor_digit a b)
        ∙ differ_assoc (a % 2) (b % 2) (c % 2) (omega arith) (omega arith) (omega arith)
        ∙ sym (xor_digit a (bit_xor b c) ∙ ap (differ (a % 2)) (xor_digit b c)))

pub xor_assoc : (a b c : ℕ) → bit_xor (bit_xor a b) c ≡ bit_xor a (bit_xor b c)
xor_assoc a b c = xor_assoc_fuel (a + b + c) a b c (omega arith) (omega arith) (omega arith)

-- What is xored away twice is gone.
pub xor_cancel : (a b : ℕ) → bit_xor a (bit_xor a b) ≡ b
xor_cancel a b = sym (xor_assoc a a b) ∙ ap (λ (x : ℕ). bit_xor x b) (xor_self a) ∙ zero-xor b

pub xor_inj : (a b c : ℕ) → bit_xor a b ≡ bit_xor a c → b ≡ c
xor_inj a b c h = sym (xor_cancel a b) ∙ ap (bit_xor a) h ∙ xor_cancel a c

pub xor-lt : (k a b : ℕ) → a < 2 ^ k → b < 2 ^ k → bit_xor a b < 2 ^ k
xor-lt zero zero zero p q = omega arith
xor-lt zero zero (suc b) p q = absurd (omega arith)
xor-lt zero (suc a) b p q = absurd (omega arith)
xor-lt (suc k) a b p q =
    let rest = xor-lt k (a / 2) (b / 2) (omega (arith, pow-suc 2 k)) (omega (arith, pow-suc 2 k)) in
    omega (arith, rest, xor_half a b, pow-suc 2 k)

-- Digits that do not meet are added.
pub xor_sum : (k r q : ℕ) → r < 2 ^ k → bit_xor r (q * 2 ^ k) ≡ r + q * 2 ^ k
xor_sum zero zero q fits = omega (arith, zero-xor (q * 2 ^ 0))
xor_sum zero (suc r) q fits = absurd (omega arith)
xor_sum (suc k) r q fits =
    let twice : q * 2 ^ suc k ≡ q * 2 ^ k + q * 2 ^ k =
      omega (arith, ap (λ (p : ℕ). q * p) (pow-suc 2 k)) in
    let rest = xor_sum k (r / 2) q (omega (arith, fits, pow-suc 2 k)) in
    let half : q * 2 ^ suc k / 2 ≡ q * 2 ^ k = omega (arith, twice) in
    let even : q * 2 ^ suc k % 2 ≡ 0 = omega (arith, twice) in
    half_inj (bit_xor r (q * 2 ^ suc k)) (r + q * 2 ^ suc k)
      (xor_half r (q * 2 ^ suc k) ∙ ap (bit_xor (r / 2)) half ∙ rest ∙ omega (arith, twice))
      (xor_digit r (q * 2 ^ suc k)
        ∙ ap (differ (r % 2)) even
        ∙ differ_comm (r % 2) 0
        ∙ omega (arith, even))
