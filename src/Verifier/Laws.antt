-- ===== src/Verifier/Laws.antt =====
-- What the verifier does to the file, and what it answers on a journal.
use lite_speed_store.Base.{
  ℕ, zero, suc, ◌/◌, ◌%◌, ◌*◌, ◌+◌, ◌-◌, ◌^◌, ◌<◌, ◌≡◌, refl, sym, ap, ap₂, ◌∙◌, arith, Bool, true,
  false, not, Option, none, some, List, [], ◌∷◌, All, IsByte, length, get_or, ltb, ◌==◌,
  if◌then◌else◌, inl, inr, Bool-cases,
}
use lite_speed_store.Posix.{Disk, query, probe, seek, fsync}
use lite_speed_store.Wal.{
  Wal, open_failed, stat_failed, header_write_failed, header_invalid, Outcome, returned, thrown,
  open_wal, fresh, validate_header, write_header, close,
}
use lite_speed_store.Wal.Ends.{recover-returns}
use lite_speed_store.Wal.Untouched.{verify-bytes}
use lite_speed_store.Verifier.{hex, to_hex, Printed, print_result, check, main}

-- The digit of a number below 16 tells the number.
digit : ℕ → ℕ
digit c = if ltb c 58 then c - 48 else c - 87

-- The digits in a list count up from `k`.
abbrev Counts : ℕ → List ℕ → Type 0
Counts k [] = Unit
Counts k (c ∷ cs) = (digit c ≡ k) × Counts (suc k) cs

Counts-get_or :
    (k n : ℕ) (cs : List ℕ) → Counts k cs → n < length cs → digit (get_or cs n 0) ≡ k + n
Counts-get_or k n [] h small = absurd (omega arith)
Counts-get_or k zero (c ∷ cs) h small = omega (arith, h.0)
Counts-get_or k (suc n) (c ∷ cs) h small =
    omega (arith, Counts-get_or (suc k) n cs h.1 (omega arith))

hex-Counts : Counts 0 hex
unfolding digit
hex-Counts = (
  refl,
  (
    refl,
    (
      refl,
      (
        refl,
        (
          refl,
          (
            refl,
            (refl, (refl, (refl, (refl, (refl, (refl, (refl, (refl, (refl, (refl, tt)))))))))),
          ),
        ),
      ),
    ),
  ),
)

digit_lem : (n : ℕ) → n < 16 → digit (get_or hex n 0) ≡ n
digit_lem n small = omega (arith, Counts-get_or 0 n hex hex-Counts small)

-- The bytes that a text of digits stands for.
bytes_of : List ℕ → List ℕ
bytes_of [] = []
bytes_of (c ∷ []) = []
bytes_of (c ∷ d ∷ text) = (digit c * 2 ^ 4 + digit d) ∷ bytes_of text

bytes_of-to_hex : (bs : List ℕ) → All IsByte bs → bytes_of (to_hex bs) ≡ bs
unfolding bytes_of to_hex
bytes_of-to_hex [] a = refl
bytes_of-to_hex (b ∷ bs) (h, a) =
    ap₂ (λ (x : ℕ) (xs : List ℕ). x ∷ xs)
      (omega (arith, digit_lem (b / 2 ^ 4) (omega (arith, h)), digit_lem (b % 2 ^ 4) (omega arith)))
      (bytes_of-to_hex bs a)

-- Two digests of bytes that the verifier prints alike are the same.
pub to_hex_inj : (xs ys : List ℕ) → All IsByte xs → All IsByte ys → to_hex xs ≡ to_hex ys → xs ≡ ys
to_hex_inj xs ys a b e = sym (bytes_of-to_hex xs a) ∙ ap bytes_of e ∙ bytes_of-to_hex ys b

-- The constructor on a file that is not empty.
abbrev Opened : List ℕ → Outcome Wal × Disk → Type 0
Opened bytes (thrown x, d) = d.bytes ≡ bytes
Opened bytes (returned w, d) = w.disk.bytes ≡ bytes

opening_kept :
    (a b empty c valid : Bool) (p q r s : Disk) (v : Wal) (bytes : List ℕ)
    → empty ≡ false
    → p.bytes ≡ bytes
    → q.bytes ≡ bytes
    → s.bytes ≡ bytes
    → (o : Outcome Wal × Disk)
    → o ≡ (
        if not a
        then (thrown open_failed, p)
        else if not b
        then (thrown stat_failed, q)
        else if empty
        then (if c then (returned v, r) else (thrown header_write_failed, r))
        else (if valid then (returned (fresh 1 s), s) else (thrown header_invalid, s)))
    → Opened bytes o
unfolding fresh
opening_kept false b empty c valid p q r s v bytes e kp kq ks o h = rw h kp
opening_kept true false empty c valid p q r s v bytes e kp kq ks o h = rw h kq
opening_kept true true true c valid p q r s v bytes e kp kq ks o h = cc
opening_kept true true false c true p q r s v bytes e kp kq ks o h = rw h ks
opening_kept true true false c false p q r s v bytes e kp kq ks o h = rw h ks

validate_header-bytes : (d : Disk) → (validate_header d).1.bytes ≡ d.bytes
unfolding validate_header seek
validate_header-bytes d = elim (Bool-cases (query d.script).0) [ inl h ↦ rw h | inr h ↦ rw h ]

open_wal-Opened : (d : Disk) → 0 < length d.bytes → Opened d.bytes (open_wal 1 d)
unfolding open_wal probe seek
open_wal-Opened d some_bytes =
    let d1 = (probe d).1 in
    let d2 = (seek d1).1 in
    let dw = (write_header d2).1 in
    let dv = (validate_header d2).1 in
    opening_kept (probe d).0 (seek d1).0 (length d2.bytes == 0) (write_header d2).0
      (validate_header d2).0 d1 d2 dw dv (fresh 1 dw) d.bytes (ground (arith, some_bytes)) refl refl
      (validate_header-bytes d2) (open_wal 1 d) refl

close-bytes : (w : Wal) → (close w).disk.bytes ≡ w.disk.bytes
unfolding close fsync probe
close-bytes w = ground arith

-- A run that ends, with the file as it was.
abbrev EndsWith : List ℕ → Option ((ℕ × Printed) × Disk) → Type 0
EndsWith bytes x =
    (out : ℕ × Printed) × (after : Disk) × (x ≡ some (out, after)) × (after.bytes ≡ bytes)

check-EndsWith :
    (bytes : List ℕ) (o : Outcome Wal × Disk) → Opened bytes o → EndsWith bytes (check o)
unfolding check
check-EndsWith bytes (thrown x, d) same = (_, d, refl, same)
check-EndsWith bytes (returned w, d) same =
    let (_, v) = recover-returns {0} {S = Unit {0}} none none w tt in
    let (r, w1, eq) = v in
    (
      print_result r,
      (close w1).disk,
      rw (check, eq),
      close-bytes w1 ∙ verify-bytes w w1 r eq ∙ same,
    )

if-EndsWith :
    (bytes : List ℕ) (b : Bool) (x y : Option ((ℕ × Printed) × Disk))
    → EndsWith bytes x
    → EndsWith bytes y
    → EndsWith bytes (if b then x else y)
if-EndsWith bytes true x y p q = p
if-EndsWith bytes false x y p q = q

-- With any arguments, on a file that is not empty, whatever it holds and the kernel answers, the
-- verifier ends with an exit code, and the bytes of the file are as they were.
pub main-read_only :
    (exists : Bool) (argv : List (List ℕ)) (d : Disk)
    → 0 < length d.bytes
    → (out : ℕ × Printed) × (after : Disk) × (main exists argv d ≡ some (out, after))
      × (after.bytes ≡ d.bytes)
unfolding main
main-read_only exists argv d some_bytes =
    if-EndsWith d.bytes (not (length argv == 2)) _ _ (_, d, refl, refl)
      (if-EndsWith d.bytes (not exists) _ _ (_, d, refl, refl)
        (check-EndsWith d.bytes (open_wal 1 d) (open_wal-Opened d some_bytes)))
