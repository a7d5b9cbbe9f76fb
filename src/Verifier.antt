-- ===== src/Verifier.antt =====
-- tools/verify.cpp: the command that checks a journal. What it prints is a value with the numbers and
-- the text that it puts in its sentence.
pub mod Laws
pub mod Verdict
pub mod Alarm
mod Tests
use lite_speed_store.Base.{
  ℕ, ◌/◌, ◌%◌, ◌^◌, Bool, not, Option, none, some, List, [], ◌∷◌, length, get_or, ◌==◌,
  if◌then◌else◌,
}
use lite_speed_store.Posix.{Disk}
use lite_speed_store.Wal.{
  Wal, Error, Outcome, returned, thrown, RecoveryStatus, ok, truncated_tail, malformed, tampered,
  RecoveryResult, open_wal, close,
}
use lite_speed_store.Wal.Recover.{verify}

-- "0123456789abcdef"
abbrev pub hex : List ℕ
hex = 48 ∷ 49 ∷ 50 ∷ 51 ∷ 52 ∷ 53 ∷ 54 ∷ 55 ∷ 56 ∷ 57 ∷ 97 ∷ 98 ∷ 99 ∷ 100 ∷ 101 ∷ 102 ∷ []

-- Of a byte, `b >> 4` and `b & 0x0F`.
unfoldable pub to_hex : List ℕ → List ℕ
to_hex [] = []
to_hex (b ∷ bs) = get_or hex (b / 2 ^ 4) 0 ∷ get_or hex (b % 2 ^ 4) 0 ∷ to_hex bs

pub data Printed : Type 0 where
  usage no_such_file : Printed
  intact : (entries : ℕ) (head : List ℕ) → Printed
  torn_tail : (entries : ℕ) → Printed
  over_limit : (offset entries : ℕ) → Printed
  tampering : (offset entries : ℕ) → Printed
  error : Error → Printed

-- The switch: the exit code, and what is printed.
unfoldable pub print_result : RecoveryResult → ℕ × Printed
unfolding to_hex
print_result r = elim r.status [
  | ok ↦ (0, intact r.entries_verified (to_hex r.head_hash))
  | truncated_tail ↦ (0, torn_tail r.entries_verified)
  | malformed ↦ (2, over_limit r.tamper_offset r.entries_verified)
  | tampered ↦ (1, tampering r.tamper_offset r.entries_verified)
]

-- The try block, on what the constructor gave; the object closes the file at the end. `none` is no
-- value of the program.
unfoldable pub check : Outcome Wal × Disk → Option ((ℕ × Printed) × Disk)
unfolding print_result
check (thrown x, d) = some ((2, error x), d)
check (returned w, d) = elim (verify w) [
  | none ↦ none
  | some p ↦ let (r, w1) = p in some (print_result r, (close w1).disk)
]

-- `exists` is what std::filesystem::exists says of the path, and `d` the file there.
unfoldable pub main : Bool → List (List ℕ) → Disk → Option ((ℕ × Printed) × Disk)
unfolding check
main exists argv d =
    if not (length argv == 2)
    then some ((2, usage), d)
    else if not exists
    then some ((2, no_such_file), d)
    else check (open_wal 1 d)
