-- ===== src/Demo.antt =====
-- tools/demo.cpp: an agent records events, a verifier confirms the chain, an attacker edits one byte,
-- and the verifier catches it. What is printed is a value with the numbers and the text that stand in
-- the sentence. The file streams of the attacker read and write all the bytes.
mod Tests
use lite_speed_store.Base.{
  ℕ, zero, suc, ◌/◌, ◌%◌, ◌^◌, Bool, true, false, ◌&&◌, Option, none, some, List, [], ◌∷◌, ◌++◌, u8,
  bit_xor, get_or, set, ◌==◌, if◌then◌else◌,
}
use lite_speed_store.Posix.{Disk, probe}
use lite_speed_store.Wal.{
  Wal, Outcome, returned, thrown, put, RecoveryStatus, ok, truncated_tail, malformed, tampered,
  RecoveryResult, open_wal, close, head,
}
use lite_speed_store.Wal.Append.{append}
use lite_speed_store.Wal.Recover.{verify}
use lite_speed_store.Verifier.{hex}

-- "C:\Temp\evil.exe"
abbrev pub first_value : List ℕ
first_value =
    67 ∷ 58 ∷ 92 ∷ 84 ∷ 101 ∷ 109 ∷ 112 ∷ 92 ∷ 101 ∷ 118 ∷ 105 ∷ 108 ∷ 46 ∷ 101 ∷ 120 ∷ 101 ∷ []

-- "process.start"
abbrev pub process_start : List ℕ
process_start = 112 ∷ 114 ∷ 111 ∷ 99 ∷ 101 ∷ 115 ∷ 115 ∷ 46 ∷ 115 ∷ 116 ∷ 97 ∷ 114 ∷ 116 ∷ []

-- "net.connect"
abbrev pub net_connect : List ℕ
net_connect = 110 ∷ 101 ∷ 116 ∷ 46 ∷ 99 ∷ 111 ∷ 110 ∷ 110 ∷ 101 ∷ 99 ∷ 116 ∷ []

-- "203.0.113.7:443"
abbrev pub address : List ℕ
address = 50 ∷ 48 ∷ 51 ∷ 46 ∷ 48 ∷ 46 ∷ 49 ∷ 49 ∷ 51 ∷ 46 ∷ 55 ∷ 58 ∷ 52 ∷ 52 ∷ 51 ∷ []

-- "file.delete"
abbrev pub file_delete : List ℕ
file_delete = 102 ∷ 105 ∷ 108 ∷ 101 ∷ 46 ∷ 100 ∷ 101 ∷ 108 ∷ 101 ∷ 116 ∷ 101 ∷ []

-- "C:\Windows\prefetch\evil.pf"
abbrev pub deleted_path : List ℕ
deleted_path =
    67 ∷ 58 ∷ 92 ∷ 87 ∷ 105 ∷ 110 ∷ 100 ∷ 111 ∷ 119 ∷ 115 ∷ 92 ∷ 112 ∷ 114 ∷ 101 ∷ 102 ∷ 101 ∷ 116
    ∷ 99 ∷ 104 ∷ 92 ∷ 101 ∷ 118 ∷ 105 ∷ 108 ∷ 46 ∷ 112 ∷ 102 ∷ []

-- Of the first `n` bytes of a digest.
unfoldable pub to_hex_prefix : List ℕ → ℕ → List ℕ
to_hex_prefix d zero = []
to_hex_prefix [] (suc n) = []
to_hex_prefix (b ∷ d) (suc n) =
    get_or hex (b / 2 ^ 4) 0 ∷ get_or hex (b % 2 ^ 4) 0 ∷ to_hex_prefix d n

pub data Line : Type 0 where
  recorded : (seq : ℕ) (head : List ℕ) → Line
  intact : (entries : ℕ) → Line
  torn_tail : (entries : ℕ) → Line
  over_limit : (offset : ℕ) → Line
  tampering : (offset entries : ℕ) → Line
  flipped : (offset : ℕ) → Line

unfoldable pub print_verify : RecoveryResult → Line
print_verify r = elim r.status [
  | ok ↦ intact r.entries_verified
  | truncated_tail ↦ torn_tail r.entries_verified
  | malformed ↦ over_limit r.tamper_offset
  | tampered ↦ tampering r.tamper_offset r.entries_verified
]

-- A part of the program goes on with a value, or ends it by an exception that nothing catches;
-- `nowhere` is no value of the program.
pub data Run {ℓ} (A : Type ℓ) : Type ℓ where
  goes : A → Run A
  terminated nowhere : Run A

infixl 5 ◌>>=◌
abbrev pub ◌>>=◌ {ℓ κ} : {A : Type ℓ} {B : Type κ} → Run A → (A → Run B) → Run B
goes a >>= f = f a
terminated >>= f = terminated
nowhere >>= f = nowhere

abbrev made : Outcome Wal × Disk → Run Wal
made (returned w, d) = goes w
made (thrown x, d) = terminated

abbrev appended : Outcome (Unit {0}) × Wal → Run Wal
appended (returned u, w) = goes w
appended (thrown x, w) = terminated

abbrev answered : Option (RecoveryResult × Wal) → Run (RecoveryResult × Wal)
answered none = nowhere
answered (some p) = goes p

-- std::remove of the file, its answer ignored; an absent file is one with no bytes.
unfoldable pub unlink : Disk → Disk
unlink d = let (done, d1) = probe d in if done then (record d1 { bytes = []; synced = [] }) else d1

-- The first block. The object closes the file at its end.
unfoldable pub record_events : Disk → Run (Line × Disk)
unfolding to_hex_prefix
record_events d = do
  w0 ← made (open_wal 1 d)
  w1 ← appended (append w0 put process_start first_value 1)
  w2 ← appended (append w1 put net_connect address 2)
  w3 ← appended (append w2 put file_delete deleted_path 3)
  let cp = head w3
  goes (recorded cp.seq (to_hex_prefix cp.head 8), (close w3).disk)

-- The second block, and the fourth.
unfoldable pub check_file : Disk → Run (Line × Disk)
unfolding print_verify
check_file d = do
  w ← made (open_wal 1 d)
  (r, w1) ← answered (verify w)
  goes (print_verify r, (close w1).disk)

unfoldable pub is_prefix : List ℕ → List ℕ → Bool
is_prefix [] bytes = true
is_prefix (p ∷ ps) [] = false
is_prefix (p ∷ ps) (b ∷ bytes) = p == b && is_prefix ps bytes

-- std::search; `none` is the end.
unfoldable pub search : List ℕ → List ℕ → Option ℕ
unfolding is_prefix
search pattern [] = none
search pattern (b ∷ bytes) =
    let later : Option ℕ = elim (search pattern bytes) [ none ↦ none | some i ↦ some (suc i) ] in
    if is_prefix pattern (b ∷ bytes) then some 0 else later

-- The third block: what is printed, and the file.
unfoldable pub attack : Disk → List Line × Disk
unfolding search
attack d = elim (search first_value d.bytes) [
  | none ↦ ([], d)
  | some target ↦ (
    flipped target ∷ [],
    record d { bytes = set d.bytes target (u8 (bit_xor (get_or d.bytes target 0) 0x20)) },
  )
]

-- `d` is the file that an earlier run left, if any.
unfoldable pub main : Disk → Run (List Line × Disk)
unfolding unlink record_events check_file attack
main d = do
  (first, d1) ← record_events (unlink d)
  (second, d2) ← check_file d1
  let (third, d3) = attack d2
  (fourth, d4) ← check_file d3
  goes (first ∷ second ∷ third ++ fourth ∷ [], unlink d4)
