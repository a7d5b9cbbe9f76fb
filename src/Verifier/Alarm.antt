-- ===== src/Verifier/Alarm.antt =====
-- The verifier's answer on a journal of which an attacker edited a byte.
use lite_speed_store.Base.{
  ℕ, ◌≡◌, sym, ap, true, some, none, List, [], ◌∷◌, ◌++◌, length, All, IsByte, subst,
}
use lite_speed_store.Posix.{Disk}
use lite_speed_store.Posix.Laws.{IsSmooth}
use lite_speed_store.Wal.{Outcome, Wal, zero_hash, open_wal}
use lite_speed_store.Wal.Format.{Entry}
use lite_speed_store.Wal.Fields.{IsEntry}
use lite_speed_store.Wal.Log.{log_head}
use lite_speed_store.Wal.Halts.{journal, IsLeft, bytes_split}
use lite_speed_store.Wal.Opens.{served, journal-IsOpened}
use lite_speed_store.Wal.Edited.{Edits, edited_bytes}
use lite_speed_store.Wal.Caught.{alarm, edit-Caught}
use lite_speed_store.Verifier.{tampering, print_result, main}
use lite_speed_store.Verifier.Verdict.{check_returned}

-- Take a journal of fewer than 2^64 entries with one more entry behind them, of 64-bit numbers and
-- fields within the limit, of which one byte of the key or the value was changed and nothing else,
-- and any bytes after it, on a kernel that fails no call. The verifier with this file as its
-- argument exits with 1, and prints that there was tampering, with the offset of the changed entry
-- and the number of the entries in front of it.
pub main_edited :
    (bytes synced name path : List ℕ) (es : List Entry) (e : Entry) (key value rest : List ℕ)
    → (x : Edits e key value) → All IsByte bytes
    → IsLeft bytes es (edited_bytes (log_head zero_hash es) e key value ++ rest)
    → IsEntry e
    → (after : Disk) × (main true (name ∷ path ∷ []) (served bytes synced)
        ≡ some ((1, tampering (length (journal es)) (length es)), after))
unfolding main print_result
main_edited bytes synced name path es e key value rest x are_bytes left h =
    let o = journal-IsOpened 1 bytes synced _ (bytes_split left) in
    let caught =
      edit-Caught {0} {S = Unit {0}} none none o.wal tt es e key value rest x o.opened
        (subst IsSmooth (sym o.script) tt) (subst (All IsByte) (sym o.same) are_bytes)
        (subst
          (λ (b : List ℕ). IsLeft b es (edited_bytes (log_head zero_hash es) e key value ++ rest))
          (sym o.same) left)
        h in
    (
      _,
      check_returned (open_wal 1 (served bytes synced)) o.wal _ (alarm es)
          (ap (λ (p : Outcome Wal × Disk). p.0) o.eq) caught.verified,
    )
