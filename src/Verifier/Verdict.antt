-- ===== src/Verifier/Verdict.antt =====
-- The verifier's answer on a file that the writer left, where no call of the kernel fails.
use lite_speed_store.Base.{
  ℕ, ◌≡◌, sym, ap, zero, suc, ◌∙◌, arith, ◌<◌, true, some, List, [], ◌∷◌, length, take, subst,
}
use lite_speed_store.Posix.{Disk}
use lite_speed_store.Posix.Laws.{IsSmooth}
use lite_speed_store.Wal.{
  Wal, Outcome, thrown, RecoveryResult, zero_hash, ok, truncated_tail, open_wal, returned, close,
}
use lite_speed_store.Wal.Format.{Entry, entry_bytes}
use lite_speed_store.Wal.Fields.{IsEntry}
use lite_speed_store.Wal.Log.{log_head}
use lite_speed_store.Wal.Halts.{IsLeft, bytes_split}
use lite_speed_store.Wal.Replay.{verdict, verify_whole, verify_torn}
use lite_speed_store.Wal.Recover.{verify}
use lite_speed_store.Wal.Opens.{served, journal-IsOpened}
use lite_speed_store.Verifier.{to_hex, Printed, intact, torn_tail, print_result, check, main}

returned_inv : {u w : Wal} → ◌≡◌ {A = Outcome Wal} (returned u) (returned w) → u ≡ w
returned_inv e = cc

pub check_returned :
    (o : Outcome Wal × Disk) (w w1 : Wal) (r : RecoveryResult)
    → o.0 ≡ returned w
    → verify w ≡ some (r, w1)
    → check o ≡ some (print_result r, (close w1).disk)
unfolding check
check_returned (thrown x, d) w w1 r h v = cc
check_returned (returned u, d) w w1 r h v =
    let is : verify u ≡ some (r, w1) = ap verify (returned_inv h) ∙ v in rw (check, is)

-- What the command prints of the entries and of `cut` bytes behind them.
abbrev pub printed_of : List Entry → ℕ → Printed
printed_of es zero = intact (length es) (to_hex (log_head zero_hash es))
printed_of es (suc cut) = torn_tail (length es)

moved :
    (bytes bytes' : List ℕ) (es : List Entry) (tail : List ℕ)
    → bytes' ≡ bytes
    → IsLeft bytes es tail
    → IsLeft bytes' es tail
moved bytes bytes' es tail e left = record {
  log = left.log;
  small = left.small;
  bytes_lem = e ∙ left.bytes_lem;
}

check_journal :
    (bytes synced : List ℕ) (es : List Entry) (e : Entry) (cut : ℕ)
    → IsLeft bytes es (take cut (entry_bytes (log_head zero_hash es) e))
    → IsEntry e
    → cut < length (entry_bytes (log_head zero_hash es) e)
    → (after : Disk) × (check (open_wal 1 (served bytes synced))
        ≡ some ((0, printed_of es cut), after))
unfolding print_result
check_journal bytes synced es e zero left entry short =
    let o = journal-IsOpened 1 bytes synced _ (bytes_split left) in
    let (script, seen) =
      verify_whole o.wal es o.opened (subst IsSmooth (sym o.script) tt)
        (moved bytes _ es [] o.same left) in
    (
      _,
      check_returned (open_wal 1 (served bytes synced)) o.wal _ (verdict ok es)
          (ap (λ (p : Outcome Wal × Disk). p.0) o.eq) seen,
    )
check_journal bytes synced es e (suc cut) left entry short =
    let o = journal-IsOpened 1 bytes synced _ (bytes_split left) in
    let (script, seen) =
      verify_torn o.wal es e (suc cut) o.opened (subst IsSmooth (sym o.script) tt)
        (moved bytes _ es _ o.same left) entry (omega arith) short in
    (
      _,
      check_returned (open_wal 1 (served bytes synced)) o.wal _ (verdict truncated_tail es)
          (ap (λ (p : Outcome Wal × Disk). p.0) o.eq) seen,
    )

-- On the journal of fewer than 2^64 entries with a proper prefix of a next entry behind it, and a
-- kernel that fails no call, the verifier with this file as its argument exits with 0; it prints
-- the number of the entries, with the last hash as the head if the prefix is empty, and as a torn
-- tail otherwise.
pub main_journal :
    (bytes synced name path : List ℕ) (es : List Entry) (e : Entry) (cut : ℕ)
    → IsLeft bytes es (take cut (entry_bytes (log_head zero_hash es) e))
    → IsEntry e
    → cut < length (entry_bytes (log_head zero_hash es) e)
    → (after : Disk) × (main true (name ∷ path ∷ []) (served bytes synced)
        ≡ some ((0, printed_of es cut), after))
unfolding main
main_journal bytes synced name path es e cut left entry short =
    check_journal bytes synced es e cut left entry short
