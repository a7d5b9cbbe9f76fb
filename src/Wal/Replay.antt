-- ===== src/Wal/Replay.antt =====
-- `recover` and `verify` on a journal that `append` wrote, whole or with a torn tail.
use lite_speed_store.Base.{
  ℕ, ◌<◌, ◌≡◌, ap, ap₂, ◌∙◌, arith, true, Option, none, some, List, [], ◌++◌, length, take,
  take-append_left, ◌⊎◌, inl, inr, replicate, append-nil, ◌-◌, length-append, Bool-cases,
}
use lite_speed_store.Posix.{Answer, Disk, call, query, seek, ftruncate}
use lite_speed_store.Posix.Laws.{IsSmooth, query-IsSmooth, query_quiet}
use lite_speed_store.Wal.{Wal, RecoveryStatus, ok, truncated_tail, RecoveryResult, zero_hash}
use lite_speed_store.Wal.Format.{Entry, entry_bytes}
use lite_speed_store.Wal.Walk.{Visit, walk_chain, conclude, result, truncate_tail}
use lite_speed_store.Wal.Recover.{recover, settle, adopt, adopts, verify, report}
use lite_speed_store.Wal.Fields.{IsEntry}
use lite_speed_store.Wal.Log.{log_head, replay_log}
use lite_speed_store.Wal.Halts.{journal, IsLeft, loop_whole, loop_torn}

-- The result that reports all the entries `es` as verified.
abbrev pub verdict : RecoveryStatus → List Entry → RecoveryResult
verdict status es = record {
  status = status;
  entries_verified = length es;
  tamper_offset = 0;
  tamper_seq = 0;
  head_hash = log_head zero_hash es;
}

-- The object with the chain state that comes after `es`.
abbrev pub adopted : List Entry → Disk → Wal → Wal
adopted es d w = record w { seq = length es; head_hash = log_head zero_hash es; disk = d }

-- The script after the fstat and the lseek.
abbrev sought : List Answer → List Answer
sought script = (query (query script).1).1

cut_back :
    (front tail : List ℕ)
    → take (length front) (front ++ tail) ++ replicate (length front - length (front ++ tail)) 0
      ≡ front
cut_back front tail =
    ap₂ ◌++◌ (take-append_left front tail)
      (ap (λ (n : ℕ). replicate n 0) {y = 0} (omega (arith, length-append front tail)))
    ∙ append-nil front

truncate_tail-bytes :
    (front tail : List ℕ) (d : Disk)
    → d.bytes ≡ front ++ tail
    → ((truncate_tail (some (length front)) d).bytes ≡ front)
      ⊎ ((truncate_tail (some (length front)) d).bytes ≡ d.bytes)
unfolding truncate_tail ftruncate seek
truncate_tail-bytes front tail d e = elim (Bool-cases (call d.script).0) [
  | inl t ↦ inl (rw (t, e) (cut_back front tail))
  | inr t ↦ inr (rw t)
]

truncate_tail_quiet :
    (front tail : List ℕ) (d : Disk)
    → d.bytes ≡ front ++ tail
    → d.script ≡ []
    → (truncate_tail (some (length front)) d).bytes ≡ front
unfolding truncate_tail ftruncate seek call
truncate_tail_quiet front tail d e q = rw (q, call, e) (cut_back front tail)

module _ {ℓ} {S : Type ℓ} (visitor : Option (Visit → S → S)) (min_epoch : Option ℕ) where
  -- `recover` of an open log on the journal of fewer than 2^64 entries, on a smooth kernel (one
  -- that answers with transfers and interrupts only), answers `ok` with the number of the entries
  -- and the last hash, has the visitor replay them in order, and leaves an object that continues
  -- their chain, with the file unchanged.
  pub recover_whole :
      (w : Wal) (es : List Entry) (s : S)
      → w.fd_open ≡ true
      → IsSmooth w.disk.script
      → IsLeft w.disk.bytes es []
      → (script : List Answer) × (recover visitor min_epoch w s
          ≡ some (
            verdict ok es,
            replay_log visitor min_epoch es s,
            adopted es (record w.disk { script = script }) w,
          ))
  unfolding recover settle adopt adopts walk_chain conclude result seek
  recover_whole w es s opened smooth left =
      let q1 = query-IsSmooth w.disk.script smooth in
      let q2 = query-IsSmooth (query w.disk.script).1 q1.1 in
      let h = loop_whole visitor min_epoch (sought w.disk.script) s left q2.1 in
      (h.script', rw (opened, q1.0, q2.0, h.eq))

  -- `recover` of an open log on the journal of fewer than 2^64 entries with a proper, non-empty
  -- prefix of a next entry behind it, on a smooth kernel (one that answers with transfers and
  -- interrupts only), answers `truncated_tail` with the whole entries, has the visitor replay
  -- these, and adopts their chain; the file is cut back to the journal or, where ftruncate fails,
  -- as it was; it is cut back where the kernel's script is empty.
  pub recover_torn :
      (w : Wal) (es : List Entry) (s : S) (e : Entry) (cut : ℕ)
      → w.fd_open ≡ true
      → IsSmooth w.disk.script
      → IsLeft w.disk.bytes es (take cut (entry_bytes (log_head zero_hash es) e))
      → IsEntry e
      → 0 < cut
      → cut < length (entry_bytes (log_head zero_hash es) e)
      → (d : Disk) × (recover visitor min_epoch w s
          ≡ some (verdict truncated_tail es, replay_log visitor min_epoch es s, adopted es d w))
        × ((d.bytes ≡ journal es) ⊎ (d.bytes ≡ w.disk.bytes))
        × (w.disk.script ≡ [] → d.bytes ≡ journal es)
  unfolding recover settle adopt adopts walk_chain conclude result seek
  recover_torn w es s e cut opened smooth left entry some_bytes short =
      let q1 = query-IsSmooth w.disk.script smooth in
      let q2 = query-IsSmooth (query w.disk.script).1 q1.1 in
      let h =
        loop_torn visitor min_epoch (sought w.disk.script) s e cut left entry some_bytes short
          q2.1 in
      let after = record w.disk { script = h.script' } in
      (
        truncate_tail (some (length (journal es))) after,
        rw (opened, q1.0, q2.0, h.eq),
        truncate_tail-bytes (journal es) _ after left.bytes_lem,
        λ q.
            truncate_tail_quiet (journal es) _ after left.bytes_lem
              (h.quiet (query_quiet (query w.disk.script).1 (query_quiet w.disk.script q))),
      )

-- verify() reports the same and writes nothing.
pub verify_whole :
    (w : Wal) (es : List Entry)
    → w.fd_open ≡ true
    → IsSmooth w.disk.script
    → IsLeft w.disk.bytes es []
    → (script : List Answer) × (verify w
        ≡ some (verdict ok es, record w { disk = record w.disk { script = script } }))
unfolding verify report walk_chain conclude result seek
verify_whole w es opened smooth left =
    let q1 = query-IsSmooth w.disk.script smooth in
    let q2 = query-IsSmooth (query w.disk.script).1 q1.1 in
    let h = loop_whole {0} {S = Unit {0}} none none (sought w.disk.script) tt left q2.1 in
    (h.script', rw (opened, q1.0, q2.0, h.eq))

pub verify_torn :
    (w : Wal) (es : List Entry) (e : Entry) (cut : ℕ)
    → w.fd_open ≡ true
    → IsSmooth w.disk.script
    → IsLeft w.disk.bytes es (take cut (entry_bytes (log_head zero_hash es) e))
    → IsEntry e
    → 0 < cut
    → cut < length (entry_bytes (log_head zero_hash es) e)
    → (script : List Answer) × (verify w
        ≡ some (verdict truncated_tail es, record w { disk = record w.disk { script = script } }))
unfolding verify report walk_chain conclude result seek
verify_torn w es e cut opened smooth left entry some_bytes short =
    let q1 = query-IsSmooth w.disk.script smooth in
    let q2 = query-IsSmooth (query w.disk.script).1 q1.1 in
    let h =
      loop_torn {0} {S = Unit {0}} none none (sought w.disk.script) tt e cut left entry some_bytes
        short q2.1 in
    (h.script', rw (opened, q1.0, q2.0, h.eq))
