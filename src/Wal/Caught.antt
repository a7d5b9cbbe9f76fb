-- ===== src/Wal/Caught.antt =====
-- `verify` and `recover` on a journal of which an attacker edited a byte.
use lite_speed_store.Base.{
  ℕ, ◌-◌, ◌≡◌, ◌∙◌, arith, true, Option, none, some, List, ◌++◌, length, length-append, All, IsByte,
  subst, All-append_parts,
}
use lite_speed_store.Posix.{Answer, Input, query, seek}
use lite_speed_store.Posix.Laws.{IsSmooth, query-IsSmooth}
use lite_speed_store.Wal.{Wal, RecoveryResult, tampered, zero_hash}
use lite_speed_store.Wal.Format.{Entry}
use lite_speed_store.Wal.Check.{tampered_entry}
use lite_speed_store.Wal.Walk.{Visit, broke, walk_chain, conclude, fail}
use lite_speed_store.Wal.Recover.{recover, settle, adopt, adopts, verify, report}
use lite_speed_store.Wal.Fields.{IsEntry}
use lite_speed_store.Wal.Log.{log_head, replay_log}
use lite_speed_store.Wal.Steps.{loop_exit}
use lite_speed_store.Wal.Round.{length-entry_bytes}
use lite_speed_store.Wal.Halts.{journal, IsLeft, length-journal, Halts, walk_behind, loop-Behind}
use lite_speed_store.Wal.Edited.{Edits, edited_bytes, length-edited_bytes, verify_entry-Refused}

-- The result that reports the entry behind `es` as tampered with.
abbrev pub alarm : List Entry → RecoveryResult
alarm es = record {
  status = tampered;
  entries_verified = length es;
  tamper_offset = length (journal es);
  tamper_seq = length es;
  head_hash = log_head zero_hash es;
}

module _ (es : List Entry) (e : Entry) (key value rest : List ℕ) (x : Edits e key value) where
  abbrev pub forged : List ℕ
  forged = edited_bytes (log_head zero_hash es) e key value

  module _ {ℓ} {S : Type ℓ} (visitor : Option (Visit → S → S)) (min_epoch : Option ℕ) where
    loop_edited :
        {bytes : List ℕ} (script : List Answer) (s : S)
        → IsLeft bytes es (forged ++ rest)
        → IsEntry e
        → All IsByte forged
        → IsSmooth script
        → Halts visitor min_epoch bytes script es s (broke tampered_entry)
    loop_edited {bytes} script s left h are_bytes smooth =
        let b = loop-Behind visitor min_epoch script s left smooth in
        let prev = log_head zero_hash es in
        let pos = length (journal es) in
        let total = length-journal left in
        let size = length-append forged rest in
        let same = length-edited_bytes prev e key value x in
        let some_bytes = length-entry_bytes prev e h in
        let i0 : Input = record { pos = pos; ahead = b.ahead'; script = b.script' } in
        let t =
          verify_entry-Refused prev e key value x (length bytes - pos) (length es) i0 rest h
            b.smooth b.ahead_lem are_bytes (omega (arith, total, size, same)) in
        record {
          script' = t.script;
          eq =
              b.eq
              ∙ loop_exit visitor min_epoch b.fuel (length bytes) pos b.ahead' b.script'
                  (walk_behind visitor min_epoch es s)
                  (omega (arith, total, size, same, some_bytes)) t.eq;
          smooth = t.smooth;
          quiet = λ q. t.quiet (b.quiet q);
        }

forged-bytes :
    (es : List Entry) (forged rest bytes : List ℕ)
    → IsLeft bytes es (forged ++ rest)
    → All IsByte bytes
    → All IsByte forged
forged-bytes es forged rest bytes left h =
    let behind =
      (All-append_parts IsByte (journal es) (forged ++ rest)
        (subst (All IsByte) left.bytes_lem h)).1 in
    (All-append_parts IsByte forged rest behind).0

-- `verify` and `recover` raise the alarm, and leave the file as it is.
pub record Caught {ℓ} {S : Type ℓ} (visitor : Option (Visit → S → S)) (min_epoch : Option ℕ)
    (w : Wal) (s : S) (es : List Entry) : Type ℓ where
  pub script : List Answer
  pub verified : verify w ≡ some (alarm es, record w { disk = record w.disk { script = script } })
  pub script2 : List Answer
  pub recovered :
      recover visitor min_epoch w s
      ≡ some (
        alarm es,
        replay_log visitor min_epoch es s,
        record w { disk = record w.disk { script = script2 } },
      )

-- Take a journal of fewer than 2^64 entries with one more entry behind them, of 64-bit numbers and
-- fields within the limit, of which one byte of the key or the value was changed and nothing else,
-- and any bytes after it. On an open log with this file and on a smooth kernel (one that answers
-- with transfers and interrupts only), `verify` and `recover` report tampering, at the offset and
-- the sequence number of the changed entry, with the number of the entries in front of it;
-- `recover` has the visitor replay just these; and both leave the bytes of the file and the
-- object's chain state as they were.
pub edit-Caught {ℓ} :
    {S : Type ℓ} (visitor : Option (Visit → S → S)) (min_epoch : Option ℕ) (w : Wal) (s : S)
    (es : List Entry) (e : Entry) (key value rest : List ℕ) (x : Edits e key value)
    → w.fd_open ≡ true
    → IsSmooth w.disk.script
    → All IsByte w.disk.bytes
    → IsLeft w.disk.bytes es (edited_bytes (log_head zero_hash es) e key value ++ rest)
    → IsEntry e
    → Caught visitor min_epoch w s es
unfolding recover verify settle report adopt adopts walk_chain conclude fail seek
edit-Caught visitor min_epoch w s es e key value rest x opened smooth all_bytes left h =
    let q1 = query-IsSmooth w.disk.script smooth in
    let q2 = query-IsSmooth (query w.disk.script).1 q1.1 in
    let bytes = forged-bytes es (forged es e key value rest x) rest w.disk.bytes left all_bytes in
    let v = loop_edited {0} es e key value rest x {S = Unit {0}} none none _ tt left h bytes q2.1 in
    let r = loop_edited es e key value rest x visitor min_epoch _ s left h bytes q2.1 in
    record {
      script = v.script';
      verified = rw (opened, q1.0, q2.0, v.eq);
      script2 = r.script';
      recovered = rw (opened, q1.0, q2.0, r.eq);
    }
