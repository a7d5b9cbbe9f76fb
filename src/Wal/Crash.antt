-- ===== src/Wal/Crash.antt =====
-- A crash, or any failure of the kernel, during `append`: what the next start reads.
use lite_speed_store.Base.{
  ℕ, zero, suc, ◌^◌, ◌<◌, ◌≡◌, refl, sym, ap, ◌∙◌, arith, true, ◌⊎◌, inl, inr, Option, some, List,
  [], ◌∷◌, ◌++◌, append-nil, IsU64, length, length-append, take,
}
use lite_speed_store.Posix.{Answer, Disk}
use lite_speed_store.Posix.Laws.{IsSmooth}
use lite_speed_store.Wal.{
  Wal, RecordType, Outcome, returned, thrown, Error, RecoveryStatus, ok, truncated_tail, zero_hash,
}
use lite_speed_store.Wal.Format.{Entry, entry_bytes}
use lite_speed_store.Wal.Append.{next_entry, append}
use lite_speed_store.Wal.Walk.{Visit}
use lite_speed_store.Wal.Recover.{recover, verify}
use lite_speed_store.Wal.Fields.{IsEntry}
use lite_speed_store.Wal.Log.{log_head, replay_log}
use lite_speed_store.Wal.Halts.{journal, IsLeft}
use lite_speed_store.Wal.Replay.{
  verdict, adopted, recover_whole, recover_torn, verify_whole, verify_torn,
}
use lite_speed_store.Wal.Writes.{IsWriter, Rejected, Extended, Broken, append_cases}

-- `recover` and `verify` read exactly the entries `fs`, and take the file for the writer's.
pub record Reads {ℓ} {S : Type ℓ} (visitor : Option (Visit → S → S)) (min_epoch : Option ℕ)
    (w : Wal) (s : S) (fs : List Entry) : Type ℓ where
  pub status : RecoveryStatus
  pub genuine : (status ≡ ok) ⊎ (status ≡ truncated_tail)
  pub disk : Disk
  pub recovered :
      recover visitor min_epoch w s
      ≡ some (verdict status fs, replay_log visitor min_epoch fs s, adopted fs disk w)
  pub script : List Answer
  pub verified :
      verify w ≡ some (verdict status fs, record w { disk = record w.disk { script = script } })

module _ {ℓ} {S : Type ℓ} (visitor : Option (Visit → S → S)) (min_epoch : Option ℕ) (w : Wal)
    (s : S) (opened : w.fd_open ≡ true) (smooth : IsSmooth w.disk.script) where
  pub whole-Reads : (es : List Entry) → IsLeft w.disk.bytes es [] → Reads visitor min_epoch w s es
  whole-Reads es left =
      let (r, eq) = recover_whole visitor min_epoch w es s opened smooth left in
      let (v, seen) = verify_whole w es opened smooth left in
      record {
        status = ok;
        genuine = inl refl;
        disk = record w.disk { script = r };
        recovered = eq;
        script = v;
        verified = seen;
      }

  cut-Reads :
      (es : List Entry) (e : Entry) (cut : ℕ)
      → IsLeft w.disk.bytes es (take cut (entry_bytes (log_head zero_hash es) e))
      → IsEntry e
      → cut < length (entry_bytes (log_head zero_hash es) e)
      → Reads visitor min_epoch w s es
  cut-Reads es e zero left entry short = whole-Reads es left
  cut-Reads es e (suc cut) left entry short =
      let (d, eq, _, _) =
        recover_torn visitor min_epoch w es s e (suc cut) opened smooth left entry (omega arith)
          short in
      let (v, seen) = verify_torn w es e (suc cut) opened smooth left entry (omega arith) short in
      record {
        status = truncated_tail;
        genuine = inr refl;
        disk = d;
        recovered = eq;
        script = v;
        verified = seen;
      }

writer-IsLeft :
    {w : Wal} {es : List Entry} → IsWriter w es → length es < 2 ^ 64 → IsLeft w.disk.bytes es []
writer-IsLeft {w} {es} i small = record {
  log = i.log;
  small = small;
  bytes_lem = i.bytes ∙ sym (append-nil (journal es));
}

move-IsLeft :
    {bytes bytes' : List ℕ} {es : List Entry} {tail : List ℕ}
    → bytes' ≡ bytes
    → IsLeft bytes es tail
    → IsLeft bytes' es tail
move-IsLeft e left = record { log = left.log; small = left.small; bytes_lem = e ∙ left.bytes_lem }

-- The entries that the next start reads after an `append` on the journal of `es`.
pub record Survives {ℓ} {S : Type ℓ} (visitor : Option (Visit → S → S)) (min_epoch : Option ℕ)
    (s : S) (es : List Entry) (new : Entry) (outcome : Outcome (Unit {0})) (w2 : Wal) : Type ℓ where
  pub entries : List Entry
  pub which : (entries ≡ es) ⊎ (entries ≡ es ++ new ∷ [])
  pub committed : outcome ≡ returned tt → entries ≡ es ++ new ∷ []
  pub reads : Reads visitor min_epoch w2 s entries

thrown-ne-returned : {x : Error} → ◌≡◌ {A = Outcome (Unit {0})} (thrown x) (returned tt) → ⊥
thrown-ne-returned e = cc

module _ {ℓ} {S : Type ℓ} (visitor : Option (Visit → S → S)) (min_epoch : Option ℕ) (s : S)
    (w w2 : Wal) (es : List Entry) (type : RecordType) (key value : List ℕ) (timestamp : ℕ)
    (i : IsWriter w es) (small : suc (length es) < 2 ^ 64) (opened : w2.fd_open ≡ true)
    (smooth : IsSmooth w2.disk.script)
    (same : w2.disk.bytes ≡ (append w type key value timestamp).1.disk.bytes) where
  abbrev Done : Type ℓ
  Done =
      Survives visitor min_epoch s es (next_entry w type key value timestamp)
        (append w type key value timestamp).0 w2

  after_rejected : Rejected w type key value timestamp → Done
  after_rejected r = record {
    entries = es;
    which = inl refl;
    committed = λ c.
        absurd (thrown-ne-returned (sym (ap (λ (p : Outcome (Unit {0}) × Wal). p.0) r.eq) ∙ c));
    reads = whole-Reads visitor min_epoch w2 s opened smooth es (
        move-IsLeft (same ∙ ap (λ (p : Outcome (Unit {0}) × Wal). p.1.disk.bytes) r.eq)
          (writer-IsLeft i (omega (arith, small))));
  }

  after_extended : Extended w type key value timestamp es → Done
  after_extended x = record {
    entries = es ++ next_entry w type key value timestamp ∷ [];
    which = inr refl;
    committed = λ c. refl;
    reads =
        whole-Reads visitor min_epoch w2 s opened smooth
          (es ++ next_entry w type key value timestamp ∷ [])
          (move-IsLeft (same ∙ ap (λ (p : Outcome (Unit {0}) × Wal). p.1.disk.bytes) x.eq) (
            writer-IsLeft x.writer (
              omega
                (arith, small, length-append es (next_entry w type key value timestamp ∷ [])))));
  }

  after_broken : Broken w type key value timestamp es → Done
  after_broken b = record {
    entries = es;
    which = inl refl;
    committed = λ c.
        absurd (thrown-ne-returned (sym (ap (λ (p : Outcome (Unit {0}) × Wal). p.0) b.eq) ∙ c));
    reads =
        cut-Reads visitor min_epoch w2 s opened smooth es (next_entry w type key value timestamp)
          b.cut
          (record {
            log = i.log;
            small = omega (arith, small);
            bytes_lem =
                same ∙ ap (λ (p : Outcome (Unit {0}) × Wal). p.1.disk.bytes) b.eq ∙ b.bytes_lem;
          })
          b.entry b.short;
  }

-- Whatever the kernel answers during an `append` with a 64-bit timestamp to an open log whose file
-- is the journal of entries (fewer than 2^64 with the new one): an object opened on the file that
-- it leaves, on a smooth kernel (one that answers with transfers and interrupts only), reads by
-- `recover` and by `verify` just these entries, or these and the new one, with status `ok` or
-- `truncated_tail`, and the visitor replays just the entries read. If `append` returned, the new
-- entry is among them.
pub append-Survives {ℓ} :
    {S : Type ℓ} (visitor : Option (Visit → S → S)) (min_epoch : Option ℕ) (s : S) (w w2 : Wal)
    (es : List Entry) (type : RecordType) (key value : List ℕ) (timestamp : ℕ)
    → IsWriter w es
    → suc (length es) < 2 ^ 64
    → IsU64 timestamp
    → w2.fd_open ≡ true
    → IsSmooth w2.disk.script
    → w2.disk.bytes ≡ (append w type key value timestamp).1.disk.bytes
    → Survives visitor min_epoch s es
        (next_entry w type key value timestamp)
        (append w type key value timestamp).0
        w2
append-Survives visitor min_epoch s w w2 es type key value timestamp i small stamp opened smooth
      same =
    elim (append_cases w type key value timestamp es i small stamp) [
      | inl r ↦
          after_rejected visitor min_epoch s w w2 es type key value timestamp i small opened smooth
            same r
      | inr (inl x) ↦
          after_extended visitor min_epoch s w w2 es type key value timestamp i small opened smooth
            same x
      | inr (inr b) ↦
          after_broken visitor min_epoch s w w2 es type key value timestamp i small opened smooth
            same b
    ]
