-- ===== src/Wal/PowerLoss.antt =====
-- A power loss after an `append` that returned: what the next start reads of the synced bytes.
use lite_speed_store.Base.{
  ℕ, suc, ◌^◌, ◌<◌, ◌≡◌, sym, ap, ◌∙◌, subst, arith, true, Option, List, [], ◌∷◌, ◌++◌, append-nil,
  length, length-append, IsU64,
}
use lite_speed_store.Posix.Laws.{IsSmooth}
use lite_speed_store.Wal.{Wal, RecordType, returned}
use lite_speed_store.Wal.Format.{Entry}
use lite_speed_store.Wal.Append.{next_entry, commit, append}
use lite_speed_store.Wal.Walk.{Visit}
use lite_speed_store.Wal.Log.{IsLog}
use lite_speed_store.Wal.Halts.{journal}
use lite_speed_store.Wal.Writes.{IsWriter}
use lite_speed_store.Wal.Durable.{IsDurable, append_returned, append-IsDurable}
use lite_speed_store.Wal.Crash.{Reads, whole-Reads}

pub IsLog-front : (n : ℕ) (xs ys : List Entry) → IsLog n (xs ++ ys) → IsLog n xs
IsLog-front n [] ys h = tt
IsLog-front n (x ∷ xs) ys (s, e, h) = (s, e, IsLog-front (suc n) xs ys h)

-- The entries that are read, and those that are lost.
pub record Loses {ℓ} {S : Type ℓ} (visitor : Option (Visit → S → S)) (min_epoch : Option ℕ) (s : S)
    (es : List Entry) (n : ℕ) (w2 : Wal) : Type ℓ where
  pub read : List Entry
  pub lost : List Entry
  pub split : es ≡ read ++ lost
  pub few : length lost < n
  pub reads : Reads visitor min_epoch w2 s read

IsDurable-Loses {ℓ} :
    {S : Type ℓ} (visitor : Option (Visit → S → S)) (min_epoch : Option ℕ) (s : S) (w w2 : Wal)
    (es : List Entry)
    → IsWriter w es
    → IsDurable w es
    → length es < 2 ^ 64
    → w2.fd_open ≡ true
    → IsSmooth w2.disk.script
    → w2.disk.bytes ≡ w.disk.synced
    → Loses visitor min_epoch s es w.sync_every_n w2
IsDurable-Loses visitor min_epoch s w w2 es i durable small opened smooth bytes = record {
  read = durable.front;
  lost = durable.back;
  split = durable.split;
  few = omega (arith, durable.pending, durable.bound);
  reads = whole-Reads visitor min_epoch w2 s opened smooth durable.front (record {
    log = IsLog-front 0 durable.front durable.back (subst (IsLog 0) durable.split i.log);
    small = omega (arith, small, ap length durable.split, length-append durable.front durable.back);
    bytes_lem = bytes ∙ durable.synced ∙ sym (append-nil (journal durable.front));
  });
}

append-sync_every_n :
    (w : Wal) (type : RecordType) (key value : List ℕ) (now : ℕ)
    → (append w type key value now).1.sync_every_n ≡ w.sync_every_n
unfolding append commit
append-sync_every_n w type key value now = ground arith

-- On an open log whose file is the journal of entries (fewer than 2^64 with the new one), with all
-- but the last `pending_writes` of them synced and these fewer than `sync_every_n`, let an
-- `append` with a 64-bit timestamp return. If the power is then lost, so that the file has the
-- bytes of the last fsync, a new object opened on it, on a smooth kernel (one that answers with
-- transfers and interrupts only), reads by `recover` and by `verify` all the entries, the new one
-- included, but fewer than `sync_every_n` at the end.
pub append-Loses {ℓ} :
    {S : Type ℓ} (visitor : Option (Visit → S → S)) (min_epoch : Option ℕ) (s : S) (w w2 : Wal)
    (es : List Entry) (type : RecordType) (key value : List ℕ) (now : ℕ)
    → IsWriter w es
    → IsDurable w es
    → suc (length es) < 2 ^ 64
    → IsU64 now
    → (append w type key value now).0 ≡ returned tt
    → w2.fd_open ≡ true
    → IsSmooth w2.disk.script
    → w2.disk.bytes ≡ (append w type key value now).1.disk.synced
    → Loses visitor min_epoch s (es ++ next_entry w type key value now ∷ []) w.sync_every_n w2
append-Loses visitor min_epoch s w w2 es type key value now i durable small stamp h opened smooth
      bytes =
    subst (λ (n : ℕ). Loses visitor min_epoch s (es ++ next_entry w type key value now ∷ []) n w2)
      (append-sync_every_n w type key value now)
      (IsDurable-Loses visitor min_epoch s (append w type key value now).1 w2
        (es ++ next_entry w type key value now ∷ [])
        (append_returned w type key value now es i small stamp h)
        (append-IsDurable w type key value now es i durable small stamp h)
        (omega (arith, small, length-append es (next_entry w type key value now ∷ []))) opened
        smooth bytes)
