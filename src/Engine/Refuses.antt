-- ===== src/Engine/Refuses.antt =====
-- The constructor of the engine on a journal of which an attacker edited a byte.
use lite_speed_store.Base.{
  arith, ℕ, ◌≡◌, refl, sym, ap, ◌∙◌, Option, some, List, ◌++◌, All, IsByte, subst,
}
use lite_speed_store.Posix.{Disk, probe, fsync}
use lite_speed_store.Posix.Laws.{IsSmooth}
use lite_speed_store.Wal.{Outcome, Wal, returned, zero_hash, open_wal, set_epoch, close}
use lite_speed_store.Wal.Format.{Entry}
use lite_speed_store.Wal.Fields.{IsEntry}
use lite_speed_store.Wal.Log.{log_head}
use lite_speed_store.Wal.Halts.{IsLeft, bytes_split}
use lite_speed_store.Wal.Opens.{served, journal-IsOpened}
use lite_speed_store.Wal.Edited.{Edits, edited_bytes}
use lite_speed_store.Wal.Caught.{Caught, edit-Caught}
use lite_speed_store.Engine.{Table, failed, tampering}
use lite_speed_store.Engine.Recover.{Image, replay, epoch_of, next_epoch, loaded, judge, recover}
use lite_speed_store.Engine.Snapshot.{loaded_image}
use lite_speed_store.Engine.Construct.{constructed, run_body, construct}
use lite_speed_store.Snapshot.Load.{load}

closed : (w : Wal) → (close w).disk.bytes ≡ w.disk.bytes
unfolding close probe fsync
closed w = ground arith

refused :
    (image : Option Image) (limit : ℕ) (o : Outcome Wal × Disk) (w : Wal) (d : Disk)
    (es : List Entry)
    → o ≡ (returned w, d)
    → Caught
        (some (replay limit))
        (epoch_of image)
        (set_epoch (next_epoch image) w)
        (loaded limit image)
        es
    → (after : Disk) × (run_body image limit o ≡ some (failed tampering, after))
      × (after.bytes ≡ w.disk.bytes)
unfolding run_body constructed judge set_epoch recover close
refused image limit o w d es is c =
    let after = record (set_epoch (next_epoch image) w) {
      disk = record w.disk { script = c.script2 };
    } in
    ((close after).disk, rw (is, run_body, recover, c.recovered) refl, closed after)

set_epoch-fields :
    (n : ℕ) (w : Wal) → ((set_epoch n w).fd_open ≡ w.fd_open) × ((set_epoch n w).disk ≡ w.disk)
unfolding set_epoch
set_epoch-fields n w = (refl, refl)

-- Take a journal of fewer than 2^64 entries with one more entry behind them, of 64-bit numbers and
-- fields within the limit, of which one byte of the key or the value was changed and nothing else,
-- and any bytes after it, on a kernel that fails no call. Whatever the snapshot's path holds, and
-- the order in which a loaded map is gone through, the engine's constructor on this file ends with
-- the exception that tells of tampering, and leaves the bytes of the file as they are.
pub construct-edited :
    (through : Table → Table) (limit sync_every_n : ℕ) (file : Option (List ℕ))
    (bytes synced : List ℕ) (es : List Entry) (e : Entry) (key value rest : List ℕ)
    → (x : Edits e key value) → All IsByte bytes
    → IsLeft bytes es (edited_bytes (log_head zero_hash es) e key value ++ rest)
    → IsEntry e
    → (after : Disk) × (construct through limit sync_every_n file (served bytes synced)
        ≡ some (failed tampering, after))
      × (after.bytes ≡ bytes)
unfolding construct
construct-edited through limit sync_every_n file bytes synced es e key value rest x are_bytes left
      h =
    let o = journal-IsOpened sync_every_n bytes synced _ (bytes_split left) in
    let image = loaded_image through (load file) in
    let w = set_epoch (next_epoch image) o.wal in
    let (opened, disk) = set_epoch-fields (next_epoch image) o.wal in
    let same = ap (λ (d : Disk). d.bytes) disk ∙ o.same in
    let script = ap (λ (d : Disk). d.script) disk ∙ o.script in
    let caught =
      edit-Caught (some (replay limit)) (epoch_of image) w (loaded limit image) es e key value rest
        x (opened ∙ o.opened) (subst IsSmooth (sym script) tt)
        (subst (All IsByte) (sym same) are_bytes)
        (subst
          (λ (b : List ℕ). IsLeft b es (edited_bytes (log_head zero_hash es) e key value ++ rest))
          (sym same) left)
        h in
    let (after, eq, kept) =
      refused image limit (open_wal sync_every_n (served bytes synced)) o.wal o.disk es o.eq
        caught in
    (after, eq, kept ∙ o.same)
