-- ===== src/Wal/Begins.antt =====
-- A journal that starts is durable: what the constructor makes of an empty file, and `reset` of any.
use lite_speed_store.Base.{
  ℕ, ◌<◌, ◌==◌, ◌≡◌, refl, sym, ap, ◌∙◌, subst, arith, Bool, true, if◌then◌else◌, List, [],
  append-nil, length,
}
use lite_speed_store.Posix.{Disk, probe, fsync, ftruncate, seek, write_exact}
use lite_speed_store.Wal.{
  Wal, Outcome, returned, thrown, open_failed, stat_failed, header_write_failed, header_invalid,
  header, zero_hash, write_header, validate_header, fresh, open_wal, reset,
}
use lite_speed_store.Wal.Log.{encode_log}
use lite_speed_store.Wal.Halts.{journal}
use lite_speed_store.Wal.Rotation.{opening, write_header-bytes, emptied, passed}
use lite_speed_store.Wal.Durable.{IsDurable}

write_header-synced :
    (d : Disk) → (write_header d).0 ≡ true → (write_header d).1.synced ≡ (write_header d).1.bytes
unfolding write_header write_exact fsync
write_header-synced d h = ground arith

-- A header that is written to an empty file is synced.
started :
    (d : Disk) → d.bytes ≡ [] → (write_header d).0 ≡ true → (write_header d).1.synced ≡ journal []
unfolding journal encode_log
started d none_yet written =
    write_header-synced d written ∙ write_header-bytes d none_yet written ∙ sym (append-nil header)

pub open_wal-IsDurable :
    (sync_every_n : ℕ) (d : Disk) (w : Wal)
    → d.bytes ≡ []
    → (open_wal sync_every_n d).0 ≡ returned w
    → IsDurable w []
unfolding open_wal fresh probe seek
open_wal-IsDurable sync_every_n d w none_yet h =
    let d1 = (probe d).1 in
    let d2 = (seek d1).1 in
    let dw = (write_header d2).1 in
    let dv = (validate_header d2).1 in
    let full : Outcome Wal × Disk =
      if (validate_header d2).0
      then (returned (fresh sync_every_n dv), dv)
      else (thrown header_invalid, dv) in
    let (written, is) =
      opening (probe d).0 (seek d1).0 (length d2.bytes == 0) (write_header d2).0 open_failed
        stat_failed header_write_failed d1 d2 dw full (fresh sync_every_n dw) w
        (ap (λ (t : List ℕ). length t == 0) none_yet) h in
    subst (λ (v : Wal). IsDurable v []) is
      (record {
        front = [];
        back = [];
        split = refl;
        synced = started d2 none_yet written;
        pending = refl;
        bound = ground arith;
      })

pub reset-IsDurable : (w : Wal) → 0 < w.sync_every_n → (reset w).0 ≡ true → IsDurable (reset w).1 []
unfolding reset seek
reset-IsDurable w positive h =
    let d1 = (fsync w.disk).1 in
    let d2 = (ftruncate 0 d1).1 in
    let d3 = (seek d2).1 in
    let d4 = (write_header d3).1 in
    let after = record w { seq = 0; head_hash = zero_hash; pending_writes = 0; disk = d4 } in
    let (cut, written, is) =
      passed w.fd_open (ftruncate 0 d1).0 (seek d2).0 (write_header d3).0 w (record w { disk = d2 })
        (record w { disk = d3 }) (record w { disk = d4 }) after h in
    subst (λ (p : Bool × Wal). IsDurable p.1 []) (sym is)
      (record {
        front = [];
        back = [];
        split = refl;
        synced = started d3 (emptied d1 cut) written;
        pending = refl;
        bound = positive;
      })
