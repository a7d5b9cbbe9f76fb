-- ===== src/Wal/Rotation.antt =====
-- A journal that starts: what the constructor leaves of an empty file, and `reset` of any.
use lite_speed_store.Base.{
  length, ◌==◌, ℕ, ◌≡◌, ◌∙◌, refl, sym, ap, arith, Bool, true, false, not, inl, inr, List, [], ◌++◌,
  append-nil, IsU64, subst, take, take_all, replicate, Bool-cases, if◌then◌else◌,
}
use lite_speed_store.Posix.{probe, Disk, fsync, ftruncate, seek, write_exact, write_loop}
use lite_speed_store.Posix.Laws.{write_loop-Wrote}
use lite_speed_store.Wal.{
  open_wal, fresh, validate_header, open_failed, stat_failed, header_write_failed, header_invalid,
  Error, Outcome, returned, thrown, Wal, header, write_header, reset, zero_hash,
}
use lite_speed_store.Wal.Log.{encode_log, log_head}
use lite_speed_store.Wal.Halts.{journal}
use lite_speed_store.Wal.Writes.{IsWriter}

-- A header that is written in full is all that an empty file holds.
pub write_header-bytes :
    (d : Disk) → d.bytes ≡ [] → (write_header d).0 ≡ true → (write_header d).1.bytes ≡ header
unfolding write_header write_exact fsync
write_header-bytes d none_yet h =
    let w = write_loop d.script d.bytes header in
    let wrote = write_loop-Wrote d.script d.bytes header in
    elim (Bool-cases w.done) [
      | inl whole ↦ rw whole (
          wrote.bytes
          ∙ ap (λ (t : List ℕ). t ++ take wrote.count header) none_yet
          ∙ take_all wrote.count header (omega (arith, wrote.whole whole)))
      | inr broken ↦ cc (rw broken at h)
    ]

pub emptied : (d : Disk) → (ftruncate 0 d).0 ≡ true → (ftruncate 0 d).1.bytes ≡ []
unfolding ftruncate
emptied d h = rw h (ap (λ (n : ℕ). replicate n 0) {y = 0} (omega arith))

-- Four tests that leave with `false`, one after the other.
abbrev pub gates : Bool → Bool → Bool → Bool → Wal → Wal → Wal → Wal → Wal → Bool × Wal
gates a b c d x y z u v =
    if not a
    then (false, x)
    else if not b
    then (false, y)
    else if not c
    then (false, z)
    else if not d
    then (false, u)
    else (true, v)

pub passed :
    (a b c d : Bool) (x y z u v : Wal)
    → (gates a b c d x y z u v).0 ≡ true
    → (b ≡ true) × (d ≡ true) × (gates a b c d x y z u v ≡ (true, v))
passed false b c d x y z u v h = cc
passed true false c d x y z u v h = cc
passed true true false d x y z u v h = cc
passed true true true false x y z u v h = cc
passed true true true true x y z u v h = (refl, refl, refl)

-- Where `reset` of an open log with a 64-bit epoch reports success, whatever the kernel answered
-- on the way and the file held, the file is the journal of no entries and the object continues it.
pub reset-IsWriter :
    (w : Wal) → w.fd_open ≡ true → IsU64 w.epoch → (reset w).0 ≡ true → IsWriter (reset w).1 []
unfolding reset seek journal encode_log log_head
reset-IsWriter w opened epoch h =
    let d1 = (fsync w.disk).1 in
    let d2 = (ftruncate 0 d1).1 in
    let d3 = (seek d2).1 in
    let d4 = (write_header d3).1 in
    let after = record w { seq = 0; head_hash = zero_hash; pending_writes = 0; disk = d4 } in
    let (cut, written, is) =
      passed w.fd_open (ftruncate 0 d1).0 (seek d2).0 (write_header d3).0 w (record w { disk = d2 })
        (record w { disk = d3 }) (record w { disk = d4 }) after h in
    subst (λ (p : Bool × Wal). IsWriter p.1 []) (sym is)
      (record {
        opened = opened;
        log = tt;
        seq = refl;
        head = refl;
        bytes = write_header-bytes d3 (emptied d1 cut) written ∙ sym (append-nil header);
        epoch = epoch;
      })

pub opening :
    (a b empty c : Bool) (x y z : Error) (p q r : Disk) (full : Outcome Wal × Disk) (v w : Wal)
    → empty ≡ true
    → (if not a
        then (thrown x, p)
        else if not b
        then (thrown y, q)
        else if empty
        then (if c then (returned v, r) else (thrown z, r))
        else full).0
      ≡ returned w
    → (c ≡ true) × (v ≡ w)
opening false b empty c x y z p q r full v w e h = cc
opening true false empty c x y z p q r full v w e h = cc
opening true true false c x y z p q r full v w e h = cc
opening true true true false x y z p q r full v w e h = cc
opening true true true true x y z p q r full v w e h = (refl, cc)

-- Where the constructor returns an object on an empty file, whatever the kernel answered on the
-- way, the file is the journal of no entries and the object continues it.
pub open_wal-IsWriter :
    (sync_every_n : ℕ) (d : Disk) (w : Wal)
    → d.bytes ≡ []
    → (open_wal sync_every_n d).0 ≡ returned w
    → IsWriter w []
unfolding open_wal fresh probe seek journal encode_log log_head
open_wal-IsWriter sync_every_n d w none_yet h =
    let d1 = (probe d).1 in
    let d2 = (seek d1).1 in
    let dw = (write_header d2).1 in
    let dv = (validate_header d2).1 in
    let full : Outcome Wal × Disk =
      if (validate_header d2).0
      then (returned (fresh sync_every_n dv), dv)
      else (thrown header_invalid, dv) in
    let (written, is) =
      opening (probe d).0 (seek d1).0 (length d2.bytes == 0) (write_header d2).0 open_failed
        stat_failed header_write_failed d1 d2 dw full (fresh sync_every_n dw) w
        (ap (λ (t : List ℕ). length t == 0) none_yet) h in
    subst (λ (v : Wal). IsWriter v []) is
      (record {
        opened = refl;
        log = tt;
        seq = refl;
        head = refl;
        bytes = write_header-bytes d2 none_yet written ∙ sym (append-nil header);
        epoch = omega arith;
      })
