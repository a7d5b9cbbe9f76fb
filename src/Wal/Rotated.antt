-- ===== src/Wal/Rotated.antt =====
-- What `reset` leaves of the journal's file, whatever the kernel answers; and the constructor on
-- what it may leave.
use lite_speed_store.Base.{
  ℕ, ◌<◌, ◌≡◌, ◌∙◌, refl, ap, arith, Bool, true, false, not, ◌⊎◌, inl, inr, List, [], ◌++◌, take,
  length, Bool-cases, if◌then◌else◌, ◌==◌,
}
use lite_speed_store.Posix.{
  Disk, call, query, probe, fsync, ftruncate, seek, write_exact, write_loop, read_exact,
}
use lite_speed_store.Posix.Laws.{write_loop-Wrote, read_loop_short}
use lite_speed_store.Wal.{
  Wal, header, header_size, header_ok, write_header, validate_header, fresh, open_wal, reset,
  zero_hash, Outcome, returned, thrown, Error, open_failed, stat_failed, header_write_failed,
  header_invalid,
}
use lite_speed_store.Wal.Rotation.{emptied, gates}

-- On an empty file a write that is cut off leaves a prefix of the header.
write_header-prefix :
    (d : Disk) → d.bytes ≡ [] → (n : ℕ) × ((write_header d).1.bytes ≡ take n header)
unfolding write_header write_exact fsync
write_header-prefix d none_yet =
    let w = write_loop d.script d.bytes header in
    let wrote = write_loop-Wrote d.script d.bytes header in
    let bytes = wrote.bytes ∙ ap (λ (t : List ℕ). t ++ take wrote.count header) none_yet in
    elim (Bool-cases w.done) [
      | inl whole ↦ (wrote.count, rw whole bytes)
      | inr broken ↦ (wrote.count, rw broken bytes)
    ]

uncut : (d : Disk) → (ftruncate 0 d).0 ≡ false → (ftruncate 0 d).1.bytes ≡ d.bytes
unfolding ftruncate
uncut d h = rw h

abbrev pub Left : Wal → Wal → Type 0
Left w v = (v.disk.bytes ≡ w.disk.bytes) ⊎ ((n : ℕ) × (v.disk.bytes ≡ take n header))

gates_all {ℓ} :
    (P : Wal → Type ℓ) (a b c d : Bool) (x y z u v : Wal)
    → P x
    → (b ≡ false → P y)
    → (b ≡ true → P z × P u × P v)
    → P (gates a b c d x y z u v).1
gates_all P false b c d x y z u v px py rest = px
gates_all P true false c d x y z u v px py rest = py refl
gates_all P true true false d x y z u v px py rest = (rest refl).0
gates_all P true true true false x y z u v px py rest = (rest refl).1
gates_all P true true true true x y z u v px py rest = (rest refl).2

-- The file is as it was, or a prefix of the header.
pub reset-Left : (w : Wal) → Left w (reset w).1
unfolding reset seek fsync
reset-Left w =
    let d1 = (fsync w.disk).1 in
    let d2 = (ftruncate 0 d1).1 in
    let d3 = (seek d2).1 in
    let d4 = (write_header d3).1 in
    let after = record w { seq = 0; head_hash = zero_hash; pending_writes = 0; disk = d4 } in
    gates_all (Left w) w.fd_open (ftruncate 0 d1).0 (seek d2).0 (write_header d3).0 w
      (record w { disk = d2 }) (record w { disk = d3 }) (record w { disk = d4 }) after (inl refl)
      (λ no. inl (uncut d1 no))
      (λ yes.
        let none_yet = emptied d1 yes in
        let part = write_header-prefix d3 none_yet in (inr (0, none_yet), inr part, inr part))

-- The header is not there to be read.
validate_header_short :
    (d : Disk)
    → length d.bytes < header_size
    → ((validate_header d).0 ≡ false) × ((validate_header d).1.bytes ≡ d.bytes)
unfolding validate_header header_ok seek read_exact
validate_header_short d short =
    let none_read = read_loop_short (query d.script).1 0 d.bytes [] header_size short in
    elim (Bool-cases (query d.script).0) [
      | inl sought ↦ (rw (sought, none_read), rw sought)
      | inr lost ↦ (rw lost, rw lost)
    ]

-- Which exception the constructor throws where it gets as far as the header.
abbrev pub refusal : Bool → Bool → Error
refusal a b = if not a then open_failed else if not b then stat_failed else header_invalid

opening_short :
    (a b empty c valid : Bool) (p q r s : Disk) (v w : Wal) (bytes : List ℕ)
    → empty ≡ false
    → valid ≡ false
    → p.bytes ≡ bytes
    → q.bytes ≡ bytes
    → s.bytes ≡ bytes
    → (o : Outcome Wal × Disk)
    → o ≡ (
        if not a
        then (thrown open_failed, p)
        else if not b
        then (thrown stat_failed, q)
        else if empty
        then (if c then (returned v, r) else (thrown header_write_failed, r))
        else (if valid then (returned w, s) else (thrown header_invalid, s)))
    → (o.0 ≡ thrown (refusal a b)) × (o.1.bytes ≡ bytes)
opening_short false b empty c valid p q r s v w bytes e k kp kq ks o h = rw h (refl, kp)
opening_short true false empty c valid p q r s v w bytes e k kp kq ks o h = rw h (refl, kq)
opening_short true true true c valid p q r s v w bytes e k kp kq ks o h = cc
opening_short true true false c true p q r s v w bytes e k kp kq ks o h = cc
opening_short true true false c false p q r s v w bytes e k kp kq ks o h = rw h (refl, ks)

-- On a file that is not empty and shorter than the header, the constructor throws, whatever the
-- kernel answers, and leaves the bytes as they are: the exception tells of the open or the fstat
-- if that fails, and of an invalid header otherwise.
pub open_wal_short :
    (sync_every_n : ℕ) (d : Disk)
    → 0 < length d.bytes
    → length d.bytes < header_size
    → ((open_wal sync_every_n d).0 ≡ thrown (refusal (call d.script).0 (query (call d.script).1).0))
      × ((open_wal sync_every_n d).1.bytes ≡ d.bytes)
unfolding open_wal probe seek
open_wal_short sync_every_n d some_bytes short =
    let d1 = (probe d).1 in
    let d2 = (seek d1).1 in
    let dw = (write_header d2).1 in
    let dv = (validate_header d2).1 in
    let (invalid, same) = validate_header_short d2 short in
    opening_short (probe d).0 (seek d1).0 (length d2.bytes == 0) (write_header d2).0
      (validate_header d2).0 d1 d2 dw dv (fresh sync_every_n dw) (fresh sync_every_n dv) d.bytes
      (ground (arith, some_bytes)) invalid refl refl same (open_wal sync_every_n d) refl
