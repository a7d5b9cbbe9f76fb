-- ===== src/Wal/Ends.antt =====
-- The reader's loop on any file, with the fuel that `walk_chain` gives it.
use lite_speed_store.Base.{
  ℕ, zero, suc, ◌+◌, ◌-◌, ◌<◌, ◌≡◌, refl, ap, ◌∙◌, arith, subst, Bool, true, false, not, inl, inr,
  Option, none, some, List, ◌++◌, length, length-append, length-drop, drop, ltb, ltb→lt, ltb→le,
  Bool-cases, if◌then◌else◌,
}
use lite_speed_store.Posix.{Answer, Input, Disk, query, seek}
use lite_speed_store.Wal.{Wal, header_size, RecoveryResult}
use lite_speed_store.Wal.Format.{covered}
use lite_speed_store.Wal.Check.{
  Exit, torn, malformed_entry, tampered_entry, overread, exit, Verified, verify_entry,
}
use lite_speed_store.Wal.Walk.{
  Visit, Walk, Ending, at_end, hung, broke, Walked, walked, walk_loop, walk_chain, conclude, start,
}
use lite_speed_store.Wal.Recover.{recover, settle, adopt, verify, report}
use lite_speed_store.Wal.Steps.{loop_end, loop_exit, loop_go, loop_lost}
use lite_speed_store.Wal.Chain.{Try-cases}
use lite_speed_store.Wal.Sound.{Checked, verify_entry-Checked}
use lite_speed_store.Wal.Total.{Safe, verify_entry-Safe}

abbrev IsProper : Ending → Type 0
IsProper at_end = Unit
IsProper hung = ⊥
IsProper (broke torn) = Unit
IsProper (broke malformed_entry) = Unit
IsProper (broke tampered_entry) = Unit
IsProper (broke overread) = ⊥

Safe-exit : (e : Exit) (s : List Answer) → Safe {A = Verified} (exit e s) → IsProper (broke e)
Safe-exit torn s h = tt
Safe-exit malformed_entry s h = tt
Safe-exit tampered_entry s h = tt
Safe-exit overread s h = h

shorter :
    {prev : List ℕ} {n : ℕ} {i0 : Input} {v : Verified}
    → Checked prev n i0 v
    → length v.input.ahead < length i0.ahead
shorter {v = v} c =
    let body = covered c.fixed v.key v.value v.hash in
    let long =
      ap length c.ahead
      ∙ length-append c.crc (body ++ v.input.ahead)
      ∙ ap (λ (k : ℕ). length c.crc + k) (length-append body v.input.ahead) in
    omega (arith, c.crc_size, long)

module _ {ℓ} {S : Type ℓ} (visitor : Option (Visit → S → S)) (min_epoch : Option ℕ) where
  walk_loop-IsProper :
      (fuel size pos : ℕ) (ahead : List ℕ) (script : List Answer) (w : Walk S)
      → length ahead < fuel
      → IsProper (walk_loop visitor min_epoch fuel size pos ahead script w).how
  walk_loop-IsProper zero size pos ahead script w enough = absurd (omega arith)
  walk_loop-IsProper (suc fuel) size pos ahead script w enough = elim (Bool-cases (ltb pos size)) [
    | inr done ↦
        rw (loop_end visitor min_epoch fuel size pos ahead script w (ltb→le pos size done)) tt
    | inl more ↦
        let i0 : Input = record { pos = pos; ahead = ahead; script = script } in
        let room = ltb→lt pos size more in
        elim (Try-cases (verify_entry (size - pos) w.prev_hash w.expected_seq i0)) [
          | inr (x, s, h) ↦ rw (loop_exit visitor min_epoch fuel size pos ahead script w room h) (
              Safe-exit x s
                (subst Safe h (verify_entry-Safe (size - pos) w.prev_hash w.expected_seq i0)))
          | inl (v, h) ↦ elim (Bool-cases (query v.input.script).0) [
            | inr lost ↦
                rw (loop_lost visitor min_epoch fuel size pos ahead script w room h lost) tt
            | inl told ↦
                let less =
                  shorter (verify_entry-Checked (size - pos) w.prev_hash w.expected_seq i0 v h) in
                rw (loop_go visitor min_epoch fuel size pos ahead script w room h told) (
                  walk_loop-IsProper fuel size v.input.pos v.input.ahead (query v.input.script).1 _
                    (omega (arith, less, enough)))
          ]
        ]
  ]

  abbrev Results : Walked S → Type ℓ
  Results x = (r : RecoveryResult) × (s : S) × (d : Disk) × (x ≡ walked r s d)

  conclude-Results :
      (allow : Bool) (d : Disk) (how : Ending) (w : Walk S)
      → IsProper how
      → Results (conclude allow d how w)
  unfolding conclude
  conclude-Results allow d at_end w p = (_, _, _, refl)
  conclude-Results allow d hung w p = absurd p
  conclude-Results allow d (broke torn) w p = (_, _, _, refl)
  conclude-Results allow d (broke malformed_entry) w p = (_, _, _, refl)
  conclude-Results allow d (broke tampered_entry) w p = (_, _, _, refl)
  conclude-Results allow d (broke overread) w p = absurd p

  if-Results : (b : Bool) (x y : Walked S) → Results x → Results y → Results (if b then x else y)
  if-Results true x y p q = p
  if-Results false x y p q = q

  walk_chain-Results :
      (fd_open allow : Bool) (d : Disk) (s : S)
      → Results (walk_chain visitor min_epoch fd_open allow d s)
  unfolding walk_chain
  walk_chain-Results fd_open allow d s =
      let d2 = (seek (seek d).1).1 in
      let size = length d2.bytes in
      if-Results (not fd_open) _ _ (_, _, _, refl)
        (if-Results (not (seek d).0) _ _ (_, _, _, refl)
          (if-Results (not (seek (seek d).1).0) _ _ (_, _, _, refl)
            (conclude-Results allow _ _ _ (
              walk_loop-IsProper (suc size) size header_size (drop header_size d2.bytes) d2.script
                (start s) (omega (arith, length-drop header_size d2.bytes))))))

-- Whatever the file holds and the kernel answers, `recover` has a result, and so has `verify`: the
-- loop over the entries ends within its fuel, and the reader of an entry reads neither the array
-- of the stored CRC nor that of the fixed part past its end.
pub recover-returns {ℓ} :
    {S : Type ℓ} (visitor : Option (Visit → S → S)) (min_epoch : Option ℕ) (w : Wal) (s : S)
    → ((r : RecoveryResult) × (s' : S) × (w' : Wal) × (recover visitor min_epoch w s
          ≡ some (r, s', w')))
      × ((r : RecoveryResult) × (w' : Wal) × (verify w ≡ some (r, w')))
unfolding recover settle verify report
recover-returns visitor min_epoch w s =
    let (r, s', d, h) = walk_chain-Results visitor min_epoch w.fd_open true w.disk s in
    let (q, u, d', k) = walk_chain-Results {0} {S = Unit {0}} none none w.fd_open false w.disk tt in
    ((r, s', adopt r (record w { disk = d }), rw h), (q, record w { disk = d' }, rw k))
