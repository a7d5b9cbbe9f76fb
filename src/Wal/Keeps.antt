-- ===== src/Wal/Keeps.antt =====
-- What a visitor keeps, `recover` keeps, on any file and any kernel.
use lite_speed_store.Base.{
  ℕ, zero, suc, ◌-◌, ◌≡◌, Bool, true, false, not, inl, inr, Option, some, List, length, drop, ltb,
  ltb→lt, ltb→le, Bool-cases, subst, if◌then◌else◌,
}
use lite_speed_store.Posix.{Answer, Input, Disk, query, seek}
use lite_speed_store.Wal.{Wal, RecoveryResult, header_size}
use lite_speed_store.Wal.Check.{
  torn, malformed_entry, tampered_entry, overread, Verified, verify_entry,
}
use lite_speed_store.Wal.Walk.{
  Visit, Walk, Ending, at_end, hung, broke, Walked, walked, no_result, passes, visit, advance,
  walk_loop, walk_chain, conclude, start,
}
use lite_speed_store.Wal.Recover.{recover, settle}
use lite_speed_store.Wal.Steps.{loop_end, loop_exit, loop_go, loop_lost}
use lite_speed_store.Wal.Chain.{Try-cases}

middle {ℓ} :
    {S : Type ℓ} {r r' : RecoveryResult} {s s' : S} {w w' : Wal}
    → ◌≡◌ {A = Option (RecoveryResult × S × Wal)} (some (r, s, w)) (some (r', s', w'))
    → s ≡ s'
middle e = cc

module _ {ℓ κ} {S : Type ℓ} (f : Visit → S → S) (min_epoch : Option ℕ) (P : S → Type κ)
    (keeps : (v : Visit) (s : S) → P s → P (f v s)) where
  visit-keeps : (v : Verified) (s : S) → P s → P (visit (some f) min_epoch v s)
  unfolding visit
  visit-keeps v s p = elim (Bool-cases (passes min_epoch v.fields.epoch)) [
    | inl newer ↦ rw newer (keeps _ s p)
    | inr old ↦ rw old p
  ]

  walk_loop-keeps :
      (fuel size pos : ℕ) (ahead : List ℕ) (script : List Answer) (w : Walk S)
      → P w.state
      → P (walk_loop (some f) min_epoch fuel size pos ahead script w).walk.state
  walk_loop-keeps zero size pos ahead script w p = unfold walk_loop in p
  walk_loop-keeps (suc fuel) size pos ahead script w p = elim (Bool-cases (ltb pos size)) [
    | inr done ↦
        rw (loop_end (some f) min_epoch fuel size pos ahead script w (ltb→le pos size done)) p
    | inl more ↦
        let i0 : Input = record { pos = pos; ahead = ahead; script = script } in
        let room = ltb→lt pos size more in
        elim (Try-cases (verify_entry (size - pos) w.prev_hash w.expected_seq i0)) [
          | inr (x, s, h) ↦ rw (loop_exit (some f) min_epoch fuel size pos ahead script w room h) p
          | inl (v, h) ↦ elim (Bool-cases (query v.input.script).0) [
            | inr lost ↦
                rw (loop_lost (some f) min_epoch fuel size pos ahead script w room h lost)
                  (unfold advance in visit-keeps v w.state p)
            | inl told ↦ rw (loop_go (some f) min_epoch fuel size pos ahead script w room h told) (
                walk_loop-keeps fuel size v.input.pos v.input.ahead (query v.input.script).1 _
                  (unfold advance in visit-keeps v w.state p))
          ]
        ]
  ]

  -- The state of a walk that ends.
  abbrev Keeps : Walked S → Type κ
  Keeps (walked r s d) = P s
  Keeps no_result = Unit {κ}

  conclude-Keeps :
      (allow : Bool) (d : Disk) (how : Ending) (w : Walk S)
      → P w.state
      → Keeps (conclude allow d how w)
  unfolding conclude
  conclude-Keeps allow d at_end w p = p
  conclude-Keeps allow d hung w p = tt
  conclude-Keeps allow d (broke torn) w p = p
  conclude-Keeps allow d (broke malformed_entry) w p = p
  conclude-Keeps allow d (broke tampered_entry) w p = p
  conclude-Keeps allow d (broke overread) w p = tt

  if-Keeps : (b : Bool) (x y : Walked S) → Keeps x → Keeps y → Keeps (if b then x else y)
  if-Keeps true x y p q = p
  if-Keeps false x y p q = q

  walk_chain-Keeps :
      (fd_open allow : Bool) (d : Disk) (s : S)
      → P s
      → Keeps (walk_chain (some f) min_epoch fd_open allow d s)
  unfolding walk_chain start
  walk_chain-Keeps fd_open allow d s p =
      let d2 = (seek (seek d).1).1 in
      let size = length d2.bytes in
      if-Keeps (not fd_open) _ _ p (
        if-Keeps (not (seek d).0) _ _ p (
          if-Keeps (not (seek (seek d).1).0) _ _ p (
            conclude-Keeps allow _ _ _ (
              walk_loop-keeps (suc size) size header_size (drop header_size d2.bytes) d2.script
                (start s) p))))

  settled :
      (w w' : Wal) (x : Walked S) (r : RecoveryResult) (s : S)
      → Keeps x
      → settle w x ≡ some (r, s, w')
      → P s
  unfolding settle
  settled w w' no_result r s p e = cc
  settled w w' (walked r0 s0 d) r s p e = subst P (middle e) p

  -- A predicate that the visitor keeps holds of what it made of a state where it held, whatever
  -- the file holds and the kernel answers.
  pub recover-keeps :
      (w w' : Wal) (s s' : S) (r : RecoveryResult)
      → P s
      → recover (some f) min_epoch w s ≡ some (r, s', w')
      → P s'
  unfolding recover
  recover-keeps w w' s s' r p e =
      settled w w' (walk_chain (some f) min_epoch w.fd_open true w.disk s) r s'
        (walk_chain-Keeps w.fd_open true w.disk s p) e
