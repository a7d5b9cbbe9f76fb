-- ===== src/Wal/Steps.antt =====
-- The ways that the reader's loop goes: on to the next entry, to the end, or out of the loop.
use lite_speed_store.Base.{
  ℕ, suc, ◌-◌, ◌≤◌, ◌<◌, ◌≡◌, true, false, Option, some, List, lt→ltb, le→ltb,
}
use lite_speed_store.Posix.{Answer, query}
use lite_speed_store.Wal.Check.{Exit, torn, go, exit, Verified, verify_entry}
use lite_speed_store.Wal.Walk.{Visit, Walk, at_end, broke, advance, walk_loop}

module _ {ℓ} {S : Type ℓ} (visitor : Option (Visit → S → S)) (min_epoch : Option ℕ)
    (fuel size pos : ℕ) (ahead : List ℕ) (script : List Answer) (w : Walk S) where
  pub loop_end :
      size ≤ pos
      → walk_loop visitor min_epoch (suc fuel) size pos ahead script w
        ≡ record { how = at_end; walk = w; script = script }
  unfolding walk_loop
  loop_end h = rw (le→ltb pos size h, walk_loop)

  pub loop_exit :
      {e : Exit} {rest : List Answer}
      → pos < size
      → verify_entry
          (size - pos)
          w.prev_hash
          w.expected_seq
          (record { pos = pos; ahead = ahead; script = script })
        ≡ exit e rest
      → walk_loop visitor min_epoch (suc fuel) size pos ahead script w
        ≡ record { how = broke e; walk = w; script = rest }
  unfolding walk_loop
  loop_exit h out = rw (lt→ltb pos size h, walk_loop, out)

  pub loop_go :
      {v : Verified}
      → pos < size
      → verify_entry
          (size - pos)
          w.prev_hash
          w.expected_seq
          (record { pos = pos; ahead = ahead; script = script })
        ≡ go v
      → (query v.input.script).0 ≡ true
      → walk_loop visitor min_epoch (suc fuel) size pos ahead script w
        ≡ walk_loop visitor min_epoch fuel size v.input.pos v.input.ahead
            (query v.input.script).1
            (record (advance visitor min_epoch v w) { position = some v.input.pos })
  unfolding walk_loop
  loop_go h next told = rw (lt→ltb pos size h, walk_loop, next, told)

  pub loop_lost :
      {v : Verified}
      → pos < size
      → verify_entry
          (size - pos)
          w.prev_hash
          w.expected_seq
          (record { pos = pos; ahead = ahead; script = script })
        ≡ go v
      → (query v.input.script).0 ≡ false
      → walk_loop visitor min_epoch (suc fuel) size pos ahead script w ≡ record {
        how = broke torn;
        walk = advance visitor min_epoch v w;
        script = (query v.input.script).1;
      }
  unfolding walk_loop
  loop_lost h next told = rw (lt→ltb pos size h, walk_loop, next, told)
