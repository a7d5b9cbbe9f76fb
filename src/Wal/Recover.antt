-- ===== src/Wal/Recover.antt =====
-- `WAL::recover` and `WAL::verify`.
use lite_speed_store.Base.{ℕ, Bool, true, false, Option, none, some, if◌then◌else◌}
use lite_speed_store.Wal.{
  Wal, RecoveryStatus, ok, truncated_tail, malformed, tampered, RecoveryResult,
}
use lite_speed_store.Wal.Walk.{Visit, Walked, walked, no_result, walk_chain}

-- result.status == Ok || result.status == TruncatedTail
unfoldable pub adopts : RecoveryStatus → Bool
adopts ok = true
adopts truncated_tail = true
adopts malformed = false
adopts tampered = false

unfoldable pub adopt : RecoveryResult → Wal → Wal
unfolding adopts
adopt r w =
    if adopts r.status then (record w { seq = r.entries_verified; head_hash = r.head_hash }) else w

-- The result, what the visitor made of its state, and the object; `none` is no value of the program.
unfoldable pub settle {ℓ} : {S : Type ℓ} → Wal → Walked S → Option (RecoveryResult × S × Wal)
unfolding adopt
settle w no_result = none
settle w (walked r s d) = some (r, s, adopt r (record w { disk = d }))

unfoldable pub recover {ℓ} :
    {S : Type ℓ} → Option (Visit → S → S) → Option ℕ → Wal → S → Option (RecoveryResult × S × Wal)
unfolding settle walk_chain
recover visitor min_epoch w s = settle w (walk_chain visitor min_epoch w.fd_open true w.disk s)

unfoldable pub report : Wal → Walked (Unit {0}) → Option (RecoveryResult × Wal)
report w no_result = none
report w (walked r s d) = some (r, record w { disk = d })

-- Walks with no visitor, and leaves the object as it is.
unfoldable pub verify : Wal → Option (RecoveryResult × Wal)
unfolding report walk_chain
verify w = report w (walk_chain none none w.fd_open false w.disk tt)
