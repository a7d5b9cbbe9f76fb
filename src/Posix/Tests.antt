-- ===== src/Posix/Tests.antt =====
-- A concrete run of the loop that writes: interrupted, cut in two, and broken off.
use lite_speed_store.Base.{[], ◌∷◌}
use lite_speed_store.Posix.{transfer, interrupted, failed, write_loop}
use lite_speed_store.Posix.Laws.{Wrote, write_loop-Wrote}

write_loop-Wrote_example :
    Wrote
      (9 ∷ [])
      (1 ∷ 2 ∷ 3 ∷ [])
      (write_loop (interrupted ∷ transfer 2 ∷ failed ∷ []) (9 ∷ []) (1 ∷ 2 ∷ 3 ∷ []))
write_loop-Wrote_example =
    write_loop-Wrote (interrupted ∷ transfer 2 ∷ failed ∷ []) (9 ∷ []) (1 ∷ 2 ∷ 3 ∷ [])
