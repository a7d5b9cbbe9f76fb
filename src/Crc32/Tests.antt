-- ===== src/Crc32/Tests.antt =====
-- Concrete bytes for the CRC.
use lite_speed_store.Base.{◌≡◌, ◌≢◌, arith, [], ◌∷◌, ◌++◌}
use lite_speed_store.Crc32.{run, calculate}
use lite_speed_store.Crc32.Bitwise.{divide, run-divide}
use lite_speed_store.Crc32.Detects.{calculate-differs}

run-divide_example : run 0xFFFFFFFF (49 ∷ 50 ∷ []) ≡ divide 0xFFFFFFFF (49 ∷ 50 ∷ [])
run-divide_example = run-divide 0xFFFFFFFF (49 ∷ 50 ∷ []) (omega arith, (omega arith, tt))

calculate-differs_example :
    calculate ((49 ∷ []) ++ 67 ∷ 50 ∷ []) ≢ calculate ((49 ∷ []) ++ 99 ∷ 50 ∷ [])
calculate-differs_example =
    calculate-differs (49 ∷ []) (50 ∷ []) 67 99 (omega arith, tt) (omega arith, tt) (omega arith)
      (omega arith) (λ e. omega (arith, e))
