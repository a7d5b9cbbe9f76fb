-- ===== src/Fuzz/Tests.antt =====
-- A run of the fuzz targets whose writes are cut short.
use lite_speed_store.Base.{List, [], ◌∷◌}
use lite_speed_store.Posix.{Answer, transfer, failed}
use lite_speed_store.Wal.{Wal}

abbrev script : List Answer
script = transfer 1 ∷ transfer 9 ∷ transfer 30 ∷ transfer 2 ∷ failed ∷ []
