-- ===== src/Fuzz/Laws.antt =====
-- The invariant that the fuzz targets look for, and the files that they make.
use lite_speed_store.Wal.{Wal}
