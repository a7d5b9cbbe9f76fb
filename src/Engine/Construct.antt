-- ===== src/Engine/Construct.antt =====
-- The constructor of the engine on a journal and a snapshot file: the log is opened, then `recover`.
use lite_speed_store.Base.{ℕ, Option, none, some, List, []}
use lite_speed_store.Posix.{Disk}
use lite_speed_store.Wal.{Wal, Outcome, returned, thrown, open_wal, close}
use lite_speed_store.Engine.{Table, StorageEngine, Reply, done, failed, log_failed}
use lite_speed_store.Engine.Recover.{Image, recover}
use lite_speed_store.Engine.Snapshot.{loaded_image}
use lite_speed_store.Snapshot.Load.{load}

-- The object before the body of the constructor.
abbrev pub member_init : ℕ → Wal → StorageEngine
member_init limit w = record {
  table = [];
  wal = some w;
  snapshot_epoch = none;
  max_history = limit;
}

-- Where `recover` throws, the log is destroyed, which closes the file.
abbrev file_of_log : Disk → Option Wal → Disk
file_of_log d none = d
file_of_log d (some w) = (close w).disk

unfoldable pub constructed : Disk → Reply (Unit {0}) × StorageEngine → Reply StorageEngine × Disk
constructed d (done u, e) = (done e, elim e.wal [ none ↦ d | some w ↦ w.disk ])
constructed d (failed x, e) = (failed x, file_of_log d e.wal)

unfoldable pub run_body :
    Option Image → ℕ → Outcome Wal × Disk → Option (Reply StorageEngine × Disk)
unfolding constructed
run_body image limit (thrown x, d) = some (failed (log_failed x), d)
run_body image limit (returned w, d) = elim (recover image (member_init limit w)) [
  | none ↦ none
  | some p ↦ some (constructed d p)
]

-- `file` is what the snapshot's path holds and `through` the order in which the loaded map is gone
-- through. `none` is no value of the program.
unfoldable pub construct :
    (Table → Table) → ℕ → ℕ → Option (List ℕ) → Disk → Option (Reply StorageEngine × Disk)
unfolding run_body
construct through limit sync_every_n file d =
    run_body (loaded_image through (load file)) limit (open_wal sync_every_n d)
