-- ===== src/Engine/Starts.antt =====
-- The engine's constructor on any files, and the invariant of the memory.
use lite_speed_store.Base.{ℕ, ◌≡◌, refl, Option, some, List}
use lite_speed_store.Posix.{Disk}
use lite_speed_store.Wal.{Wal, Outcome, returned, thrown, open_wal, set_epoch}
use lite_speed_store.Wal.Ends.{recover-returns}
use lite_speed_store.Engine.{Table, StorageEngine, Reply, done, failed}
use lite_speed_store.Engine.Recover.{Image, replay, epoch_of, next_epoch, loaded, judge, recover}
use lite_speed_store.Engine.Snapshot.{loaded_image}
use lite_speed_store.Engine.Invariant.{IsTable, recover-IsTable}
use lite_speed_store.Engine.Construct.{member_init, constructed, run_body, construct}
use lite_speed_store.Snapshot.Load.{load}

-- An exception, or an engine whose memory has the invariant.
abbrev pub Starts : Reply StorageEngine → Type 0
Starts (done e) = IsTable e.max_history e.table
Starts (failed x) = Unit

recover-some :
    (image : Option Image) (limit : ℕ) (w : Wal)
    → (p : Reply (Unit {0}) × StorageEngine) × (recover image (member_init limit w) ≡ some p)
unfolding recover
recover-some image limit w =
    let (found, _) =
      recover-returns (some (replay limit)) (epoch_of image) (set_epoch (next_epoch image) w)
        (loaded limit image) in
    let (r, t, w', eq) = found in
    (
      (
        judge r.status,
        record (member_init limit w) { table = t; wal = some w'; snapshot_epoch = epoch_of image },
      ),
      rw (recover, eq),
    )

constructed-Starts :
    (d : Disk) (p : Reply (Unit {0}) × StorageEngine)
    → IsTable p.1.max_history p.1.table
    → Starts (constructed d p).0
unfolding constructed
constructed-Starts d (done u, e) i = i
constructed-Starts d (failed x, e) i = tt

run_body-Starts :
    (image : Option Image) (limit : ℕ) (o : Outcome Wal × Disk)
    → (out : Reply StorageEngine × Disk) × (run_body image limit o ≡ some out) × Starts out.0
unfolding run_body
run_body-Starts image limit (thrown x, d) = (_, refl, tt)
run_body-Starts image limit (returned w, d) =
    let (p, eq) = recover-some image limit w in
    (
      constructed d p,
      rw (run_body, eq),
      constructed-Starts d p (recover-IsTable image (member_init limit w) p.1 p.0 eq),
    )

-- The constructor of the engine ends, whatever the journal's file and the snapshot's path hold,
-- the order in which the loaded map is gone through, and whatever the kernel answers: with an
-- exception, or with an engine in whose memory each key stands once, with a history that is not
-- empty and no longer than a limit above zero.
pub construct-Starts :
    (through : Table → Table) (limit sync_every_n : ℕ) (file : Option (List ℕ)) (d : Disk)
    → (out : Reply StorageEngine × Disk) × (construct through limit sync_every_n file d ≡ some out)
      × Starts out.0
unfolding construct
construct-Starts through limit sync_every_n file d =
    run_body-Starts (loaded_image through (load file)) limit (open_wal sync_every_n d)
