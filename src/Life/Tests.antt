-- ===== src/Life/Tests.antt =====
-- A concrete life: a call, a snapshot, and a call in which the process ends.
use lite_speed_store.Base.{ℕ, ◌≡◌, refl, ap, arith, Bool, true, none, some, List, [], ◌∷◌, ◌++◌}
use lite_speed_store.Posix.{Disk, failed, call, fsync, seek, probe, write_exact, write_loop}
use lite_speed_store.Endian.{put_le32, put_le64}
use lite_speed_store.Wal.{Wal, put, header, zero_hash, write_header, fresh, open_wal, set_epoch}
use lite_speed_store.Wal.Append.{append, commit}
use lite_speed_store.Wal.Format.{entry_bytes}
use lite_speed_store.Wal.Opens.{served}
use lite_speed_store.Engine.{
  Record, Table, StorageEngine, Reply, done, find, serialize, alter, append_capped, push_capped,
  logged, set,
}
use lite_speed_store.Engine.Listing.{IsOrder}
use lite_speed_store.Engine.Picture.{IsSavable}
use lite_speed_store.Engine.Rotation.{content}
use lite_speed_store.Engine.Snapshot.{snapshot, loaded_image}
use lite_speed_store.Engine.Checkpoint.{snapshot_quiet}
use lite_speed_store.Snapshot.Load.{load}
use lite_speed_store.Engine.Construct.{construct}
use lite_speed_store.Engine.Spec.{Call, set_call, remove_call, perform}
use lite_speed_store.Snapshot.Layout.{Fits}
use lite_speed_store.Snapshot.Save.{Directory}
use lite_speed_store.Life.{
  World, on_kernel, left, Event, answered, cut_off, saved, answer, save, Life, stop, then,
}
use lite_speed_store.Life.Laws.{Lived, Life-Lived, Life-goes_on}

abbrev in_order : Table → Table
in_order t = t

in_order-IsOrder : IsOrder in_order
in_order-IsOrder = record {
  distinct = λ t once. once;
  same = λ t once key. refl;
  count = λ t once. refl;
}

-- 1.5
abbrev duration : List ℕ
duration = 0 ∷ 0 ∷ 0 ∷ 0 ∷ 0 ∷ 0 ∷ 0xF8 ∷ 0x3F ∷ []

abbrev first_disk : Disk
first_disk = record { bytes = header; synced = header; script = [] }

abbrev first_wal : Wal
first_wal = record {
  fd_open = true;
  epoch = 0;
  seq = 0;
  head_hash = zero_hash;
  sync_every_n = 1;
  pending_writes = 0;
  disk = first_disk;
}

abbrev first_engine : StorageEngine
first_engine = record { table = []; wal = some first_wal; snapshot_epoch = none; max_history = 2 }

abbrev first_world : World
first_world = record {
  engine = first_engine;
  directory = record { snap = none; tmp = none; script = [] };
}

begun : construct in_order 2 1 none (served [] []) ≡ some (done first_engine, first_disk)
unfolding construct open_wal probe call seek write_header write_exact write_loop header put_le64
    put_le32 fsync lite_speed_store.Engine.Recover.recover lite_speed_store.Wal.Recover.recover
    fresh loaded_image load
begun = refl

abbrev first_call : Call
first_call = set_call (97 ∷ []) (7 ∷ []) duration 5

abbrev second_call : Call
second_call = remove_call (97 ∷ []) 6

abbrev second_engine : StorageEngine
second_engine = (perform first_call first_engine).1

returned_one : (perform first_call first_engine).0 ≡ true
unfolding perform set append write_exact write_loop entry_bytes put_le32 commit fsync call
returned_one = refl

abbrev one : Record
one = record { value = 7 ∷ []; duration = duration; timestamp = 5 }

abbrev second_wal : Wal
second_wal = (append first_wal put (97 ∷ []) (serialize duration (7 ∷ [])) 5).1

second-log :
    (second_engine.wal ≡ some second_wal)
    × (second_wal.fd_open ≡ true)
    × (second_wal.disk.script ≡ [])
    × (second_engine.table ≡ (97 ∷ [], one ∷ []) ∷ [])
    × (second_engine.max_history ≡ 2)
unfolding perform set logged append write_exact write_loop entry_bytes put_le32 commit fsync call
second-log = (refl, refl, refl, refl, refl)

quiet-has : (on_kernel [] second_engine).wal ≡ some second_wal
unfolding perform set logged append write_exact write_loop entry_bytes put_le32 commit fsync call
quiet-has = refl

one-Fits : Fits one
one-Fits = record {
  timestamp = omega arith;
  duration = refl;
  bytes = (
    omega arith,
    (
      omega arith,
      (omega arith, (omega arith, (omega arith, (omega arith, (omega arith, (omega arith, tt)))))),
    ),
  );
  value = omega arith;
}

second-IsSavable : IsSavable second_engine
unfolding find
second-IsSavable = record {
  table =
      rw (second-log.3, second-log.4)
        (record { distinct = (refl, tt); kept = ((omega arith, λ pos. omega arith), tt) });
  keys =
      rw second-log.3
        (record { key = omega arith; count = omega arith; records = (one-Fits, tt) }, tt);
  count = rw second-log.3 (omega arith);
}

abbrev rotated : Reply (Unit {0}) × StorageEngine × Directory
rotated = snapshot in_order in_order first_world.directory (on_kernel [] second_engine)

rotated-done : rotated.0 ≡ done tt
rotated-done =
    snapshot_quiet in_order in_order (on_kernel [] second_engine) second_wal first_world.directory
      quiet-has second-log.1 refl second-log.2

abbrev third_world : World
third_world = record { engine = rotated.1; directory = rotated.2 }

abbrev events : List Event
events = answered first_call ∷ saved ∷ []

life : Life first_world events third_world
life =
    then (answered first_call) (saved ∷ [])
      (answer first_call [] second_engine (refl, omega arith)
        (ap (λ (b : Bool). (b, second_engine)) returned_one))
      (then saved []
        (save in_order in_order [] [] rotated.1 rotated.2 in_order-IsOrder in_order-IsOrder
          second-IsSavable (ap (λ (r : Reply (Unit {0})). (r, rotated.1, rotated.2)) rotated-done))
        (stop third_world))

Life-Lived_example : Lived 2 events third_world
Life-Lived_example =
    Life-Lived in_order 2 1 [] first_engine first_disk first_world.directory third_world events
      in_order-IsOrder begun refl life (omega arith)

Life-goes_on_example :
    (f : StorageEngine) × (disk : Disk) × (construct in_order 2 3
        (content third_world.directory.snap)
        (served (left (perform second_call (on_kernel (failed ∷ []) third_world.engine)).1) [])
      ≡ some (done f, disk))
    × Lived 2 (events ++ cut_off second_call ∷ []) (record third_world { engine = f })
Life-goes_on_example =
    Life-goes_on in_order in_order 2 1 3 [] [] first_engine first_disk first_world.directory
      third_world events second_call (failed ∷ []) in_order-IsOrder in_order-IsOrder begun refl life
      (omega arith) (omega arith)
