-- ===== src/Engine/SnapshotTests.antt =====
-- Concrete runs of the engine with its snapshot: a rotation whose journal cannot be cut, one that
-- succeeds, and the constructor.
use lite_speed_store.Base.{
  ℕ, ◌<◌, ◌≡◌, refl, sym, ap, arith, true, ◌⊎◌, none, some, List, [], ◌∷◌, append-nil, length,
}
use lite_speed_store.Posix.{
  Disk, transfer, interrupted, failed, call, query, fsync, ftruncate, seek, write_exact, write_loop,
  probe,
}
use lite_speed_store.Crc32
use lite_speed_store.Crc32.{calculate, run, step, table_from, shift_bits, shift_bit}
use lite_speed_store.Endian.{put_le32, put_le64}
use lite_speed_store.Wal.{Wal, header, header_size, zero_hash, set_epoch, reset}
use lite_speed_store.Wal.Log.{encode_log, log_head, replay_log}
use lite_speed_store.Wal.Halts.{journal}
use lite_speed_store.Wal.Walk.{passes}
use lite_speed_store.Engine.{
  Reply, Record, Table, StorageEngine, done, find, alter, append_capped, push_capped,
}
use lite_speed_store.Engine.Recover.{Image, epoch_of, loaded, load_state, load_history}
use lite_speed_store.Engine.Construct.{construct}
use lite_speed_store.Engine.Starts.{Starts, construct-Starts}
use lite_speed_store.Engine.Restart.{IsSynced}
use lite_speed_store.Engine.Crash.{IsReopened}
use lite_speed_store.Engine.Listing.{IsOrder}
use lite_speed_store.Engine.Picture.{IsSavable}
use lite_speed_store.Engine.Snapshot.{snapshot, image_of, export_state, loaded_image}
use lite_speed_store.Engine.Rotation.{content}
use lite_speed_store.Engine.Rotates.{Resumes, snapshot-Resumes}
use lite_speed_store.Engine.Checkpoint.{Checkpointed, snapshot-Checkpointed, snapshot_quiet}
use lite_speed_store.Snapshot.{
  file_of, payload_of, put_keys, put_records, put_record, double_to_bits,
}
use lite_speed_store.Snapshot.Layout.{Fits}
use lite_speed_store.Snapshot.Load.{load}
use lite_speed_store.Snapshot.Round.{IsImage, load-file_of}
use lite_speed_store.Snapshot.Save.{Directory, fsync_parent_dir, replace_file, save}

-- 1.5
abbrev duration : List ℕ
duration = 0 ∷ 0 ∷ 0 ∷ 0 ∷ 0 ∷ 0 ∷ 0xF8 ∷ 0x3F ∷ []

abbrev one : Record
one = record { value = 7 ∷ []; duration = duration; timestamp = 5 }

-- The snapshot before, and the engine that loaded it and has written nothing since.
abbrev before : Image
before = record { epoch = 3; state = (97 ∷ [], one ∷ []) ∷ [] }

one-Fits : Fits one
one-Fits = record {
  timestamp = omega arith;
  duration = refl;
  bytes = (
    omega arith,
    (
      omega arith,
      (omega arith, (omega arith, (omega arith, (omega arith, (omega arith, (omega arith, tt)))))),
    ),
  );
  value = omega arith;
}

before-IsImage : IsImage before
unfolding find
before-IsImage = record {
  epoch = omega arith;
  count = omega arith;
  keys = (record { key = omega arith; count = omega arith; records = (one-Fits, tt) }, tt);
  distinct = (refl, tt);
}

-- The kernel fails the ftruncate.
abbrev wal_before : Wal
wal_before = record {
  fd_open = true;
  epoch = 4;
  seq = 0;
  head_hash = zero_hash;
  sync_every_n = 2;
  pending_writes = 0;
  disk = record { bytes = header; synced = []; script = transfer 1 ∷ failed ∷ [] };
}

abbrev engine_of : Wal → StorageEngine
engine_of w = record {
  table = (97 ∷ [], one ∷ []) ∷ [];
  wal = some w;
  snapshot_epoch = some 3;
  max_history = 2;
}

before-IsSynced : IsSynced (some before) (engine_of wal_before) wal_before []
unfolding journal encode_log log_head epoch_of passes replay_log loaded load_state load_history
    append_capped alter push_capped
before-IsSynced = record {
  has_wal = refl;
  writer = record {
    opened = refl;
    log = tt;
    seq = refl;
    head = refl;
    bytes = sym (append-nil header);
    epoch = omega arith;
  };
  epoch = refl;
  newer = refl;
  table = refl;
}

before-IsSavable : IsSavable (engine_of wal_before)
unfolding find
before-IsSavable = record {
  table = record { distinct = (refl, tt); kept = ((omega arith, λ pos. omega arith), tt) };
  keys = before-IsImage.keys;
  count = omega arith;
}

-- The maps are gone through in the order of their lists.
abbrev in_order : Table → Table
in_order t = t

in_order-IsOrder : IsOrder in_order
in_order-IsOrder = record { distinct = λ t d. d; same = λ t d key. refl; count = λ t d. refl }

abbrev directory : Directory
directory = record {
  snap = some (record { bytes = file_of before; synced = [] });
  tmp = none;
  script = transfer 1 ∷ interrupted ∷ transfer 9 ∷ [];
}

current : some before ≡ loaded_image in_order (load (content directory.snap))
unfolding loaded_image
current = sym (ap (loaded_image in_order) (load-file_of before before-IsImage))

-- A new engine on the file that `w` is about.
abbrev reopened : Wal → StorageEngine
reopened w = record {
  table = [];
  wal = some (record w {
    fd_open = true;
    disk = record w.disk { script = transfer 9 ∷ interrupted ∷ [] };
  });
  snapshot_epoch = none;
  max_history = 2;
}

abbrev cut_wal : Wal
cut_wal = (reset (set_epoch 5 wal_before)).1

snapshot-IsReopened :
    IsReopened (snapshot in_order in_order directory (engine_of wal_before)).1 (reopened cut_wal)
unfolding snapshot image_of export_state alter save replace_file fsync_parent_dir file_of payload_of
    put_keys put_records put_record double_to_bits put_le32 put_le64 calculate run step Crc32.table
    table_from shift_bits shift_bit call query probe fsync ftruncate seek write_exact write_loop
    set_epoch reset
snapshot-IsReopened = record {
  was = cut_wal;
  had = refl;
  now = _;
  has = refl;
  opened = refl;
  smooth = (tt, (tt, tt));
  bytes = refl;
  limit = refl;
}

snapshot-Resumes_example :
    ((snapshot in_order in_order directory (engine_of wal_before)).1.table
      ≡ (engine_of wal_before).table)
    × ((length snapshot-IsReopened.now.disk.bytes < header_size)
        ⊎ Resumes
            (loaded_image in_order
              (load (content (snapshot in_order in_order directory (engine_of wal_before)).2.snap)))
            (reopened cut_wal)
            (engine_of wal_before).table)
snapshot-Resumes_example =
    snapshot-Resumes in_order in_order in_order (some before) (engine_of wal_before)
      (reopened cut_wal) wal_before [] directory in_order-IsOrder in_order-IsOrder in_order-IsOrder
      before-IsSynced before-IsSavable current tt (omega arith) snapshot-IsReopened

-- Kernels that fail no call.
abbrev quiet_wal : Wal
quiet_wal = record wal_before { disk = record wal_before.disk { script = [] } }

abbrev quiet : Directory
quiet = record directory { script = [] }

snapshot_quiet_example : (snapshot in_order in_order quiet (engine_of quiet_wal)).0 ≡ done tt
snapshot_quiet_example =
    snapshot_quiet in_order in_order (engine_of quiet_wal) quiet_wal quiet refl refl refl refl

snapshot-Checkpointed_example :
    Checkpointed
      (file_of (image_of in_order in_order quiet_wal (engine_of quiet_wal).table))
      (engine_of quiet_wal)
      (snapshot in_order in_order quiet (engine_of quiet_wal)).1
      quiet_wal
      (snapshot in_order in_order quiet (engine_of quiet_wal)).2
snapshot-Checkpointed_example =
    snapshot-Checkpointed in_order in_order (engine_of quiet_wal) quiet_wal quiet refl refl
      (snapshot_quiet in_order in_order (engine_of quiet_wal) quiet_wal quiet refl refl refl refl)

-- The constructor on the snapshot from before and a journal cut off in its header.
construct-Starts_example :
    (out : Reply StorageEngine × Disk) × (construct in_order 2 1
        (some (file_of before))
        (record { bytes = 0x57 ∷ 0x53 ∷ []; synced = []; script = transfer 1 ∷ interrupted ∷ [] })
      ≡ some out)
    × Starts out.0
construct-Starts_example =
    construct-Starts in_order 2 1 (some (file_of before))
      (record { bytes = 0x57 ∷ 0x53 ∷ []; synced = []; script = transfer 1 ∷ interrupted ∷ [] })
