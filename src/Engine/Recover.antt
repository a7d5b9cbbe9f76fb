-- ===== src/Engine/Recover.antt =====
-- `StorageEngine::recover`, which the constructor runs: the snapshot, then the journal.
use lite_speed_store.Base.{ℕ, ◌+◌, Option, none, some, List, [], ◌∷◌, u64, ◌==◌, if◌then◌else◌}
use lite_speed_store.Wal.{RecoveryStatus, ok, truncated_tail, malformed, tampered, set_epoch}
use lite_speed_store.Wal.Format.{type_byte}
use lite_speed_store.Wal.{put, delete}
use lite_speed_store.Wal.Walk.{Visit}
use lite_speed_store.Wal.Recover
use lite_speed_store.Engine.{
  Record, Table, StorageEngine, tampering, foreign_file, Reply, done, failed, deserialize,
  append_capped, erase,
}

-- SnapshotImage. `state` is in the order in which the map is gone through.
pub record Image : Type 0 where
  pub epoch : ℕ
  pub state : Table

-- The loop over the records of one key.
unfoldable pub load_history : ℕ → List ℕ → List Record → Table → Table
unfolding append_capped
load_history limit key [] table = table
load_history limit key (r ∷ rest) table =
    load_history limit key rest (append_capped limit key r table)

-- The loop over the keys of an image.
unfoldable pub load_state : ℕ → Table → Table → Table
unfolding load_history
load_state limit [] table = table
load_state limit ((key, history) ∷ rest) table =
    load_state limit rest (load_history limit key history table)

-- The lambda that `recover` gives to the log. A type that is neither changes nothing.
unfoldable pub replay : ℕ → Visit → Table → Table
unfolding deserialize append_capped erase type_byte
replay limit v table =
    let (duration, value) = deserialize v.value in
    let r : Record = record { value = value; duration = duration; timestamp = v.timestamp } in
    let added = append_capped limit v.key r table in
    let erased = erase v.key table in
    if v.type == type_byte put then added else if v.type == type_byte delete then erased else table

-- What the recovery's status makes of the call.
unfoldable pub judge : RecoveryStatus → Reply (Unit {0})
judge ok = done tt
judge truncated_tail = done tt
judge malformed = failed foreign_file
judge tampered = failed tampering

-- The memory after the snapshot, and the epoch of the snapshot.
unfoldable pub loaded : ℕ → Option Image → Table
unfolding load_state
loaded limit none = []
loaded limit (some image) = load_state limit image.state []

unfoldable pub epoch_of : Option Image → Option ℕ
epoch_of none = none
epoch_of (some image) = some image.epoch

unfoldable pub next_epoch : Option Image → ℕ
next_epoch none = 0
next_epoch (some image) = u64 (image.epoch + 1)

-- `image` is what Snapshot::load gave. `none` stands for no value of the program, also for the
-- null log of an engine in memory.
unfoldable pub recover : Option Image → StorageEngine → Option (Reply (Unit {0}) × StorageEngine)
unfolding judge loaded epoch_of next_epoch set_epoch
recover image e = elim e.wal [
  | none ↦ none
  | some w ↦
      elim (Recover.recover (some (replay e.max_history)) (epoch_of image)
        (set_epoch (next_epoch image) w) (loaded e.max_history image)) [
          | none ↦ none
          | some (r, table, w') ↦ some (
            judge r.status,
            record e { table = table; wal = some w'; snapshot_epoch = epoch_of image },
          )
        ]
]
