-- ===== src/Engine/Snapshot.antt =====
-- `StorageEngine::snapshot`, and the path of the snapshot. The order in which a std::unordered_map
-- is gone through is a parameter.
use lite_speed_store.Base.{
  equal_bytes, ℕ, ◌+◌, not, Option, none, some, List, [], ◌∷◌, ◌++◌, map, u64, if◌then◌else◌,
}
use lite_speed_store.Wal.{Wal, set_epoch, reset}
use lite_speed_store.Engine.{
  Record, Table, StorageEngine, Reply, done, failed, no_log, snapshot_failed, rotation_failed,
  alter,
}
use lite_speed_store.Engine.Recover.{Image}
use lite_speed_store.Snapshot.Save.{Directory, save}
use lite_speed_store.Snapshot.Load.{Parse, parsed, refused, past_end}

-- SnapshotRecord{record.value, record.duration, record.timestamp}
abbrev pub copy : Record → Record
copy r = record { value = r.value; duration = r.duration; timestamp = r.timestamp }

-- The loop of exportSnapshotState; `state` is what it built so far.
unfoldable pub export_state : Table → Table → Table
export_state state [] = state
export_state state ((key, history) ∷ rest) =
    export_state (alter key (λ (h : List Record). h ++ map copy history) state) rest

-- `through` is the order of the engine's map, `stored` that of the image's.
module _ (through stored : Table → Table) where
  unfoldable pub image_of : Wal → Table → Image
  unfolding export_state
  image_of w table = record { epoch = w.epoch; state = stored (export_state [] (through table)) }

  unfoldable pub snapshot : Directory → StorageEngine → Reply (Unit {0}) × StorageEngine × Directory
  unfolding image_of save set_epoch reset
  snapshot d e = elim e.wal [
    | none ↦ (failed no_log, e, d)
    | some w ↦
        let image = image_of w e.table in
        let (saved, d1) = save image d in
        let (rotated, w1) = reset (set_epoch (u64 (image.epoch + 1)) w) in
        let e1 = record e { wal = some w1; snapshot_epoch = some image.epoch } in
        if not saved
        then (failed snapshot_failed, e, d1)
        else if not rotated
        then (failed rotation_failed, e1, d1)
        else (done tt, e1, d1)
  ]

-- What `Snapshot::load` gives `recover`, its map in the order `through`.
unfoldable pub loaded_image : (Table → Table) → Parse Image → Option Image
loaded_image through (parsed image) = some (record image { state = through image.state })
loaded_image through refused = none
loaded_image through past_end = none

-- makeSnapshotPath, over what std::filesystem::path says of a path: its extension, and the path with
-- another one.
module _ (extension : List ℕ → List ℕ) (replace_extension : List ℕ → List ℕ → List ℕ) where
  -- ".wal" and ".snap"
  abbrev dot_wal : List ℕ
  dot_wal = 46 ∷ 119 ∷ 97 ∷ 108 ∷ []

  abbrev dot_snap : List ℕ
  dot_snap = 46 ∷ 115 ∷ 110 ∷ 97 ∷ 112 ∷ []

  unfoldable pub make_snapshot_path : List ℕ → List ℕ
  make_snapshot_path wal_path =
      if equal_bytes (extension wal_path) dot_wal
      then replace_extension wal_path dot_snap
      else wal_path ++ dot_snap
