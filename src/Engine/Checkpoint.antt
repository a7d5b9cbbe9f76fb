-- ===== src/Engine/Checkpoint.antt =====
-- What a `snapshot()` that returns has done, and that it returns where no call of the kernel fails.
use lite_speed_store.Base.{
  ℕ, ◌+◌, ◌≡◌, refl, arith, Bool, true, false, not, some, List, [], ◌∷◌, ◌++◌, ◌-◌, take, replicate,
  length, u64, if◌then◌else◌,
}
use lite_speed_store.Posix.{call, query, probe, fsync, ftruncate, seek, write_exact, write_loop}
use lite_speed_store.Wal.{Wal, header, set_epoch, write_header, reset}
use lite_speed_store.Wal.Writes.{IsWriter}
use lite_speed_store.Wal.Rotation.{reset-IsWriter}
use lite_speed_store.Engine.{
  Table, StorageEngine, Reply, done, failed, snapshot_failed, rotation_failed,
}
use lite_speed_store.Engine.Recover.{Image}
use lite_speed_store.Engine.Snapshot.{image_of, snapshot}
use lite_speed_store.Engine.Rotation.{rotation, snapshot_eq}
use lite_speed_store.Snapshot.{file_of}
use lite_speed_store.Snapshot.Save.{Directory, fsync_parent_dir, replace_file, save}
use lite_speed_store.Snapshot.Replace.{kept, replaced, save-Replaced}

-- The snapshot is on disk, and the journal starts anew with the next epoch.
pub record Checkpointed (file : List ℕ) (e e' : StorageEngine) (w : Wal) (d' : Directory)
    : Type 0 where
  pub table : e'.table ≡ e.table
  pub saved : d'.snap ≡ some (record { bytes = file; synced = file })
  pub epoch : e'.snapshot_epoch ≡ some w.epoch
  pub log : Wal
  pub has_log : e'.wal ≡ some log
  pub writer : IsWriter log []
  pub next : log.epoch ≡ u64 (w.epoch + 1)

reset-epoch : (w : Wal) → (reset w).1.epoch ≡ w.epoch
unfolding reset
reset-epoch w = ground arith

passed :
    (saved rotated : Bool) (e e1 : StorageEngine) (d1 : Directory)
    → (x : Reply (Unit {0}) × StorageEngine × Directory)
    → x ≡ (
        if not saved
        then (failed snapshot_failed, e, d1)
        else if not rotated
        then (failed rotation_failed, e1, d1)
        else (done tt, e1, d1))
    → x.0 ≡ done tt
    → (saved ≡ true) × (rotated ≡ true) × (x.1 ≡ e1) × (x.2 ≡ d1)
passed false rotated e e1 d1 x is h = cc
passed true false e e1 d1 x is h = cc
passed true true e e1 d1 x is h = rw is (refl, refl, refl, refl)

module _ (through stored : Table → Table) (e : StorageEngine) (w : Wal) (d : Directory)
    (has : e.wal ≡ some w) where
  abbrev saving : Bool × Directory
  saving = save (image_of through stored w e.table) d

  saved-file :
      saving.0 ≡ true
      → saving.1.snap
        ≡ some (record {
          bytes = file_of (image_of through stored w e.table);
          synced = file_of (image_of through stored w e.table);
        })
  saved-file saved = elim (save-Replaced (image_of through stored w e.table) d) [
    | kept unsaved same ↦ cc
    | replaced file ↦ file
  ]

-- A `snapshot` that returns, on an open log, whatever the kernel answered, left the memory as it
-- was, the new snapshot in full and synced at its path with the log's epoch as the engine's, and a
-- journal of no entries that the log continues with the next epoch.
pub snapshot-Checkpointed :
    (through stored : Table → Table) (e : StorageEngine) (w : Wal) (d : Directory)
    → e.wal ≡ some w
    → w.fd_open ≡ true
    → (snapshot through stored d e).0 ≡ done tt
    → Checkpointed
        (file_of (image_of through stored w e.table))
        e
        (snapshot through stored d e).1
        w
        (snapshot through stored d e).2
unfolding set_epoch image_of
snapshot-Checkpointed through stored e w d has opened h =
    let (saved, rotated, engine, directory) =
      passed (save (image_of through stored w e.table) d).0 (rotation through stored e w d).0 e _ _
        (snapshot through stored d e) (snapshot_eq through stored e w d has) h in
    rw (engine, directory)
      (record {
        table = refl;
        saved = saved-file through stored e w d has saved;
        epoch = refl;
        log = (rotation through stored e w d).1;
        has_log = refl;
        writer = reset-IsWriter (set_epoch (u64 (w.epoch + 1)) w) opened (omega arith) rotated;
        next = reset-epoch (set_epoch (u64 (w.epoch + 1)) w);
      })

write_loop_done :
    (file left : List ℕ)
    → ((write_loop [] file left).done ≡ true) × ((write_loop [] file left).script ≡ [])
unfolding write_loop
write_loop_done file [] = (refl, refl)
write_loop_done file (b ∷ left) = (refl, refl)

save_quiet : (image : Image) (d : Directory) → d.script ≡ [] → (save image d).0 ≡ true
unfolding save replace_file fsync_parent_dir write_exact fsync probe call
save_quiet image d q =
    let (written, quiet) = write_loop_done [] (file_of image) in rw (q, call, written, quiet)

reset_quiet : (w : Wal) → w.fd_open ≡ true → w.disk.script ≡ [] → (reset w).0 ≡ true
unfolding reset write_header fsync ftruncate seek write_exact call query
reset_quiet w opened q =
    let cut = take 0 w.disk.bytes ++ replicate (0 - length w.disk.bytes) 0 in
    let (written, quiet) = write_loop_done cut header in rw (opened, q, call, query, written, quiet)

-- `snapshot` of an engine with an open log returns where the kernel fails no call, whatever the
-- memory.
pub snapshot_quiet :
    (through stored : Table → Table) (e : StorageEngine) (w : Wal) (d : Directory)
    → e.wal ≡ some w
    → w.fd_open ≡ true
    → d.script ≡ []
    → w.disk.script ≡ []
    → (snapshot through stored d e).0 ≡ done tt
unfolding set_epoch
snapshot_quiet through stored e w d has opened q1 q2 =
    let epoch = u64 ((image_of through stored w e.table).epoch + 1) in
    rw (
      snapshot_eq through stored e w d has,
      save_quiet (image_of through stored w e.table) d q1,
      reset_quiet (set_epoch epoch w) opened q2,
    )
