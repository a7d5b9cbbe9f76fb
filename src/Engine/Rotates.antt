-- ===== src/Engine/Rotates.antt =====
-- A crash, or any failure of the kernel, during `snapshot()`: what the next start makes of the two
-- files.
use lite_speed_store.Base.{
  ℕ, ◌^◌, ◌≤◌, ◌<◌, ◌≡◌, refl, sym, ap, ap₂, ◌∙◌, subst, arith, true, ◌⊎◌, inl, inr, Option, some,
  List, [], append-nil, All, length, ltb→lt, ltb→le, IsU64, ltb, Bool-cases,
}
use lite_speed_store.Posix.Laws.{IsSmooth}
use lite_speed_store.Wal.{Wal, header_size, set_epoch}
use lite_speed_store.Wal.Format.{Entry}
use lite_speed_store.Wal.Log.{replay_log}
use lite_speed_store.Wal.Halts.{journal, IsLeft}
use lite_speed_store.Wal.Rotated.{Left, reset-Left}
use lite_speed_store.Engine.{Table, StorageEngine, Reply, done, find}
use lite_speed_store.Engine.Recover.{Image, replay, loaded, epoch_of, recover}
use lite_speed_store.Engine.Listing.{IsOrder}
use lite_speed_store.Engine.Restart.{IsSynced, rebuilt}
use lite_speed_store.Engine.Crash.{IsReopened, same-Recovers}
use lite_speed_store.Engine.Snapshot.{image_of, snapshot, loaded_image}
use lite_speed_store.Engine.Rotation.{content, Ends, rotation, snapshot-Ends, moved, whole_header}
use lite_speed_store.Engine.Picture.{
  IsSavable, journal-Restarts, replay_log_skip, fresh_image, loaded_picture, loaded_fresh,
  same_table,
}
use lite_speed_store.Snapshot.{file_of}
use lite_speed_store.Snapshot.Load.{load}
use lite_speed_store.Snapshot.Save.{Stored, Directory, save}
use lite_speed_store.Snapshot.Replace.{kept, replaced, save-Replaced}

-- The restart of `f` succeeds, and each key has the history that it has in `table`.
pub record Resumes (image : Option Image) (f : StorageEngine) (table : Table) : Type 0 where
  pub engine : StorageEngine
  pub eq : recover image f ≡ some (done tt, engine)
  pub same : (key : List ℕ) → find key engine.table ≡ find key table

module _ (through stored listing : Table → Table) (o1 : IsOrder through) (o2 : IsOrder stored)
    (o3 : IsOrder listing) (e : StorageEngine) (w : Wal) (savable : IsSavable e)
    (epoch : IsU64 w.epoch) where
  -- A start with the new image on a journal of entries that are no newer.
  new-Resumes :
      (image : Option Image) (f : StorageEngine) (now : Wal) (es : List Entry)
      → image ≡ some (fresh_image through stored listing o1 o2 o3 e w savable epoch)
      → f.wal ≡ some now
      → f.max_history ≡ e.max_history
      → now.fd_open ≡ true
      → IsSmooth now.disk.script
      → All (λ (x : Entry). x.epoch ≤ w.epoch) es
      → IsLeft now.disk.bytes es []
      → Resumes image f e.table
  unfolding replay_log epoch_of loaded
  new-Resumes image f now es is has limit opened smooth old left =
      let r = journal-Restarts image f now es has opened smooth left in
      let rebuilt_lem =
        ap₂ (λ (n : ℕ) (i : Option Image). rebuilt n i es) limit is
        ∙ replay_log_skip (some (replay e.max_history)) w.epoch es _ old
        ∙ loaded_fresh through stored listing o1 o2 o3 e w savable epoch in
      record {
        engine = r.engine;
        eq = r.eq;
        same = λ key.
            ap (find key) (r.is ∙ rebuilt_lem)
            ∙ same_table through stored listing o1 o2 o3 e w savable epoch key;
      }

  module _ (image : Option Image) (es : List Entry) (d : Directory) (i : IsSynced image e w es)
      (current : image ≡ loaded_image listing (load (content d.snap))) (small : length es < 2 ^ 64)
      (old : All (λ (x : Entry). x.epoch ≤ w.epoch) es) where
    abbrev after : Directory
    after = (save (image_of through stored w e.table) d).1

    new_image :
        after.snap
          ≡ some (record {
            bytes = file_of (image_of through stored w e.table);
            synced = file_of (image_of through stored w e.table);
          })
        → loaded_image listing (load (content after.snap))
          ≡ some (fresh_image through stored listing o1 o2 o3 e w savable epoch)
    new_image file =
        ap (λ (s : Option Stored). loaded_image listing (load (content s))) file
        ∙ loaded_picture through stored listing o1 o2 o3 e w savable epoch

    -- The new file is in place, and the journal's file is one that `reset` may leave.
    replaced-Resumes :
        (f : StorageEngine) (now : Wal)
        → after.snap
          ≡ some (record {
            bytes = file_of (image_of through stored w e.table);
            synced = file_of (image_of through stored w e.table);
          })
        → f.wal ≡ some now
        → f.max_history ≡ e.max_history
        → now.fd_open ≡ true
        → IsSmooth now.disk.script
        → Left w now
        → (length now.disk.bytes < header_size)
          ⊎ Resumes (loaded_image listing (load (content after.snap))) f e.table
    replaced-Resumes f now file has limit opened smooth (inl bytes) =
        let is = new_image file in
        inr (
          new-Resumes _ f now es is has limit opened smooth old (record {
            log = i.writer.log;
            small = small;
            bytes_lem = bytes ∙ i.writer.bytes ∙ sym (append-nil (journal es));
          }))
    replaced-Resumes f now file has limit opened smooth (inr (n, bytes)) =
        let is = new_image file in
        elim (Bool-cases (ltb (length now.disk.bytes) header_size)) [
          | inl short ↦ inl (ltb→lt _ _ short)
          | inr long ↦ inr (
              new-Resumes _ f now [] is has limit opened smooth tt (record {
                log = tt;
                small = omega arith;
                bytes_lem =
                    bytes ∙ whole_header n (omega (arith, ltb→le _ _ long, ap length bytes));
              }))
        ]

    abbrev Reopens : Option Stored → StorageEngine → Wal → Type 0
    Reopens snap f now =
        (length now.disk.bytes < header_size)
        ⊎ Resumes (loaded_image listing (load (content snap))) f e.table

    -- The old file is in place, and the log as it was.
    kept-Resumes :
        (f : StorageEngine) (j : IsReopened e f) → after.snap ≡ d.snap → Reopens after.snap f j.now
    kept-Resumes f j keep =
        let is =
          current
          ∙ ap (λ (s : Option Stored). loaded_image listing (load (content s))) (sym keep) in
        let r = same-Recovers image e f w es i e.table ⊥ small (λ never. never) j in
        let table : r.table ≡ e.table = elim r.which [ inl h ↦ h | inr h ↦ h ] in
        inr (
          subst (λ (image : Option Image). Resumes image f e.table) is
            (record {
              engine = r.restarts.engine;
              eq = r.restarts.eq;
              same = λ key. ap (find key) (r.restarts.is ∙ table);
            }))

    ended-Resumes :
        (x : Reply (Unit {0}) × StorageEngine × Directory) (f : StorageEngine)
        → (ends : Ends x
            (save (image_of through stored w e.table) d).0
            e
            (rotation through stored e w d).1
            after)
        → (j : IsReopened x.1 f) → Reopens after.snap f j.now
    unfolding set_epoch
    ended-Resumes x f ends j =
        let limit = j.limit ∙ ends.limit in
        elim (save-Replaced (image_of through stored w e.table) d) [
          | kept r keep ↦ elim ends.which [
            | inl (_, same) ↦
                kept-Resumes f
                  (record {
                    was = j.was;
                    had = sym same ∙ j.had;
                    now = j.now;
                    has = j.has;
                    opened = j.opened;
                    smooth = j.smooth;
                    bytes = j.bytes;
                    limit = limit;
                  })
                  keep
            | inr (saved, _) ↦ cc
          ]
          | replaced file ↦
              replaced-Resumes f j.now file j.has limit j.opened j.smooth (elim ends.which [
                | inl (_, same) ↦ moved w j.now j.had (same ∙ i.has_wal) j.bytes (inl refl)
                | inr (_, rotated) ↦
                    moved w j.now j.had rotated j.bytes (reset-Left (set_epoch _ w))
              ])
        ]

-- While the engine's memory is what a restart rebuilds from the snapshot in place and the entries
-- of its journal (fewer than 2^64, none of a later epoch than the log's), with each key once, no
-- empty history, none above the limit, doubles of eight bytes, and sizes and timestamps that the
-- snapshot's fields hold, call `snapshot`, whatever the orders in which the maps are gone through
-- and whatever the kernel answers. Whether it returns or throws, the memory is as it was; and the
-- journal's file is shorter than its header, or an engine that is newly opened on it, with the
-- snapshot file that is left, on a smooth kernel (one that answers with transfers and interrupts
-- only), starts without an exception and has for each key the history from before.
pub snapshot-Resumes :
    (through stored listing : Table → Table) (image : Option Image) (e f : StorageEngine) (w : Wal)
    (es : List Entry) (d : Directory)
    → IsOrder through
    → IsOrder stored
    → IsOrder listing
    → IsSynced image e w es
    → IsSavable e
    → image ≡ loaded_image listing (load (content d.snap))
    → All (λ (x : Entry). x.epoch ≤ w.epoch) es
    → length es < 2 ^ 64
    → (j : IsReopened (snapshot through stored d e).1 f)
    → ((snapshot through stored d e).1.table ≡ e.table)
      × ((length j.now.disk.bytes < header_size)
          ⊎ Resumes
              (loaded_image listing (load (content (snapshot through stored d e).2.snap)))
              f
              e.table)
snapshot-Resumes through stored listing image e f w es d o1 o2 o3 i savable current old small j =
    let ends = snapshot-Ends through stored e w d i.has_wal in
    (
      ends.table,
      subst
          (λ (d' : Directory).
            (length j.now.disk.bytes < header_size)
            ⊎ Resumes (loaded_image listing (load (content d'.snap))) f e.table)
          (sym ends.directory)
          (ended-Resumes through stored listing o1 o2 o3 e w savable i.writer.epoch image es d i
            current small old (snapshot through stored d e) f ends j),
    )
