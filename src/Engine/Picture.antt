-- ===== src/Engine/Picture.antt =====
-- The image that `snapshot()` saves, and what the next start makes of it.
use lite_speed_store.Base.{
  ℕ, ◌≤◌, ◌≡◌, refl, sym, ap, ◌∙◌, subst, true, Option, none, some, List, [], ◌∷◌, All, length,
  IsU32, IsU64, le→ltb,
}
use lite_speed_store.Posix.Laws.{IsSmooth}
use lite_speed_store.Wal.{Wal, set_epoch}
use lite_speed_store.Wal.Format.{Entry}
use lite_speed_store.Wal.Walk.{Visit, passes}
use lite_speed_store.Wal.Log.{replay_entry, replay_log}
use lite_speed_store.Wal.Halts.{IsLeft}
use lite_speed_store.Wal.Crash.{whole-Reads}
use lite_speed_store.Engine.{Record, Table, StorageEngine, find}
use lite_speed_store.Engine.Recover.{Image, replay, loaded, epoch_of, next_epoch}
use lite_speed_store.Engine.Distinct.{IsDistinct}
use lite_speed_store.Engine.Listing.{IsOrder, order-All, export_state_lem}
use lite_speed_store.Engine.Invariant.{IsTable}
use lite_speed_store.Engine.Saved.{IsKept, load_state_lem}
use lite_speed_store.Engine.Restart.{rebuilt}
use lite_speed_store.Engine.Crash.{Restarts, Reads-Restarts}
use lite_speed_store.Engine.Snapshot.{image_of, loaded_image}
use lite_speed_store.Snapshot.{file_of}
use lite_speed_store.Snapshot.Layout.{FitsKey}
use lite_speed_store.Snapshot.Load.{load}
use lite_speed_store.Snapshot.Round.{IsImage, load-file_of}

-- A start on a journal of whole entries.
pub journal-Restarts :
    (image : Option Image) (f : StorageEngine) (w : Wal) (es : List Entry)
    → f.wal ≡ some w
    → w.fd_open ≡ true
    → IsSmooth w.disk.script
    → IsLeft w.disk.bytes es []
    → Restarts image f (rebuilt f.max_history image es)
unfolding set_epoch
journal-Restarts image f w es has opened smooth left = Reads-Restarts image f w es has (
    whole-Reads (some (replay f.max_history)) (epoch_of image) (set_epoch (next_epoch image) w)
      (loaded f.max_history image) opened smooth es left)

-- Entries no newer than the snapshot are passed over.
skip_entry {ℓ} :
    {S : Type ℓ} (f : Option (Visit → S → S)) (epoch : ℕ) (x : Entry) (s : S)
    → x.epoch ≤ epoch
    → replay_entry f (some epoch) x s ≡ s
unfolding replay_entry passes
skip_entry none epoch x s old = refl
skip_entry (some g) epoch x s old = rw (le→ltb epoch x.epoch old)

pub replay_log_skip {ℓ} :
    {S : Type ℓ} (f : Option (Visit → S → S)) (epoch : ℕ) (es : List Entry) (s : S)
    → All (λ (x : Entry). x.epoch ≤ epoch) es
    → replay_log f (some epoch) es s ≡ s
unfolding replay_log
replay_log_skip f epoch [] s old = refl
replay_log_skip f epoch (x ∷ es) s old =
    ap (replay_log f (some epoch) es) (skip_entry f epoch x s old.0)
    ∙ replay_log_skip f epoch es s old.1

-- What a snapshot takes for granted of the memory: its invariant, and what the file's 32-bit and
-- 64-bit fields have room for.
pub record IsSavable (e : StorageEngine) : Type 0 where
  pub table : IsTable e.max_history e.table
  pub keys : All FitsKey e.table
  pub count : IsU32 (length e.table)

module _ (through stored listing : Table → Table) (o1 : IsOrder through) (o2 : IsOrder stored)
    (o3 : IsOrder listing) (e : StorageEngine) (w : Wal) (savable : IsSavable e)
    (epoch : IsU64 w.epoch) where
  abbrev picture : Image
  picture = image_of through stored w e.table

  abbrev once : IsDistinct (through e.table)
  once = o1.distinct e.table savable.table.distinct

  state_lem : picture.state ≡ stored (through e.table)
  unfolding image_of
  state_lem = ap stored (export_state_lem (through e.table) once)

  epoch_lem : picture.epoch ≡ w.epoch
  unfolding image_of
  epoch_lem = refl

  -- What holds of the histories in memory holds of those in the image.
  state-All {ℓ} :
      (P : List ℕ × List Record → Type ℓ) → All P e.table → All P (stored (through e.table))
  state-All P a =
      order-All P stored (through e.table) o2 once
        (order-All P through e.table o1 savable.table.distinct a)

  abbrev once2 : IsDistinct (stored (through e.table))
  once2 = o2.distinct (through e.table) once

  picture-IsImage : IsImage picture
  picture-IsImage = record {
    epoch = subst IsU64 (sym epoch_lem) epoch;
    count =
        subst IsU32
          (sym (
            ap length state_lem
            ∙ o2.count (through e.table) once
            ∙ o1.count e.table savable.table.distinct))
          savable.count;
    keys = subst (All FitsKey) (sym state_lem) (state-All FitsKey savable.keys);
    distinct = subst IsDistinct (sym state_lem) once2;
  }

  -- The image that the next start reads from the new file.
  abbrev pub fresh_image : Image
  fresh_image = record { epoch = w.epoch; state = listing (stored (through e.table)) }

  pub loaded_picture : loaded_image listing (load (some (file_of picture))) ≡ some fresh_image
  unfolding loaded_image image_of
  loaded_picture =
      ap (loaded_image listing) (load-file_of picture picture-IsImage)
      ∙ ap (λ (t : Table). some (record { epoch = w.epoch; state = listing t })) state_lem

  pub loaded_fresh : loaded e.max_history (some fresh_image) ≡ listing (stored (through e.table))
  unfolding loaded
  loaded_fresh =
      load_state_lem e.max_history (listing (stored (through e.table)))
        (o3.distinct (stored (through e.table)) once2)
        (order-All (IsKept e.max_history) listing (stored (through e.table)) o3 once2
          (state-All (IsKept e.max_history) savable.table.kept))

  -- It is the memory, in another order.
  pub same_table : (key : List ℕ) → find key (listing (stored (through e.table))) ≡ find key e.table
  same_table key =
      o3.same (stored (through e.table)) once2 key
      ∙ o2.same (through e.table) once key
      ∙ o1.same e.table savable.table.distinct key
