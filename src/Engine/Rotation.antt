-- ===== src/Engine/Rotation.antt =====
-- The steps of `snapshot()`: the two ways in which it ends, and the journal's file behind them.
use lite_speed_store.Base.{
  ℕ, ◌+◌, ◌≤◌, ◌≡◌, refl, sym, ap, ◌∙◌, subst, arith, Bool, true, false, ◌⊎◌, inl, inr, some_inv,
  Option, none, some, List, [], ◌++◌, length, take, take_all, length-take, u64, not, if◌then◌else◌,
}
use lite_speed_store.Endian.{put_le32, put_le64}
use lite_speed_store.Wal.{Wal, header, header_size, set_epoch, reset}
use lite_speed_store.Wal.Log.{encode_log}
use lite_speed_store.Wal.Halts.{journal}
use lite_speed_store.Wal.Rotated.{Left}
use lite_speed_store.Engine.{
  Table, StorageEngine, Reply, done, failed, snapshot_failed, rotation_failed,
}
use lite_speed_store.Engine.Snapshot.{image_of, snapshot}
use lite_speed_store.Snapshot.Save.{Stored, Directory, save}

-- What `load` reads at the snapshot's path.
abbrev pub content : Option Stored → Option (List ℕ)
content none = none
content (some file) = some file.bytes

-- The two ways in which `snapshot` of an engine with a log ends.
pub record Ends (x : Reply (Unit {0}) × StorageEngine × Directory) (saved : Bool)
    (e : StorageEngine) (w1 : Wal) (d1 : Directory) : Type 0 where
  pub table : x.1.table ≡ e.table
  pub limit : x.1.max_history ≡ e.max_history
  pub directory : x.2 ≡ d1
  pub which : ((saved ≡ false) × (x.1.wal ≡ e.wal)) ⊎ ((saved ≡ true) × (x.1.wal ≡ some w1))

snapshot_tests :
    (saved rotated : Bool) (e : StorageEngine) (w1 : Wal) (epoch : ℕ) (d1 : Directory)
    → Ends
        (if not saved
          then (failed snapshot_failed, e, d1)
          else if not rotated
          then (failed rotation_failed, record e { wal = some w1; snapshot_epoch = some epoch }, d1)
          else (done tt, record e { wal = some w1; snapshot_epoch = some epoch }, d1))
        saved
        e
        w1
        d1
snapshot_tests false rotated e w1 epoch d1 = record {
  table = refl;
  limit = refl;
  directory = refl;
  which = inl (refl, refl);
}
snapshot_tests true false e w1 epoch d1 = record {
  table = refl;
  limit = refl;
  directory = refl;
  which = inr (refl, refl);
}
snapshot_tests true true e w1 epoch d1 = record {
  table = refl;
  limit = refl;
  directory = refl;
  which = inr (refl, refl);
}

module _ (through stored : Table → Table) (e : StorageEngine) (w : Wal) (d : Directory) where
  -- The log with its new epoch, rotated.
  abbrev pub rotation : Bool × Wal
  rotation = reset (set_epoch (u64 ((image_of through stored w e.table).epoch + 1)) w)

  pub snapshot_eq :
      e.wal ≡ some w
      → snapshot through stored d e ≡ (
          let image = image_of through stored w e.table in
          let (saved, d1) = save image d in
          let e1 = record e { wal = some rotation.1; snapshot_epoch = some image.epoch } in
          if not saved
          then (failed snapshot_failed, e, d1)
          else if not rotation.0
          then (failed rotation_failed, e1, d1)
          else (done tt, e1, d1))
  unfolding snapshot
  snapshot_eq has = simp (snapshot, has)

  pub snapshot-Ends :
      e.wal ≡ some w
      → Ends
          (snapshot through stored d e)
          (save (image_of through stored w e.table) d).0
          e
          rotation.1
          (save (image_of through stored w e.table) d).1
  snapshot-Ends has =
      let (saved, d1) = save (image_of through stored w e.table) d in
      subst (λ (x : Reply (Unit {0}) × StorageEngine × Directory). Ends x saved e rotation.1 d1)
        (sym (snapshot_eq has))
        (snapshot_tests saved rotation.0 e rotation.1 (image_of through stored w e.table).epoch d1)

pub moved :
    {h : Option Wal} {was v : Wal} (w now : Wal)
    → h ≡ some was
    → h ≡ some v
    → now.disk.bytes ≡ was.disk.bytes
    → Left w v
    → Left w now
moved w now was_lem v_lem bytes left =
    let is = some_inv (sym v_lem ∙ was_lem) in
    let same = bytes ∙ ap (λ (u : Wal). u.disk.bytes) is in
    elim left [ inl e ↦ inl (same ∙ e) | inr (n, e) ↦ inr (n, same ∙ e) ]

pub whole_header : (n : ℕ) → header_size ≤ length (take n header) → take n header ≡ journal [] ++ []
unfolding journal encode_log header put_le32 put_le64
whole_header n long = take_all n header (omega (arith, long, length-take n header))
