-- ===== src/Life/Saves.antt =====
-- A snapshot of a living store: the files that it leaves, and the engine if it returned.
use lite_speed_store.Base.{
  ℕ, suc, ◌^◌, ◌≤◌, ◌<◌, ◌≡◌, refl, sym, ap, ◌∙◌, subst, arith, Bool, false, inl, inr, some, List,
  [], append-nil, length, All,
}
use lite_speed_store.Wal.{Wal, header, header_size, set_epoch}
use lite_speed_store.Wal.Format.{Entry}
use lite_speed_store.Wal.Halts.{journal, IsLeft}
use lite_speed_store.Wal.Rotated.{Left, reset-Left}
use lite_speed_store.Engine.{Table, StorageEngine, Reply, done, find}
use lite_speed_store.Engine.Listing.{IsOrder}
use lite_speed_store.Engine.Spec.{Histories}
use lite_speed_store.Engine.Snapshot.{image_of, snapshot}
use lite_speed_store.Engine.Picture.{
  IsSavable, fresh_image, loaded_picture, loaded_fresh, same_table,
}
use lite_speed_store.Engine.Rotation.{content, Ends, rotation, snapshot-Ends, whole_header}
use lite_speed_store.Engine.Checkpoint.{snapshot-Checkpointed}
use lite_speed_store.Snapshot.{file_of}
use lite_speed_store.Snapshot.Save.{Directory, save}
use lite_speed_store.Snapshot.Replace.{kept, replaced, save-Replaced}
use lite_speed_store.Life.{left, log_bytes}
use lite_speed_store.Life.Means.{MeansAll, IsOld, Holds, Lives, read_image}
use lite_speed_store.Life.Fresh.{Means-fresh, All-older}
use lite_speed_store.Life.Restarts.{Spares, header-IsLeft}
use lite_speed_store.Endian.{put_le32, put_le64}
use lite_speed_store.Life.Ends.{lives-Holds, Holds-later}

-- The new snapshot is in place.
abbrev At : Directory → List ℕ → Type 0
At d file = d.snap ≡ some (record { bytes = file; synced = file })

at-content : (d : Directory) (file : List ℕ) → At d file → content d.snap ≡ some file
at-content d file h = ap content h

-- The files behind a snapshot; and the engine, if it returned.
pub record Saved (n limit : ℕ) (s : Histories) (x : Reply (Unit {0}) × StorageEngine × Directory)
    : Type 0 where
  pub spares : Spares (suc n) limit (content x.2.snap) (left x.1) s
  pub lives : x.0 ≡ done tt → Lives (suc n) x.1 (content x.2.snap) s
  pub limit_lem : x.1.max_history ≡ limit

module _ {n : ℕ} {e : StorageEngine} {s : Histories} (through stored : Table → Table)
    (o1 : IsOrder through) (o2 : IsOrder stored) (d : Directory) (l : Lives n e (content d.snap) s)
    (small : suc n < 2 ^ 64) (savable : IsSavable e) where
  abbrev file : List ℕ
  file = file_of (image_of through stored l.log e.table)

  fresh-MeansAll :
      (es : List Entry)
      → All (λ (x : Entry). x.epoch ≤ l.log.epoch) es
      → MeansAll e.max_history (some file) es (suc l.log.epoch) s
  fresh-MeansAll es old listing o3 =
      Means-fresh e.max_history l.log.epoch (read_image listing (some file))
        (fresh_image through stored listing o1 o2 o3 e l.log savable l.writer.epoch) es s
        (loaded_picture through stored listing o1 o2 o3 e l.log savable l.writer.epoch) refl
        (omega (arith, l.is_old.early, small)) old
        (λ key.
          ap (find key)
            (loaded_fresh through stored listing o1 o2 o3 e l.log savable l.writer.epoch)
          ∙ same_table through stored listing o1 o2 o3 e l.log savable l.writer.epoch key
          ∙ l.refines key)

  fresh-Holds :
      (bytes : List ℕ) (es : List Entry)
      → IsLeft bytes es []
      → All (λ (x : Entry). x.epoch ≤ l.log.epoch) es
      → length es ≤ n
      → Holds (suc n) e.max_history (some file) bytes s
  fresh-Holds bytes es is_left old few = record {
    entries = es;
    tail = [];
    is_left = is_left;
    ending = inl refl;
    epoch = suc l.log.epoch;
    is_old = record {
      few = omega (arith, few);
      early = omega (arith, l.is_old.early);
      old = All-older l.log.epoch es old;
    };
    means = fresh-MeansAll es old;
  }

  -- The journal is the old one, or a new one.
  moved-Holds :
      (v : Wal)
      → Left l.log v
      → header_size ≤ length v.disk.bytes
      → Holds (suc n) e.max_history (some file) v.disk.bytes s
  moved-Holds v (inl same) long =
      fresh-Holds v.disk.bytes l.entries
        (record {
          log = l.writer.log;
          small = omega (arith, l.is_old.few, small);
          bytes_lem = same ∙ l.writer.bytes ∙ sym (append-nil (journal l.entries));
        })
        l.is_old.old l.is_old.few
  moved-Holds v (inr (m, bytes)) long =
      fresh-Holds v.disk.bytes []
        (record {
          log = tt;
          small = omega arith;
          bytes_lem = bytes ∙ whole_header m (omega (arith, long, ap length bytes));
        })
        tt (omega arith)

  abbrev saving : Bool × Directory
  saving = save (image_of through stored l.log e.table) d

  abbrev out : Reply (Unit {0}) × StorageEngine × Directory
  out = snapshot through stored d e

  abbrev ends : Ends out saving.0 e (rotation through stored e l.log d).1 saving.1
  ends = snapshot-Ends through stored e l.log d l.has

  -- In each of the ways in which `snapshot` ends.
  placed-Holds :
      At saving.1 file
      → (h : header_size ≤ length (left out.1))
      → Holds (suc n) e.max_history (some file) (left out.1) s
  unfolding set_epoch
  placed-Holds at long = elim ends.which [
    | inl (_, same) ↦
        let is : left out.1 ≡ l.log.disk.bytes = ap log_bytes (same ∙ l.has) in
        subst (λ (b : List ℕ). Holds (suc n) e.max_history (some file) b s) (sym is)
          (moved-Holds l.log (inl refl) (subst (λ (b : List ℕ). header_size ≤ length b) is long))
    | inr (_, rotated) ↦
        let v = (rotation through stored e l.log d).1 in
        let is : left out.1 ≡ v.disk.bytes = ap log_bytes rotated in
        subst (λ (b : List ℕ). Holds (suc n) e.max_history (some file) b s) (sym is)
          (moved-Holds v (reset-Left (set_epoch _ l.log))
            (subst (λ (b : List ℕ). header_size ≤ length b) is long))
  ]

  kept-Holds :
      saving.0 ≡ false
      → saving.1.snap ≡ d.snap
      → Holds (suc n) e.max_history (content saving.1.snap) (left out.1) s
  kept-Holds unsaved same = elim ends.which [
    | inl (_, wal) ↦
        rw (same, ap log_bytes wal) (Holds-later (lives-Holds (omega (arith, small)) l))
    | inr (saved, _) ↦ cc
  ]

  snapshot-holds :
      header_size ≤ length (left out.1)
      → Holds (suc n) e.max_history (content out.2.snap) (left out.1) s
  snapshot-holds long =
      rw ends.directory (elim (save-Replaced (image_of through stored l.log e.table) d) [
        | kept unsaved same ↦ kept-Holds unsaved same
        | replaced at ↦ rw (at-content saving.1 file at) (placed-Holds at long)
      ])

  kept_some : saving.0 ≡ false → left out.1 ≡ [] → ⊥
  unfolding journal header put_le32 put_le64
  kept_some unsaved none_left = elim ends.which [
    | inl (_, same) ↦
        omega (arith, ap length (sym none_left ∙ ap log_bytes (same ∙ l.has) ∙ l.writer.bytes))
    | inr (saved, _) ↦ cc
  ]

  snapshot_empty : left out.1 ≡ [] → Holds (suc n) e.max_history (content out.2.snap) header s
  snapshot_empty none_left =
      rw ends.directory (elim (save-Replaced (image_of through stored l.log e.table) d) [
        | kept unsaved same ↦ absurd (kept_some unsaved none_left)
        | replaced at ↦
            rw (at-content saving.1 file at)
              (fresh-Holds header [] (header-IsLeft header refl) tt (omega arith))
      ])

  snapshot-lives : out.0 ≡ done tt → Lives (suc n) out.1 (content out.2.snap) s
  snapshot-lives h =
      let c = snapshot-Checkpointed through stored e l.log d l.has l.writer.opened h in
      let next : c.log.epoch ≡ suc l.log.epoch = omega (arith, c.next, l.is_old.early, small) in
      let old : IsOld (suc n) c.log.epoch [] = record {
        few = omega arith;
        early = omega (arith, next, l.is_old.early);
        old = tt;
      } in
      record {
        log = c.log;
        has = c.has_log;
        entries = [];
        writer = c.writer;
        is_old = old;
        means = rw (at-content out.2 file c.saved, next, ends.limit) (fresh-MeansAll [] tt);
        table = rw (c.table, ends.limit) savable.table;
        refines = rw (c.table, ends.limit) l.refines;
      }

  -- After a snapshot, whatever the kernel answered, the files stand for the histories from before,
  -- if the journal has its header or is empty; if it returned, so do the engine and its files.
  pub snapshot-Saved : Saved n e.max_history s out
  snapshot-Saved = record {
    spares = record { long = snapshot-holds; empty = snapshot_empty };
    lives = snapshot-lives;
    limit_lem = ends.limit;
  }
