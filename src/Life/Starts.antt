-- ===== src/Life/Starts.antt =====
-- A restart of the store, on a kernel that fails no call.
use lite_speed_store.Base.{
  ℕ, ◌^◌, ◌<◌, ◌≡◌, refl, sym, ap, ◌∙◌, subst, arith, true, inl, inr, Option, some, List, [], ◌++◌,
  append-nil,
}
use lite_speed_store.Posix.{Disk}
use lite_speed_store.Posix.Laws.{IsSmooth}
use lite_speed_store.Wal.{
  Wal, RecoveryStatus, ok, truncated_tail, set_epoch, Outcome, returned, open_wal,
}
use lite_speed_store.Wal.Format.{Entry}
use lite_speed_store.Wal.Recover
use lite_speed_store.Wal.Halts.{journal, IsLeft, bytes_split}
use lite_speed_store.Wal.Opens.{served, journal-IsOpened}
use lite_speed_store.Wal.Replay.{verdict, adopted, recover_whole, recover_torn}
use lite_speed_store.Engine.{Table, StorageEngine, Reply, done}
use lite_speed_store.Engine.Recover.{Image, replay, loaded, epoch_of, next_epoch, judge, recover}
use lite_speed_store.Engine.Restart.{rebuilt}
use lite_speed_store.Engine.Invariant.{recover-IsTable}
use lite_speed_store.Engine.Listing.{IsOrder}
use lite_speed_store.Engine.Spec.{Histories}
use lite_speed_store.Engine.Construct.{member_init, constructed, run_body, construct}
use lite_speed_store.Life.Means.{Means, read_image, Torn, Holds, Lives}

-- The recovery reads the entries and leaves the file as their journal.
record Cleans (image : Option Image) (limit : ℕ) (w : Wal) (es : List Entry) : Type 0 where
  status : RecoveryStatus
  fine : judge status ≡ done tt
  disk : Disk
  eq :
      Recover.recover (some (replay limit)) (epoch_of image) w (loaded limit image)
      ≡ some (verdict status es, rebuilt limit image es, adopted es disk w)
  clean : disk.bytes ≡ journal es

module _ (image : Option Image) (limit : ℕ) (w : Wal) (es : List Entry) (tail : List ℕ)
    (opened : w.fd_open ≡ true) (quiet : w.disk.script ≡ [])
    (is_left : IsLeft w.disk.bytes es tail) where
  smooth : IsSmooth w.disk.script
  smooth = subst IsSmooth (sym quiet) tt

  whole-Cleans : tail ≡ [] → Cleans image limit w es
  unfolding judge
  whole-Cleans e =
      let (script, eq) =
        recover_whole (some (replay limit)) (epoch_of image) w es (loaded limit image) opened smooth
          (subst (IsLeft w.disk.bytes es) e is_left) in
      record {
        status = ok;
        fine = refl;
        disk = record w.disk { script = script };
        eq = eq;
        clean =
            is_left.bytes_lem ∙ ap (λ (t : List ℕ). journal es ++ t) e ∙ append-nil (journal es);
      }

  Torn-Cleans : Torn es tail → Cleans image limit w es
  unfolding judge
  Torn-Cleans t =
      let (d, eq, _, cut) =
        recover_torn (some (replay limit)) (epoch_of image) w es (loaded limit image) t.entry t.cut
          opened smooth (subst (IsLeft w.disk.bytes es) t.tail_lem is_left) t.is_entry t.some_bytes
          t.short in
      record { status = truncated_tail; fine = refl; disk = d; eq = eq; clean = cut quiet }

-- The engine that the constructor makes.
abbrev restarted : Option Image → ℕ → Wal → List Entry → Disk → StorageEngine
restarted image limit w es d = record {
  table = rebuilt limit image es;
  wal = some (adopted es d (set_epoch (next_epoch image) w));
  snapshot_epoch = epoch_of image;
  max_history = limit;
}

member_recover :
    (image : Option Image) (limit : ℕ) (w : Wal) (es : List Entry)
    → (c : Cleans image limit (set_epoch (next_epoch image) w) es)
    → recover image (member_init limit w) ≡ some (done tt, restarted image limit w es c.disk)
unfolding recover
member_recover image limit w es c = rw (recover, c.eq, c.fine)

run_body_cleans :
    (image : Option Image) (limit : ℕ) (o : Outcome Wal × Disk) (w : Wal) (d : Disk)
    (es : List Entry) (disk : Disk)
    → o ≡ (returned w, d)
    → recover image (member_init limit w) ≡ some (done tt, restarted image limit w es disk)
    → run_body image limit o ≡ some (done (restarted image limit w es disk), disk)
unfolding run_body constructed
run_body_cleans image limit o w d es disk is c = rw (is, run_body, c)

set_epoch-fields :
    (epoch : ℕ) (w : Wal)
    → ((set_epoch epoch w).fd_open ≡ w.fd_open)
      × ((set_epoch epoch w).disk ≡ w.disk)
      × ((set_epoch epoch w).epoch ≡ epoch)
unfolding set_epoch
set_epoch-fields epoch w = (refl, refl, refl)

-- A restart from these files succeeds.
pub record Begins (n limit : ℕ) (file : Option (List ℕ)) (s : Histories)
    (o : Option (Reply StorageEngine × Disk)) : Type 0 where
  pub engine : StorageEngine
  pub disk : Disk
  pub eq : o ≡ some (done engine, disk)
  pub limit_lem : engine.max_history ≡ limit
  pub lives : Lives n engine file s

module _ (n limit : ℕ) (file : Option (List ℕ)) (bytes : List ℕ) (s : Histories)
    (listing : Table → Table) (sync_every_n : ℕ) (order : IsOrder listing)
    (h : Holds n limit file bytes s) (small : n < 2 ^ 64) where
  abbrev image : Option Image
  image = read_image listing file

  abbrev means : Means limit image h.entries h.epoch s
  means = h.means listing order

  holds-Cleans :
      (w : Wal)
      → w.fd_open ≡ true
      → w.disk.bytes ≡ bytes
      → w.disk.script ≡ []
      → Cleans image limit (set_epoch (next_epoch image) w) h.entries
  unfolding set_epoch
  holds-Cleans w opened same quiet =
      let is_left = subst (λ (b : List ℕ). IsLeft b h.entries h.tail) (sym same) h.is_left in
      elim h.ending [
        | inl e ↦
            whole-Cleans image limit (set_epoch (next_epoch image) w) h.entries h.tail opened quiet
              is_left e
        | inr t ↦
            Torn-Cleans image limit (set_epoch (next_epoch image) w) h.entries h.tail opened quiet
              is_left t
      ]

  restarted-Lives :
      (w : Wal) (c : Cleans image limit (set_epoch (next_epoch image) w) h.entries)
      → w.fd_open ≡ true
      → recover image (member_init limit w)
        ≡ some (done tt, restarted image limit w h.entries c.disk)
      → Lives n (restarted image limit w h.entries c.disk) file s
  unfolding set_epoch
  restarted-Lives w c opened eq = record {
    log = adopted h.entries c.disk (set_epoch (next_epoch image) w);
    has = refl;
    entries = h.entries;
    writer = record {
      opened = opened;
      log = h.is_left.log;
      seq = refl;
      head = refl;
      bytes = c.clean;
      epoch = omega (arith, means.next, h.is_old.early, small);
    };
    is_old = rw means.next h.is_old;
    means = rw means.next h.means;
    table = recover-IsTable image (member_init limit w) _ _ eq;
    refines = means.same;
  }

  -- On a log that the constructor opened on these bytes.
  pub opened-Begins :
      (start : Disk) (w : Wal) (d : Disk)
      → open_wal sync_every_n start ≡ (returned w, d)
      → w.fd_open ≡ true
      → w.disk.bytes ≡ bytes
      → w.disk.script ≡ []
      → Begins n limit file s (construct listing limit sync_every_n file start)
  unfolding construct
  opened-Begins start w d eq opened same quiet =
      let c = holds-Cleans w opened same quiet in
      let rec = member_recover image limit w h.entries c in
      record {
        engine = restarted image limit w h.entries c.disk;
        disk = c.disk;
        eq = run_body_cleans image limit (open_wal sync_every_n start) w d h.entries c.disk eq rec;
        limit_lem = refl;
        lives = restarted-Lives w c opened rec;
      }

  -- A restart from files that stand for histories succeeds, and the engine has them.
  pub construct-Begins :
      (synced : List ℕ)
      → Begins n limit file s (construct listing limit sync_every_n file (served bytes synced))
  construct-Begins synced =
      let o = journal-IsOpened sync_every_n bytes synced _ (bytes_split h.is_left) in
      opened-Begins (served bytes synced) o.wal o.disk o.eq o.opened o.same o.script
