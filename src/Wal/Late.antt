-- ===== src/Wal/Late.antt =====
-- The appends between a restart and the first fsync after it: what the synced bytes are meanwhile.
use lite_speed_store.Base.{
  ℕ, ◌+◌, ◌≤◌, ◌<◌, ◌≡◌, refl, sym, ◌∙◌, subst, arith, Option, some, List, [], ◌++◌, length-append,
  ◌∷◌, length, append-nil,
}
use lite_speed_store.Posix.{Disk, write_exact}
use lite_speed_store.Posix.Laws.{IsSmooth}
use lite_speed_store.Wal.{Wal, RecordType, returned, ok, open_wal}
use lite_speed_store.Wal.Format.{Entry}
use lite_speed_store.Wal.Append.{append, commit}
use lite_speed_store.Wal.Walk.{Visit}
use lite_speed_store.Wal.Recover.{recover}
use lite_speed_store.Wal.Log.{replay_log}
use lite_speed_store.Wal.Halts.{journal, IsLeft, bytes_split}
use lite_speed_store.Wal.Opens.{served, journal-IsOpened}
use lite_speed_store.Wal.Crash.{Reads, whole-Reads}
use lite_speed_store.Wal.PowerLoss.{IsLog-front}
use lite_speed_store.Wal.Replay.{verdict, adopted, recover_whole}

-- The arguments of an `append`.
pub record Update : Type 0 where
  pub type : RecordType
  pub key : List ℕ
  pub value : List ℕ
  pub timestamp : ℕ

-- The object after the appends, in their order.
abbrev pub append_all : List Update → Wal → Wal
append_all [] w = w
append_all (u ∷ us) w = append_all us (append w u.type u.key u.value u.timestamp).1

-- An `append` that is not yet one to sync.
append-Late :
    (w : Wal) (type : RecordType) (key value : List ℕ) (now : ℕ)
    → w.pending_writes + 1 < w.sync_every_n
    → ((append w type key value now).1.disk.synced ≡ w.disk.synced)
      × ((append w type key value now).1.pending_writes ≤ w.pending_writes + 1)
      × ((append w type key value now).1.sync_every_n ≡ w.sync_every_n)
unfolding append commit write_exact
append-Late w type key value now h = ground arith

append_all-Late :
    (us : List Update) (w : Wal)
    → w.pending_writes + length us < w.sync_every_n
    → (append_all us w).disk.synced ≡ w.disk.synced
append_all-Late [] w h = refl
append_all-Late (u ∷ us) w h =
    let (synced, pending, every) =
      append-Late w u.type u.key u.value u.timestamp (omega (arith, h)) in
    append_all-Late us (append w u.type u.key u.value u.timestamp).1
      (omega (arith, h, pending, every))
    ∙ synced

-- A start on the file, its `recover`, and what the next one reads after the appends and a power
-- loss.
pub record IsLate {ℓ} {S : Type ℓ} (visitor : Option (Visit → S → S)) (min_epoch : Option ℕ) (s : S)
    (sync_every_n : ℕ) (bytes synced : List ℕ) (front es : List Entry) (us : List Update)
    : Type ℓ where
  pub wal : Wal
  pub disk : Disk
  pub opened : open_wal sync_every_n (served bytes synced) ≡ (returned wal, disk)
  pub after : Wal
  pub recovered :
      recover visitor min_epoch wal s
      ≡ some (verdict ok es, replay_log visitor min_epoch es s, after)
  pub wal2 : Wal
  pub disk2 : Disk
  pub reopened :
      open_wal sync_every_n
        (served (append_all us after).disk.synced (append_all us after).disk.synced)
      ≡ (returned wal2, disk2)
  pub reads : Reads visitor min_epoch wal2 s front

-- Take the file that is the journal of fewer than 2^64 entries, some first ones of which are
-- synced. On a kernel that fails no call the constructor opens it and `recover` reads all the
-- entries; after fewer than `sync_every_n` appends, whatever they are, let the power be lost, so
-- that the file has the bytes of the last fsync: the next start, on such a kernel, opens the file,
-- and `recover` and `verify` read the entries that were synced before the restart and no other,
-- however many of the journal's were not.
pub restart-IsLate {ℓ} :
    {S : Type ℓ} (visitor : Option (Visit → S → S)) (min_epoch : Option ℕ) (s : S)
    (sync_every_n : ℕ) (bytes : List ℕ) (front back : List Entry) (us : List Update)
    → IsLeft bytes (front ++ back) []
    → length us < sync_every_n
    → IsLate visitor min_epoch s sync_every_n bytes (journal front) front (front ++ back) us
restart-IsLate visitor min_epoch s sync_every_n bytes front back us left few =
    let o = journal-IsOpened sync_every_n bytes (journal front) _ (bytes_split left) in
    let r =
      recover_whole visitor min_epoch o.wal (front ++ back) s o.opened
        (subst IsSmooth (sym o.script) tt)
        (subst (λ (b : List ℕ). IsLeft b (front ++ back) []) (sym o.same) left) in
    let after = adopted (front ++ back) (record o.wal.disk { script = r.0 }) o.wal in
    let kept : (append_all us after).disk.synced ≡ journal front =
      append_all-Late us after (omega (arith, few, o.pending, o.every)) ∙ o.unsynced in
    let left2 : IsLeft (append_all us after).disk.synced front [] = record {
      log = IsLog-front 0 front back left.log;
      small = omega (arith, left.small, length-append front back);
      bytes_lem = kept ∙ sym (append-nil (journal front));
    } in
    let o2 =
      journal-IsOpened sync_every_n (append_all us after).disk.synced
        (append_all us after).disk.synced _ (bytes_split left2) in
    record {
      wal = o.wal;
      disk = o.disk;
      opened = o.eq;
      after = after;
      recovered = r.1;
      wal2 = o2.wal;
      disk2 = o2.disk;
      reopened = o2.eq;
      reads =
          whole-Reads visitor min_epoch o2.wal s o2.opened (subst IsSmooth (sym o2.script) tt) front
            (subst (λ (b : List ℕ). IsLeft b front []) (sym o2.same) left2);
    }
