-- ===== src/Engine/Crash.antt =====
-- A restart after a call of the engine that was cut off, or that returned.
use lite_speed_store.Base.{
  ℕ, suc, ◌^◌, ◌<◌, ◌≡◌, refl, sym, ap, ◌∙◌, subst, arith, ◌⊎◌, inl, inr, some_inv, true, Bool,
  Option, some, List, [], ◌∷◌, ◌++◌, append-nil, length, IsU64,
}
use lite_speed_store.Posix.Laws.{IsSmooth}
use lite_speed_store.Wal.{
  Wal, RecordType, put, delete, set_epoch, RecoveryStatus, ok, truncated_tail, Outcome, returned,
  thrown,
}
use lite_speed_store.Wal.Format.{Entry}
use lite_speed_store.Wal.Append.{next_entry, append}
use lite_speed_store.Wal.Log.{replay_entry}
use lite_speed_store.Wal.Crash.{Reads, append-Survives, whole-Reads}
use lite_speed_store.Wal.Replay.{adopted}
use lite_speed_store.Engine.{
  Table, StorageEngine, Reply, done, failed, Failure, double_size, serialize, set, remove, logged,
  find, is_some, erase,
}
use lite_speed_store.Engine.Recover.{Image, replay, loaded, epoch_of, next_epoch, judge, recover}
use lite_speed_store.Engine.Answers.{with_record}
use lite_speed_store.Engine.Restart.{IsSynced, rebuilt, rebuilt-append, replay-put, replay-delete}
use lite_speed_store.Engine.Synced.{set-logged, remove-logged}

-- The engine `f` is newly opened, on a kernel that fails no call, on the file that `e` left.
pub record IsReopened (e f : StorageEngine) : Type 0 where
  pub was : Wal
  pub had : e.wal ≡ some was
  pub now : Wal
  pub has : f.wal ≡ some now
  pub opened : now.fd_open ≡ true
  pub smooth : IsSmooth now.disk.script
  pub bytes : now.disk.bytes ≡ was.disk.bytes
  pub limit : f.max_history ≡ e.max_history

-- The restart of `f` succeeds with the memory `table`.
pub record Restarts (image : Option Image) (f : StorageEngine) (table : Table) : Type 0 where
  pub engine : StorageEngine
  pub eq : recover image f ≡ some (done tt, engine)
  pub is : engine.table ≡ table

judge-genuine : {s : RecoveryStatus} → (s ≡ ok) ⊎ (s ≡ truncated_tail) → judge s ≡ done tt
unfolding judge
judge-genuine (inl h) = rw h
judge-genuine (inr h) = rw h

pub Reads-Restarts :
    (image : Option Image) (f : StorageEngine) (w : Wal) (es : List Entry)
    → f.wal ≡ some w
    → Reads
        (some (replay f.max_history))
        (epoch_of image)
        (set_epoch (next_epoch image) w)
        (loaded f.max_history image)
        es
    → Restarts image f (rebuilt f.max_history image es)
unfolding recover
Reads-Restarts image f w es has r = record {
  engine = record f {
    table = rebuilt f.max_history image es;
    wal = some (adopted es r.disk (set_epoch (next_epoch image) w));
    snapshot_epoch = epoch_of image;
  };
  eq = simp (recover, has, r.recovered, judge-genuine r.genuine);
  is = refl;
}

-- The restart of `f` succeeds, with the memory `old` or `new`, and with `new` if `Returned`.
pub record Recovers (image : Option Image) (f : StorageEngine) (old new : Table) (Returned : Type 0)
    : Type 0 where
  pub table : Table
  pub which : (table ≡ old) ⊎ (table ≡ new)
  pub committed : Returned → table ≡ new
  pub restarts : Restarts image f table

pub logged-wal {ℓ} :
    {A : Type ℓ} (e : StorageEngine) (p : Outcome (Unit {0}) × Wal) (answer : A) (t : Table)
    → ((logged e p answer t).1.wal ≡ some p.1)
      × ((logged e p answer t).1.max_history ≡ e.max_history)
unfolding logged
logged-wal e (returned u, w) answer t = (refl, refl)
logged-wal e (thrown x, w) answer t = (refl, refl)

failed-ne-done {ℓ} : {A : Type ℓ} {a : A} {x : Failure} → ◌≡◌ {A = Reply A} (failed x) (done a) → ⊥
failed-ne-done e = cc

logged-done {ℓ} :
    {A : Type ℓ} (e : StorageEngine) (p : Outcome (Unit {0}) × Wal) (answer a : A) (t : Table)
    → (logged e p answer t).0 ≡ done a
    → p.0 ≡ returned tt
unfolding logged
logged-done e (returned u, w) answer a t h = refl
logged-done e (thrown x, w) answer a t h = absurd (failed-ne-done h)

module _ (image : Option Image) (e f : StorageEngine) (w : Wal) (es : List Entry)
    (i : IsSynced image e w es) where
  rebuilt-limit : f.max_history ≡ e.max_history → rebuilt f.max_history image es ≡ e.table
  rebuilt-limit h = ap (λ (n : ℕ). rebuilt n image es) h ∙ sym i.table

  module _ {A : Type 0} (type : RecordType) (key value : List ℕ) (now : ℕ) (answer a : A)
      (t : Table) (small : suc (length es) < 2 ^ 64) (stamp : IsU64 now)
      (replayed : replay_entry
          (some (replay e.max_history))
          (epoch_of image)
          (next_entry w type key value now)
          e.table
        ≡ t) where
    logged-Recovers :
        IsReopened (logged e (append w type key value now) answer t).1 f
        → Recovers image f e.table t ((logged e (append w type key value now) answer t).0 ≡ done a)
    unfolding set_epoch
    logged-Recovers j =
        let p = append w type key value now in
        let (wal, limit) = logged-wal e p answer t in
        let was : p.1 ≡ j.was = some_inv (sym j.had ∙ wal) in
        let same = j.limit ∙ limit in
        let s =
          append-Survives (some (replay f.max_history)) (epoch_of image)
            (loaded f.max_history image) w (set_epoch (next_epoch image) j.now) es type key value
            now i.writer small stamp j.opened j.smooth
            (j.bytes ∙ ap (λ (v : Wal). v.disk.bytes) (sym was)) in
        let extended =
          ap (λ (n : ℕ). rebuilt n image (es ++ next_entry w type key value now ∷ [])) same
          ∙ sym (
              rebuilt-append e.max_history image es (next_entry w type key value now) e.table t
                i.table replayed) in
        record {
          table = rebuilt f.max_history image s.entries;
          which = elim s.which [
            | inl h ↦ inl (ap (rebuilt f.max_history image) h ∙ rebuilt-limit same)
            | inr h ↦ inr (ap (rebuilt f.max_history image) h ∙ extended)
          ];
          committed = λ h.
              ap (rebuilt f.max_history image) (s.committed (logged-done e p answer a t h))
              ∙ extended;
          restarts = Reads-Restarts image f j.now s.entries j.has s.reads;
        }

  -- A call that left the engine as it was.
  pub same-Recovers :
      (t : Table) (Returned : Type 0)
      → length es < 2 ^ 64
      → (Returned → ⊥)
      → IsReopened e f
      → Recovers image f e.table t Returned
  unfolding set_epoch
  same-Recovers t Returned small never j =
      let was : w ≡ j.was = some_inv (sym j.had ∙ i.has_wal) in
      record {
        table = rebuilt f.max_history image es;
        which = inl (rebuilt-limit j.limit);
        committed = λ r. absurd (never r);
        restarts = Reads-Restarts image f j.now es j.has (
            whole-Reads (some (replay f.max_history)) (epoch_of image)
              (set_epoch (next_epoch image) j.now) (loaded f.max_history image) j.opened j.smooth es
              (record {
                log = i.writer.log;
                small = small;
                bytes_lem =
                    j.bytes
                    ∙ ap (λ (v : Wal). v.disk.bytes) (sym was)
                    ∙ i.writer.bytes
                    ∙ sym (append-nil _);
              }));
      }

-- While the engine's memory is what a restart rebuilds from the snapshot and the entries of its
-- journal (fewer than 2^64 with the new one), call `set` with a duration of eight bytes and a
-- 64-bit time. Whatever the kernel answers during the call, and whether it returns or throws: a
-- new engine opened on the file that it leaves, with the same snapshot and limit and on a smooth
-- kernel (one that answers with transfers and interrupts only), starts without an exception, and
-- its memory is the one before the call or this with the new record. If `set` returned it is the
-- latter.
pub set-Recovers :
    (image : Option Image) (e f : StorageEngine) (w : Wal) (es : List Entry)
    (key value duration : List ℕ) (now : ℕ)
    → IsSynced image e w es
    → suc (length es) < 2 ^ 64
    → IsU64 now
    → length duration ≡ double_size
    → IsReopened (set e key value duration now).1 f
    → Recovers image f e.table
        (with_record e key value duration now)
        ((set e key value duration now).0 ≡ done tt)
set-Recovers image e f w es key value duration now i small stamp double j =
    let t = with_record e key value duration now in
    let on = λ (p : Reply (Unit {0}) × StorageEngine).
      IsReopened p.1 f → Recovers image f e.table t (p.0 ≡ done tt) in
    elim (set-logged e w key value duration now i.has_wal) [
      | inl (_, _, is) ↦
          subst on (sym is)
            (logged-Recovers image e f w es i put key (serialize duration value) now tt tt t small
              stamp (replay-put e.max_history _ w key value duration now e.table i.newer double))
            j
      | inr (x, is) ↦
          subst on (sym is)
            (same-Recovers image e f w es i t (◌≡◌ {A = Reply (Unit {0})} (failed x) (done tt))
              (omega (arith, small)) failed-ne-done)
            j
    ]

-- While the engine's memory is what a restart rebuilds from the snapshot and the entries of its
-- journal (fewer than 2^64 with the new one), call `remove` at a 64-bit time. Whatever the kernel
-- answers during the call, and whether it returns or throws: a new engine opened on the file that
-- it leaves, with the same snapshot and limit and on a smooth kernel (one that answers with
-- transfers and interrupts only), starts without an exception, and its memory is the one before
-- the call or this without the key. If `remove` returned it is the latter.
pub remove-Recovers :
    (image : Option Image) (e f : StorageEngine) (w : Wal) (es : List Entry) (key : List ℕ)
    (now : ℕ) (was_there : Bool)
    → IsSynced image e w es
    → suc (length es) < 2 ^ 64
    → IsU64 now
    → IsReopened (remove e key now).1 f
    → Recovers image f e.table (erase key e.table) ((remove e key now).0 ≡ done was_there)
remove-Recovers image e f w es key now was_there i small stamp j =
    subst
      (λ (p : Reply Bool × StorageEngine).
        IsReopened p.1 f → Recovers image f e.table (erase key e.table) (p.0 ≡ done was_there))
      (sym (remove-logged e w key now i.has_wal))
      (logged-Recovers image e f w es i delete key [] now (is_some (find key e.table)) was_there
        (erase key e.table) small stamp (replay-delete e.max_history _ w key now e.table i.newer))
      j
