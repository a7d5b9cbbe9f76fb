-- ===== src/Engine/Restart.antt =====
-- The engine and its journal: what a restart rebuilds, after a call that returned or was cut off.
use lite_speed_store.Base.{
  ℕ, suc, ◌^◌, ◌<◌, ◌≡◌, refl, sym, ap, ap₂, ◌∙◌, subst, arith, true, Option, some, List, [], ◌∷◌,
  ◌++◌, length, length-append, take-append_left, drop-append_left, le→ltb, IsU64,
}
use lite_speed_store.Wal.{Wal, RecordType, put, delete, Outcome, returned, thrown}
use lite_speed_store.Wal.Format.{Entry, type_byte}
use lite_speed_store.Wal.Append.{next_entry, append, commit}
use lite_speed_store.Wal.Walk.{Visit, passes}
use lite_speed_store.Wal.Log.{replay_entry, replay_log}
use lite_speed_store.Wal.Writes.{IsWriter}
use lite_speed_store.Wal.Durable.{append_returned}
use lite_speed_store.Engine.{
  Table, StorageEngine, Reply, done, failed, Failure, double_size, serialize, deserialize,
  append_capped, erase, logged,
}
use lite_speed_store.Engine.Recover.{Image, replay, loaded, epoch_of}
use lite_speed_store.Engine.Answers.{new_record}

-- `deserialize` gives back the duration and the value that `serialize` made a blob of, where the
-- duration has eight bytes.
pub deserialize-serialize :
    (duration value : List ℕ)
    → length duration ≡ double_size
    → deserialize (serialize duration value) ≡ (duration, value)
unfolding deserialize serialize
deserialize-serialize duration value h =
    rw
      (le→ltb (length (duration ++ value)) double_size
        (omega (arith, h, length-append duration value)))
      (rw⁻¹ h (
        ap₂ (λ (a b : List ℕ). (a, b)) (take-append_left duration value)
          (drop-append_left duration value)))

replay_log-append {ℓ} :
    {S : Type ℓ} (visitor : Option (Visit → S → S)) (min_epoch : Option ℕ) (es : List Entry)
    (e : Entry) (s : S)
    → replay_log visitor min_epoch (es ++ e ∷ []) s
      ≡ replay_entry visitor min_epoch e (replay_log visitor min_epoch es s)
unfolding replay_log
replay_log-append visitor min_epoch [] e s = refl
replay_log-append visitor min_epoch (x ∷ es) e s =
    replay_log-append visitor min_epoch es e (replay_entry visitor min_epoch x s)

-- The replay of the entry that `set` writes does what `set` does to the memory; so for `remove`.
pub replay-put :
    (limit : ℕ) (min_epoch : Option ℕ) (w : Wal) (key value duration : List ℕ) (now : ℕ) (t : Table)
    → passes min_epoch w.epoch ≡ true
    → length duration ≡ double_size
    → replay_entry
        (some (replay limit))
        min_epoch
        (next_entry w put key (serialize duration value) now)
        t
      ≡ append_capped limit key (new_record value duration now) t
unfolding replay_entry replay next_entry type_byte
replay-put limit min_epoch w key value duration now t newer h =
    rw (newer, deserialize-serialize duration value h)

pub replay-delete :
    (limit : ℕ) (min_epoch : Option ℕ) (w : Wal) (key : List ℕ) (now : ℕ) (t : Table)
    → passes min_epoch w.epoch ≡ true
    → replay_entry (some (replay limit)) min_epoch (next_entry w delete key [] now) t ≡ erase key t
unfolding replay_entry replay next_entry type_byte
replay-delete limit min_epoch w key now t newer = rw newer

pub append-epoch :
    (w : Wal) (type : RecordType) (key value : List ℕ) (timestamp : ℕ)
    → (append w type key value timestamp).1.epoch ≡ w.epoch
unfolding append commit
append-epoch w type key value timestamp = ground arith

-- What a restart makes of the entries `es` behind the snapshot `image`.
abbrev pub rebuilt : ℕ → Option Image → List Entry → Table
rebuilt limit image es = replay_log (some (replay limit)) (epoch_of image) es (loaded limit image)

-- The engine's memory is what a restart rebuilds from the snapshot and from the entries in its
-- journal.
pub record IsSynced (image : Option Image) (e : StorageEngine) (w : Wal) (es : List Entry)
    : Type 0 where
  pub has_wal : e.wal ≡ some w
  pub writer : IsWriter w es
  pub epoch : e.snapshot_epoch ≡ epoch_of image
  pub newer : passes (epoch_of image) w.epoch ≡ true
  pub table : e.table ≡ rebuilt e.max_history image es

pub rebuilt-append :
    (limit : ℕ) (image : Option Image) (es : List Entry) (new : Entry) (t t' : Table)
    → t ≡ rebuilt limit image es
    → replay_entry (some (replay limit)) (epoch_of image) new t ≡ t'
    → t' ≡ rebuilt limit image (es ++ new ∷ [])
rebuilt-append limit image es new t t' h r =
    sym r
    ∙ ap (replay_entry (some (replay limit)) (epoch_of image) new) h
    ∙ sym (replay_log-append (some (replay limit)) (epoch_of image) es new (loaded limit image))

failed-ne-done {ℓ} : {A : Type ℓ} {a : A} {x : Failure} → ◌≡◌ {A = Reply A} (failed x) (done a) → ⊥
failed-ne-done e = cc

logged-returned {ℓ} :
    {A : Type ℓ} (e : StorageEngine) (p : Outcome (Unit {0}) × Wal) (answer a : A) (t : Table)
    → (logged e p answer t).0 ≡ done a
    → (p.0 ≡ returned tt) × ((logged e p answer t).1 ≡ record e { wal = some p.1; table = t })
unfolding logged
logged-returned e (returned u, w) answer a t h = (refl, refl)
logged-returned e (thrown x, w) answer a t h = absurd (failed-ne-done h)

-- A logged call that returns keeps the memory and the journal together.
pub logged-IsSynced {ℓ} :
    {A : Type ℓ} (image : Option Image) (e : StorageEngine) (w : Wal) (es : List Entry)
    (type : RecordType) (key value : List ℕ) (now : ℕ) (answer a : A) (t : Table)
    → IsSynced image e w es
    → suc (length es) < 2 ^ 64
    → IsU64 now
    → replay_entry
        (some (replay e.max_history))
        (epoch_of image)
        (next_entry w type key value now)
        e.table
      ≡ t
    → (logged e (append w type key value now) answer t).0 ≡ done a
    → IsSynced image
        (logged e (append w type key value now) answer t).1
        (append w type key value now).1
        (es ++ next_entry w type key value now ∷ [])
logged-IsSynced image e w es type key value now answer a t i small stamp replayed h =
    let (returns, is) = logged-returned e (append w type key value now) answer a t h in
    subst
      (λ (e' : StorageEngine).
        IsSynced image e' (append w type key value now).1
          (es ++ next_entry w type key value now ∷ []))
      (sym is)
      (record {
        has_wal = refl;
        writer = append_returned w type key value now es i.writer small stamp returns;
        epoch = i.epoch;
        newer = rw (append-epoch w type key value now) i.newer;
        table =
            rebuilt-append e.max_history image es (next_entry w type key value now) e.table t
              i.table replayed;
      })
