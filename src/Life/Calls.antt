-- ===== src/Life/Calls.antt =====
-- A client's call on the files of a living store.
use lite_speed_store.Base.{
  ℕ, ◌≡◌, refl, sym, ap, ◌∙◌, Bool, true, false, ◌⊎◌, inl, inr, Option, some, List, [], length,
  IsU64,
}
use lite_speed_store.Wal.{Wal, RecordType, put, delete, Outcome, returned, thrown}
use lite_speed_store.Wal.Format.{Entry}
use lite_speed_store.Wal.Append.{next_entry, append}
use lite_speed_store.Wal.Walk.{passes}
use lite_speed_store.Wal.Log.{replay_entry}
use lite_speed_store.Engine.{
  Table, StorageEngine, Reply, serialize, double_size, logged, find, is_some, erase,
}
use lite_speed_store.Engine.Recover.{replay}
use lite_speed_store.Engine.Answers.{with_record, new_record, set-Changes, remove-Changes}
use lite_speed_store.Engine.Restart.{replay-put, replay-delete}
use lite_speed_store.Engine.Synced.{set-logged, remove-logged}
use lite_speed_store.Engine.Crash.{logged-wal}
use lite_speed_store.Engine.Refines.{cut, set-promised, remove-promised}
use lite_speed_store.Engine.Spec.{
  Histories, Call, set_call, remove_call, promised, returns, perform,
}
use lite_speed_store.Life.{IsCall}

-- The replay of the entry does to any memory what the histories promise.
abbrev pub Replays : Call → Entry → Type 0
Replays c x =
    (limit : ℕ) (min_epoch : Option ℕ) (t : Table) (s : Histories)
    → passes min_epoch x.epoch ≡ true
    → ((key : List ℕ) → find key t ≡ cut limit (s key))
    → (key : List ℕ)
    → find key (replay_entry (some (replay limit)) min_epoch x t) ≡ cut limit (promised c s key)

-- The call is an `append` to the log and what follows of it.
pub record Logs (c : Call) (e : StorageEngine) (w : Wal) : Type 0 where
  pub type : RecordType
  pub key : List ℕ
  pub value : List ℕ
  pub now : ℕ
  pub stamp : IsU64 now
  pub wal : (perform c e).1.wal ≡ some (append w type key value now).1
  pub answered : (perform c e).0 ≡ true → (append w type key value now).0 ≡ returned tt
  pub replays : Replays c (next_entry w type key value now)

returns-logged {ℓ} :
    {A : Type ℓ} (e : StorageEngine) (p : Outcome (Unit {0}) × Wal) (answer : A) (t : Table)
    → returns (logged e p answer t).0 ≡ true
    → p.0 ≡ returned tt
unfolding logged returns
returns-logged e (returned u, w) answer t h = refl
returns-logged e (thrown x, w) answer t h = cc

pub next_entry-epoch :
    (w : Wal) (type : RecordType) (key value : List ℕ) (now : ℕ)
    → (next_entry w type key value now).epoch ≡ w.epoch
unfolding next_entry
next_entry-epoch w type key value now = refl

set-Replays :
    (w : Wal) (key value duration : List ℕ) (now : ℕ)
    → length duration ≡ double_size
    → Replays
        (set_call key value duration now)
        (next_entry w put key (serialize duration value) now)
unfolding promised next_entry
set-Replays w key value duration now double limit min_epoch t s newer has k =
    ap (find k) (replay-put limit min_epoch w key value duration now t newer double)
    ∙ set-promised limit key (new_record value duration now) t s k has

remove-Replays :
    (w : Wal) (key : List ℕ) (now : ℕ)
    → Replays (remove_call key now) (next_entry w delete key [] now)
unfolding promised next_entry
remove-Replays w key now limit min_epoch t s newer has k =
    ap (find k) (replay-delete limit min_epoch w key now t newer)
    ∙ remove-promised limit key t s k has

-- A call throws with nothing done, or goes to the log.
pub perform_cases :
    (c : Call) (e : StorageEngine) (w : Wal)
    → e.wal ≡ some w
    → IsCall c
    → (perform c e ≡ (false, e)) ⊎ Logs c e w
unfolding perform returns
perform_cases (set_call key value duration now) e w has (double, stamp) =
    elim (set-logged e w key value duration now has) [
      | inl (_, _, is) ↦
          let p = append w put key (serialize duration value) now in
          let t = with_record e key value duration now in
          inr (record {
            type = put;
            key = key;
            value = serialize duration value;
            now = now;
            stamp = stamp;
            wal =
                ap (λ (x : Reply (Unit {0}) × StorageEngine). x.1.wal) is ∙ (logged-wal e p tt t).0;
            answered = λ h.
                returns-logged e p tt t
                  (ap (λ (x : Reply (Unit {0}) × StorageEngine). returns x.0) (sym is) ∙ h);
            replays = set-Replays w key value duration now double;
          })
      | inr (x, is) ↦ inl (ap (λ (x : Reply (Unit {0}) × StorageEngine). (returns x.0, x.1)) is)
    ]
perform_cases (remove_call key now) e w has stamp =
    let is = remove-logged e w key now has in
    let p = append w delete key [] now in
    let found = is_some (find key e.table) in
    let t = erase key e.table in
    inr (record {
      type = delete;
      key = key;
      value = [];
      now = now;
      stamp = stamp;
      wal = ap (λ (x : Reply Bool × StorageEngine). x.1.wal) is ∙ (logged-wal e p found t).0;
      answered = λ h.
          returns-logged e p found t
            (ap (λ (x : Reply Bool × StorageEngine). returns x.0) (sym is) ∙ h);
      replays = remove-Replays w key now;
    })

pub perform-limit : (c : Call) (e : StorageEngine) → (perform c e).1.max_history ≡ e.max_history
unfolding perform
perform-limit (set_call key value duration now) e = (set-Changes e key value duration now).limit
perform-limit (remove_call key now) e = (remove-Changes e key now).limit
