-- ===== src/Engine/Invariant.antt =====
-- The invariant of the engine's memory: each key once, with a history that is not empty and no longer
-- than a limit above zero.
use lite_speed_store.Base.{
  ℕ, ◌≤◌, ◌<◌, ◌≡◌, sym, subst, arith, inl, inr, Option, none, some, List, [], ◌∷◌, All, length,
  length-append, ◌==◌,
}
use lite_speed_store.Wal.{put, delete}
use lite_speed_store.Wal.Format.{type_byte}
use lite_speed_store.Wal.Walk.{Visit}
use lite_speed_store.Engine.{
  Record, Table, StorageEngine, Reply, push_capped, append_capped, erase, set, remove,
}
use lite_speed_store.Engine.Answers.{Changes, set-Changes, remove-Changes, new_record}
use lite_speed_store.Engine.Capped.{alter-All, erase-All, push_capped-le, if_holds}
use lite_speed_store.Engine.Distinct.{IsDistinct, alter-IsDistinct, erase-IsDistinct}
use lite_speed_store.Engine.Saved.{IsKept}
use lite_speed_store.Engine.Recover.{Image, load_history, load_state, loaded, replay, recover}
use lite_speed_store.Engine.Loads.{recover-holds}

pub record IsTable (limit : ℕ) (t : Table) : Type 0 where
  pub distinct : IsDistinct t
  pub kept : All (IsKept limit) t

abbrev IsHistory : ℕ → List Record → Type 0
IsHistory limit h = (0 < length h) × (0 < limit → length h ≤ limit)

push_capped-some : (limit : ℕ) (r : Record) (h : List Record) → 0 < length (push_capped limit r h)
unfolding push_capped
push_capped-some limit r h = omega (arith, length-append _ (r ∷ []))

append_capped-IsTable :
    (limit : ℕ) (key : List ℕ) (r : Record) (t : Table)
    → IsTable limit t
    → IsTable limit (append_capped limit key r t)
unfolding append_capped
append_capped-IsTable limit key r t i = record {
  distinct = alter-IsDistinct key (push_capped limit r) t i.distinct;
  kept =
      alter-All (IsHistory limit) key (push_capped limit r) t
        (λ h k. (push_capped-some limit r h, λ pos. push_capped-le limit r h pos (k.1 pos)))
        (push_capped-some limit r [], λ pos. push_capped-le limit r [] pos (omega arith)) i.kept;
}

erase-IsTable :
    (limit : ℕ) (key : List ℕ) (t : Table) → IsTable limit t → IsTable limit (erase key t)
erase-IsTable limit key t i = record {
  distinct = erase-IsDistinct key t i.distinct;
  kept = erase-All (IsHistory limit) key t i.kept;
}

Changes-IsTable {ℓ} :
    {A : Type ℓ} {e e' : StorageEngine} {reply : Reply A} {answer : A} {t : Table}
    → Changes e e' reply answer t
    → IsTable e.max_history e.table
    → IsTable e.max_history t
    → IsTable e'.max_history e'.table
Changes-IsTable {e = e} {e' = e'} {t = t} c old new =
    subst (λ (n : ℕ). IsTable n e'.table) (sym c.limit)
      (elim c.outcome [
        | inl (_, is) ↦ subst (IsTable e.max_history) (sym is) new
        | inr (_, _, is) ↦ subst (IsTable e.max_history) (sym is) old
      ])

-- If each key of the memory stands once, with a history that is not empty and no longer than a
-- limit above zero, so it does after a `set`, whether it returns or throws.
pub set-IsTable :
    (e : StorageEngine) (key value duration : List ℕ) (now : ℕ)
    → IsTable e.max_history e.table
    → IsTable (set e key value duration now).1.max_history (set e key value duration now).1.table
set-IsTable e key value duration now i =
    Changes-IsTable (set-Changes e key value duration now) i
      (append_capped-IsTable e.max_history key (new_record value duration now) e.table i)

pub remove-IsTable :
    (e : StorageEngine) (key : List ℕ) (now : ℕ)
    → IsTable e.max_history e.table
    → IsTable (remove e key now).1.max_history (remove e key now).1.table
remove-IsTable e key now i =
    Changes-IsTable (remove-Changes e key now) i (erase-IsTable e.max_history key e.table i)

load_history-IsTable :
    (limit : ℕ) (key : List ℕ) (h : List Record) (t : Table)
    → IsTable limit t
    → IsTable limit (load_history limit key h t)
unfolding load_history
load_history-IsTable limit key [] t i = i
load_history-IsTable limit key (r ∷ h) t i =
    load_history-IsTable limit key h (append_capped limit key r t)
      (append_capped-IsTable limit key r t i)

load_state-IsTable :
    (limit : ℕ) (s t : Table) → IsTable limit t → IsTable limit (load_state limit s t)
unfolding load_state
load_state-IsTable limit [] t i = i
load_state-IsTable limit ((key, h) ∷ s) t i =
    load_state-IsTable limit s (load_history limit key h t) (load_history-IsTable limit key h t i)

loaded-IsTable : (limit : ℕ) (image : Option Image) → IsTable limit (loaded limit image)
unfolding loaded
loaded-IsTable limit none = record { distinct = tt; kept = tt }
loaded-IsTable limit (some image) =
    load_state-IsTable limit image.state [] (record { distinct = tt; kept = tt })

replay-IsTable :
    (limit : ℕ) (v : Visit) (t : Table) → IsTable limit t → IsTable limit (replay limit v t)
unfolding replay
replay-IsTable limit v t i =
    if_holds (IsTable limit) (v.type == type_byte put) _ _ (append_capped-IsTable limit v.key _ t i)
      (if_holds (IsTable limit) (v.type == type_byte delete) _ t (erase-IsTable limit v.key t i) i)

-- A recovery of the engine that ends, with any snapshot, on any file and whatever the kernel
-- answers, leaves a memory in which each key stands once, with a history that is not empty and no
-- longer than a limit above zero, whether it succeeds or throws.
pub recover-IsTable :
    (image : Option Image) (e e' : StorageEngine) (reply : Reply (Unit {0}))
    → recover image e ≡ some (reply, e')
    → IsTable e'.max_history e'.table
recover-IsTable image e e' reply h =
    let (i, limit) =
      recover-holds (IsTable e.max_history) image e e' reply (replay-IsTable e.max_history)
        (loaded-IsTable e.max_history image) h in
    subst (λ (n : ℕ). IsTable n e'.table) (sym limit) i
