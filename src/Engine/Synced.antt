-- ===== src/Engine/Synced.antt =====
-- The memory and the journal together, through `set` and `remove`.
use lite_speed_store.Base.{
  ℕ, suc, ◌^◌, ◌≤◌, ◌<◌, ◌≡◌, sym, ap, ◌∙◌, subst, Bool, ◌⊎◌, inl, inr, Option, some, List, [], ◌∷◌,
  ◌++◌, length, ltb, ltb→le, Bool-cases, IsU64,
}
use lite_speed_store.Wal.{Wal, put, delete, max_field_size}
use lite_speed_store.Wal.Append.{next_entry, append}
use lite_speed_store.Wal.Format.{Entry}
use lite_speed_store.Engine.{
  key_too_long, value_too_long, StorageEngine, Reply, done, failed, Failure, double_size,
  max_value_size, serialize, set, remove, logged, find, is_some, erase,
}
use lite_speed_store.Engine.Recover.{Image}
use lite_speed_store.Engine.Answers.{with_record}
use lite_speed_store.Engine.Restart.{IsSynced, logged-IsSynced, replay-put, replay-delete}

-- The arguments are within the limits, and the call is what follows the checks.
pub set-logged :
    (e : StorageEngine) (w : Wal) (key value duration : List ℕ) (now : ℕ)
    → e.wal ≡ some w
    → ((length key ≤ max_field_size)
        × (length value ≤ max_value_size)
        × (set e key value duration now
            ≡ logged e
                (append w put key (serialize duration value) now)
                tt
                (with_record e key value duration now)))
      ⊎ ((x : Failure) × (set e key value duration now ≡ (failed x, e)))
unfolding set
set-logged e w key value duration now has = elim (Bool-cases (ltb max_field_size (length key))) [
  | inl long ↦ inr (key_too_long, simp long)
  | inr fits ↦ elim (Bool-cases (ltb max_value_size (length value))) [
    | inl long ↦ inr (value_too_long, simp (fits, long))
    | inr small ↦ inl (ltb→le _ _ fits, ltb→le _ _ small, simp (fits, small, has))
  ]
]

pub remove-logged :
    (e : StorageEngine) (w : Wal) (key : List ℕ) (now : ℕ)
    → e.wal ≡ some w
    → remove e key now
      ≡ logged e (append w delete key [] now) (is_some (find key e.table)) (erase key e.table)
unfolding remove
remove-logged e w key now has = simp (remove, has)

failed-ne-done {ℓ} : {A : Type ℓ} {a : A} {x : Failure} → ◌≡◌ {A = Reply A} (failed x) (done a) → ⊥
failed-ne-done e = cc

-- While the engine's memory is what a restart rebuilds from the snapshot and the entries of its
-- journal (fewer than 2^64 with the new one), a `set` that returns, with a duration of eight bytes
-- and a 64-bit time, leaves a memory that a restart rebuilds from the journal with the new entry.
pub set-IsSynced :
    (image : Option Image) (e : StorageEngine) (w : Wal) (es : List Entry)
    (key value duration : List ℕ) (now : ℕ)
    → IsSynced image e w es
    → suc (length es) < 2 ^ 64
    → IsU64 now
    → length duration ≡ double_size
    → (set e key value duration now).0 ≡ done tt
    → (w' : Wal) × IsSynced image
        (set e key value duration now).1
        w'
        (es ++ next_entry w put key (serialize duration value) now ∷ [])
set-IsSynced image e w es key value duration now i small stamp double h =
    elim (set-logged e w key value duration now i.has_wal) [
      | inl (_, _, is) ↦ (
        (append w put key (serialize duration value) now).1,
        subst
            (λ (p : Reply (Unit {0}) × StorageEngine).
              IsSynced image p.1 (append w put key (serialize duration value) now).1
                (es ++ next_entry w put key (serialize duration value) now ∷ []))
            (sym is)
            (logged-IsSynced image e w es put key (serialize duration value) now tt tt
              (with_record e key value duration now) i small stamp
              (replay-put e.max_history _ w key value duration now e.table i.newer double)
              (sym (ap (λ (p : Reply (Unit {0}) × StorageEngine). p.0) is) ∙ h)),
      )
      | inr (x, is) ↦
          absurd (failed-ne-done (sym (ap (λ (p : Reply (Unit {0}) × StorageEngine). p.0) is) ∙ h))
    ]

-- While the engine's memory is what a restart rebuilds from the snapshot and the entries of its
-- journal (fewer than 2^64 with the new one), a `remove` that returns, at a 64-bit time, leaves a
-- memory that a restart rebuilds from the journal with the new entry.
pub remove-IsSynced :
    (image : Option Image) (e : StorageEngine) (w : Wal) (es : List Entry) (key : List ℕ) (now : ℕ)
    (was_there : Bool)
    → IsSynced image e w es
    → suc (length es) < 2 ^ 64
    → IsU64 now
    → (remove e key now).0 ≡ done was_there
    → (w' : Wal) × IsSynced image
        (remove e key now).1
        w'
        (es ++ next_entry w delete key [] now ∷ [])
remove-IsSynced image e w es key now was_there i small stamp h =
    let is = remove-logged e w key now i.has_wal in
    (
      (append w delete key [] now).1,
      subst
          (λ (p : Reply Bool × StorageEngine).
            IsSynced image p.1 (append w delete key [] now).1
              (es ++ next_entry w delete key [] now ∷ []))
          (sym is)
          (logged-IsSynced image e w es delete key [] now (is_some (find key e.table)) was_there
            (erase key e.table) i small stamp
            (replay-delete e.max_history _ w key now e.table i.newer)
            (sym (ap (λ (p : Reply Bool × StorageEngine). p.0) is) ∙ h)),
    )
