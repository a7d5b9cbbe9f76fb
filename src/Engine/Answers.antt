-- ===== src/Engine/Answers.antt =====
-- What `set` and `remove` do to the answers of the queries.
use lite_speed_store.Base.{
  ℕ, ◌≡◌, ◌≢◌, refl, sym, ap, ◌∙◌, Bool, ◌⊎◌, inl, inr, none, some, List, [], ◌∷◌, ◌++◌, length,
  ltb, Bool-cases, Option-cases,
}
use lite_speed_store.Wal.{put, delete, max_field_size, Wal, Outcome, returned, thrown}
use lite_speed_store.Wal.Append.{append}
use lite_speed_store.Engine.{
  max_value_size, serialize, Record, Table, StorageEngine, Failure, Reply, done, failed,
  append_capped, push_capped, find, erase, get, set, remove, logged, is_some,
}
use lite_speed_store.Engine.Table.{
  find-alter_same, find-alter_other, find-erase_same, find-erase_other, back-append,
}

-- The memory after a call: as `set` and `remove` leave it where they answer, and as it was where
-- they throw. The rest of the engine but its log is as it was.
pub record Changes {ℓ} {A : Type ℓ} (e e' : StorageEngine) (reply : Reply A) (answer : A)
    (table : Table) : Type ℓ where
  pub outcome :
      ((reply ≡ done answer) × (e'.table ≡ table))
      ⊎ ((x : Failure) × (reply ≡ failed x) × (e'.table ≡ e.table))
  pub epoch : e'.snapshot_epoch ≡ e.snapshot_epoch
  pub limit : e'.max_history ≡ e.max_history

logged-Changes {ℓ} :
    {A : Type ℓ} (e : StorageEngine) (p : Outcome (Unit {0}) × Wal) (answer : A) (table : Table)
    → Changes e (logged e p answer table).1 (logged e p answer table).0 answer table
unfolding logged
logged-Changes e (returned u, w) answer table = record {
  outcome = inl (refl, refl);
  epoch = refl;
  limit = refl;
}
logged-Changes e (thrown x, w) answer table = record {
  outcome = inr (_, refl, refl);
  epoch = refl;
  limit = refl;
}

-- The record that `set` adds, and the memory with it.
abbrev pub new_record : List ℕ → List ℕ → ℕ → Record
new_record value duration now = record { value = value; duration = duration; timestamp = now }

abbrev pub with_record : StorageEngine → List ℕ → List ℕ → List ℕ → ℕ → Table
with_record e key value duration now =
    append_capped e.max_history key (new_record value duration now) e.table

pub set-Changes :
    (e : StorageEngine) (key value duration : List ℕ) (now : ℕ)
    → Changes e
        (set e key value duration now).1
        (set e key value duration now).0
        tt
        (with_record e key value duration now)
unfolding set
set-Changes e key value duration now = elim (Bool-cases (ltb max_field_size (length key))) [
  | inl long ↦ rw long (record { outcome = inr (_, refl, refl); epoch = refl; limit = refl })
  | inr fits ↦ elim (Bool-cases (ltb max_value_size (length value))) [
    | inl long ↦
        rw (fits, long) (record { outcome = inr (_, refl, refl); epoch = refl; limit = refl })
    | inr small ↦ elim (Option-cases e.wal) [
      | inl none_yet ↦
          rw (fits, small, none_yet)
            (record { outcome = inl (refl, refl); epoch = refl; limit = refl })
      | inr (w, has) ↦
          rw (fits, small, has)
            (logged-Changes (record e { wal = some w })
              (append w put key (serialize duration value) now) tt
              (with_record e key value duration now))
    ]
  ]
]

pub remove-Changes :
    (e : StorageEngine) (key : List ℕ) (now : ℕ)
    → Changes e
        (remove e key now).1
        (remove e key now).0
        (is_some (find key e.table))
        (erase key e.table)
unfolding remove
remove-Changes e key now = elim (Option-cases e.wal) [
  | inl none_yet ↦ rw none_yet (record { outcome = inl (refl, refl); epoch = refl; limit = refl })
  | inr (w, has) ↦ rw has (
      logged-Changes (record e { wal = some w }) (append w delete key [] now)
        (is_some (find key e.table)) (erase key e.table))
]

done-ne-failed {ℓ} : {A : Type ℓ} {a : A} {x : Failure} → ◌≡◌ {A = Reply A} (done a) (failed x) → ⊥
done-ne-failed e = cc

done_inv {ℓ} : {A : Type ℓ} {a b : A} → ◌≡◌ {A = Reply A} (done a) (done b) → a ≡ b
done_inv e = cc

-- A call that throws leaves the memory as it was.
failed-table {ℓ} :
    {A : Type ℓ} {e e' : StorageEngine} {reply : Reply A} {answer : A} {table : Table} {x : Failure}
    → Changes e e' reply answer table
    → reply ≡ failed x
    → e'.table ≡ e.table
failed-table c h = elim c.outcome [
  | inl (is, same) ↦ absurd (done-ne-failed (sym is ∙ h))
  | inr (x, is, same) ↦ same
]

done-table {ℓ} :
    {A : Type ℓ} {e e' : StorageEngine} {reply : Reply A} {answer a : A} {table : Table}
    → Changes e e' reply answer table
    → reply ≡ done a
    → (e'.table ≡ table) × (answer ≡ a)
done-table c h = elim c.outcome [
  | inl (is, same) ↦ (same, done_inv (sym is ∙ h))
  | inr (x, is, same) ↦ absurd (done-ne-failed (sym h ∙ is))
]

get_found :
    (e : StorageEngine) (key : List ℕ) (h : List Record) (r : Record)
    → find key e.table ≡ some (h ++ r ∷ [])
    → get e key ≡ some r.value
unfolding get
get_found e key h r found = rw (get, found, back-append h r)

get_same :
    (e e' : StorageEngine) (key : List ℕ)
    → find key e'.table ≡ find key e.table
    → get e' key ≡ get e key
unfolding get
get_same e e' key h = rw (get, h)

-- After a `set` that returns, `get` answers the new value for the key, and for every other key
-- what it answered before.
pub get-set :
    (e : StorageEngine) (key value duration : List ℕ) (now : ℕ)
    → (set e key value duration now).0 ≡ done tt
    → (get (set e key value duration now).1 key ≡ some value)
      × ((other : List ℕ) → other ≢ key → get (set e key value duration now).1 other ≡ get e other)
unfolding append_capped push_capped
get-set e key value duration now h =
    let e' = (set e key value duration now).1 in
    let (table, _) = done-table (set-Changes e key value duration now) h in
    let add = push_capped e.max_history (new_record value duration now) in
    (
      get_found e' key _ (new_record value duration now)
          (ap (find key) table ∙ find-alter_same key add e.table),
      λ other ne.
          get_same e e' other (ap (find other) table ∙ find-alter_other key other add e.table ne),
    )

-- A `remove` that returns tells whether the key was there; after it, `get` answers nothing for the
-- key, and for every other key what it answered before.
pub get-remove :
    (e : StorageEngine) (key : List ℕ) (now : ℕ) (was_there : Bool)
    → (remove e key now).0 ≡ done was_there
    → (was_there ≡ is_some (find key e.table))
      × (get (remove e key now).1 key ≡ none)
      × ((other : List ℕ) → other ≢ key → get (remove e key now).1 other ≡ get e other)
unfolding get
get-remove e key now was_there h =
    let e' = (remove e key now).1 in
    let (table, told) = done-table (remove-Changes e key now) h in
    (
      sym told,
      rw (get, ap (find key) table ∙ find-erase_same key e.table),
      λ other ne.
          get_same e e' other (ap (find other) table ∙ find-erase_other key other e.table ne),
    )
