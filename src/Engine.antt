-- ===== src/Engine.antt =====
-- include/StorageEngine.hpp and src/StorageEngine.cpp: the key-value engine. Its mutex makes each
-- method one step. The key's map is a list of pairs, a key once; a string is its bytes.
pub mod Recover
pub mod Table
pub mod Distinct
pub mod Snapshot
pub mod Listing
pub mod Saved
pub mod Invariant
pub mod Spec
pub mod Kept
pub mod Newest
pub mod Refines
pub mod Construct
pub mod Starts
pub mod Refuses
pub mod Picture
pub mod Rotation
pub mod Rotates
pub mod Checkpoint
pub mod Capped
pub mod Answers
pub mod Restart
pub mod Synced
pub mod Crash
pub mod Loads
mod Tests
mod SnapshotTests
mod ClientTests
mod EditTests
use lite_speed_store.Base.{
  ℕ, ◌-◌, Bool, true, false, ◌&&◌, not, Option, none, some, List, [], ◌∷◌, ◌++◌, length, take, drop,
  replicate, ltb, leb, ◌==◌, if◌then◌else◌, equal_bytes,
}
use lite_speed_store.Wal.{Wal, put, delete, Error, Outcome, returned, thrown, max_field_size}
use lite_speed_store.Wal.Append.{append}

-- sizeof(double)
abbrev pub double_size : ℕ
double_size = 8

-- StorageEngine::kMaxFieldSize
abbrev pub max_value_size : ℕ
max_value_size = max_field_size - double_size

abbrev pub unlimited_history : ℕ
unlimited_history = 0

-- A double is the bytes that it has in memory; a timestamp the bit pattern of its int64_t.
pub record Record : Type 0 where
  pub value : List ℕ
  pub duration : List ℕ
  pub timestamp : ℕ

-- std::unordered_map<std::string, std::vector<Record>>
abbrev pub Table : Type 0
Table = List (List ℕ × List Record)

-- `max_history` is `m_maxHistoryPerKey`.
pub record StorageEngine : Type 0 where
  pub table : Table
  pub wal : Option Wal
  pub snapshot_epoch : Option ℕ
  pub max_history : ℕ

-- The exceptions: one for each message, or the log's.
pub data Failure : Type 0 where
  key_too_long value_too_long tampering foreign_file : Failure
  no_log snapshot_failed rotation_failed : Failure
  log_failed : Error → Failure

pub data Reply {ℓ} (A : Type ℓ) : Type ℓ where
  done : A → Reply A
  failed : Failure → Reply A

unfoldable pub serialize : List ℕ → List ℕ → List ℕ
serialize duration value = duration ++ value

-- The duration and the value. 0.0 is eight zero bytes.
unfoldable pub deserialize : List ℕ → List ℕ × List ℕ
deserialize blob =
    if ltb (length blob) double_size
    then (replicate double_size 0, [])
    else (take double_size blob, drop double_size blob)

unfoldable pub find : List ℕ → Table → Option (List Record)
find key [] = none
find key ((k, history) ∷ rest) = elim (equal_bytes key k) [
  | true ↦ some history
  | false ↦ find key rest
]

-- m_data[key] = f(m_data[key]), where a missing key starts with an empty history.
unfoldable pub alter : List ℕ → (List Record → List Record) → Table → Table
alter key f [] = (key, f []) ∷ []
alter key f ((k, history) ∷ rest) = elim (equal_bytes key k) [
  | true ↦ (k, f history) ∷ rest
  | false ↦ (k, history) ∷ alter key f rest
]

unfoldable pub erase : List ℕ → Table → Table
erase key [] = []
erase key ((k, history) ∷ rest) = elim (equal_bytes key k) [
  | true ↦ erase key rest
  | false ↦ (k, history) ∷ erase key rest
]

unfoldable pub push_capped : ℕ → Record → List Record → List Record
push_capped limit r history =
    let kept =
      if not (limit == unlimited_history) && leb limit (length history)
      then drop 1 history
      else history in
    kept ++ r ∷ []

unfoldable pub append_capped : ℕ → List ℕ → Record → Table → Table
unfolding alter push_capped
append_capped limit key r table = alter key (push_capped limit r) table

-- The two arguments of the constructor that matter here, and no journal.
unfoldable pub make_in_memory : ℕ → StorageEngine
make_in_memory limit = record { table = []; wal = none; snapshot_epoch = none; max_history = limit }

-- Changes the memory, if the log took the entry.
unfoldable pub logged {ℓ} :
    {A : Type ℓ} → StorageEngine → Outcome (Unit {0}) × Wal → A → Table → Reply A × StorageEngine
logged e (returned u, w) answer table = (done answer, record e { wal = some w; table = table })
logged e (thrown x, w) answer table = (failed (log_failed x), record e { wal = some w })

-- `now` is what the clock says.
unfoldable pub set : StorageEngine → List ℕ → List ℕ → List ℕ → ℕ → Reply (Unit {0}) × StorageEngine
unfolding append_capped logged serialize
set e key value duration now =
    let r : Record = record { value = value; duration = duration; timestamp = now } in
    let table = append_capped e.max_history key r e.table in
    if ltb max_field_size (length key)
    then (failed key_too_long, e)
    else if ltb max_value_size (length value)
    then (failed value_too_long, e)
    else elim e.wal [
      | none ↦ (done tt, record e { table = table })
      | some w ↦ logged e (append w put key (serialize duration value) now) tt table
    ]

unfoldable pub is_some {ℓ} : {A : Type ℓ} → Option A → Bool
is_some none = false
is_some (some a) = true

-- Whether the key was there.
unfoldable pub remove : StorageEngine → List ℕ → ℕ → Reply Bool × StorageEngine
unfolding erase find logged is_some
remove e key now =
    let found = is_some (find key e.table) in
    let table = erase key e.table in
    elim e.wal [
      | none ↦ (done found, record e { table = table })
      | some w ↦ logged e (append w delete key [] now) found table
    ]

-- history.back(), where there is one.
unfoldable pub back : List Record → Option Record
back [] = none
back (r ∷ []) = some r
back (r ∷ s ∷ rest) = back (s ∷ rest)

-- The value of the last record, if the key has one.
unfoldable pub get : StorageEngine → List ℕ → Option (List ℕ)
unfolding find back
get e key = elim (find key e.table) [
  | none ↦ none
  | some history ↦ elim (back history) [ none ↦ none | some r ↦ some r.value ]
]

unfoldable pub count : StorageEngine → ℕ
count e = length e.table

unfoldable pub history_count : StorageEngine → List ℕ → ℕ
unfolding find
history_count e key = elim (find key e.table) [ none ↦ 0 | some history ↦ length history ]

-- The machine's arithmetic on doubles is a parameter: `add`, `div` and the cast of a size.
module _ (add div : List ℕ → List ℕ → List ℕ) (cast : ℕ → List ℕ) where
  unfoldable pub sum : List ℕ → List Record → List ℕ
  sum total [] = total
  sum total (r ∷ rest) = sum (add total r.duration) rest

  unfoldable pub get_average : StorageEngine → List ℕ → Option (List ℕ)
  unfolding find sum
  get_average e key = elim (find key e.table) [
    | none ↦ none
    | some [] ↦ none
    | some (r ∷ rest) ↦
        some (div (sum (replicate double_size 0) (r ∷ rest)) (cast (length (r ∷ rest))))
  ]
