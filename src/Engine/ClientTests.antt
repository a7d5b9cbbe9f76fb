-- ===== src/Engine/ClientTests.antt =====
-- Concrete runs of clients' calls on an engine in memory.
use lite_speed_store.Base.{ℕ, ◌≡◌, refl, arith, Option, none, List, [], ◌∷◌, equal_bytes, ◌≢◌, some}
use lite_speed_store.Engine.{Record, StorageEngine, find, get, history_count, make_in_memory, set}
use lite_speed_store.Engine.Invariant.{IsTable}
use lite_speed_store.Engine.Kept.{perform_all-IsTable}
use lite_speed_store.Engine.Spec.{
  Call, set_call, remove_call, perform_all, promised_all, latest, retained,
}
use lite_speed_store.Engine.Refines.{Refines, perform_all-Refines, queries-Refines}
use lite_speed_store.Engine.Answers.{get-set}

-- 1.5
abbrev duration : List ℕ
duration = 0 ∷ 0 ∷ 0 ∷ 0 ∷ 0 ∷ 0 ∷ 0xF8 ∷ 0x3F ∷ []

abbrev one : Record
one = record { value = 7 ∷ []; duration = duration; timestamp = 5 }

-- An engine in memory that keeps two records for each key.
abbrev small : StorageEngine
small = record {
  table = (97 ∷ [], one ∷ one ∷ []) ∷ (98 ∷ [], one ∷ []) ∷ [];
  wal = none;
  snapshot_epoch = none;
  max_history = 2;
}

small-IsTable : IsTable 2 small.table
unfolding find equal_bytes
small-IsTable = record {
  distinct = (refl, (refl, tt));
  kept = ((omega arith, λ pos. omega arith), ((omega arith, λ pos. omega arith), tt));
}

get-set_example :
    (get (set small (97 ∷ []) (1 ∷ 2 ∷ []) duration 6).1 (97 ∷ []) ≡ some (1 ∷ 2 ∷ []))
    × ((other : List ℕ)
        → other ≢ (97 ∷ [])
        → get (set small (97 ∷ []) (1 ∷ 2 ∷ []) duration 6).1 other ≡ get small other)
unfolding set
get-set_example = get-set small (97 ∷ []) (1 ∷ 2 ∷ []) duration 6 refl

-- Three values for one key, a removal of another.
abbrev calls : List Call
calls =
    set_call (97 ∷ []) (1 ∷ []) duration 6
    ∷ set_call (97 ∷ []) (2 ∷ []) duration 7
    ∷ remove_call (98 ∷ []) 8
    ∷ set_call (97 ∷ []) (3 ∷ []) duration 9
    ∷ []

perform_all-IsTable_example :
    IsTable (perform_all calls small).1.max_history (perform_all calls small).1.table
perform_all-IsTable_example = perform_all-IsTable calls small small-IsTable

abbrev empty : List ℕ → Option (List Record)
empty k = none

made-Refines : Refines (make_in_memory 2) empty
unfolding make_in_memory find
made-Refines k = refl

perform_all-Refines_example :
    Refines
      (perform_all calls (make_in_memory 2)).1
      (promised_all (perform_all calls (make_in_memory 2)).0 empty)
perform_all-Refines_example = perform_all-Refines calls (make_in_memory 2) empty made-Refines

abbrev after_calls : StorageEngine
after_calls = (perform_all calls (make_in_memory 2)).1

abbrev promise : List ℕ → Option (List Record)
promise = promised_all (perform_all calls (make_in_memory 2)).0 empty

queries-Refines_example :
    (get after_calls (97 ∷ []) ≡ latest (promise (97 ∷ [])))
    × (history_count after_calls (97 ∷ []) ≡ retained after_calls.max_history (promise (97 ∷ [])))
queries-Refines_example =
    queries-Refines after_calls promise (97 ∷ [])
      (perform_all-Refines calls (make_in_memory 2) empty made-Refines)
