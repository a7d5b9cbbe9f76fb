-- ===== src/Trace.antt =====
-- include/FastTrace.hpp: the timer that ends with its scope, and TRACE_SCOPE, which has it write to
-- an engine. The time that passed is what the clock says, and std::to_string a parameter.
use lite_speed_store.Base.{
  ℕ, ◌≤◌, ◌≡◌, refl, Option, none, some, List, [], ◌∷◌, ◌++◌, length, le→ltb,
}
use lite_speed_store.Wal.{max_field_size}
use lite_speed_store.Engine.{StorageEngine, Reply, done, failed, max_value_size, set, get}
use lite_speed_store.Engine.Answers.{get-set}

-- " ms"
abbrev pub unit_text : List ℕ
unit_text = 32 ∷ 109 ∷ 115 ∷ []

-- The destructor may not throw: `none` is the end of the program by std::terminate.
unfoldable pub ended : Reply (Unit {0}) × StorageEngine → Option StorageEngine
ended (done u, e) = some e
ended (failed x, e) = none

module _ (to_string : List ℕ → List ℕ) where
  -- The callback that TRACE_SCOPE gives to the timer.
  unfoldable pub trace_callback :
      StorageEngine → List ℕ → List ℕ → ℕ → Reply (Unit {0}) × StorageEngine
  trace_callback e name ms now = set e name (to_string ms ++ unit_text) ms now

  -- The end of a scope with TRACE_SCOPE(name, e): ~Timer.
  unfoldable pub end_scope : StorageEngine → List ℕ → List ℕ → ℕ → Option StorageEngine
  unfolding trace_callback ended
  end_scope e name ms now = ended (trace_callback e name ms now)

  ended-done : (p : Reply (Unit {0}) × StorageEngine) → p.0 ≡ done tt → ended p ≡ some p.1
  unfolding ended
  ended-done (done u, e) h = refl
  ended-done (failed x, e) h = cc

  set_in_memory :
      (e : StorageEngine) (key value duration : List ℕ) (now : ℕ)
      → e.wal ≡ none
      → length key ≤ max_field_size
      → length value ≤ max_value_size
      → (set e key value duration now).0 ≡ done tt
  unfolding set
  set_in_memory e key value duration now no_log k v =
      rw (le→ltb max_field_size (length key) k, le→ltb max_value_size (length value) v, no_log)

  -- On an engine in memory, with a name and a text within the limits, the scope ends, and `get`
  -- answers the time for the name.
  end_scope-in_memory :
      (e : StorageEngine) (name ms : List ℕ) (now : ℕ)
      → e.wal ≡ none
      → length name ≤ max_field_size
      → length (to_string ms ++ unit_text) ≤ max_value_size
      → (e' : StorageEngine) × (end_scope e name ms now ≡ some e')
        × (get e' name ≡ some (to_string ms ++ unit_text))
  unfolding end_scope trace_callback
  end_scope-in_memory e name ms now no_log k v =
      let returns = set_in_memory e name (to_string ms ++ unit_text) ms now no_log k v in
      (
        (set e name (to_string ms ++ unit_text) ms now).1,
        ended-done (set e name (to_string ms ++ unit_text) ms now) returns,
        (get-set e name (to_string ms ++ unit_text) ms now returns).0,
      )
