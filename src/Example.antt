-- ===== src/Example.antt =====
-- src/main.cpp: the example, which times an operation five times and prints what the engine in memory
-- has of it. The clock's answers, std::to_string and the arithmetic on doubles are parameters.
mod Tests
use lite_speed_store.Base.{
  ℕ, zero, suc, ◌≤◌, ◌≡◌, refl, Option, none, some, List, [], ◌∷◌, ◌++◌, length, replicate, le→ltb,
  equal_bytes,
}
use lite_speed_store.Endian.{◌>>=◌}
use lite_speed_store.Engine.{
  Record, Table, StorageEngine, double_size, max_value_size, unlimited_history, make_in_memory, get,
  get_average, set, find, alter, append_capped, push_capped, back, sum,
}
use lite_speed_store.Trace.{unit_text, end_scope, trace_callback, ended}

-- "HeavyOperation"
abbrev heavy_name : List ℕ
heavy_name = 72 ∷ 101 ∷ 97 ∷ 118 ∷ 121 ∷ 79 ∷ 112 ∷ 101 ∷ 114 ∷ 97 ∷ 116 ∷ 105 ∷ 111 ∷ 110 ∷ []

-- "TotalMainRuntime"
abbrev total_name : List ℕ
total_name =
    84 ∷ 111 ∷ 116 ∷ 97 ∷ 108 ∷ 77 ∷ 97 ∷ 105 ∷ 110 ∷ 82 ∷ 117 ∷ 110 ∷ 116 ∷ 105 ∷ 109 ∷ 101 ∷ []

-- "N/A"
abbrev not_available : List ℕ
not_available = 78 ∷ 47 ∷ 65 ∷ []

abbrev value_or {ℓ} : {A : Type ℓ} → Option A → A → A
value_or none a = a
value_or (some b) a = b

-- The three numbers that are printed.
pub record Shown : Type 0 where
  pub operation : List ℕ
  pub average : List ℕ
  pub total : List ℕ

module _ (to_string : List ℕ → List ℕ) (add div : List ℕ → List ℕ → List ℕ) (cast : ℕ → List ℕ)
    (elapsed : ℕ → List ℕ) (now : ℕ → ℕ) where
  -- The scope that ends as the `i`-th: its time, and when it is written.
  unfoldable pub heavy_operation : ℕ → StorageEngine → Option StorageEngine
  heavy_operation i e = end_scope to_string e heavy_name (elapsed i) (now i)

  -- The loop, `left` rounds to go.
  unfoldable pub heavy_operations : ℕ → ℕ → StorageEngine → Option StorageEngine
  unfolding heavy_operation
  heavy_operations zero i e = some e
  heavy_operations (suc left) i e = do e' ← heavy_operation i e; heavy_operations left (suc i) e'

  -- `none` is the end of the program by std::terminate.
  unfoldable pub main : Option Shown
  unfolding heavy_operations
  main = do
    e ← heavy_operations 5 0 (make_in_memory unlimited_history)
    e' ← end_scope to_string e total_name (elapsed 5) (now 5)
    some (record {
      operation = value_or (get e' heavy_name) not_available;
      average = value_or (get_average add div cast e' heavy_name) (replicate double_size 0);
      total = value_or (get e' total_name) not_available;
    })

  -- The text of the time of a scope.
  abbrev text : ℕ → List ℕ
  text i = to_string (elapsed i) ++ unit_text

  -- The record that a scope writes, and the engine in memory with this table.
  abbrev written : ℕ → Record
  written i = record { value = text i; duration = elapsed i; timestamp = now i }

  abbrev holding : Table → StorageEngine
  holding t = record {
    table = t;
    wal = none;
    snapshot_epoch = none;
    max_history = unlimited_history;
  }

  module _ (short : (i : ℕ) → length (text i) ≤ max_value_size) where
    first_time :
        (i : ℕ)
        → heavy_operation i (holding []) ≡ some (holding ((heavy_name, written i ∷ []) ∷ []))
    unfolding heavy_operation end_scope trace_callback ended set alter append_capped push_capped
    first_time i = rw (le→ltb max_value_size (length (text i)) (short i)) refl

    next_time :
        (i : ℕ) (h : List Record)
        → heavy_operation i (holding ((heavy_name, h) ∷ []))
          ≡ some (holding ((heavy_name, h ++ written i ∷ []) ∷ []))
    unfolding heavy_operation end_scope trace_callback ended set alter append_capped push_capped
        equal_bytes
    next_time i h = rw (le→ltb max_value_size (length (text i)) (short i)) refl

    last_time :
        (h : List Record)
        → end_scope to_string (holding ((heavy_name, h) ∷ [])) total_name (elapsed 5) (now 5)
          ≡ some (holding ((heavy_name, h) ∷ (total_name, written 5 ∷ []) ∷ []))
    unfolding end_scope trace_callback ended set alter append_capped push_capped equal_bytes
    last_time h = rw (le→ltb max_value_size (length (text 5)) (short 5)) refl

    five_times :
        heavy_operations 5 0 (make_in_memory unlimited_history)
        ≡ some (
            holding
              ((heavy_name, written 0 ∷ written 1 ∷ written 2 ∷ written 3 ∷ written 4 ∷ []) ∷ []))
    unfolding heavy_operations make_in_memory
    five_times =
        rw
          (
            first_time 0,
            next_time 1 (written 0 ∷ []),
            next_time 2 (written 0 ∷ written 1 ∷ []),
            next_time 3 (written 0 ∷ written 1 ∷ written 2 ∷ []),
            next_time 4 (written 0 ∷ written 1 ∷ written 2 ∷ written 3 ∷ []),
          )
          refl

    -- Where the texts of all times are within the limit of a value, the example ends, and shows
    -- for the operation the text of the last of its five times, as the average the sum of the
    -- five, from 0.0 on and in their order, divided by five, and for the whole run the text of its
    -- time.
    pub main_shows :
        main
        ≡ some (record {
          operation = text 4;
          average =
              div
                (add
                  (add
                    (add (add (add (replicate double_size 0) (elapsed 0)) (elapsed 1)) (elapsed 2))
                    (elapsed 3))
                  (elapsed 4))
                (cast 5);
          total = text 5;
        })
    unfolding main get get_average find back equal_bytes sum
    main_shows =
        rw (five_times, last_time (written 0 ∷ written 1 ∷ written 2 ∷ written 3 ∷ written 4 ∷ []))
          refl
