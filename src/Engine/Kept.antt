-- ===== src/Engine/Kept.antt =====
-- The invariant of the memory, through any sequence of clients' calls.
use lite_speed_store.Base.{List, [], ◌∷◌}
use lite_speed_store.Engine.{StorageEngine}
use lite_speed_store.Engine.Invariant.{IsTable, set-IsTable, remove-IsTable}
use lite_speed_store.Engine.Spec.{Call, set_call, remove_call, perform, perform_all}

pub perform-IsTable :
    (c : Call) (e : StorageEngine)
    → IsTable e.max_history e.table
    → IsTable (perform c e).1.max_history (perform c e).1.table
unfolding perform
perform-IsTable (set_call key value duration now) e i = set-IsTable e key value duration now i
perform-IsTable (remove_call key now) e i = remove-IsTable e key now i

-- If each key of the memory stands once, with a history that is not empty and no longer than a
-- limit above zero, so it does after any sequence of `set` and `remove`, whether they return or
-- throw.
pub perform_all-IsTable :
    (calls : List Call) (e : StorageEngine)
    → IsTable e.max_history e.table
    → IsTable (perform_all calls e).1.max_history (perform_all calls e).1.table
unfolding perform_all
perform_all-IsTable [] e i = i
perform_all-IsTable (c ∷ calls) e i =
    perform_all-IsTable calls (perform c e).1 (perform-IsTable c e i)
