-- ===== src/Life/First.antt =====
-- The first start of the store, in an empty directory.
use lite_speed_store.Base.{ℕ, refl, arith, inl, none, List, []}
use lite_speed_store.Wal.{header}
use lite_speed_store.Wal.Walk.{passes}
use lite_speed_store.Wal.Log.{replay_log}
use lite_speed_store.Wal.Opens.{served}
use lite_speed_store.Engine.{Table, find}
use lite_speed_store.Engine.Recover.{epoch_of, next_epoch, loaded}
use lite_speed_store.Engine.Listing.{IsOrder}
use lite_speed_store.Engine.Snapshot.{loaded_image}
use lite_speed_store.Engine.Spec.{Histories}
use lite_speed_store.Engine.Construct.{construct}
use lite_speed_store.Snapshot.Load.{load}
use lite_speed_store.Life.Means.{Holds}
use lite_speed_store.Life.Starts.{Begins}
use lite_speed_store.Life.Restarts.{header-IsLeft, empty-Begins}

-- No key has a record.
abbrev pub no_histories : Histories
no_histories = λ key. none

header-Holds : (limit : ℕ) → Holds 0 limit none header no_histories
unfolding load loaded_image epoch_of next_epoch passes loaded replay_log find
header-Holds limit = record {
  entries = [];
  tail = [];
  is_left = header-IsLeft header refl;
  ending = inl refl;
  epoch = 0;
  is_old = record { few = omega arith; early = omega arith; old = tt };
  means = λ listing order. record { newer = refl; next = refl; same = λ key. refl };
}

-- The constructor in an empty directory, on a kernel that fails no call, makes an empty engine.
pub construct_empty :
    (limit sync_every_n : ℕ) (synced : List ℕ) (listing : Table → Table)
    → IsOrder listing
    → Begins 0 limit none no_histories
        (construct listing limit sync_every_n none (served [] synced))
construct_empty limit sync_every_n synced listing order =
    empty-Begins 0 limit none synced no_histories listing sync_every_n order (header-Holds limit)
      (omega arith)
