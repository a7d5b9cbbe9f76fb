-- ===== src/Life.antt =====
-- The store through its life: calls of clients, snapshots, crashes in the middle of either, and
-- restarts, in any order, as a relation between the states of the engine and its directory. A crash
-- leaves the files as the calls so far left them; it cuts a call off where its script has a call of
-- the kernel fail.
pub mod Means
pub mod Starts
pub mod Restarts
pub mod First
pub mod Calls
pub mod Ends
pub mod Fresh
pub mod Saves
pub mod Steps
pub mod Laws
mod Tests
use lite_speed_store.Base.{
  ℕ, ◌≤◌, ◌≡◌, Bool, true, false, Option, none, some, List, [], ◌∷◌, length, IsU64,
}
use lite_speed_store.Posix.{Answer, Disk}
use lite_speed_store.Wal.{Wal, header_size}
use lite_speed_store.Wal.Opens.{served}
use lite_speed_store.Engine.{Table, StorageEngine, Reply, done, double_size}
use lite_speed_store.Engine.Spec.{Call, set_call, remove_call, perform}
use lite_speed_store.Engine.Listing.{IsOrder}
use lite_speed_store.Engine.Picture.{IsSavable}
use lite_speed_store.Engine.Rotation.{content}
use lite_speed_store.Engine.Snapshot.{snapshot}
use lite_speed_store.Engine.Construct.{construct}
use lite_speed_store.Snapshot.Save.{Directory}

-- The process, and the directory of its snapshot; the journal's file is in the engine's log.
pub record World : Type 0 where
  pub engine : StorageEngine
  pub directory : Directory

-- What the kernel answers during the next call.
abbrev pub script_log : List Answer → Option Wal → Option Wal
script_log script none = none
script_log script (some w) = some (record w { disk = record w.disk { script = script } })

abbrev pub on_kernel : List Answer → StorageEngine → StorageEngine
on_kernel script e = record e { wal = script_log script e.wal }

abbrev pub on_directory : List Answer → Directory → Directory
on_directory script d = record d { script = script }

-- The bytes of the journal's file.
abbrev pub log_bytes : Option Wal → List ℕ
log_bytes none = []
log_bytes (some w) = w.disk.bytes

abbrev pub left : StorageEngine → List ℕ
left e = log_bytes e.wal

-- A call as the C++ types have it: a double has eight bytes, a clock's answer 64 bits.
abbrev pub IsCall : Call → Type 0
IsCall (set_call key value duration now) = (length duration ≡ double_size) × IsU64 now
IsCall (remove_call key now) = IsU64 now

-- What the clients saw: a call that returned, one that threw with nothing done, one in which the
-- process ended, a snapshot that returned, one in which the process ended, and a restart between
-- calls.
pub data Event : Type 0 where
  answered refused cut_off : Call → Event
  saved save_cut_off restarted : Event

-- One event. A call in which the process ends may be cut off at any call of the kernel, or after
-- the last one; then the engine is made anew, with the same limit, from the bytes that it left.
pub data Step (w : World) : Event → World → Type 0 where
  answer :
      (c : Call) (script : List Answer) (e : StorageEngine)
      → IsCall c
      → perform c (on_kernel script w.engine) ≡ (true, e)
      → Step w (answered c) (record w { engine = e })
  refuse : (c : Call) → perform c w.engine ≡ (false, w.engine) → Step w (refused c) w
  cut_call :
      (c : Call) (script : List Answer) (listing : Table → Table) (sync_every_n : ℕ)
      (synced : List ℕ) (e : StorageEngine) (d : Disk)
      → IsCall c
      → IsOrder listing
      → construct listing w.engine.max_history sync_every_n
          (content w.directory.snap)
          (served (left (perform c (on_kernel script w.engine)).1) synced)
        ≡ some (done e, d)
      → Step w (cut_off c) (record w { engine = e })
  save :
      (through stored : Table → Table) (script disk_script : List Answer) (e : StorageEngine)
      (d : Directory)
      → IsOrder through
      → IsOrder stored
      → IsSavable w.engine
      → snapshot through stored (on_directory disk_script w.directory) (on_kernel script w.engine)
        ≡ (done tt, e, d)
      → Step w saved (record { engine = e; directory = d })
  cut_save :
      (through stored listing : Table → Table) (script disk_script : List Answer) (sync_every_n : ℕ)
      (synced : List ℕ) (r : Reply (Unit {0})) (e f : StorageEngine) (d : Directory) (disk : Disk)
      → IsOrder through
      → IsOrder stored
      → IsOrder listing
      → IsSavable w.engine
      → snapshot through stored (on_directory disk_script w.directory) (on_kernel script w.engine)
        ≡ (r, e, d)
      → construct listing w.engine.max_history sync_every_n
          (content d.snap)
          (served (left e) synced)
        ≡ some (done f, disk)
      → Step w save_cut_off (record { engine = f; directory = d })
  restart :
      (listing : Table → Table) (sync_every_n : ℕ) (synced : List ℕ) (e : StorageEngine) (d : Disk)
      → IsOrder listing
      → construct listing w.engine.max_history sync_every_n
          (content w.directory.snap)
          (served (left w.engine) synced)
        ≡ some (done e, d)
      → Step w restarted (record w { engine = e })

pub data Life : World → List Event → World → Type 0 where
  stop : (w : World) → Life w [] w
  then :
      {u v w : World} (x : Event) (xs : List Event) → Step u x v → Life v xs w → Life u (x ∷ xs) w

-- The calls that took effect, in their order: each that returned, and of those in which the process
-- ended any.
pub data Explains : List Event → List Call → Type 0 where
  nothing : Explains [] []
  took :
      (c : Call) {xs : List Event} {cs : List Call}
      → Explains xs cs
      → Explains (answered c ∷ xs) (c ∷ cs)
  survived :
      (c : Call) {xs : List Event} {cs : List Call}
      → Explains xs cs
      → Explains (cut_off c ∷ xs) (c ∷ cs)
  lost :
      (c : Call) {xs : List Event} {cs : List Call} → Explains xs cs → Explains (cut_off c ∷ xs) cs
  refused_one :
      (c : Call) {xs : List Event} {cs : List Call} → Explains xs cs → Explains (refused c ∷ xs) cs
  saved_one : {xs : List Event} {cs : List Call} → Explains xs cs → Explains (saved ∷ xs) cs
  save_lost : {xs : List Event} {cs : List Call} → Explains xs cs → Explains (save_cut_off ∷ xs) cs
  restarted_one : {xs : List Event} {cs : List Call} → Explains xs cs → Explains (restarted ∷ xs) cs
