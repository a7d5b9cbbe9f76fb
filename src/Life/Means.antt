-- ===== src/Life/Means.antt =====
-- What the files of the store stand for, and the invariant of a life.
use lite_speed_store.Base.{ℕ, ◌≤◌, ◌<◌, ◌≡◌, true, ◌⊎◌, Option, some, List, [], All, length, take}
use lite_speed_store.Wal.{Wal, zero_hash}
use lite_speed_store.Wal.Format.{Entry, entry_bytes}
use lite_speed_store.Wal.Walk.{passes}
use lite_speed_store.Wal.Fields.{IsEntry}
use lite_speed_store.Wal.Log.{log_head}
use lite_speed_store.Wal.Halts.{IsLeft}
use lite_speed_store.Wal.Writes.{IsWriter}
use lite_speed_store.Engine.{Table, StorageEngine, find}
use lite_speed_store.Engine.Recover.{Image, epoch_of, next_epoch}
use lite_speed_store.Engine.Restart.{rebuilt}
use lite_speed_store.Engine.Invariant.{IsTable}
use lite_speed_store.Engine.Listing.{IsOrder}
use lite_speed_store.Engine.Refines.{cut, Refines}
use lite_speed_store.Engine.Spec.{Histories}
use lite_speed_store.Engine.Snapshot.{loaded_image}
use lite_speed_store.Snapshot.Load.{load}

abbrev pub read_image : (Table → Table) → Option (List ℕ) → Option Image
read_image listing file = loaded_image listing (load file)

-- A start with this image on these entries has the histories `s`; it goes on with `epoch`.
pub record Means (limit : ℕ) (image : Option Image) (es : List Entry) (epoch : ℕ) (s : Histories)
    : Type 0 where
  pub newer : passes (epoch_of image) epoch ≡ true
  pub next : next_epoch image ≡ epoch
  pub same : (key : List ℕ) → find key (rebuilt limit image es) ≡ cut limit (s key)

abbrev pub MeansAll : ℕ → Option (List ℕ) → List Entry → ℕ → Histories → Type 0
MeansAll limit file es epoch s =
    (listing : Table → Table) → IsOrder listing → Means limit (read_image listing file) es epoch s

-- Nothing, or a proper prefix of a next entry.
pub record Torn (es : List Entry) (tail : List ℕ) : Type 0 where
  pub entry : Entry
  pub cut : ℕ
  pub some_bytes : 0 < cut
  pub short : cut < length (entry_bytes (log_head zero_hash es) entry)
  pub is_entry : IsEntry entry
  pub tail_lem : tail ≡ take cut (entry_bytes (log_head zero_hash es) entry)

-- Entries of which there are at most `n`, of epochs up to `epoch`.
pub record IsOld (n epoch : ℕ) (es : List Entry) : Type 0 where
  pub few : length es ≤ n
  pub early : epoch ≤ n
  pub old : All (λ (x : Entry). x.epoch ≤ epoch) es

-- The snapshot's file and the journal's bytes stand for the histories `s`.
pub record Holds (n limit : ℕ) (file : Option (List ℕ)) (bytes : List ℕ) (s : Histories)
    : Type 0 where
  pub entries : List Entry
  pub tail : List ℕ
  pub is_left : IsLeft bytes entries tail
  pub ending : (tail ≡ []) ⊎ Torn entries tail
  pub epoch : ℕ
  pub is_old : IsOld n epoch entries
  pub means : MeansAll limit file entries epoch s

-- The engine has the histories `s`, and so have its files.
pub record Lives (n : ℕ) (e : StorageEngine) (file : Option (List ℕ)) (s : Histories) : Type 0 where
  pub log : Wal
  pub has : e.wal ≡ some log
  pub entries : List Entry
  pub writer : IsWriter log entries
  pub is_old : IsOld n log.epoch entries
  pub means : MeansAll e.max_history file entries log.epoch s
  pub table : IsTable e.max_history e.table
  pub refines : Refines e s
