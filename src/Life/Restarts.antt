-- ===== src/Life/Restarts.antt =====
-- A restart of the store on a journal with its header, or on an empty file.
use lite_speed_store.Base.{
  ℕ, ◌^◌, ◌≤◌, ◌<◌, ◌≡◌, refl, sym, ◌∙◌, subst, arith, inl, inr, Option, some, List, [], ◌∷◌, ◌++◌,
  append-nil, length, ltb, ltb→lt, ltb→le, Bool-cases,
}
use lite_speed_store.Posix.{Disk, probe, seek, call, query, fsync, write_exact, write_loop}
use lite_speed_store.Endian.{put_le32, put_le64}
use lite_speed_store.Wal.{
  Wal, Error, Outcome, returned, thrown, header, header_size, fresh, open_wal, write_header,
}
use lite_speed_store.Wal.Log.{encode_log}
use lite_speed_store.Wal.Halts.{journal, IsLeft}
use lite_speed_store.Wal.Opens.{served}
use lite_speed_store.Wal.Rotated.{open_wal_short}
use lite_speed_store.Engine.{Table, StorageEngine, Reply, done}
use lite_speed_store.Engine.Recover.{Image}
use lite_speed_store.Engine.Listing.{IsOrder}
use lite_speed_store.Engine.Spec.{Histories}
use lite_speed_store.Engine.Construct.{run_body, construct}
use lite_speed_store.Life.Means.{Holds, Lives, read_image}
use lite_speed_store.Life.Starts.{Begins, opened-Begins, construct-Begins}

-- A journal of the header alone.
pub header-IsLeft : (bytes : List ℕ) → bytes ≡ header → IsLeft bytes [] []
unfolding journal encode_log
header-IsLeft bytes e = record {
  log = tt;
  small = omega arith;
  bytes_lem = e ∙ sym (append-nil header) ∙ sym (append-nil (header ++ []));
}

open_empty :
    (sync_every_n : ℕ) (synced : List ℕ)
    → (d : Disk) × (open_wal sync_every_n (served [] synced) ≡ (returned (fresh sync_every_n d), d))
      × (d.bytes ≡ header)
      × (d.script ≡ [])
unfolding open_wal write_header probe seek call query fsync write_exact write_loop header put_le32
    put_le64
open_empty sync_every_n synced =
    (record { bytes = header; synced = header; script = [] }, refl, refl, refl)

-- On an empty file the constructor writes the header.
pub empty-Begins :
    (n limit : ℕ) (file : Option (List ℕ)) (synced : List ℕ) (s : Histories)
    (listing : Table → Table) (sync_every_n : ℕ)
    → IsOrder listing
    → Holds n limit file header s
    → n < 2 ^ 64
    → Begins n limit file s (construct listing limit sync_every_n file (served [] synced))
unfolding fresh
empty-Begins n limit file synced s listing sync_every_n order h small =
    let (d, eq, bytes, quiet) = open_empty sync_every_n synced in
    opened-Begins n limit file header s listing sync_every_n order h small (served [] synced)
      (fresh sync_every_n d) d eq refl bytes quiet

reply_inv :
    {A B : Type 0} {a a' : A} {b b' : B}
    → ◌≡◌ {A = Option (A × B)} (some (a, b)) (some (a', b'))
    → a ≡ a'
reply_inv e = cc

done_inv : {a b : StorageEngine} → done a ≡ done b → a ≡ b
done_inv e = cc

-- The engine that a restart gave.
module _ {n limit : ℕ} {file : Option (List ℕ)} {s : Histories}
    {o : Option (Reply StorageEngine × Disk)} where
  pub Begins-Lives :
      (e : StorageEngine) (d : Disk)
      → Begins n limit file s o
      → o ≡ some (done e, d)
      → Lives n e file s × (e.max_history ≡ limit)
  Begins-Lives e d b h =
      let is = done_inv (reply_inv (sym b.eq ∙ h)) in
      subst (λ (e : StorageEngine). Lives n e file s × (e.max_history ≡ limit)) is
        (b.lives, b.limit_lem)

-- An exception of the log's constructor goes through the engine's.
no_start :
    (image : Option Image) (limit : ℕ) (o : Outcome Wal × Disk) (x : Error) (e : StorageEngine)
    (d : Disk)
    → o.0 ≡ thrown x
    → run_body image limit o ≡ some (done e, d)
    → ⊥
unfolding run_body
no_start image limit (thrown y, d0) x e d h is = cc
no_start image limit (returned w, d0) x e d h is = cc

-- The files after a snapshot that was cut off: the journal has its header, or is empty.
pub record Spares (n limit : ℕ) (file : Option (List ℕ)) (bytes : List ℕ) (s : Histories)
    : Type 0 where
  pub long : header_size ≤ length bytes → Holds n limit file bytes s
  pub empty : bytes ≡ [] → Holds n limit file header s

-- A start on these files that succeeds gives an engine with the histories.
pub Spares-Lives :
    (n limit : ℕ) (file : Option (List ℕ)) (bytes synced : List ℕ) (s : Histories)
    (listing : Table → Table) (sync_every_n : ℕ) (e : StorageEngine) (d : Disk)
    → IsOrder listing
    → Spares n limit file bytes s
    → n < 2 ^ 64
    → construct listing limit sync_every_n file (served bytes synced) ≡ some (done e, d)
    → Lives n e file s × (e.max_history ≡ limit)
unfolding construct
Spares-Lives n limit file [] synced s listing sync_every_n e d order h small begun =
    Begins-Lives e d
      (empty-Begins n limit file synced s listing sync_every_n order (h.empty refl) small) begun
Spares-Lives n limit file (b ∷ bytes) synced s listing sync_every_n e d order h small begun =
    elim (Bool-cases (ltb (length (b ∷ bytes)) header_size)) [
      | inl short ↦
          let cut =
            open_wal_short sync_every_n (served (b ∷ bytes) synced) (omega arith)
              (ltb→lt _ _ short) in
          absurd (
            no_start (read_image listing file) limit
              (open_wal sync_every_n (served (b ∷ bytes) synced)) _ e d cut.0 begun)
      | inr long ↦
          Begins-Lives e d
            (construct-Begins n limit file (b ∷ bytes) s listing sync_every_n order
              (h.long (ltb→le _ _ long)) small synced)
            begun
    ]
