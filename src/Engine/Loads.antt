-- ===== src/Engine/Loads.antt =====
-- What a recovery of the engine keeps, and with it the cap on a history.
use lite_speed_store.Base.{
  ℕ, ◌≡◌, refl, sym, ◌∙◌, subst, inl, inr, Option, none, some, Option-cases, none-ne-some,
}
use lite_speed_store.Wal.{set_epoch}
use lite_speed_store.Wal.Walk.{Visit}
use lite_speed_store.Wal.Recover
use lite_speed_store.Wal.Keeps.{recover-keeps}
use lite_speed_store.Engine.{Table, StorageEngine, Reply}
use lite_speed_store.Engine.Recover.{Image, loaded, epoch_of, next_epoch, replay, judge, recover}
use lite_speed_store.Engine.Capped.{IsCapped, replay-IsCapped, loaded-IsCapped}

second :
    {r r' : Reply (Unit {0})} {e e' : StorageEngine}
    → ◌≡◌ {A = Option (Reply (Unit {0}) × StorageEngine)} (some (r, e)) (some (r', e'))
    → e ≡ e'
second e = cc

-- What the replay keeps, and what holds of the loaded memory, holds of the recovered one.
pub recover-holds :
    (P : Table → Type 0) (image : Option Image) (e e' : StorageEngine) (reply : Reply (Unit {0}))
    → ((v : Visit) (t : Table) → P t → P (replay e.max_history v t))
    → P (loaded e.max_history image)
    → recover image e ≡ some (reply, e')
    → P e'.table × (e'.max_history ≡ e.max_history)
unfolding recover
recover-holds P image e e' reply keeps base h = elim (Option-cases e.wal) [
  | inl no_log ↦
      let is : recover image e ≡ none = simp (recover, no_log) in absurd (none-ne-some (sym is ∙ h))
  | inr (w, has) ↦
      elim (Option-cases (
        Recover.recover (some (replay e.max_history)) (epoch_of image)
          (set_epoch (next_epoch image) w) (loaded e.max_history image))) [
            | inl nothing ↦
                let is : recover image e ≡ none = simp (recover, has, nothing) in
                absurd (none-ne-some (sym is ∙ h))
            | inr ((r, t, w'), out) ↦
                let after = record e {
                  table = t;
                  wal = some w';
                  snapshot_epoch = epoch_of image;
                } in
                let is : recover image e ≡ some (judge r.status, after) =
                  simp (recover, has, out) in
                subst (λ (x : StorageEngine). P x.table × (x.max_history ≡ e.max_history))
                  (second (sym is ∙ h))
                  (
                    recover-keeps (replay e.max_history) (epoch_of image) P keeps
                        (set_epoch (next_epoch image) w) w' (loaded e.max_history image) t r base
                        out,
                    refl,
                  )
          ]
]

-- A recovery of the engine that ends, with any snapshot, on any file and whatever the kernel
-- answers, leaves no history longer than a limit above zero, whether it succeeds or throws.
pub recover-IsCapped :
    (image : Option Image) (e e' : StorageEngine) (reply : Reply (Unit {0}))
    → recover image e ≡ some (reply, e')
    → IsCapped e'.max_history e'.table
recover-IsCapped image e e' reply h =
    let (capped, limit) =
      recover-holds (IsCapped e.max_history) image e e' reply (replay-IsCapped e.max_history)
        (loaded-IsCapped e.max_history image) h in
    subst (λ (n : ℕ). IsCapped n e'.table) (sym limit) capped
