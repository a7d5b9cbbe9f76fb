-- ===== src/Life/Fresh.antt =====
-- A snapshot of the memory, behind older entries.
use lite_speed_store.Base.{
  ℕ, suc, ◌^◌, ◌≤◌, ◌<◌, ◌≡◌, ap, ◌∙◌, arith, Option, some, List, [], ◌∷◌, All, lt→ltb,
}
use lite_speed_store.Wal.Format.{Entry}
use lite_speed_store.Wal.Walk.{passes}
use lite_speed_store.Engine.{find}
use lite_speed_store.Engine.Recover.{Image, replay, loaded, epoch_of, next_epoch}
use lite_speed_store.Engine.Refines.{cut}
use lite_speed_store.Engine.Spec.{Histories}
use lite_speed_store.Engine.Picture.{replay_log_skip}
use lite_speed_store.Life.Means.{Means}

-- An image of the memory means the same behind any older entries.
pub Means-fresh :
    (limit epoch : ℕ) (image : Option Image) (fresh : Image) (es : List Entry) (s : Histories)
    → image ≡ some fresh
    → fresh.epoch ≡ epoch
    → suc epoch < 2 ^ 64
    → All (λ (x : Entry). x.epoch ≤ epoch) es
    → ((key : List ℕ) → find key (loaded limit (some fresh)) ≡ cut limit (s key))
    → Means limit image es (suc epoch) s
unfolding passes epoch_of next_epoch loaded
Means-fresh limit epoch image fresh es s is stamp small old same =
    rw (is, stamp)
      (record {
        newer = lt→ltb epoch (suc epoch) (omega arith);
        next = omega (arith, small);
        same = λ key.
            ap (find key)
              (replay_log_skip (some (replay limit)) epoch es (loaded limit (some fresh)) old)
            ∙ same key;
      })

pub All-older :
    (epoch : ℕ) (es : List Entry)
    → All (λ (x : Entry). x.epoch ≤ epoch) es
    → All (λ (x : Entry). x.epoch ≤ suc epoch) es
All-older epoch [] old = tt
All-older epoch (x ∷ es) old = (omega (arith, old.0), All-older epoch es old.1)
