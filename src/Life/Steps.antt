-- ===== src/Life/Steps.antt =====
-- One event in the life of the store.
use lite_speed_store.Base.{
  ℕ, suc, ◌^◌, ◌<◌, ◌≡◌, Bool, refl, sym, ap, ◌∙◌, subst, arith, inl, inr, Option, List, [], ◌∷◌,
  ◌++◌,
}
use lite_speed_store.Posix.{Answer}
use lite_speed_store.Engine.{StorageEngine, Reply, done}
use lite_speed_store.Engine.Picture.{IsSavable}
use lite_speed_store.Engine.Rotation.{content}
use lite_speed_store.Engine.Spec.{Histories, Call, promised, promised_all}
use lite_speed_store.Snapshot.Save.{Directory}
use lite_speed_store.Life.{
  World, on_kernel, on_directory, left, Event, Step, answer, refuse, cut_call, save, cut_save,
  restart, Explains, took, survived, lost, refused_one, saved_one, save_lost, restarted_one,
}
use lite_speed_store.Life.Means.{Lives}
use lite_speed_store.Life.Starts.{construct-Begins}
use lite_speed_store.Life.Calls.{perform-limit}
use lite_speed_store.Life.Restarts.{Begins-Lives, Spares, Spares-Lives}
use lite_speed_store.Life.Ends.{later, lives-Holds, Holds-later, perform-After}
use lite_speed_store.Life.Saves.{snapshot-Saved}

-- An event and what the histories made of it.
pub record Took (x : Event) (s s' : Histories) : Type 0 where
  pub calls : List Call
  pub eq : s' ≡ promised_all calls s
  pub explains :
      (xs : List Event) (cs : List Call) → Explains xs cs → Explains (x ∷ xs) (calls ++ cs)

pub record Passes (n limit : ℕ) (x : Event) (v : World) (s : Histories) : Type 0 where
  pub histories : Histories
  pub took_lem : Took x s histories
  pub limit_lem : v.engine.max_history ≡ limit
  pub lives : Lives (suc n) v.engine (content v.directory.snap) histories

Lives-later :
    {n : ℕ} {e : StorageEngine} {file : Option (List ℕ)} {s : Histories}
    → Lives n e file s
    → Lives (suc n) e file s
Lives-later l = record {
  log = l.log;
  has = l.has;
  entries = l.entries;
  writer = l.writer;
  is_old = later l.is_old;
  means = l.means;
  table = l.table;
  refines = l.refines;
}

-- What the kernel is to answer does not matter.
pub Lives-on_kernel :
    {n : ℕ} {e : StorageEngine} {file : Option (List ℕ)} {s : Histories} (script : List Answer)
    → Lives n e file s
    → Lives n (on_kernel script e) file s
Lives-on_kernel script l = record {
  log = record l.log { disk = record l.log.disk { script = script } };
  has = rw l.has refl;
  entries = l.entries;
  writer = record {
    opened = l.writer.opened;
    log = l.writer.log;
    seq = l.writer.seq;
    head = l.writer.head;
    bytes = l.writer.bytes;
    epoch = l.writer.epoch;
  };
  is_old = l.is_old;
  means = l.means;
  table = l.table;
  refines = l.refines;
}

IsSavable-on_kernel :
    {e : StorageEngine} (script : List Answer) → IsSavable e → IsSavable (on_kernel script e)
IsSavable-on_kernel script i = record { table = i.table; keys = i.keys; count = i.count }

no_call :
    {x : Event} {s : Histories}
    → ((xs : List Event) (cs : List Call) → Explains xs cs → Explains (x ∷ xs) cs)
    → Took x s s
unfolding promised_all
no_call f = record { calls = []; eq = refl; explains = f }

one_call :
    {x : Event} {s : Histories} (c : Call)
    → ((xs : List Event) (cs : List Call) → Explains xs cs → Explains (x ∷ xs) (c ∷ cs))
    → Took x s (promised c s)
unfolding promised_all
one_call c f = record { calls = c ∷ []; eq = refl; explains = f }

module _ {n : ℕ} {u : World} {s : Histories} (l : Lives n u.engine (content u.directory.snap) s)
    (small : suc n < 2 ^ 64) where
  pub Step-Passes : {v : World} {x : Event} → Step u x v → Passes n u.engine.max_history x v s
  Step-Passes (answer c script e is_call is) =
      let after = perform-After c (Lives-on_kernel script l) small is_call in
      let engine = ap (λ (p : Bool × StorageEngine). p.1) is in
      record {
        histories = promised c s;
        took_lem = one_call c (λ xs cs k. took c k);
        limit_lem =
            ap (λ (e : StorageEngine). e.max_history) (sym engine)
            ∙ perform-limit c (on_kernel script u.engine);
        lives =
            subst (λ (e : StorageEngine). Lives (suc n) e (content u.directory.snap) (promised c s))
              engine (after.lives (ap (λ (p : Bool × StorageEngine). p.0) is));
      }
  Step-Passes (refuse c is) = record {
    histories = s;
    took_lem = no_call (λ xs cs k. refused_one c k);
    limit_lem = refl;
    lives = Lives-later l;
  }
  Step-Passes (cut_call c script listing sync_every_n synced e d is_call order is) =
      let after = perform-After c (Lives-on_kernel script l) small is_call in
      let b =
        construct-Begins (suc n) u.engine.max_history (content u.directory.snap) _ after.histories
          listing sync_every_n order after.holds small synced in
      let (lives, limit) = Begins-Lives e d b is in
      record {
        histories = after.histories;
        took_lem = elim after.which [
          | inl h ↦ rw h (no_call (λ xs cs k. lost c k))
          | inr h ↦ rw h (one_call c (λ xs cs k. survived c k))
        ];
        limit_lem = limit;
        lives = lives;
      }
  Step-Passes (save through stored script disk_script e d o1 o2 savable is) =
      let after =
        snapshot-Saved through stored o1 o2 (on_directory disk_script u.directory)
          (Lives-on_kernel script l) small (IsSavable-on_kernel script savable) in
      let to : (x : Reply (Unit {0}) × StorageEngine × Directory)
          → x ≡ (done tt, e, d)
          → x.0 ≡ done tt =
        λ x h. ap (λ (p : Reply (Unit {0}) × StorageEngine × Directory). p.0) h in
      record {
        histories = s;
        took_lem = no_call (λ xs cs k. saved_one k);
        limit_lem =
            ap (λ (p : Reply (Unit {0}) × StorageEngine × Directory). p.1.max_history) (sym is)
            ∙ after.limit_lem;
        lives =
            subst
              (λ (p : Reply (Unit {0}) × StorageEngine × Directory).
                Lives (suc n) p.1 (content p.2.snap) s)
              is (after.lives (to _ is));
      }
  Step-Passes
        (cut_save through stored listing script disk_script sync_every_n synced r e f d disk o1 o2
          o3 savable is begun) =
      let after =
        snapshot-Saved through stored o1 o2 (on_directory disk_script u.directory)
          (Lives-on_kernel script l) small (IsSavable-on_kernel script savable) in
      let held =
        subst
          (λ (p : Reply (Unit {0}) × StorageEngine × Directory).
            Spares (suc n) u.engine.max_history (content p.2.snap) (left p.1) s)
          is after.spares in
      let (lives, limit) =
        Spares-Lives (suc n) u.engine.max_history (content d.snap) (left e) synced s listing
          sync_every_n f disk o3 held small begun in
      record {
        histories = s;
        took_lem = no_call (λ xs cs k. save_lost k);
        limit_lem = limit;
        lives = lives;
      }
  Step-Passes (restart listing sync_every_n synced e d order is) =
      let b =
        construct-Begins (suc n) u.engine.max_history (content u.directory.snap) _ s listing
          sync_every_n order (Holds-later (lives-Holds (omega (arith, small)) l)) small synced in
      let (lives, limit) = Begins-Lives e d b is in
      record {
        histories = s;
        took_lem = no_call (λ xs cs k. restarted_one k);
        limit_lem = limit;
        lives = lives;
      }
