-- ===== src/Life/Laws.antt =====
-- What every life of the store keeps.
use lite_speed_store.Base.{
  ℕ, suc, ◌+◌, ◌^◌, ◌<◌, ◌≡◌, refl, sym, ap, ◌∙◌, subst, arith, none, some, List, [], ◌∷◌, ◌++◌,
  length, length-append,
}
use native.Mathlib.Nat.{zero-add}
use lite_speed_store.Posix.{Answer, Disk}
use lite_speed_store.Wal.Opens.{served}
use lite_speed_store.Engine.{Table, StorageEngine, done, get, history_count}
use lite_speed_store.Engine.Invariant.{IsTable}
use lite_speed_store.Engine.Listing.{IsOrder}
use lite_speed_store.Engine.Refines.{queries-Refines}
use lite_speed_store.Engine.Rotation.{content}
use lite_speed_store.Engine.Spec.{
  Histories, Call, promised, promised_all, latest, retained, perform,
}
use lite_speed_store.Engine.Construct.{construct}
use lite_speed_store.Snapshot.Save.{Directory}
use lite_speed_store.Life.{
  World, on_kernel, left, IsCall, Event, cut_off, Step, cut_call, Life, stop, then, Explains,
  nothing,
}
use lite_speed_store.Life.Means.{Lives}
use lite_speed_store.Life.Starts.{construct-Begins}
use lite_speed_store.Life.First.{no_histories, construct_empty}
use lite_speed_store.Life.Ends.{perform-After}
use lite_speed_store.Life.Steps.{Step-Passes, Lives-on_kernel}
use lite_speed_store.Life.Restarts.{Begins-Lives}

-- What a life keeps of the histories with which it began.
record Goes (n limit : ℕ) (xs : List Event) (w : World) (s : Histories) : Type 0 where
  calls : List Call
  explains : Explains xs calls
  limit_lem : w.engine.max_history ≡ limit
  lives : Lives (length xs + n) w.engine (content w.directory.snap) (promised_all calls s)

promised_all-append :
    (cs ds : List Call) (s : Histories)
    → promised_all (cs ++ ds) s ≡ promised_all ds (promised_all cs s)
unfolding promised_all
promised_all-append [] ds s = refl
promised_all-append (c ∷ cs) ds s = promised_all-append cs ds (promised c s)

Life-Goes :
    {u w : World} {xs : List Event} {n : ℕ} {s : Histories}
    → Lives n u.engine (content u.directory.snap) s
    → length xs + n < 2 ^ 64
    → Life u xs w
    → Goes n u.engine.max_history xs w s
unfolding promised_all
Life-Goes {n = n} l small (stop u) = record {
  calls = [];
  explains = nothing;
  limit_lem = refl;
  lives = rw (zero-add n) l;
}
Life-Goes {w = w} {n = n} {s = s} l small (then x xs step rest) =
    let p = Step-Passes l (omega (arith, small)) step in
    let g = Life-Goes p.lives (omega (arith, small)) rest in
    record {
      calls = p.took_lem.calls ++ g.calls;
      explains = p.took_lem.explains xs g.calls g.explains;
      limit_lem = g.limit_lem ∙ p.limit_lem;
      lives =
          subst
            (λ (h : Histories). Lives (length (x ∷ xs) + n) w.engine (content w.directory.snap) h)
            (ap (promised_all g.calls) p.took_lem.eq
              ∙ sym (promised_all-append p.took_lem.calls g.calls s))
            (subst
              (λ (m : ℕ).
                Lives m w.engine (content w.directory.snap) (promised_all g.calls p.histories))
              {x = length xs + suc n} {y = length (x ∷ xs) + n} (omega arith) g.lives);
    }

-- The life of a store that began in an empty directory.
pub record Lived (limit : ℕ) (xs : List Event) (w : World) : Type 0 where
  pub calls : List Call
  pub explains : Explains xs calls
  pub get_lem : (key : List ℕ) → get w.engine key ≡ latest (promised_all calls no_histories key)
  pub count_lem :
      (key : List ℕ)
      → history_count w.engine key ≡ retained limit (promised_all calls no_histories key)
  pub table : IsTable limit w.engine.table

Goes-Lived :
    {n limit : ℕ} {xs : List Event} {w : World} → Goes n limit xs w no_histories → Lived limit xs w
Goes-Lived {limit = limit} {w = w} g = record {
  calls = g.calls;
  explains = g.explains;
  get_lem =
      λ key. (queries-Refines w.engine (promised_all g.calls no_histories) key g.lives.refines).0;
  count_lem = λ key.
      subst
        (λ (n : ℕ). history_count w.engine key ≡ retained n (promised_all g.calls no_histories key))
        g.limit_lem
        ((queries-Refines w.engine (promised_all g.calls no_histories) key g.lives.refines).1);
  table = subst (λ (n : ℕ). IsTable n w.engine.table) g.limit_lem g.lives.table;
}

module _ (listing : Table → Table) (limit sync_every_n : ℕ) (synced : List ℕ) (e : StorageEngine)
    (d : Disk) (directory : Directory) (w : World) (xs : List Event) (order : IsOrder listing)
    (begun : construct listing limit sync_every_n none (served [] synced) ≡ some (done e, d))
    (empty : directory.snap ≡ none)
    (life : Life (record { engine = e; directory = directory }) xs w) where
  first : Lives 0 e (content directory.snap) no_histories × (e.max_history ≡ limit)
  first =
      rw (ap content empty)
        (Begins-Lives e d (construct_empty limit sync_every_n synced listing order) begun)

  goes : length xs < 2 ^ 64 → Goes 0 limit xs w no_histories
  goes small =
      subst (λ (m : ℕ). Goes 0 m xs w no_histories) first.1
        (Life-Goes first.0 (omega (arith, small)) life)

  -- A store is made in an empty directory, on a kernel that fails no call, and lives through fewer
  -- than 2^64 events: calls of `set` and `remove` (with doubles of eight bytes and 64-bit times)
  -- that return, or throw with nothing done, snapshots of memories that fit the file's fields, and
  -- crashes of the process at any point of a call or of a snapshot, or between calls, each
  -- followed by a start that succeeds, on a kernel that fails no call; whatever the kernel answers
  -- otherwise, and in whatever order the maps are gone through. Then there is a list of calls that
  -- explains what the clients saw, each call that returned and any of those that a crash cut off,
  -- in their order; `get` answers for each key the last value that these calls left it, if any,
  -- and `historyCount` the length of its history, cut to the limit; and in the memory each key
  -- stands once, with a history that is not empty and no longer than a limit above zero.
  pub Life-Lived : length xs < 2 ^ 64 → Lived limit xs w
  Life-Lived small = Goes-Lived (goes small)

Life-append :
    {u v w : World} {xs : List Event} {x : Event}
    → Life u xs v
    → Step v x w
    → Life u (xs ++ x ∷ []) w
Life-append {w = w} {x = x} (stop u) st = then x [] st (stop w)
Life-append (then y ys step rest) st = then y _ step (Life-append rest st)

-- A store is made in an empty directory, on a kernel that fails no call, and lives through fewer
-- than 2^64 - 1 events of the kinds that `Step` has (calls, snapshots, crashes, restarts). Then,
-- in any next call of `set` or `remove` (with a double of eight bytes and a 64-bit time), let the
-- kernel answer as it will and the process end: the next start, on a kernel that fails no call,
-- makes an engine; and there is a list of calls that explains what the clients saw, this call
-- among those that a crash cut off, and that the engine's `get` and `historyCount` answer by.
pub Life-goes_on :
    (listing order : Table → Table) (limit sync_every_n sync : ℕ) (synced synced2 : List ℕ)
    (e : StorageEngine) (d : Disk) (directory : Directory) (w : World) (xs : List Event) (c : Call)
    (script : List Answer)
    → IsOrder listing
    → IsOrder order
    → construct listing limit sync_every_n none (served [] synced) ≡ some (done e, d)
    → directory.snap ≡ none
    → Life (record { engine = e; directory = directory }) xs w
    → IsCall c
    → suc (length xs) < 2 ^ 64
    → (f : StorageEngine) × (disk : Disk) × (construct order limit sync
          (content w.directory.snap)
          (served (left (perform c (on_kernel script w.engine)).1) synced2)
        ≡ some (done f, disk))
      × Lived limit (xs ++ cut_off c ∷ []) (record w { engine = f })
Life-goes_on listing order limit sync_every_n sync synced synced2 e d directory w xs c script o1 o2
      begun empty life is_call small =
    let g =
      goes listing limit sync_every_n synced e d directory w xs o1 begun empty life
        (omega (arith, small)) in
    let after = perform-After c (Lives-on_kernel script g.lives) (omega (arith, small)) is_call in
    let begins =
      construct-Begins (suc (length xs + 0)) w.engine.max_history (content w.directory.snap) _
        after.histories order sync o2 after.holds (omega (arith, small)) synced2 in
    let again : construct order limit sync (content w.directory.snap)
          (served (left (perform c (on_kernel script w.engine)).1) synced2)
        ≡ some (done begins.engine, begins.disk) =
      subst
        (λ (n : ℕ).
          construct order n sync (content w.directory.snap)
            (served (left (perform c (on_kernel script w.engine)).1) synced2)
          ≡ some (done begins.engine, begins.disk))
        g.limit_lem begins.eq in
    (
      begins.engine,
      begins.disk,
      again,
      Life-Lived listing limit sync_every_n synced e d directory
          (record w { engine = begins.engine }) (xs ++ cut_off c ∷ []) o1 begun empty
          (Life-append life
            (cut_call c script order sync synced2 begins.engine begins.disk is_call o2 begins.eq))
          (omega (arith, small, length-append xs (cut_off c ∷ []))),
    )
