-- ===== src/Life/Ends.antt =====
-- The files, and the engine, after a client's call.
use lite_speed_store.Base.{
  ℕ, suc, ◌^◌, ◌≤◌, ◌<◌, ◌≡◌, refl, sym, ap, ◌∙◌, subst, arith, Bool, true, false, ◌⊎◌, inl, inr,
  Option, some, List, [], ◌∷◌, ◌++◌, append-nil, length, length-append, take, All, if◌then◌else◌,
  zero,
}
use lite_speed_store.Wal.{Wal, Outcome, returned, thrown, Error, zero_hash}
use lite_speed_store.Wal.Format.{Entry, entry_bytes}
use lite_speed_store.Wal.Append.{next_entry, append}
use lite_speed_store.Wal.Log.{replay_entry, log_head}
use lite_speed_store.Wal.Fields.{IsEntry}
use lite_speed_store.Wal.Halts.{journal}
use lite_speed_store.Wal.Writes.{IsWriter, Rejected, Extended, Broken, append_cases}
use lite_speed_store.Engine.{StorageEngine, find}
use lite_speed_store.Engine.Recover.{Image, replay, epoch_of}
use lite_speed_store.Engine.Restart.{rebuilt, rebuilt-append, append-epoch}
use lite_speed_store.Engine.Kept.{perform-IsTable}
use lite_speed_store.Engine.Refines.{cut, Refines, perform-Refines}
use lite_speed_store.Engine.Spec.{Histories, Call, promised, perform}
use lite_speed_store.Life.{IsCall, left, log_bytes}
use lite_speed_store.Life.Means.{Means, MeansAll, Torn, IsOld, Holds, Lives}
use lite_speed_store.Life.Calls.{Replays, Logs, perform_cases, perform-limit, next_entry-epoch}

pub later : {n epoch : ℕ} {es : List Entry} → IsOld n epoch es → IsOld (suc n) epoch es
later i = record { few = omega (arith, i.few); early = omega (arith, i.early); old = i.old }

All-append {ℓ} :
    {A : Type ℓ} (P : A → Type 0) (xs : List A) (x : A) → All P xs → P x → All P (xs ++ x ∷ [])
All-append P [] x a p = (p, tt)
All-append P (y ∷ xs) x a p = (a.0, All-append P xs x a.1 p)

IsOld-append :
    {n epoch : ℕ} {es : List Entry} (x : Entry)
    → x.epoch ≡ epoch
    → IsOld n epoch es
    → IsOld (suc n) epoch (es ++ x ∷ [])
IsOld-append {epoch = epoch} {es = es} x e i = record {
  few = omega (arith, i.few, length-append es (x ∷ []));
  early = omega (arith, i.early);
  old = All-append (λ (y : Entry). y.epoch ≤ epoch) es x i.old (omega (arith, e));
}

Means-append :
    {limit epoch : ℕ} {image : Option Image} {es : List Entry} {s : Histories} (c : Call)
    (x : Entry)
    → x.epoch ≡ epoch
    → Replays c x
    → Means limit image es epoch s
    → Means limit image (es ++ x ∷ []) epoch (promised c s)
Means-append {limit = limit} {image = image} {es = es} {s = s} c x e replays m =
    let t = rebuilt limit image es in
    let t' = replay_entry (some (replay limit)) (epoch_of image) x t in
    record {
      newer = m.newer;
      next = m.next;
      same = λ key.
          ap (find key) (sym (rebuilt-append limit image es x t t' refl refl))
          ∙ replays limit (epoch_of image) t s (rw e m.newer) m.same key;
    }

-- A log whose file is the journal of the entries holds what the engine has.
whole-Holds :
    {n limit : ℕ} {file : Option (List ℕ)} {w : Wal} {es : List Entry} {s : Histories}
    (bytes : List ℕ)
    → bytes ≡ w.disk.bytes
    → n < 2 ^ 64
    → IsWriter w es
    → IsOld n w.epoch es
    → MeansAll limit file es w.epoch s
    → Holds n limit file bytes s
whole-Holds {w = w} {es = es} bytes same small i old means = record {
  entries = es;
  tail = [];
  is_left = record {
    log = i.log;
    small = omega (arith, old.few, small);
    bytes_lem = same ∙ i.bytes ∙ sym (append-nil (journal es));
  };
  ending = inl refl;
  epoch = w.epoch;
  is_old = old;
  means = means;
}

pub lives-Holds :
    {n : ℕ} {e : StorageEngine} {file : Option (List ℕ)} {s : Histories}
    → n < 2 ^ 64
    → Lives n e file s
    → Holds n e.max_history file (left e) s
lives-Holds {e = e} small l =
    whole-Holds (left e) (ap log_bytes l.has) small l.writer l.is_old l.means

pub Holds-later :
    {n limit : ℕ} {file : Option (List ℕ)} {bytes : List ℕ} {s : Histories}
    → Holds n limit file bytes s
    → Holds (suc n) limit file bytes s
Holds-later h = record {
  entries = h.entries;
  tail = h.tail;
  is_left = h.is_left;
  ending = h.ending;
  epoch = h.epoch;
  is_old = later h.is_old;
  means = h.means;
}

-- The files after a call; and the engine, if the call returned.
pub record After (n : ℕ) (e : StorageEngine) (file : Option (List ℕ)) (s : Histories) (c : Call)
    : Type 0 where
  pub histories : Histories
  pub which : (histories ≡ s) ⊎ (histories ≡ promised c s)
  pub holds : Holds (suc n) e.max_history file (left (perform c e).1) histories
  pub lives : (perform c e).0 ≡ true → Lives (suc n) (perform c e).1 file (promised c s)

broken_tail :
    (es : List Entry) (x : Entry) (cut : ℕ)
    → IsEntry x
    → cut < length (entry_bytes (log_head zero_hash es) x)
    → (take cut (entry_bytes (log_head zero_hash es) x) ≡ [])
      ⊎ Torn es (take cut (entry_bytes (log_head zero_hash es) x))
broken_tail es x zero i short = inl refl
broken_tail es x (suc cut) i short = inr (record {
  entry = x;
  cut = suc cut;
  some_bytes = omega arith;
  short = short;
  is_entry = i;
  tail_lem = refl;
})

thrown-ne-returned : {x : Error} → ◌≡◌ {A = Outcome (Unit {0})} (thrown x) (returned tt) → ⊥
thrown-ne-returned e = cc

false-ne-true : {b : Bool} → b ≡ false → b ≡ true → ⊥
false-ne-true e h = cc

module _ {n : ℕ} {e : StorageEngine} {file : Option (List ℕ)} {s : Histories} (c : Call)
    (l : Lives n e file s) (small : suc n < 2 ^ 64) where
  abbrev held : Holds (suc n) e.max_history file (left e) s
  held = whole-Holds (left e) (ap log_bytes l.has) small l.writer (later l.is_old) l.means

  unchanged-After : perform c e ≡ (false, e) → After n e file s c
  unchanged-After is = record {
    histories = s;
    which = inl refl;
    holds =
        subst (λ (b : List ℕ). Holds (suc n) e.max_history file b s)
          (ap (λ (p : Bool × StorageEngine). left p.1) (sym is)) held;
    lives = λ h. absurd (false-ne-true (ap (λ (p : Bool × StorageEngine). p.0) is) h);
  }

  module _ (g : Logs c e l.log) where
    abbrev p : Outcome (Unit {0}) × Wal
    p = append l.log g.type g.key g.value g.now

    abbrev new : Entry
    new = next_entry l.log g.type g.key g.value g.now

    left_lem : left (perform c e).1 ≡ p.1.disk.bytes
    left_lem = ap log_bytes g.wal

    abbrev means : MeansAll e.max_history file (l.entries ++ new ∷ []) l.log.epoch (promised c s)
    means = λ listing order.
        Means-append c new (next_entry-epoch l.log g.type g.key g.value g.now) g.replays
          (l.means listing order)

    never : {x : Error} → p.0 ≡ thrown x → (perform c e).0 ≡ true → ⊥
    never e h = thrown-ne-returned (sym e ∙ g.answered h)

    Rejected-After : Rejected l.log g.type g.key g.value g.now → After n e file s c
    Rejected-After r = record {
      histories = s;
      which = inl refl;
      holds =
          whole-Holds (left (perform c e).1)
            (left_lem ∙ ap (λ (x : Outcome (Unit {0}) × Wal). x.1.disk.bytes) r.eq) small l.writer
            (later l.is_old) l.means;
      lives = λ h. absurd (never (ap (λ (x : Outcome (Unit {0}) × Wal). x.0) r.eq) h);
    }

    Broken-After : Broken l.log g.type g.key g.value g.now l.entries → After n e file s c
    Broken-After b = record {
      histories = s;
      which = inl refl;
      holds = record {
        entries = l.entries;
        tail = _;
        is_left = record {
          log = l.writer.log;
          small = omega (arith, l.is_old.few, small);
          bytes_lem =
              left_lem ∙ ap (λ (x : Outcome (Unit {0}) × Wal). x.1.disk.bytes) b.eq ∙ b.bytes_lem;
        };
        ending = broken_tail l.entries new b.cut b.entry b.short;
        epoch = l.log.epoch;
        is_old = later l.is_old;
        means = l.means;
      };
      lives = λ h. absurd (never (ap (λ (x : Outcome (Unit {0}) × Wal). x.0) b.eq) h);
    }

    Extended-After :
        IsCall c → Extended l.log g.type g.key g.value g.now l.entries → After n e file s c
    Extended-After is_call x =
        let is = ap (λ (x : Outcome (Unit {0}) × Wal). x.1) x.eq in
        let epoch : x.next.epoch ≡ l.log.epoch =
          ap (λ (w : Wal). w.epoch) (sym is) ∙ append-epoch l.log g.type g.key g.value g.now in
        let old : IsOld (suc n) x.next.epoch (l.entries ++ new ∷ []) =
          rw epoch
            (IsOld-append new (next_entry-epoch l.log g.type g.key g.value g.now) l.is_old) in
        let next_means : MeansAll e.max_history file (l.entries ++ new ∷ []) x.next.epoch
            (promised c s) =
          rw epoch means in
        record {
          histories = promised c s;
          which = inr refl;
          holds =
              whole-Holds (left (perform c e).1) (left_lem ∙ ap (λ (w : Wal). w.disk.bytes) is)
                small x.writer old next_means;
          lives = λ h. record {
            log = x.next;
            has = g.wal ∙ ap some is;
            entries = l.entries ++ new ∷ [];
            writer = x.writer;
            is_old = old;
            means = rw (perform-limit c e) next_means;
            table = perform-IsTable c e l.table;
            refines =
                subst (λ (b : Bool). Refines (perform c e).1 (if b then promised c s else s)) h
                  (perform-Refines c e s l.refines);
          };
        }

  -- After a call, whatever the kernel answered, the files stand for the histories from before or
  -- for those with the call; if it returned, so do the engine and its files for the latter.
  pub perform-After : IsCall c → After n e file s c
  perform-After is_call = elim (perform_cases c e l.log l.has is_call) [
    | inl is ↦ unchanged-After is
    | inr g ↦
        elim (append_cases l.log g.type g.key g.value g.now l.entries l.writer
          (omega (arith, l.is_old.few, small)) g.stamp) [
            | inl r ↦ Rejected-After g r
            | inr (inl x) ↦ Extended-After g is_call x
            | inr (inr b) ↦ Broken-After g b
          ]
  ]
