-- ===== src/Engine/Capped.antt =====
-- The cap on a key's history.
use lite_speed_store.Base.{
  ℕ, ◌≤◌, ◌<◌, sym, subst, arith, Bool, true, false, inl, inr, Option, none, some, List, [], ◌∷◌,
  All, length, length-append, length-drop, drop, ◌==◌, equal_bytes, Bool-cases, if◌then◌else◌,
}
use lite_speed_store.Engine.{
  Record, Table, StorageEngine, Reply, push_capped, append_capped, alter, erase, set, remove,
}
use lite_speed_store.Engine.Recover.{Image, load_history, load_state, loaded, replay}
use lite_speed_store.Engine.Answers.{Changes, set-Changes, remove-Changes, new_record}
use lite_speed_store.Wal.{put, delete}
use lite_speed_store.Wal.Format.{type_byte}
use lite_speed_store.Wal.Walk.{Visit}

-- With a limit, no history of the map is longer.
abbrev pub IsCapped : ℕ → Table → Type 0
IsCapped limit t = 0 < limit → All (λ (p : List ℕ × List Record). length p.1 ≤ limit) t

pub push_capped-le :
    (limit : ℕ) (r : Record) (h : List Record)
    → 0 < limit
    → length h ≤ limit
    → length (push_capped limit r h) ≤ limit
unfolding push_capped
push_capped-le limit r h some_limit le =
    let long = length-append (drop 1 h) (r ∷ []) in
    let longer = length-append h (r ∷ []) in
    let shorter = length-drop 1 h in ground (arith, long, longer, shorter)

pub alter-All :
    (P : List Record → Type 0) (key : List ℕ) (f : List Record → List Record) (t : Table)
    → ((h : List Record) → P h → P (f h))
    → P (f [])
    → All (λ (p : List ℕ × List Record). P p.1) t
    → All (λ (p : List ℕ × List Record). P p.1) (alter key f t)
unfolding alter
alter-All P key f [] keeps base a = (base, tt)
alter-All P key f ((k, h) ∷ t) keeps base (x, a) = elim (Bool-cases (equal_bytes key k)) [
  | inl e ↦ rw (alter, e) (keeps h x, a)
  | inr e ↦ rw (alter, e) (x, alter-All P key f t keeps base a)
]

pub erase-All :
    (P : List Record → Type 0) (key : List ℕ) (t : Table)
    → All (λ (p : List ℕ × List Record). P p.1) t
    → All (λ (p : List ℕ × List Record). P p.1) (erase key t)
unfolding erase
erase-All P key [] a = tt
erase-All P key ((k, h) ∷ t) (x, a) = elim (Bool-cases (equal_bytes key k)) [
  | inl e ↦ rw (erase, e) (erase-All P key t a)
  | inr e ↦ rw (erase, e) (x, erase-All P key t a)
]

append_capped-IsCapped :
    (limit : ℕ) (key : List ℕ) (r : Record) (t : Table)
    → IsCapped limit t
    → IsCapped limit (append_capped limit key r t)
unfolding append_capped
append_capped-IsCapped limit key r t c pos =
    alter-All (λ (h : List Record). length h ≤ limit) key (push_capped limit r) t
      (λ h le. push_capped-le limit r h pos le) (push_capped-le limit r [] pos (omega arith))
      (c pos)

erase-IsCapped :
    (limit : ℕ) (key : List ℕ) (t : Table) → IsCapped limit t → IsCapped limit (erase key t)
erase-IsCapped limit key t c pos = erase-All (λ (h : List Record). length h ≤ limit) key t (c pos)

Changes-IsCapped {ℓ} :
    {A : Type ℓ} {e e' : StorageEngine} {reply : Reply A} {answer : A} {t : Table}
    → Changes e e' reply answer t
    → IsCapped e.max_history e.table
    → IsCapped e.max_history t
    → IsCapped e'.max_history e'.table
Changes-IsCapped {e = e} {e' = e'} {t = t} c old new =
    subst (λ (n : ℕ). IsCapped n e'.table) (sym c.limit)
      (elim c.outcome [
        | inl (_, is) ↦ subst (IsCapped e.max_history) (sym is) new
        | inr (_, _, is) ↦ subst (IsCapped e.max_history) (sym is) old
      ])

-- If no history is longer than a limit above zero, none is after a `set`, whether it returns or
-- throws.
pub set-IsCapped :
    (e : StorageEngine) (key value duration : List ℕ) (now : ℕ)
    → IsCapped e.max_history e.table
    → IsCapped (set e key value duration now).1.max_history (set e key value duration now).1.table
set-IsCapped e key value duration now c =
    Changes-IsCapped (set-Changes e key value duration now) c
      (append_capped-IsCapped e.max_history key (new_record value duration now) e.table c)

pub remove-IsCapped :
    (e : StorageEngine) (key : List ℕ) (now : ℕ)
    → IsCapped e.max_history e.table
    → IsCapped (remove e key now).1.max_history (remove e key now).1.table
remove-IsCapped e key now c =
    Changes-IsCapped (remove-Changes e key now) c (erase-IsCapped e.max_history key e.table c)

load_history-IsCapped :
    (limit : ℕ) (key : List ℕ) (h : List Record) (t : Table)
    → IsCapped limit t
    → IsCapped limit (load_history limit key h t)
unfolding load_history
load_history-IsCapped limit key [] t c = c
load_history-IsCapped limit key (r ∷ h) t c =
    load_history-IsCapped limit key h (append_capped limit key r t)
      (append_capped-IsCapped limit key r t c)

load_state-IsCapped :
    (limit : ℕ) (s t : Table) → IsCapped limit t → IsCapped limit (load_state limit s t)
unfolding load_state
load_state-IsCapped limit [] t c = c
load_state-IsCapped limit ((key, h) ∷ s) t c =
    load_state-IsCapped limit s (load_history limit key h t) (load_history-IsCapped limit key h t c)

pub loaded-IsCapped : (limit : ℕ) (image : Option Image) → IsCapped limit (loaded limit image)
unfolding loaded
loaded-IsCapped limit none = λ pos. tt
loaded-IsCapped limit (some image) = load_state-IsCapped limit image.state [] (λ pos. tt)

pub if_holds : (P : Table → Type 0) (b : Bool) (s t : Table) → P s → P t → P (if b then s else t)
if_holds P true s t c d = c
if_holds P false s t c d = d

pub replay-IsCapped :
    (limit : ℕ) (v : Visit) (t : Table) → IsCapped limit t → IsCapped limit (replay limit v t)
unfolding replay
replay-IsCapped limit v t c =
    if_holds (IsCapped limit) (v.type == type_byte put) _ _
      (append_capped-IsCapped limit v.key _ t c)
      (if_holds (IsCapped limit) (v.type == type_byte delete) _ t (erase-IsCapped limit v.key t c)
        c)
