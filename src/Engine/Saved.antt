-- ===== src/Engine/Saved.antt =====
-- What the engine's start rebuilds from an image: the map that the image was made of.
use lite_speed_store.Base.{
  ℕ, ◌≤◌, ◌<◌, ◌≡◌, sym, ap, ◌∙◌, subst, arith, List, [], ◌∷◌, ◌++◌, append_assoc, append-nil,
  length, length-append, All, none,
}
use lite_speed_store.Engine.{Record, Table, find, push_capped, append_capped}
use lite_speed_store.Engine.Recover.{load_history, load_state}
use lite_speed_store.Engine.Distinct.{IsDistinct, find-front, alter_new, alter_last}

-- A history as the engine keeps one: not empty, and no longer than a limit above zero.
abbrev pub IsKept : ℕ → List ℕ × List Record → Type 0
IsKept limit p = (0 < length p.1) × (0 < limit → length p.1 ≤ limit)

pub push_capped-room :
    (limit : ℕ) (r : Record) (h : List Record)
    → (0 < limit → length h < limit)
    → push_capped limit r h ≡ h ++ r ∷ []
unfolding push_capped
push_capped-room limit r h room = ground (arith, room)

load_history-last :
    (limit : ℕ) (key : List ℕ) (rs h : List Record) (front : Table)
    → find key front ≡ none
    → (0 < limit → length (h ++ rs) ≤ limit)
    → load_history limit key rs (front ++ (key, h) ∷ []) ≡ front ++ (key, h ++ rs) ∷ []
unfolding load_history append_capped
load_history-last limit key [] h front new room =
    ap (λ (t : List Record). front ++ (key, t) ∷ []) (sym (append-nil h))
load_history-last limit key (r ∷ rs) h front new room =
    let long = length-append h (r ∷ rs) in
    let step =
      alter_last key (push_capped limit r) front h new
      ∙ ap (λ (t : List Record). front ++ (key, t) ∷ [])
          (push_capped-room limit r h (λ pos. omega (arith, long, room pos))) in
    let flat = append_assoc h (r ∷ []) rs in
    ap (load_history limit key rs) step
    ∙ load_history-last limit key rs (h ++ r ∷ []) front new
        (λ pos. omega (arith, ap length flat, room pos))
    ∙ ap (λ (t : List Record). front ++ (key, t) ∷ []) flat

load_history-new :
    (limit : ℕ) (key : List ℕ) (h : List Record) (front : Table)
    → find key front ≡ none
    → IsKept limit (key, h)
    → load_history limit key h front ≡ front ++ (key, h) ∷ []
unfolding load_history append_capped
load_history-new limit key [] front new (some_records, room) = absurd (omega (arith, some_records))
load_history-new limit key (r ∷ rs) front new (some_records, room) =
    ap (load_history limit key rs) (
      alter_new key (push_capped limit r) front new
      ∙ ap (λ (t : List Record). front ++ (key, t) ∷ []) (push_capped-room limit r [] (λ pos. pos)))
    ∙ load_history-last limit key rs (r ∷ []) front new room

load_state-append :
    (limit : ℕ) (front t : Table)
    → IsDistinct (front ++ t)
    → All (IsKept limit) t
    → load_state limit t front ≡ front ++ t
unfolding load_state
load_state-append limit front [] d a = sym (append-nil front)
load_state-append limit front ((k, h) ∷ t) d a =
    let flat = append_assoc front ((k, h) ∷ []) t in
    ap (load_state limit t) (load_history-new limit k h front (find-front front t k h d) a.0)
    ∙ load_state-append limit (front ++ (k, h) ∷ []) t (subst IsDistinct (sym flat) d) a.1
    ∙ flat

-- Each key once, each history as the engine keeps one: the start's loops rebuild the image's map.
pub load_state_lem :
    (limit : ℕ) (t : Table) → IsDistinct t → All (IsKept limit) t → load_state limit t [] ≡ t
load_state_lem limit t d a = load_state-append limit [] t d a
