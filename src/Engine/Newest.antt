-- ===== src/Engine/Newest.antt =====
-- The newest records of a history: a push, the last one, and how many there are.
use lite_speed_store.Base.{
  ℕ, zero, suc, ◌+◌, ◌-◌, ◌≤◌, ◌<◌, ◌≡◌, refl, sym, ap, ◌∙◌, arith, inl, inr, List, [], ◌∷◌, ◌++◌,
  ◌==◌, if◌then◌else◌, length, length-append, length-drop, drop, drop-nil, drop-drop, Bool-cases,
  min, ltb, ltb→lt, ltb→le,
}
use lite_speed_store.Engine.{Record, back, push_capped, unlimited_history}
use lite_speed_store.Engine.Saved.{push_capped-room}
use lite_speed_store.Engine.Spec.{newest}

drop-append_le :
    {A : Type 0} (n : ℕ) (xs ys : List A) → n ≤ length xs → drop n (xs ++ ys) ≡ drop n xs ++ ys
drop-append_le zero xs ys h = refl
drop-append_le (suc n) [] ys h = absurd (omega arith)
drop-append_le (suc n) (x ∷ xs) ys h = drop-append_le n xs ys (omega arith)

newest_none : (r : Record) (h : List Record) → push_capped 0 r (newest 0 h) ≡ newest 0 (h ++ r ∷ [])
unfolding push_capped newest
newest_none r h = refl

newest_cut : (limit : ℕ) (h : List Record) → 0 < limit → newest limit h ≡ drop (length h - limit) h
unfolding newest
newest_cut limit h pos = ground (arith, pos)

push_capped-full :
    (limit : ℕ) (r : Record) (h : List Record)
    → 0 < limit
    → limit ≤ length h
    → push_capped limit r h ≡ drop 1 h ++ r ∷ []
unfolding push_capped
push_capped-full limit r h pos full = ground (arith, pos, full)

-- A push onto the newest records is the newest of a push.
pub push_capped-newest :
    (limit : ℕ) (r : Record) (h : List Record)
    → push_capped limit r (newest limit h) ≡ newest limit (h ++ r ∷ [])
push_capped-newest zero r h = newest_none r h
push_capped-newest (suc n) r h =
    let pos : 0 < suc n = omega arith in
    let long = length-append h (r ∷ []) in
    let g = drop (length h - suc n) h in
    let cut_length : length g ≡ length h - (length h - suc n) = length-drop (length h - suc n) h in
    ap (push_capped (suc n) r) (newest_cut (suc n) h pos)
    ∙ elim (Bool-cases (ltb (length h) (suc n))) [
      | inl room ↦
          let few = ltb→lt _ _ room in
          push_capped-room (suc n) r g (λ _. omega (arith, few, cut_length))
          ∙ sym (drop-append_le (length h - suc n) h (r ∷ []) (omega arith))
          ∙ ap (λ (k : ℕ). drop k (h ++ r ∷ [])) (omega (arith, few, long))
      | inr full ↦
          let many = ltb→le _ _ full in
          push_capped-full (suc n) r g pos (omega (arith, many, cut_length))
          ∙ ap (λ (t : List Record). t ++ r ∷ []) (drop-drop (length h - suc n) 1 h)
          ∙ sym (drop-append_le (length h - suc n + 1) h (r ∷ []) (omega (arith, many)))
          ∙ ap (λ (k : ℕ). drop k (h ++ r ∷ [])) (omega (arith, many, long))
    ]
    ∙ sym (newest_cut (suc n) (h ++ r ∷ []) pos)

pub newest_nil : (limit : ℕ) → newest limit [] ≡ []
unfolding newest
newest_nil limit = elim (Bool-cases (limit == unlimited_history)) [
  | inl e ↦ rw e
  | inr e ↦ rw e (drop-nil (0 - limit))
]

back-drop : (n : ℕ) (h : List Record) → n < length h → back (drop n h) ≡ back h
unfolding back
back-drop zero h lt = refl
back-drop (suc n) [] lt = absurd (omega arith)
back-drop (suc n) (x ∷ []) lt = absurd (omega arith)
back-drop (suc n) (x ∷ y ∷ h) lt = back-drop n (y ∷ h) (omega arith)

-- The last record and the number of records of the newest.
pub back-newest : (limit : ℕ) (h : List Record) → back (newest limit h) ≡ back h
unfolding newest
back-newest limit [] = ap back (newest_nil limit)
back-newest limit (x ∷ h) = elim (Bool-cases (limit == unlimited_history)) [
  | inl e ↦ rw e
  | inr e ↦ rw e (back-drop (suc (length h) - limit) (x ∷ h) (ground (arith, e)))
]

pub length-newest :
    (limit : ℕ) (h : List Record)
    → length (newest limit h)
      ≡ (if limit == unlimited_history then length h else min limit (length h))
unfolding newest
length-newest limit h = elim (Bool-cases (limit == unlimited_history)) [
  | inl e ↦ rw e
  | inr e ↦ rw e (omega (arith, length-drop (length h - limit) h))
]
