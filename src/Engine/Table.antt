-- ===== src/Engine/Table.antt =====
-- The laws of the engine's map.
use lite_speed_store.Base.{
  ◌≡◌, ◌≢◌, refl, sym, ◌∙◌, false, inl, inr, Option, none, some, List, ℕ, [], ◌∷◌, ◌++◌,
  equal_bytes, equal_bytes_refl, equal_bytes→eq, Bool-cases,
}
use lite_speed_store.Engine.{Record, Table, find, alter, erase, back}

-- The history that operator[] finds or makes.
unfoldable pub history_of : Option (List Record) → List Record
history_of none = []
history_of (some history) = history

pub equal_bytes-ne : (key k : List ℕ) → key ≢ k → equal_bytes key k ≡ false
equal_bytes-ne key k ne = elim (Bool-cases (equal_bytes key k)) [
  | inl e ↦ absurd (ne (equal_bytes→eq key k e))
  | inr e ↦ e
]

pub find-alter_same :
    (key : List ℕ) (f : List Record → List Record) (t : Table)
    → find key (alter key f t) ≡ some (f (history_of (find key t)))
unfolding find alter history_of
find-alter_same key f [] = rw (alter, find, equal_bytes_refl key)
find-alter_same key f ((k, history) ∷ rest) = elim (Bool-cases (equal_bytes key k)) [
  | inl e ↦ rw (alter, e, find, e)
  | inr e ↦ rw (alter, e, find, e) (find-alter_same key f rest)
]

pub find-alter_other :
    (key other : List ℕ) (f : List Record → List Record) (t : Table)
    → other ≢ key
    → find other (alter key f t) ≡ find other t
unfolding find alter
find-alter_other key other f [] ne = rw (alter, find, equal_bytes-ne other key ne)
find-alter_other key other f ((k, history) ∷ rest) ne = elim (Bool-cases (equal_bytes key k)) [
  | inl e ↦
      let apart = equal_bytes-ne other k (λ p. ne (p ∙ sym (equal_bytes→eq key k e))) in
      rw (alter, e, find, apart)
  | inr e ↦ elim (Bool-cases (equal_bytes other k)) [
    | inl o ↦ rw (alter, e, find, o)
    | inr o ↦ rw (alter, e, find, o) (find-alter_other key other f rest ne)
  ]
]

pub find-erase_same : (key : List ℕ) (t : Table) → find key (erase key t) ≡ none
unfolding find erase
find-erase_same key [] = refl
find-erase_same key ((k, history) ∷ rest) = elim (Bool-cases (equal_bytes key k)) [
  | inl e ↦ rw (erase, e) (find-erase_same key rest)
  | inr e ↦ rw (erase, e, find, e) (find-erase_same key rest)
]

pub find-erase_other :
    (key other : List ℕ) (t : Table) → other ≢ key → find other (erase key t) ≡ find other t
unfolding find erase
find-erase_other key other [] ne = refl
find-erase_other key other ((k, history) ∷ rest) ne = elim (Bool-cases (equal_bytes key k)) [
  | inl e ↦
      let apart = equal_bytes-ne other k (λ p. ne (p ∙ sym (equal_bytes→eq key k e))) in
      rw (erase, e, find, apart) (find-erase_other key other rest ne)
  | inr e ↦ elim (Bool-cases (equal_bytes other k)) [
    | inl o ↦ rw (erase, e, find, o)
    | inr o ↦ rw (erase, e, find, o) (find-erase_other key other rest ne)
  ]
]

pub back-append : (h : List Record) (r : Record) → back (h ++ r ∷ []) ≡ some r
unfolding back
back-append [] r = refl
back-append (x ∷ []) r = refl
back-append (x ∷ y ∷ h) r = back-append (y ∷ h) r
