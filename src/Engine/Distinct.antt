-- ===== src/Engine/Distinct.antt =====
-- Maps with each key once: what the engine's map is, and how a map is built entry by entry.
use lite_speed_store.Base.{
  ℕ, ◌≡◌, ◌≢◌, refl, sym, ap, ◌∙◌, false, inl, inr, none, List, [], ◌∷◌, ◌++◌, equal_bytes,
  equal_bytes_refl, Bool-cases, none-ne-some,
}
use lite_speed_store.Engine.{Record, Table, find, alter, erase}
use lite_speed_store.Engine.Table.{equal_bytes-ne, find-alter_other, find-erase_other}

-- Each key stands once.
abbrev pub IsDistinct : Table → Type 0
IsDistinct [] = Unit
IsDistinct ((k, h) ∷ t) = (find k t ≡ none) × IsDistinct t

ne_of_test : (key k : List ℕ) → equal_bytes key k ≡ false → k ≢ key
ne_of_test key k h e = cc (sym h ∙ ap (equal_bytes key) e ∙ equal_bytes_refl key)

find-append :
    (k : List ℕ) (s t : Table) → find k (s ++ t) ≡ none → (find k s ≡ none) × (find k t ≡ none)
unfolding find
find-append k [] t h = (refl, h)
find-append k ((j, x) ∷ s) t h = elim (Bool-cases (equal_bytes k j)) [
  | inl e ↦ absurd (none-ne-some (sym (rw (find, e) at h)))
  | inr e ↦ rw (find, e) (find-append k s t (rw (find, e) at h))
]

find-cons_none : (k j : List ℕ) (x : List Record) (t : Table) → find k ((j, x) ∷ t) ≡ none → k ≢ j
unfolding find
find-cons_none k j x t h e = elim (Bool-cases (equal_bytes k j)) [
  | inl p ↦ none-ne-some (sym (rw (find, p) at h))
  | inr p ↦ ne_of_test k j p (sym e)
]

-- The entries in front of an entry are of other keys.
pub find-front :
    (front t : Table) (key : List ℕ) (h : List Record)
    → IsDistinct (front ++ (key, h) ∷ t)
    → find key front ≡ none
unfolding find
find-front [] t key h d = refl
find-front ((k, x) ∷ front) t key h d =
    let apart = find-cons_none k key h t (find-append k front ((key, h) ∷ t) d.0).1 in
    rw (find, equal_bytes-ne key k (λ e. apart (sym e))) (find-front front t key h d.1)

-- A new key goes to the end, and the last entry can be changed.
pub alter_new :
    (key : List ℕ) (f : List Record → List Record) (front : Table)
    → find key front ≡ none
    → alter key f front ≡ front ++ (key, f []) ∷ []
unfolding find alter
alter_new key f [] h = refl
alter_new key f ((k, x) ∷ front) h = elim (Bool-cases (equal_bytes key k)) [
  | inl e ↦ absurd (none-ne-some (sym (rw (find, e) at h)))
  | inr e ↦
      rw (alter, e) (ap (λ (t : Table). (k, x) ∷ t) (alter_new key f front (rw (find, e) at h)))
]

pub alter_last :
    (key : List ℕ) (f : List Record → List Record) (front : Table) (h : List Record)
    → find key front ≡ none
    → alter key f (front ++ (key, h) ∷ []) ≡ front ++ (key, f h) ∷ []
unfolding find alter
alter_last key f [] h e = rw (alter, equal_bytes_refl key)
alter_last key f ((k, x) ∷ front) h n = elim (Bool-cases (equal_bytes key k)) [
  | inl e ↦ absurd (none-ne-some (sym (rw (find, e) at n)))
  | inr e ↦
      rw (alter, e) (ap (λ (t : Table). (k, x) ∷ t) (alter_last key f front h (rw (find, e) at n)))
]

pub alter-IsDistinct :
    (key : List ℕ) (f : List Record → List Record) (t : Table)
    → IsDistinct t
    → IsDistinct (alter key f t)
unfolding alter find
alter-IsDistinct key f [] d = (refl, tt)
alter-IsDistinct key f ((k, h) ∷ t) d = elim (Bool-cases (equal_bytes key k)) [
  | inl e ↦ rw (alter, e) d
  | inr e ↦
      rw (alter, e)
        (find-alter_other key k f t (ne_of_test key k e) ∙ d.0, alter-IsDistinct key f t d.1)
]

pub erase-IsDistinct : (key : List ℕ) (t : Table) → IsDistinct t → IsDistinct (erase key t)
unfolding erase
erase-IsDistinct key [] d = tt
erase-IsDistinct key ((k, h) ∷ t) d = elim (Bool-cases (equal_bytes key k)) [
  | inl e ↦ rw (erase, e) (erase-IsDistinct key t d.1)
  | inr e ↦
      rw (erase, e)
        (find-erase_other key k t (ne_of_test key k e) ∙ d.0, erase-IsDistinct key t d.1)
]
