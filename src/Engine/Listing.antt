-- ===== src/Engine/Listing.antt =====
-- What is assumed of the order in which a std::unordered_map is gone through, and the loop of
-- exportSnapshotState in any such order.
use lite_speed_store.Base.{
  ◌≡◌, refl, sym, ap, ◌∙◌, subst, inl, inr, some_inv, none-ne-some, some, List, ℕ, [], ◌∷◌, ◌++◌,
  append_assoc, append-nil, map, length, All, equal_bytes, equal_bytes_refl, equal_bytes→eq,
  Bool-cases,
}
use lite_speed_store.Engine.{Record, Table, find}
use lite_speed_store.Engine.Distinct.{IsDistinct, find-front, alter_new}
use lite_speed_store.Engine.Table.{equal_bytes-ne}
use lite_speed_store.Engine.Snapshot.{copy, export_state}

-- Each key of a map is gone through once, with its history.
pub record IsOrder (order : Table → Table) : Type 0 where
  pub distinct : (t : Table) → IsDistinct t → IsDistinct (order t)
  pub same : (t : Table) → IsDistinct t → (key : List ℕ) → find key (order t) ≡ find key t
  pub count : (t : Table) → IsDistinct t → length (order t) ≡ length t

module _ {ℓ} (P : List ℕ × List Record → Type ℓ) where
  All-find :
      (t : Table) (key : List ℕ) (h : List Record) → All P t → find key t ≡ some h → P (key, h)
  unfolding find
  All-find [] key h a e = absurd (none-ne-some e)
  All-find ((k, g) ∷ t) key h a e = elim (Bool-cases (equal_bytes key k)) [
    | inl o ↦
        let same : g ≡ h = some_inv (sym (rw (find, o) at e)) in
        let is = equal_bytes→eq key k o in
        subst (λ (x : List ℕ). P (x, h)) (sym is) (subst (λ (x : List Record). P (k, x)) same a.0)
    | inr o ↦ All-find t key h a.1 (rw (find, o) at e)
  ]

  find-All :
      (t : Table)
      → IsDistinct t
      → ((key : List ℕ) (h : List Record) → find key t ≡ some h → P (key, h))
      → All P t
  unfolding find
  find-All [] d has = tt
  find-All ((k, g) ∷ t) d has = (
    has k g (rw (find, equal_bytes_refl k)),
    find-All t d.1 (λ key h e.
        let apart =
          equal_bytes-ne key k
            (λ is. none-ne-some (sym d.0 ∙ ap (λ (x : List ℕ). find x t) (sym is) ∙ e)) in
        has key h (rw (find, apart) e)),
  )

  -- What holds of each history holds of them in any order.
  pub order-All :
      (order : Table → Table) (t : Table) → IsOrder order → IsDistinct t → All P t → All P (order t)
  order-All order t o d a =
      find-All (order t) (o.distinct t d) (λ key h e. All-find t key h a (sym (o.same t d key) ∙ e))

map-copy : (h : List Record) → map copy h ≡ h
map-copy [] = refl
map-copy (r ∷ h) = ap (λ (t : List Record). r ∷ t) (map-copy h)

export_state-append :
    (front t : Table) → IsDistinct (front ++ t) → export_state front t ≡ front ++ t
unfolding export_state
export_state-append front [] d = sym (append-nil front)
export_state-append front ((k, h) ∷ t) d =
    let step =
      alter_new k (λ (g : List Record). g ++ map copy h) front (find-front front t k h d)
      ∙ ap (λ (g : List Record). front ++ (k, g) ∷ []) (map-copy h) in
    let flat = append_assoc front ((k, h) ∷ []) t in
    ap (λ (s : Table). export_state s t) step
    ∙ export_state-append (front ++ (k, h) ∷ []) t (subst IsDistinct (sym flat) d)
    ∙ flat

-- The copy of a map has its entries in the order in which they were gone through.
pub export_state_lem : (t : Table) → IsDistinct t → export_state [] t ≡ t
export_state_lem t d = export_state-append [] t d
