-- ===== src/Endian/Total.antt =====
-- Reads of an array that is long enough have a result.
use lite_speed_store.Base.{
  ℕ, zero, suc, ◌+◌, ◌*◌, ◌≤◌, ◌<◌, ◌≡◌, refl, arith, some, List, [], ◌∷◌, length, get_elem?,
  bit_or, u32, u64, shl,
}
use lite_speed_store.Endian.{get_le32, get_le64, get_le64_loop}

pub get_elem?-total {ℓ} :
    {A : Type ℓ} (p : List A) (i : ℕ) → i < length p → (a : A) × (get_elem? p i ≡ some a)
get_elem?-total [] i h = absurd (omega arith)
get_elem?-total (x ∷ p) zero h = (x, refl)
get_elem?-total (x ∷ p) (suc i) h = get_elem?-total p i (omega arith)

pub get_le32-total : (p : List ℕ) → 4 ≤ length p → (v : ℕ) × (get_le32 p ≡ some v)
unfolding get_le32
get_le32-total p h =
    let (a, ha) = get_elem?-total p 0 (omega arith) in
    let (b, hb) = get_elem?-total p 1 (omega arith) in
    let (c, hc) = get_elem?-total p 2 (omega arith) in
    let (d, hd) = get_elem?-total p 3 (omega arith) in
    (
      bit_or (bit_or (bit_or a (u32 (shl b 8))) (u32 (shl c 16))) (u32 (shl d 24)),
      rw (ha, hb, hc, hd),
    )

get_le64_loop-total :
    (left i v : ℕ) (p : List ℕ)
    → i + left ≤ length p
    → (r : ℕ) × (get_le64_loop left i v p ≡ some r)
unfolding get_le64_loop
get_le64_loop-total zero i v p h = (v, refl)
get_le64_loop-total (suc left) i v p h =
    let (a, ha) = get_elem?-total p i (omega arith) in
    let (r, hr) =
      get_le64_loop-total left (i + 1) (bit_or v (u64 (shl a (8 * i)))) p (omega arith) in
    (r, simp (ha, hr))

pub get_le64-total : (p : List ℕ) → 8 ≤ length p → (v : ℕ) × (get_le64 p ≡ some v)
unfolding get_le64
get_le64-total p h = get_le64_loop-total 8 0 0 p (omega arith)
