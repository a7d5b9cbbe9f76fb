-- ===== src/Sha256/Stream.antt =====
-- The context between calls of `update`, and the size of a digest.
use lite_speed_store.Base.{
  zero, suc, ◌+◌, ◌*◌, ◌⊎◌, inl, inr, arith, none, some, get_elem?, Option-cases, ℕ, ◌≡◌, refl,
  List, [], ◌∷◌, ◌++◌, length,
}
use lite_speed_store.Sha256.{Sha256, update, update_byte, digest, finish, digest_from, word_bytes}

-- From any state of the SHA-256 context, two calls of `update` are one call on the two buffers,
-- one after the other.
pub update-append : (c : Sha256) (xs ys : List ℕ) → update (update c xs) ys ≡ update c (xs ++ ys)
unfolding update
update-append c [] ys = refl
update-append c (x ∷ xs) ys = update-append (update_byte c x) xs ys

length-digest_from :
    (left i : ℕ) (state : List ℕ)
    → (digest_from left i state ≡ none)
      ⊎ ((out : List ℕ) × (digest_from left i state ≡ some out) × (length out ≡ left * 4))
unfolding digest_from word_bytes
length-digest_from zero i state = inr ([], refl, refl)
length-digest_from (suc left) i state = elim (Option-cases (get_elem? state i)) [
  | inl h ↦ inl (rw h refl)
  | inr (w, h) ↦ elim (length-digest_from left (i + 1) state) [
    | inl k ↦ inl (rw (h, k) refl)
    | inr (out, k, size) ↦ inr (word_bytes w ++ out, rw (h, k) refl, omega (arith, size))
  ]
]

pub length-digest : (c : Sha256) → length (digest c) ≡ 32
unfolding digest
length-digest c = elim (length-digest_from 8 0 (finish c).state) [
  | inl h ↦ rw (length, digest, h) refl
  | inr (out, h, size) ↦ rw (length, digest, h) size
]
