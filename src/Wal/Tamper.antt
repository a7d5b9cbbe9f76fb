-- ===== src/Wal/Tamper.antt =====
-- Tamper evidence: two chains under one head are the same bytes, unless two different messages with
-- one SHA-256 digest are at hand.
use lite_speed_store.Base.{
  ℕ, suc, ◌≡◌, ◌≢◌, refl, sym, ap, ap₂, ◌∙◌, arith, true, false, ◌⊎◌, inl, inr, some, List, [], ◌∷◌,
  ◌++◌, append-nil, length, All, All-append_parts, IsByte, append_inj, equal_bytes,
  equal_bytes_refl, equal_bytes→eq, Bool-cases, some_inv,
}
use lite_speed_store.Endian.{get_le32}
use lite_speed_store.Endian.Value.{le_value_inj, get_le32-le_value}
use lite_speed_store.Sha256.{hash}
use lite_speed_store.Crc32
use lite_speed_store.Wal.Format.{Fixed, decode_fixed, covered}
use lite_speed_store.Wal.Fields.{chain_hash-hash, length-chain_hash}
use lite_speed_store.Wal.Chain.{Raw, raw_hash, raw_bytes, raw_log, raw_head, IsRaw, IsChain}

-- The bytes that the chain hash of an entry is the digest of.
unfoldable pub message : List ℕ → Raw → List ℕ
message prev r = prev ++ (r.fixed ++ (r.key ++ r.value))

-- At some position, the entries of two chains (the hashes before them and the entries are listed)
-- have different messages with one digest.
pub data Collides : List ℕ → List ℕ → List Raw → List Raw → Type 0 where
  here :
      {p q : List ℕ} {r s : Raw} {rs ss : List Raw}
      → message p r ≢ message q s
      → hash (message p r) ≡ hash (message q s)
      → Collides p q (r ∷ rs) (s ∷ ss)
  later :
      {p q : List ℕ} {r s : Raw} {rs ss : List Raw}
      → Collides (raw_hash p r) (raw_hash q s) rs ss
      → Collides p q (r ∷ rs) (s ∷ ss)

true-ne-false : ◌≡◌ true false → ⊥
true-ne-false e = cc

same_or_differ : (xs ys : List ℕ) → (xs ≡ ys) ⊎ (xs ≢ ys)
same_or_differ xs ys = elim (Bool-cases (equal_bytes xs ys)) [
  | inl e ↦ inl (equal_bytes→eq xs ys e)
  | inr e ↦ inr (λ p. true-ne-false (sym (equal_bytes_refl xs) ∙ ap (equal_bytes xs) p ∙ e))
]

same_crc :
    (a b : List ℕ) (c d : ℕ)
    → length a ≡ 4
    → length b ≡ 4
    → All IsByte a
    → All IsByte b
    → get_le32 a ≡ some c
    → get_le32 b ≡ some d
    → c ≡ d
    → a ≡ b
same_crc a b c d ha hb ba bb ga gb e =
    let va = sym (get_le32-le_value a [] ha ba) ∙ ap get_le32 (append-nil a) ∙ ga in
    let vb = sym (get_le32-le_value b [] hb bb) ∙ ap get_le32 (append-nil b) ∙ gb in
    le_value_inj a b ba bb (ha ∙ sym hb) (sym (some_inv va) ∙ e ∙ some_inv vb)

module _ {p q : List ℕ} {n : ℕ} {r s : Raw} (hp : length p ≡ 32) (hq : length q ≡ 32)
    (cr : IsRaw p n r) (cs : IsRaw q n s) (br : All IsByte (raw_bytes p r))
    (bs : All IsByte (raw_bytes q s)) where
  same_bytes : message p r ≡ message q s → (p ≡ q) × (raw_bytes p r ≡ raw_bytes q s)
  unfolding message
  same_bytes e =
      let (prevs, rest) = append_inj p q (hp ∙ sym hq) e in
      let (fixeds, rest2) = append_inj r.fixed s.fixed (cr.fixed_size ∙ sym cs.fixed_size) rest in
      let fields = some_inv (sym cr.decoded ∙ ap decode_fixed fixeds ∙ cs.decoded) in
      let (keys, values) =
        append_inj r.key s.key
          (cr.key_size ∙ ap (λ (f : Fixed). f.key_len) (sym fields) ∙ sym cs.key_size) rest2 in
      let hashes : raw_hash p r ≡ raw_hash q s =
        chain_hash-hash p r.fixed r.key r.value
        ∙ ap hash e
        ∙ sym (chain_hash-hash q s.fixed s.key s.value) in
      let bodies : covered r.fixed r.key r.value (raw_hash p r)
          ≡ covered s.fixed s.key s.value (raw_hash q s) =
        cc (fixeds, keys, values, hashes) in
      let crcs =
        same_crc r.crc s.crc _ _ cr.crc_size cs.crc_size (All-append_parts IsByte r.crc _ br).0
          (All-append_parts IsByte s.crc _ bs).0 cr.crc_matches cs.crc_matches
          (ap Crc32.calculate bodies) in
      (prevs, ap₂ (λ (a b : List ℕ). a ++ b) crcs bodies)

  entries_agree :
      {rs ss : List Raw}
      → raw_hash p r ≡ raw_hash q s
      → Collides p q (r ∷ rs) (s ∷ ss) ⊎ ((p ≡ q) × (raw_bytes p r ≡ raw_bytes q s))
  unfolding message
  entries_agree e = elim (same_or_differ (message p r) (message q s)) [
    | inl same ↦ inr (same_bytes same)
    | inr other ↦ inl (
        here other (
          sym (chain_hash-hash p r.fixed r.key r.value)
          ∙ e
          ∙ chain_hash-hash q s.fixed s.key s.value))
  ]

-- Two chains of the same length under one head.
pub chains_agree :
    (n : ℕ) (p q : List ℕ) (rs ss : List Raw)
    → length p ≡ 32
    → length q ≡ 32
    → IsChain n p rs
    → IsChain n q ss
    → All IsByte (raw_log p rs)
    → All IsByte (raw_log q ss)
    → length rs ≡ length ss
    → raw_head p rs ≡ raw_head q ss
    → Collides p q rs ss ⊎ ((p ≡ q) × (raw_log p rs ≡ raw_log q ss))
unfolding raw_log raw_head
chains_agree n p q [] [] hp hq cr cs br bs e h = inr (h, refl)
chains_agree n p q [] (s ∷ ss) hp hq cr cs br bs e h = absurd (omega arith)
chains_agree n p q (r ∷ rs) [] hp hq cr cs br bs e h = absurd (omega arith)
chains_agree n p q (r ∷ rs) (s ∷ ss) hp hq cr cs br bs e h =
    let (br0, br1) = All-append_parts IsByte (raw_bytes p r) (raw_log (raw_hash p r) rs) br in
    let (bs0, bs1) = All-append_parts IsByte (raw_bytes q s) (raw_log (raw_hash q s) ss) bs in
    elim (chains_agree (suc n) (raw_hash p r) (raw_hash q s) rs ss
      (length-chain_hash p r.fixed r.key r.value) (length-chain_hash q s.fixed s.key s.value) cr.1
      cs.1 br1 bs1 (omega arith) h) [
        | inl c ↦ inl (later c)
        | inr (heads, logs) ↦ elim (entries_agree hp hq cr.0 cs.0 br0 bs0 heads) [
          | inl c ↦ inl c
          | inr (prevs, bytes) ↦ inr (prevs, ap₂ (λ (a b : List ℕ). a ++ b) bytes logs)
        ]
      ]
