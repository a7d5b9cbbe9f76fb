-- ===== src/Wal/Chain.antt =====
-- What the loop has checked of the bytes that it passed, whatever the kernel and the file: they are
-- a chain of entries, each bound to those before it.
use lite_speed_store.Base.{
  ℕ, zero, suc, ◌+◌, ◌-◌, ◌^◌, ◌≤◌, ◌<◌, ◌≡◌, refl, ap, ◌∙◌, subst, arith, Option, some, List, [],
  ◌∷◌, ◌++◌, append_assoc, u64, length, length-append, ltb, ltb→lt, ltb→le, Bool-cases, inl, inr,
  ◌⊎◌,
}
use lite_speed_store.Endian.{get_le32}
use lite_speed_store.Crc32
use lite_speed_store.Posix.{Answer, Input, query}
use lite_speed_store.Wal.Format.{Fixed, decode_fixed, chain_hash, covered, entry_fixed_size}
use lite_speed_store.Wal.Check.{Exit, torn, Try, go, exit, Verified, verify_entry}
use lite_speed_store.Wal.Walk.{Visit, Walk, Ending, at_end, hung, broke, Ended, advance, walk_loop}
use lite_speed_store.Wal.Steps.{loop_end, loop_exit, loop_go, loop_lost}
use lite_speed_store.Wal.Sound.{Checked, verify_entry-Checked}

-- An entry as it lies in the file, less its chain hash.
pub record Raw : Type 0 where
  pub crc : List ℕ
  pub fixed : List ℕ
  pub key : List ℕ
  pub value : List ℕ

abbrev pub raw_hash : List ℕ → Raw → List ℕ
raw_hash prev r = chain_hash prev r.fixed r.key r.value

abbrev pub raw_bytes : List ℕ → Raw → List ℕ
raw_bytes prev r = r.crc ++ covered r.fixed r.key r.value (raw_hash prev r)

unfoldable pub raw_log : List ℕ → List Raw → List ℕ
raw_log prev [] = []
raw_log prev (r ∷ rs) = raw_bytes prev r ++ raw_log (raw_hash prev r) rs

unfoldable pub raw_head : List ℕ → List Raw → List ℕ
raw_head prev [] = prev
raw_head prev (r ∷ rs) = raw_head (raw_hash prev r) rs

-- The stored CRC, the lengths and the sequence number are right.
pub record IsRaw (prev : List ℕ) (n : ℕ) (r : Raw) : Type 0 where
  pub crc_size : length r.crc ≡ 4
  pub crc_matches :
      get_le32 r.crc ≡ some (Crc32.calculate (covered r.fixed r.key r.value (raw_hash prev r)))
  pub fixed_size : length r.fixed ≡ entry_fixed_size
  pub fields : Fixed
  pub decoded : decode_fixed r.fixed ≡ some fields
  pub key_size : length r.key ≡ fields.key_len
  pub value_size : length r.value ≡ fields.value_len
  pub seq : fields.seq ≡ n

abbrev pub IsChain : ℕ → List ℕ → List Raw → Type 0
IsChain n prev [] = Unit
IsChain n prev (r ∷ rs) = IsRaw prev n r × IsChain (suc n) (raw_hash prev r) rs

raw_of : {prev : List ℕ} {n : ℕ} {i0 : Input} {v : Verified} → Checked prev n i0 v → Raw
raw_of {v = v} c = record { crc = c.crc; fixed = c.fixed; key = v.key; value = v.value }

-- The entries that the loop passed, and where it stopped.
pub record Passes {ℓ} {S : Type ℓ} (n : ℕ) (prev ahead : List ℕ) (e : Ended S) : Type ℓ where
  pub raws : List Raw
  pub tail : List ℕ
  pub chain : IsChain n prev raws
  pub head : e.walk.prev_hash ≡ raw_head prev raws
  pub count : e.walk.expected_seq ≡ n + length raws
  pub split : ahead ≡ raw_log prev raws ++ tail
  pub complete : e.how ≡ at_end → tail ≡ []

nothing {ℓ} :
    {S : Type ℓ} (ahead : List ℕ) (w : Walk S) (how : Ending) (script : List Answer)
    → (how ≡ at_end → ahead ≡ [])
    → Passes w.expected_seq w.prev_hash ahead (record { how = how; walk = w; script = script })
unfolding raw_log raw_head
nothing ahead w how script h = record {
  raws = [];
  tail = ahead;
  chain = tt;
  head = refl;
  count = omega arith;
  split = refl;
  complete = h;
}

empty : (xs : List ℕ) → length xs ≤ 0 → xs ≡ []
empty [] h = refl
empty (x ∷ xs) h = absurd (omega arith)

-- An entry that a round accepted, in front of what the loop passes after it.
in_front {ℓ} :
    {S : Type ℓ} {prev : List ℕ} {n : ℕ} {i0 : Input} {v : Verified} {e : Ended S}
    → Checked prev n i0 v
    → Passes (suc n) v.hash v.input.ahead e
    → Passes n prev i0.ahead e
unfolding raw_log raw_head raw_of covered
in_front {prev = prev} {n = n} {v = v} c p =
    let r = raw_of c in
    record {
      raws = r ∷ p.raws;
      tail = p.tail;
      chain = (
        record {
          crc_size = c.crc_size;
          crc_matches =
              c.crc_matches
              ∙ ap (λ (t : List ℕ). some (Crc32.calculate (covered c.fixed v.key v.value t)))
                  c.hash;
          fixed_size = c.fixed_size;
          fields = v.fields;
          decoded = c.fields;
          key_size = c.key_size;
          value_size = c.value_size;
          seq = c.seq;
        },
        subst (λ t. IsChain (suc n) t p.raws) c.hash p.chain,
      );
      head = p.head ∙ ap (λ (t : List ℕ). raw_head t p.raws) c.hash;
      count = omega (arith, p.count);
      split =
          c.ahead
          ∙ ap (λ (t : List ℕ). c.crc ++ (covered c.fixed v.key v.value v.hash ++ t)) p.split
          ∙ ap
              (λ (t : List ℕ).
                c.crc ++ (covered c.fixed v.key v.value t ++ (raw_log t p.raws ++ p.tail)))
              c.hash
          ∙ simp append_assoc;
      complete = p.complete;
    }

recount {ℓ} :
    {S : Type ℓ} {k m : ℕ} {prev ahead : List ℕ} {e : Ended S}
    → k ≡ m
    → Passes k prev ahead e
    → Passes m prev ahead e
recount {prev = prev} {ahead = ahead} {e = e} h p = subst (λ (t : ℕ). Passes t prev ahead e) h p

pub Try-cases :
    (t : Try Verified)
    → ((v : Verified) × (t ≡ go v)) ⊎ ((e : Exit) × (s : List Answer) × (t ≡ exit e s))
Try-cases (go v) = inl (v, refl)
Try-cases (exit e s) = inr (e, s, refl)

one_more :
    {prev : List ℕ} {n : ℕ} {i0 : Input} {v : Verified}
    → Checked prev n i0 v
    → n + length i0.ahead < 2 ^ 64
    → (u64 (v.fields.seq + 1) ≡ suc n) × (suc n + length v.input.ahead < 2 ^ 64)
one_more {v = v} c small =
    let body = covered c.fixed v.key v.value v.hash in
    let long =
      ap length c.ahead
      ∙ length-append c.crc (body ++ v.input.ahead)
      ∙ ap (λ (k : ℕ). length c.crc + k) (length-append body v.input.ahead) in
    (omega (arith, c.seq, c.crc_size, long), omega (arith, c.crc_size, long))

module _ {ℓ} {S : Type ℓ} (visitor : Option (Visit → S → S)) (min_epoch : Option ℕ) where
  -- The loop, from any state at which the numbers do not wrap.
  pub walk_loop-Passes :
      (fuel size pos : ℕ) (ahead : List ℕ) (script : List Answer) (w : Walk S)
      → pos + length ahead ≡ size
      → w.expected_seq + length ahead < 2 ^ 64
      → Passes w.expected_seq w.prev_hash ahead
          (walk_loop visitor min_epoch fuel size pos ahead script w)
  unfolding advance
  walk_loop-Passes zero size pos ahead script w total small =
      unfold walk_loop in nothing ahead w hung script (λ e. cc)
  walk_loop-Passes (suc fuel) size pos ahead script w total small =
      elim (Bool-cases (ltb pos size)) [
        | inr done ↦
            rw (loop_end visitor min_epoch fuel size pos ahead script w (ltb→le pos size done)) (
              nothing ahead w at_end script
                (λ e. empty ahead (omega (arith, ltb→le pos size done))))
        | inl more ↦
            let i0 : Input = record { pos = pos; ahead = ahead; script = script } in
            let room = ltb→lt pos size more in
            elim (Try-cases (verify_entry (size - pos) w.prev_hash w.expected_seq i0)) [
              | inr (x, s, h) ↦
                  rw (loop_exit visitor min_epoch fuel size pos ahead script w room h)
                    (nothing ahead w (broke x) s (λ e. cc))
              | inl (v, h) ↦
                  let c = verify_entry-Checked (size - pos) w.prev_hash w.expected_seq i0 v h in
                  let (counted, less) = one_more c small in
                  elim (Bool-cases (query v.input.script).0) [
                    | inr lost ↦
                        rw (loop_lost visitor min_epoch fuel size pos ahead script w room h lost) (
                          in_front c (
                            recount counted (
                              nothing v.input.ahead (advance visitor min_epoch v w) (broke torn)
                                (query v.input.script).1 (λ e. cc))))
                    | inl told ↦
                        rw (loop_go visitor min_epoch fuel size pos ahead script w room h told) (
                          in_front c (
                            recount counted (
                              walk_loop-Passes fuel size v.input.pos v.input.ahead
                                (query v.input.script).1
                                (record (advance visitor min_epoch v w) {
                                  position = some v.input.pos;
                                })
                                (c.total ∙ total) (rw counted less))))
                  ]
            ]
      ]
