-- ===== src/Sha256/Loops.antt =====
-- The loops of `update` and `digest`: what the context has taken in after them.
use lite_speed_store.Base.{
  ℕ, zero, suc, ◌+◌, ◌*◌, ◌≤◌, ◌<◌, ◌≡◌, refl, sym, ◌∙◌, subst, arith, List, [], ◌∷◌, ◌++◌,
  append_assoc, append-nil, replicate, u8, shr, lt→ltb, le→ltb, inl, inr, Bool-cases, u64, ◌==◌,
}
use lite_speed_store.Sha256.{Sha256, init, put_byte, update_byte, update, pad_zeros, put_length}
use lite_speed_store.Sha256.Standard.{big_endian}
use lite_speed_store.Sha256.Feed.{Holds, init-Fed, put_byte-Holds, absorb-Holds}

pub recount :
    {k k2 n : ℕ} {message message2 : List ℕ} {c : Sha256}
    → Holds k n message c
    → k ≡ k2
    → message ≡ message2
    → Holds k2 n message2 c
recount {k2 = k2} {n = n} {message = message} {c = c} f e h =
    subst (λ (m : List ℕ). Holds k2 n m c) h (subst (λ (i : ℕ). Holds i n message c) e f)

-- The loop that writes zeros, up to a limit within the buffer.
pub pad_zeros-Holds :
    (fuel left limit : ℕ) {k n : ℕ} {message : List ℕ} {c : Sha256}
    → Holds k n message c
    → k + left ≡ limit
    → limit ≤ 64
    → left ≤ fuel
    → Holds limit n (message ++ replicate left 0) (pad_zeros fuel limit c)
unfolding pad_zeros
pad_zeros-Holds zero (suc left) limit f at small enough = absurd (omega (arith, enough))
pad_zeros-Holds zero zero limit {message = message} f at small enough =
    recount f (omega (arith, at)) (sym (append-nil message))
pad_zeros-Holds (suc fuel) zero limit {message = message} {c = c} f at small enough =
    let done = le→ltb c.buf_len limit (omega (arith, at, f.1)) in
    rw (done, append-nil message) (recount f (omega (arith, at)) refl)
pad_zeros-Holds (suc fuel) (suc left) limit {message = message} {c = c} f at small enough =
    let more = lt→ltb c.buf_len limit (omega (arith, at, f.1)) in
    let rest =
      pad_zeros-Holds fuel left limit (put_byte-Holds 0 f (omega (arith, at, small)))
        (omega (arith, at)) small (omega (arith, enough)) in
    rw more (recount rest refl (append_assoc message (0 ∷ []) (replicate left 0)))

-- The loop that writes the length.
pub put_length-Holds :
    (i total : ℕ) {k n : ℕ} {message : List ℕ} {c : Sha256}
    → Holds k n message c
    → k + i ≤ 64
    → Holds (k + i) n (message ++ big_endian i total) (put_length i total c)
unfolding put_length
put_length-Holds zero total {message = message} f small =
    recount f (omega arith) (sym (append-nil message))
put_length-Holds (suc i) total {message = message} f small =
    let b = u8 (shr total (i * 8)) in
    recount
      (put_length-Holds i total (put_byte-Holds b f (omega (arith, small))) (omega (arith, small)))
      (omega arith) (append_assoc message (b ∷ []) (big_endian i total))

-- The context between calls: fewer than 64 bytes in the buffer, and the bits of the blocks counted.
pub record IsFed (message : List ℕ) (c : Sha256) : Type 0 where
  pub taken : ℕ
  pub filled : ℕ
  pub holds : Holds filled taken message c
  pub short : filled < 64
  pub bits : c.bit_len ≡ u64 (taken * 512)

pub init-IsFed : IsFed [] init
unfolding init
init-IsFed = record {
  taken = 0;
  filled = 0;
  holds = (init-Fed, refl);
  short = omega arith;
  bits = refl;
}

put_byte-bit_len : (c : Sha256) (b : ℕ) → (put_byte c b).bit_len ≡ c.bit_len
unfolding put_byte
put_byte-bit_len c b = refl

-- The count of the bits is no part of it.
count-Holds :
    {k n : ℕ} {message : List ℕ} {c : Sha256} (bits : ℕ)
    → Holds k n message c
    → Holds k n message (record c { bit_len = bits })
count-Holds bits (f, at) = (
  record {
    full = f.full;
    tail = f.tail;
    room = f.room;
    split = f.split;
    full_size = f.full_size;
    buffer = f.buffer;
    buf_len = f.buf_len;
    size = f.size;
    state = f.state;
    state_size = f.state_size;
    inside = f.inside;
  },
  at,
)

update_byte-IsFed :
    (message : List ℕ) (c : Sha256) (b : ℕ)
    → IsFed message c
    → IsFed (message ++ b ∷ []) (update_byte c b)
unfolding update_byte
update_byte-IsFed message c b f =
    let g = put_byte-Holds b f.holds f.short in
    let same = put_byte-bit_len c b in
    elim (Bool-cases ((put_byte c b).buf_len == 64)) [
      | inl full ↦
          let at : f.filled + 1 ≡ 64 = ground (arith, full, g.1) in
          rw full (record {
            taken = suc f.taken;
            filled = 0;
            holds = count-Holds _ (absorb-Holds (recount g at refl));
            short = omega arith;
            bits = omega (arith, same, f.bits);
          })
      | inr room ↦ rw room (record {
        taken = f.taken;
        filled = f.filled + 1;
        holds = g;
        short = ground (arith, room, g.1, f.short);
        bits = same ∙ f.bits;
      })
    ]

pub update-IsFed :
    (message : List ℕ) (c : Sha256) (bytes : List ℕ)
    → IsFed message c
    → IsFed (message ++ bytes) (update c bytes)
unfolding update
update-IsFed message c [] f = subst (λ (m : List ℕ). IsFed m c) (sym (append-nil message)) f
update-IsFed message c (b ∷ bytes) f =
    subst (λ (m : List ℕ). IsFed m (update (update_byte c b) bytes))
      (append_assoc message (b ∷ []) bytes)
      (update-IsFed (message ++ b ∷ []) (update_byte c b) bytes (update_byte-IsFed message c b f))
