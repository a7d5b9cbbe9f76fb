-- ===== src/Sha256/Feed.antt =====
-- What the context is after the bytes that it was fed.
use lite_speed_store.Base.{
  ℕ, zero, suc, ◌+◌, ◌*◌, ◌≤◌, ◌<◌, ◌≡◌, refl, sym, ap, ap₂, ◌∙◌, subst, arith, true, false, some,
  List, [], ◌∷◌, ◌++◌, length, length-append, append_assoc, append-nil, take, drop, set, replicate,
  ltb, lt→ltb, inl, inr, some_inv, none-ne-some, Option-cases, take_all, take-append_le,
  length-drop,
}
use lite_speed_store.Sha256.{Sha256, initial_state, init, put_byte, absorb}
use lite_speed_store.Sha256.Compress.{transform}
use lite_speed_store.Sha256.Compress.Total.{transform-total}
use lite_speed_store.Sha256.Standard.{blocks}

set-append : (xs ys : List ℕ) (y b : ℕ) → set (xs ++ y ∷ ys) (length xs) b ≡ xs ++ b ∷ ys
set-append [] ys y b = refl
set-append (x ∷ xs) ys y b = ap (λ (t : List ℕ). x ∷ t) (set-append xs ys y b)

drop-append_le : (n : ℕ) (xs ys : List ℕ) → n ≤ length xs → drop n (xs ++ ys) ≡ drop n xs ++ ys
drop-append_le zero xs ys h = refl
drop-append_le (suc n) [] ys h = absurd (omega arith)
drop-append_le (suc n) (x ∷ xs) ys h = drop-append_le n xs ys (omega arith)

-- One more block at the end.
blocks-append :
    (n : ℕ) (state full block s t : List ℕ)
    → length full ≡ n * 64
    → length block ≡ 64
    → blocks n state full ≡ some s
    → transform s block ≡ some t
    → blocks (suc n) state (full ++ block) ≡ some t
blocks-append zero state (x ∷ full) block s t hf hb e k = absurd (omega (arith, hf))
blocks-append zero state [] block s t hf hb e k =
    let start : transform state block ≡ some t =
      subst (λ (x : List ℕ). transform x block ≡ some t) (some_inv e) k in
    rw (take_all 64 block (omega (arith, hb)), start) refl
blocks-append (suc n) state full block s t hf hb e k =
    elim (Option-cases (transform state (take 64 full))) [
      | inl stuck ↦ absurd (none-ne-some (rw stuck at e))
      | inr (next, h) ↦
          let front = take-append_le 64 full block (omega (arith, hf)) in
          let back = drop-append_le 64 full block (omega (arith, hf)) in
          let rest =
            blocks-append n next (drop 64 full) block s t (omega (arith, hf, length-drop 64 full))
              hb (rw h at e) k in
          rw (front, back, h) rest
    ]

-- The context took in `n` blocks, and has the bytes behind them in the buffer.
pub record Fed (n : ℕ) (message : List ℕ) (c : Sha256) : Type 0 where
  pub full : List ℕ
  pub tail : List ℕ
  pub room : List ℕ
  pub split : message ≡ full ++ tail
  pub full_size : length full ≡ n * 64
  pub buffer : c.buffer ≡ tail ++ room
  pub buf_len : c.buf_len ≡ length tail
  pub size : length tail + length room ≡ 64
  pub state : blocks n initial_state full ≡ some c.state
  pub state_size : length c.state ≡ 8
  pub inside : c.past_end ≡ false

pub init-Fed : Fed 0 [] init
unfolding init
init-Fed = record {
  full = [];
  tail = [];
  room = replicate 64 0;
  split = refl;
  full_size = refl;
  buffer = refl;
  buf_len = refl;
  size = refl;
  state = refl;
  state_size = refl;
  inside = refl;
}

uncons : (xs : List ℕ) → 0 < length xs → (x : ℕ) × (ys : List ℕ) × (xs ≡ x ∷ ys)
uncons [] h = absurd (omega arith)
uncons (x ∷ xs) h = (x, xs, refl)

pub nil : (xs : List ℕ) → length xs ≡ 0 → xs ≡ []
nil [] h = refl
nil (x ∷ xs) h = absurd (omega (arith, h))

-- So, with `k` bytes in the buffer.
abbrev pub Holds : ℕ → ℕ → List ℕ → Sha256 → Type 0
Holds k n message c = Fed n message c × (c.buf_len ≡ k)

-- `m_buffer[m_bufLen++] = b` where the buffer has room.
pub put_byte-Holds :
    {k n : ℕ} {message : List ℕ} {c : Sha256} (b : ℕ)
    → Holds k n message c
    → k < 64
    → Holds (k + 1) n (message ++ b ∷ []) (put_byte c b)
unfolding put_byte
put_byte-Holds {k} {n} {message} {c} b (f, at) small =
    let (y, ys, eq) = uncons f.room (omega (arith, f.size, f.buf_len, at, small)) in
    let buffer : c.buffer ≡ f.tail ++ y ∷ ys = f.buffer ∙ ap (λ (t : List ℕ). f.tail ++ t) eq in
    let long : length c.buffer ≡ 64 = ap length f.buffer ∙ length-append f.tail f.room ∙ f.size in
    let inside : ltb c.buf_len (length c.buffer) ≡ true =
      lt→ltb c.buf_len (length c.buffer) (omega (arith, long, at, small)) in
    (
      record {
        full = f.full;
        tail = f.tail ++ b ∷ [];
        room = ys;
        split = ap (λ (t : List ℕ). t ++ b ∷ []) f.split ∙ append_assoc f.full f.tail (b ∷ []);
        full_size = f.full_size;
        buffer =
            ap₂ (λ (t : List ℕ) (i : ℕ). set t i b) buffer f.buf_len
            ∙ set-append f.tail ys y b
            ∙ sym (append_assoc f.tail (b ∷ []) ys);
        buf_len = omega (arith, f.buf_len, length-append f.tail (b ∷ []));
        size = omega (arith, f.size, ap length eq, length-append f.tail (b ∷ []));
        state = f.state;
        state_size = f.state_size;
        inside = rw (f.inside, inside) refl;
      },
      omega (arith, at),
    )

absorb_lem :
    (c : Sha256) (t : List ℕ)
    → transform c.state c.buffer ≡ some t
    → absorb c ≡ record c { state = t; buf_len = 0 }
unfolding absorb
absorb_lem c t h = rw (absorb, h) refl

-- The transform of a full buffer.
pub absorb-Holds :
    {n : ℕ} {message : List ℕ} {c : Sha256}
    → Holds 64 n message c
    → Holds 0 (suc n) message (absorb c)
absorb-Holds {n} {message} {c} (f, at) =
    let tail_size : length f.tail ≡ 64 = sym f.buf_len ∙ at in
    let no_room : f.room ≡ [] = nil f.room (omega (arith, f.size, tail_size)) in
    let buffer : c.buffer ≡ f.tail =
      f.buffer ∙ ap (λ (t : List ℕ). f.tail ++ t) no_room ∙ append-nil f.tail in
    let (t, h, size) =
      transform-total c.state c.buffer f.state_size (ap length buffer ∙ tail_size) in
    let taken : transform c.state f.tail ≡ some t =
      subst (λ (x : List ℕ). transform c.state x ≡ some t) buffer h in
    subst (Holds 0 (suc n) message) (sym (absorb_lem c t h)) (
      record {
        full = message;
        tail = [];
        room = c.buffer;
        split = sym (append-nil message);
        full_size =
            omega (arith, ap length f.split, length-append f.full f.tail, tail_size, f.full_size);
        buffer = refl;
        buf_len = refl;
        size = omega (arith, ap length buffer, tail_size);
        state =
            subst (λ (x : List ℕ). blocks (suc n) initial_state x ≡ some t) (sym f.split)
              (blocks-append n initial_state f.full f.tail c.state t f.full_size tail_size f.state
                taken);
        state_size = size;
        inside = f.inside;
      },
      refl,
    )
