-- ===== src/Wal/Reads.antt =====
-- A read of a round: served by a smooth kernel, short at the end of the file, and what a read that
-- went on has moved, whatever the kernel.
use lite_speed_store.Base.{
  ℕ, ◌+◌, ◌≤◌, ◌<◌, ◌≡◌, sym, ap, ◌∙◌, arith, some, List, [], ◌++◌, length, length-append,
  length-take, take, drop, take-append_left, drop-append_left, take-append-drop, inl, inr,
  Option-cases,
}
use lite_speed_store.Posix.{Answer, Input, read_exact}
use lite_speed_store.Posix.Laws.{
  IsSmooth, read_loop-Read, read_loop-IsSmooth, read_loop_served, read_loop_quiet, read_loop_short,
}
use lite_speed_store.Wal.Check.{Exit, torn, Try, go, exit, or_leave, read_or_torn}

-- The descriptor after `chunk` was read in front of `rest`, under a smooth kernel.
pub record Served (i : Input) (n : ℕ) (chunk rest : List ℕ) : Type 0 where
  pub next : Input
  pub eq : read_or_torn i n ≡ go (chunk, next)
  pub pos : next.pos ≡ i.pos + n
  pub ahead : next.ahead ≡ rest
  pub smooth : IsSmooth next.script
  pub quiet : i.script ≡ [] → next.script ≡ []

take_exact : (n : ℕ) (chunk rest : List ℕ) → length chunk ≡ n → take n (chunk ++ rest) ≡ chunk
take_exact n chunk rest h = ap (λ t. take t (chunk ++ rest)) (sym h) ∙ take-append_left chunk rest

drop_exact : (n : ℕ) (chunk rest : List ℕ) → length chunk ≡ n → drop n (chunk ++ rest) ≡ rest
drop_exact n chunk rest h = ap (λ t. drop t (chunk ++ rest)) (sym h) ∙ drop-append_left chunk rest

pub read-Served :
    (i : Input) (n : ℕ) (chunk rest : List ℕ)
    → IsSmooth i.script
    → length chunk ≡ n
    → i.ahead ≡ chunk ++ rest
    → Served i n chunk rest
unfolding read_or_torn read_exact
read-Served i n chunk rest smooth h e =
    let fits : n ≤ length i.ahead = omega (arith, ap length e, length-append chunk rest) in
    let part : take n i.ahead ≡ chunk = ap (take n) e ∙ take_exact n chunk rest h in
    let served = read_loop_served i.script i.pos i.ahead [] n smooth fits ∙ ap some part in
    let r = read_loop-Read i.script i.pos i.ahead [] n chunk served in
    record {
      next = (read_exact i n).input;
      eq = ap (or_leave (read_exact i n)) served;
      pos = r.pos_lem;
      ahead = r.ahead_lem ∙ ap (drop n) e ∙ drop_exact n chunk rest h;
      smooth = read_loop-IsSmooth i.script i.pos i.ahead [] n smooth;
      quiet = read_loop_quiet i.script i.pos i.ahead [] n;
    }

-- A read that wants more than the file has leaves the loop by `break`.
pub read_torn :
    (i : Input) (n : ℕ)
    → length i.ahead < n
    → read_or_torn i n ≡ exit torn (read_exact i n).input.script
unfolding read_or_torn read_exact
read_torn i n h = ap (or_leave (read_exact i n)) (read_loop_short i.script i.pos i.ahead [] n h)

pub record Moved (i : Input) (n : ℕ) (chunk : List ℕ) (next : Input) : Type 0 where
  pub size : length chunk ≡ n
  pub ahead : i.ahead ≡ chunk ++ next.ahead
  pub pos : next.pos ≡ i.pos + n

pub go_inv {ℓ} : {A : Type ℓ} {a b : A} → ◌≡◌ {A = Try A} (go a) (go b) → a ≡ b
go_inv e = cc

exit-ne-go {ℓ} :
    {A : Type ℓ} {a : A} {x : Exit} {s : List Answer} → ◌≡◌ {A = Try A} (exit x s) (go a) → ⊥
exit-ne-go e = cc

pub read-Moved :
    (i : Input) (n : ℕ) (chunk : List ℕ) (next : Input)
    → read_or_torn i n ≡ go (chunk, next)
    → Moved i n chunk next
unfolding read_or_torn read_exact
read-Moved i n chunk next h =
    let r = read_exact i n in
    elim (Option-cases r.chunk) [
      | inl e ↦ absurd (exit-ne-go (sym (ap (or_leave r) e) ∙ h))
      | inr (c, e) ↦
          let same = go_inv (sym (ap (or_leave r) e) ∙ h) in
          let m = read_loop-Read i.script i.pos i.ahead [] n c e in
          let same_chunk : c ≡ chunk = ap (λ (p : List ℕ × Input). p.0) same in
          let same_next : r.input ≡ next = ap (λ (p : List ℕ × Input). p.1) same in
          record {
            size =
                ap length (sym same_chunk ∙ m.chunk)
                ∙ length-take n i.ahead
                ∙ omega (arith, m.fits);
            ahead =
                sym (take-append-drop n i.ahead)
                ∙ ap (λ (t : List ℕ). t ++ drop n i.ahead) (sym m.chunk ∙ same_chunk)
                ∙ ap (λ (t : List ℕ). chunk ++ t)
                    (sym m.ahead_lem ∙ ap (λ (j : Input). j.ahead) same_next);
            pos = ap (λ (j : Input). j.pos) (sym same_next) ∙ m.pos_lem;
          }
    ]

-- A read keeps the end of the file where it is.
pub Moved-total :
    {i next : Input} {n : ℕ} {chunk : List ℕ}
    → Moved i n chunk next
    → next.pos + length next.ahead ≡ i.pos + length i.ahead
Moved-total {next = next} {chunk = chunk} m =
    omega (arith, m.pos, m.size, ap length m.ahead, length-append chunk next.ahead)
