-- ===== src/Posix/Laws.antt =====
-- What `writeExact` and `readExact` do, whatever the kernel answers and when it is smooth.
use lite_speed_store.Base.{
  ℕ, zero, suc, ◌+◌, ◌-◌, ◌≤◌, ◌<◌, min, ◌≡◌, refl, sym, ap, ◌∙◌, arith, true, false, Option, none,
  some, List, [], ◌∷◌, ◌++◌, append-nil, append_assoc, length, take, drop, All, ltb, take_all,
  length-drop, drop-drop, take-take-drop, inl, inr, Bool-cases, Option-cases, le→ltb, ltb→le,
  some_inv, none-ne-some,
}
use lite_speed_store.Posix.{
  Answer, transfer, interrupted, failed, Written, write_loop, Input, read_loop, query,
}

-- The kernel moves data bit by bit and interrupts calls, but fails none.
abbrev pub IsSmoothAnswer : Answer → Type 0
IsSmoothAnswer (transfer zero) = ⊥
IsSmoothAnswer (transfer (suc n)) = Unit
IsSmoothAnswer interrupted = Unit
IsSmoothAnswer failed = ⊥

abbrev pub IsSmooth : List Answer → Type 0
IsSmooth script = All IsSmoothAnswer script

-- A write that reports success wrote all of `left`; one that fails wrote a proper prefix of it.
pub record Wrote (file left : List ℕ) (w : Written) : Type 0 where
  pub count : ℕ
  pub bytes : w.bytes ≡ file ++ take count left
  pub whole : w.done ≡ true → length left ≤ count
  pub partial : w.done ≡ false → count < length left

-- Whatever the kernel answers, the loop of `writeExact` adds a prefix of the buffer to the file:
-- all of it where it reports success, and a proper prefix where it reports failure.
pub write_loop-Wrote :
    (script : List Answer) (file left : List ℕ) → Wrote file left (write_loop script file left)
unfolding write_loop
write_loop-Wrote script file [] = record {
  count = 0;
  bytes = sym (append-nil file);
  whole = λ e. omega arith;
  partial = λ e. cc;
}
write_loop-Wrote [] file (b ∷ left) = record {
  count = length (b ∷ left);
  bytes =
      ap (λ (t : List ℕ). file ++ t) (sym (take_all (length (b ∷ left)) (b ∷ left) (omega arith)));
  whole = λ e. omega arith;
  partial = λ e. cc;
}
write_loop-Wrote (interrupted ∷ script) file (b ∷ left) = write_loop-Wrote script file (b ∷ left)
write_loop-Wrote (failed ∷ script) file (b ∷ left) = record {
  count = 0;
  bytes = sym (append-nil file);
  whole = λ e. cc;
  partial = λ e. omega arith;
}
write_loop-Wrote (transfer zero ∷ script) file (b ∷ left) = record {
  count = 0;
  bytes = sym (append-nil file);
  whole = λ e. cc;
  partial = λ e. omega arith;
}
write_loop-Wrote (transfer (suc n) ∷ script) file (b ∷ left) =
    let r = write_loop-Wrote script (file ++ take (suc n) (b ∷ left)) (drop (suc n) (b ∷ left)) in
    record {
      count = suc n + r.count;
      bytes =
          r.bytes
          ∙ append_assoc file (take (suc n) (b ∷ left)) (take r.count (drop (suc n) (b ∷ left)))
          ∙ ap (λ (t : List ℕ). file ++ t) (take-take-drop (suc n) r.count (b ∷ left));
      whole = λ e. omega (arith, r.whole e, length-drop n left);
      partial = λ e. omega (arith, r.partial e, length-drop n left);
    }

-- A read that reports success moved exactly the `left` bytes in front of the descriptor.
pub record Read (pos : ℕ) (ahead got : List ℕ) (left : ℕ) (i : Input) (c : List ℕ) : Type 0 where
  pub fits : left ≤ length ahead
  pub chunk : c ≡ got ++ take left ahead
  pub pos_lem : i.pos ≡ pos + left
  pub ahead_lem : i.ahead ≡ drop left ahead

read_none : (ahead got c : List ℕ) → ◌≡◌ {A = Option (List ℕ)} (some got) (some c) → c ≡ got ++ []
read_none ahead got c e = some_inv e ∙ sym (append-nil got)

-- Where the loop of `readExact` reports success, whatever the kernel answered on the way, it has
-- read exactly the number of bytes that it wanted, these are the ones in front of the offset, and
-- the offset moved by their number.
pub read_loop-Read :
    (script : List Answer) (pos : ℕ) (ahead got : List ℕ) (left : ℕ) (c : List ℕ)
    → (read_loop script pos ahead got left).chunk ≡ some c
    → Read pos ahead got left (read_loop script pos ahead got left).input c
unfolding read_loop
read_loop-Read script pos ahead got zero c e = record {
  fits = omega arith;
  chunk = read_none ahead got c e;
  pos_lem = omega arith;
  ahead_lem = refl;
}
read_loop-Read [] pos ahead got (suc left) c e =
    let moved = min (suc left) (length ahead) in
    elim (Bool-cases (ltb moved (suc left))) [
      | inl t ↦ absurd (none-ne-some (rw t at e))
      | inr t ↦
          let full : moved ≡ suc left = omega (arith, ltb→le moved (suc left) t) in
          record {
            fits = omega (arith, full);
            chunk = some_inv (rw t at e) ∙ ap (λ (n : ℕ). got ++ take n ahead) full;
            pos_lem = omega (arith, full);
            ahead_lem = ap (λ (n : ℕ). drop n ahead) full;
          }
    ]
read_loop-Read (interrupted ∷ script) pos ahead got (suc left) c e =
    read_loop-Read script pos ahead got (suc left) c e
read_loop-Read (failed ∷ script) pos ahead got (suc left) c e = cc
read_loop-Read (transfer zero ∷ script) pos ahead got (suc left) c e = cc
read_loop-Read (transfer (suc n) ∷ script) pos [] got (suc left) c e = cc
read_loop-Read (transfer (suc n) ∷ script) pos (b ∷ ahead) got (suc left) c e =
    let moved = min (suc n) (min (suc left) (suc (length ahead))) in
    let r =
      read_loop-Read script (pos + moved) (drop moved (b ∷ ahead)) (got ++ take moved (b ∷ ahead))
        (suc left - moved) c e in
    let total : moved + (suc left - moved) ≡ suc left = omega arith in
    record {
      fits = omega (arith, r.fits, length-drop moved (b ∷ ahead));
      chunk =
          r.chunk
          ∙ append_assoc got (take moved (b ∷ ahead))
              (take (suc left - moved) (drop moved (b ∷ ahead)))
          ∙ ap (λ (t : List ℕ). got ++ t) (take-take-drop moved (suc left - moved) (b ∷ ahead))
          ∙ ap (λ (t : ℕ). got ++ take t (b ∷ ahead)) total;
      pos_lem = omega (arith, r.pos_lem);
      ahead_lem =
          r.ahead_lem
          ∙ drop-drop moved (suc left - moved) (b ∷ ahead)
          ∙ ap (λ (t : ℕ). drop t (b ∷ ahead)) total;
    }

-- A smooth kernel serves a read in full where the file has the bytes, and stays smooth.
pub read_loop-IsSmooth :
    (script : List Answer) (pos : ℕ) (ahead got : List ℕ) (left : ℕ)
    → IsSmooth script
    → IsSmooth (read_loop script pos ahead got left).input.script
unfolding read_loop
read_loop-IsSmooth script pos ahead got zero h = h
read_loop-IsSmooth [] pos ahead got (suc left) h = tt
read_loop-IsSmooth (interrupted ∷ script) pos ahead got (suc left) h =
    read_loop-IsSmooth script pos ahead got (suc left) h.1
read_loop-IsSmooth (failed ∷ script) pos ahead got (suc left) h = absurd h.0
read_loop-IsSmooth (transfer zero ∷ script) pos ahead got (suc left) h = absurd h.0
read_loop-IsSmooth (transfer (suc n) ∷ script) pos [] got (suc left) h = h.1
read_loop-IsSmooth (transfer (suc n) ∷ script) pos (b ∷ ahead) got (suc left) h =
    let moved = min (suc n) (min (suc left) (suc (length ahead))) in
    read_loop-IsSmooth script (pos + moved) (drop moved (b ∷ ahead)) (got ++ take moved (b ∷ ahead))
      (suc left - moved) h.1

pub read_loop_served :
    (script : List Answer) (pos : ℕ) (ahead got : List ℕ) (left : ℕ)
    → IsSmooth script
    → left ≤ length ahead
    → (read_loop script pos ahead got left).chunk ≡ some (got ++ take left ahead)
unfolding read_loop
read_loop_served script pos ahead got zero h fits = ap some (sym (append-nil got))
read_loop_served [] pos ahead got (suc left) h fits =
    let moved = min (suc left) (length ahead) in
    let full : moved ≡ suc left = omega arith in
    rw (le→ltb moved (suc left) (omega (arith, full)))
      (ap (λ (n : ℕ). some (got ++ take n ahead)) full)
read_loop_served (interrupted ∷ script) pos ahead got (suc left) h fits =
    read_loop_served script pos ahead got (suc left) h.1 fits
read_loop_served (failed ∷ script) pos ahead got (suc left) h fits = absurd h.0
read_loop_served (transfer zero ∷ script) pos ahead got (suc left) h fits = absurd h.0
read_loop_served (transfer (suc n) ∷ script) pos [] got (suc left) h fits = absurd (omega arith)
read_loop_served (transfer (suc n) ∷ script) pos (b ∷ ahead) got (suc left) h fits =
    let moved = min (suc n) (min (suc left) (suc (length ahead))) in
    let total : moved + (suc left - moved) ≡ suc left = omega arith in
    read_loop_served script (pos + moved) (drop moved (b ∷ ahead)) (got ++ take moved (b ∷ ahead))
      (suc left - moved) h.1 (omega (arith, length-drop moved (b ∷ ahead)))
    ∙ ap some (
        append_assoc got (take moved (b ∷ ahead)) (take (suc left - moved) (drop moved (b ∷ ahead)))
        ∙ ap (λ (t : List ℕ). got ++ t) (take-take-drop moved (suc left - moved) (b ∷ ahead))
        ∙ ap (λ (t : ℕ). got ++ take t (b ∷ ahead)) total)

-- Past the end of the file no kernel serves a read in full.
pub read_loop_short :
    (script : List Answer) (pos : ℕ) (ahead got : List ℕ) (left : ℕ)
    → length ahead < left
    → (read_loop script pos ahead got left).chunk ≡ none
unfolding read_loop
read_loop_short script pos ahead got zero h = absurd (omega arith)
read_loop_short script pos ahead got left h =
    elim (Option-cases (read_loop script pos ahead got left).chunk) [
      | inl e ↦ e
      | inr (c, e) ↦ absurd (omega (arith, (read_loop-Read script pos ahead got left c e).fits))
    ]

-- Past the end of the script there is nothing more to come.
pub read_loop_quiet :
    (script : List Answer) (pos : ℕ) (ahead got : List ℕ) (left : ℕ)
    → script ≡ []
    → (read_loop script pos ahead got left).input.script ≡ []
unfolding read_loop
read_loop_quiet [] pos ahead got zero h = refl
read_loop_quiet [] pos ahead got (suc left) h = refl
read_loop_quiet (a ∷ script) pos ahead got left h = cc

pub query_quiet : (script : List Answer) → script ≡ [] → (query script).1 ≡ []
unfolding query
query_quiet [] h = refl
query_quiet (a ∷ script) h = cc

pub query-IsSmooth :
    (script : List Answer) → IsSmooth script → ((query script).0 ≡ true) × IsSmooth (query script).1
unfolding query
query-IsSmooth [] h = (refl, tt)
query-IsSmooth (transfer zero ∷ script) h = absurd h.0
query-IsSmooth (transfer (suc n) ∷ script) h = (refl, h.1)
query-IsSmooth (interrupted ∷ script) h = (refl, h.1)
query-IsSmooth (failed ∷ script) h = absurd h.0
