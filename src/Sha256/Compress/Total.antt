-- ===== src/Sha256/Compress/Total.antt =====
-- `transform` on a state of eight words and a block of 64 bytes.
use lite_speed_store.Base.{
  ℕ, zero, suc, ◌+◌, ◌-◌, ◌*◌, ◌≤◌, ◌<◌, ◌≡◌, refl, arith, some, List, [], ◌∷◌, ◌++◌, length,
  length-append,
}
use lite_speed_store.Endian.Total.{get_elem?-total}
use lite_speed_store.Sha256.Compress.{
  round_constants, join_bytes, sum_words, load_word, load_words, next_word, extend, schedule,
  Working, mix, round, rounds, working, add_words, transform,
}

load_word-total : (p : List ℕ) (i : ℕ) → i * 4 + 4 ≤ length p → (w : ℕ) × (load_word p i ≡ some w)
unfolding load_word
load_word-total p i h =
    let (a, ha) = get_elem?-total p (i * 4 + 0) (omega (arith, h)) in
    let (b, hb) = get_elem?-total p (i * 4 + 1) (omega (arith, h)) in
    let (c, hc) = get_elem?-total p (i * 4 + 2) (omega (arith, h)) in
    let (d, hd) = get_elem?-total p (i * 4 + 3) (omega (arith, h)) in
    (join_bytes a b c d, rw (ha, hb, hc, hd) refl)

load_words-total :
    (left i : ℕ) (p : List ℕ)
    → (i + left) * 4 ≤ length p
    → (ws : List ℕ) × (load_words left i p ≡ some ws) × (length ws ≡ left)
unfolding load_words
load_words-total zero i p h = ([], refl, refl)
load_words-total (suc left) i p h =
    let (w, hw) = load_word-total p i (omega (arith, h)) in
    let (ws, hws, size) = load_words-total left (i + 1) p (omega (arith, h)) in
    (w ∷ ws, rw (hw, hws) refl, omega (arith, size))

next_word-total : (w : List ℕ) (i : ℕ) → length w ≡ i → 16 ≤ i → (x : ℕ) × (next_word w i ≡ some x)
unfolding next_word
next_word-total w i size h =
    let (a, ha) = get_elem?-total w (i - 15) (omega (arith, size, h)) in
    let (b, hb) = get_elem?-total w (i - 2) (omega (arith, size, h)) in
    let (c, hc) = get_elem?-total w (i - 16) (omega (arith, size, h)) in
    let (d, hd) = get_elem?-total w (i - 7) (omega (arith, size, h)) in
    (sum_words a b c d, rw (ha, hb, hc, hd) refl)

extend-total :
    (left i : ℕ) (w : List ℕ)
    → length w ≡ i
    → 16 ≤ i
    → (ws : List ℕ) × (extend left i w ≡ some ws) × (length ws ≡ i + left)
unfolding extend
extend-total zero i w size h = (w, refl, omega (arith, size))
extend-total (suc left) i w size h =
    let (x, hx) = next_word-total w i size h in
    let (ws, hws, total) =
      extend-total left (i + 1) (w ++ x ∷ []) (omega (arith, size, length-append w (x ∷ [])))
        (omega (arith, h)) in
    (ws, rw hx hws, omega (arith, total))

schedule-total :
    (p : List ℕ) → length p ≡ 64 → (w : List ℕ) × (schedule p ≡ some w) × (length w ≡ 64)
unfolding schedule
schedule-total p h =
    let (ws, hws, size) = load_words-total 16 0 p (omega (arith, h)) in
    let (w, hw, total) = extend-total 48 16 ws size (omega arith) in (w, rw hws hw, total)

round-total :
    (w : List ℕ) (i : ℕ) (v : Working)
    → length w ≡ 64
    → i < 64
    → (next : Working) × (round w i v ≡ some next)
unfolding round
round-total w i v size h =
    let (k, hk) = get_elem?-total round_constants i h in
    let (x, hx) = get_elem?-total w i (omega (arith, size, h)) in (mix k x v, rw (hk, hx) refl)

rounds-total :
    (left i : ℕ) (w : List ℕ) (v : Working)
    → length w ≡ 64
    → i + left ≤ 64
    → (next : Working) × (rounds left i w v ≡ some next)
unfolding rounds
rounds-total zero i w v size h = (v, refl)
rounds-total (suc left) i w v size h =
    let (x, hx) = round-total w i v size (omega (arith, h)) in
    let (next, eq) = rounds-total left (i + 1) w x size (omega (arith, h)) in (next, rw hx eq)

working-total : (s : List ℕ) → length s ≡ 8 → (u : Working) × (working s ≡ some u)
unfolding working
working-total s h =
    let (a, ha) = get_elem?-total s 0 (omega (arith, h)) in
    let (b, hb) = get_elem?-total s 1 (omega (arith, h)) in
    let (c, hc) = get_elem?-total s 2 (omega (arith, h)) in
    let (d, hd) = get_elem?-total s 3 (omega (arith, h)) in
    let (e, he) = get_elem?-total s 4 (omega (arith, h)) in
    let (f, hf) = get_elem?-total s 5 (omega (arith, h)) in
    let (g, hg) = get_elem?-total s 6 (omega (arith, h)) in
    let (k, hk) = get_elem?-total s 7 (omega (arith, h)) in
    (
      record { a = a; b = b; c = c; d = d; e = e; f = f; g = g; h = k },
      rw (ha, hb, hc, hd, he, hf, hg, hk) refl,
    )

pub transform-total :
    (s p : List ℕ)
    → length s ≡ 8
    → length p ≡ 64
    → (t : List ℕ) × (transform s p ≡ some t) × (length t ≡ 8)
unfolding transform add_words
transform-total s p hs hp =
    let (w, hw, size) = schedule-total p hp in
    let (u, hu) = working-total s hs in
    let (v, hv) = rounds-total 64 0 w u size (omega arith) in
    (add_words u v, rw (hw, hu, hv) refl, refl)
