-- ===== src/Wal/Evidence.antt =====
-- `verify` as evidence: what a clean verdict says of the file, and of two files with one checkpoint.
use lite_speed_store.Base.{
  ℕ, suc, ◌^◌, ◌≤◌, ◌<◌, ◌≡◌, refl, sym, ap, ◌∙◌, arith, true, false, ◌⊎◌, inl, inr, Option, none,
  some, List, length, drop, length-drop, All, All-append_parts, subst, IsByte, take,
  take-append-drop, append-nil, ◌++◌,
}
use lite_speed_store.Posix.{Disk, query, seek}
use lite_speed_store.Posix.Laws.{IsSmooth, query-IsSmooth}
use lite_speed_store.Wal.{Wal, ok, RecoveryResult, header_size, zero_hash}
use lite_speed_store.Wal.Check.{torn, malformed_entry, tampered_entry, overread}
use lite_speed_store.Wal.Walk.{
  Walk, Ended, Ending, at_end, hung, broke, walk_loop, walk_chain, conclude, result, fail, start,
}
use lite_speed_store.Wal.Recover.{verify, report}
use lite_speed_store.Wal.Chain.{Raw, IsChain, raw_log, raw_head, walk_loop-Passes}
use lite_speed_store.Wal.Tamper.{Collides, chains_agree}

-- A clean verdict: the bytes behind the header are a chain of entries, and the result has its
-- length and its head.
pub record IsClean (w : Wal) (r : RecoveryResult) : Type 0 where
  pub raws : List Raw
  pub chain : IsChain 0 zero_hash raws
  pub bytes : drop header_size w.disk.bytes ≡ raw_log zero_hash raws
  pub count : r.entries_verified ≡ length raws
  pub head : r.head_hash ≡ raw_head zero_hash raws

-- An open journal on a kernel that fails no call, of a length that a file can have.
pub record IsJournal (w : Wal) : Type 0 where
  pub opened : w.fd_open ≡ true
  pub smooth : IsSmooth w.disk.script
  pub long : header_size ≤ length w.disk.bytes
  pub small : length w.disk.bytes < 2 ^ 64

fst_some {ℓ} :
    {A : Type ℓ} {r s : RecoveryResult} {a b : A}
    → ◌≡◌ {A = Option (RecoveryResult × A)} (some (r, a)) (some (s, b))
    → s ≡ r
fst_some e = cc

status_of : {r s : RecoveryResult} → s ≡ r → s.status ≡ ok → r.status ≡ ok
status_of e h = ap (λ (t : RecoveryResult). t.status) (sym e) ∙ h

-- Only the end of the file is reported as `ok`.
concluded :
    (w w' : Wal) (d : Disk) (how : Ending) (walk : Walk (Unit {0})) (r : RecoveryResult)
    → report w (conclude false d how walk) ≡ some (r, w')
    → r.status ≡ ok
    → (how ≡ at_end) × (r.entries_verified ≡ walk.expected_seq) × (r.head_hash ≡ walk.prev_hash)
unfolding report conclude result fail
concluded w w' d at_end walk r e h =
    let same = fst_some e in
    (
      refl,
      ap (λ (t : RecoveryResult). t.entries_verified) same,
      ap (λ (t : RecoveryResult). t.head_hash) same,
    )
concluded w w' d hung walk r e h = cc
concluded w w' d (broke torn) walk r e h = cc (status_of (fst_some e) h)
concluded w w' d (broke malformed_entry) walk r e h = cc (status_of (fst_some e) h)
concluded w w' d (broke tampered_entry) walk r e h = cc (status_of (fst_some e) h)
concluded w w' d (broke overread) walk r e h = cc

-- The walk of `verify` over the file.
abbrev walk_of : Wal → Ended (Unit {0})
walk_of w =
    walk_loop {0} {S = Unit {0}} none none (suc (length w.disk.bytes)) (length w.disk.bytes)
      header_size (drop header_size w.disk.bytes) (query (query w.disk.script).1).1 (start tt)

verify-walk_of :
    (w : Wal)
    → IsJournal w
    → verify w
      ≡ report w (
          conclude false
            (record w.disk { script = (walk_of w).script })
            (walk_of w).how
            (walk_of w).walk)
unfolding verify walk_chain seek
verify-walk_of w j =
    let q1 = query-IsSmooth w.disk.script j.smooth in
    let q2 = query-IsSmooth (query w.disk.script).1 q1.1 in rw (j.opened, q1.0, q2.0)

-- On a file at least as long as the header and shorter than 2^64 bytes, and on a smooth kernel
-- (one that answers with transfers and interrupts only), `verify` answers `ok` only where the
-- bytes behind the header are whole entries with matching CRCs, field lengths, chain hashes and
-- consecutive sequence numbers from 0, and nothing after them; the result then has their number
-- and the last hash.
pub verify-IsClean :
    (w w' : Wal) (r : RecoveryResult)
    → IsJournal w
    → verify w ≡ some (r, w')
    → r.status ≡ ok
    → IsClean w r
unfolding start
verify-IsClean w w' r j e h =
    let e' = walk_of w in
    let size = length w.disk.bytes in
    let rest = length-drop header_size w.disk.bytes in
    let p =
      walk_loop-Passes {0} {S = Unit {0}} none none (suc size) size header_size
        (drop header_size w.disk.bytes) (query (query w.disk.script).1).1 (start tt)
        (omega (arith, j.long, rest)) (omega (arith, j.small, rest)) in
    let (done, count, head) =
      concluded w w' (record w.disk { script = e'.script }) e'.how e'.walk r
        (sym (verify-walk_of w j) ∙ e) h in
    record {
      raws = p.raws;
      chain = p.chain;
      bytes =
          p.split
          ∙ ap (λ (t : List ℕ). raw_log zero_hash p.raws ++ t) (p.complete done)
          ∙ append-nil _;
      count = omega (arith, count, p.count);
      head = head ∙ p.head;
    }

dropped : (w : Wal) → All IsByte w.disk.bytes → All IsByte (drop header_size w.disk.bytes)
dropped w h =
    (All-append_parts IsByte (take header_size w.disk.bytes) (drop header_size w.disk.bytes)
      (subst (All IsByte) (sym (take-append-drop header_size w.disk.bytes)) h)).1

-- Two journals of bytes, each at least as long as the header and shorter than 2^64 bytes, that
-- `verify` (on smooth kernels, which answer with transfers and interrupts only) answers `ok` for,
-- with the same number of entries and the same head hash, hold the same bytes behind their
-- headers, unless two of their entries at one position have different chain messages with one
-- SHA-256 digest.
pub tamper_evident :
    (w1 w2 w1' w2' : Wal) (r1 r2 : RecoveryResult)
    → IsJournal w1
    → IsJournal w2
    → All IsByte w1.disk.bytes
    → All IsByte w2.disk.bytes
    → verify w1 ≡ some (r1, w1')
    → verify w2 ≡ some (r2, w2')
    → r1.status ≡ ok
    → r2.status ≡ ok
    → r1.entries_verified ≡ r2.entries_verified
    → r1.head_hash ≡ r2.head_hash
    → (c1 : IsClean w1 r1) × (c2 : IsClean w2 r2) × (Collides zero_hash zero_hash c1.raws c2.raws
        ⊎ (drop header_size w1.disk.bytes ≡ drop header_size w2.disk.bytes))
tamper_evident w1 w2 w1' w2' r1 r2 j1 j2 b1 b2 e1 e2 k1 k2 counts heads =
    let c1 = verify-IsClean w1 w1' r1 j1 e1 k1 in
    let c2 = verify-IsClean w2 w2' r2 j2 e2 k2 in
    (
      c1,
      c2,
      elim (chains_agree 0 zero_hash zero_hash c1.raws c2.raws refl refl c1.chain c2.chain
          (subst (All IsByte) c1.bytes (dropped w1 b1))
          (subst (All IsByte) c2.bytes (dropped w2 b2)) (sym c1.count ∙ counts ∙ c2.count)
          (sym c1.head ∙ heads ∙ c2.head)) [
            | inl collides ↦ inl collides
            | inr (_, same) ↦ inr (c1.bytes ∙ same ∙ sym c2.bytes)
          ],
    )
