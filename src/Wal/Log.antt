-- ===== src/Wal/Log.antt =====
-- A journal as a list of entries, and the reader's loop over one that `append` wrote.
use lite_speed_store.Base.{
  ℕ, suc, ◌+◌, ◌-◌, ◌^◌, ◌≤◌, ◌<◌, ◌≡◌, refl, sym, ap, ap₂, ◌∙◌, arith, Option, none, some, List,
  [], ◌∷◌, ◌++◌, append_assoc, length, length-append, if◌then◌else◌, u64,
}
use lite_speed_store.Posix.{Answer, Input, query}
use native.Mathlib.Nat.{zero-add}
use lite_speed_store.Posix.Laws.{IsSmooth, query-IsSmooth, query_quiet}
use lite_speed_store.Wal.Format.{Entry, type_byte, entry_hash, entry_bytes}
use lite_speed_store.Wal.Check.{verify_entry}
use lite_speed_store.Wal.Walk.{Visit, Walk, passes, visit, advance, walk_loop}
use lite_speed_store.Wal.Fields.{IsEntry, fields_of, join_timestamp-fields_of}
use lite_speed_store.Wal.Steps.{loop_go}
use lite_speed_store.Wal.Round.{verified, verify_entry-Accepted, length-entry_bytes}

-- The bytes of a journal's entries on top of the head `prev`, and the head after them.
unfoldable pub encode_log : List ℕ → List Entry → List ℕ
encode_log prev [] = []
encode_log prev (e ∷ es) = entry_bytes prev e ++ encode_log (entry_hash prev e) es

unfoldable pub log_head : List ℕ → List Entry → List ℕ
log_head prev [] = prev
log_head prev (e ∷ es) = log_head (entry_hash prev e) es

-- The sequence numbers count up from `n`, and each entry is one that `append` can write.
abbrev pub IsLog : ℕ → List Entry → Type 0
IsLog n [] = Unit
IsLog n (e ∷ es) = (e.seq ≡ n) × IsEntry e × IsLog (suc n) es

-- What the visitor is to see of an entry.
abbrev pub visit_of : Entry → Visit
visit_of e = record {
  type = type_byte e.type;
  key = e.key;
  value = e.value;
  timestamp = e.timestamp;
}

module _ {ℓ} {S : Type ℓ} (visitor : Option (Visit → S → S)) (min_epoch : Option ℕ) where
  unfoldable pub replay_entry : Entry → S → S
  replay_entry e s = elim visitor [
    | none ↦ s
    | some f ↦ if passes min_epoch e.epoch then f (visit_of e) s else s
  ]

  -- The visitor's work on the entries, in order.
  unfoldable pub replay_log : List Entry → S → S
  unfolding replay_entry
  replay_log [] s = s
  replay_log (e ∷ es) s = replay_log es (replay_entry e s)

pub encode_log-append :
    (prev : List ℕ) (es fs : List Entry)
    → encode_log prev (es ++ fs) ≡ encode_log prev es ++ encode_log (log_head prev es) fs
unfolding encode_log log_head
encode_log-append prev [] fs = refl
encode_log-append prev (e ∷ es) fs =
    ap (λ (t : List ℕ). entry_bytes prev e ++ t) (encode_log-append (entry_hash prev e) es fs)
    ∙ sym (append_assoc (entry_bytes prev e) (encode_log (entry_hash prev e) es) (encode_log _ fs))

pub log_head-append :
    (prev : List ℕ) (es fs : List Entry) → log_head prev (es ++ fs) ≡ log_head (log_head prev es) fs
unfolding log_head
log_head-append prev [] fs = refl
log_head-append prev (e ∷ es) fs = log_head-append (entry_hash prev e) es fs

-- An entry takes some bytes, so a journal has at least as many bytes as entries.
pub length-le-encode_log :
    (n : ℕ) (prev : List ℕ) (es : List Entry) → IsLog n es → length es ≤ length (encode_log prev es)
unfolding encode_log
length-le-encode_log n prev [] h = omega arith
length-le-encode_log n prev (e ∷ es) h = omega (
  arith,
  length-le-encode_log (suc n) (entry_hash prev e) es h.2,
  length-append (entry_bytes prev e) (encode_log (entry_hash prev e) es),
  length-entry_bytes prev e h.1,
)

abbrev pub walk_at {ℓ} : {S : Type ℓ} → ℕ → List ℕ → ℕ → S → Walk S
walk_at pos prev n s = record { position = some pos; prev_hash = prev; expected_seq = n; state = s }

module _ {ℓ} {S : Type ℓ} (visitor : Option (Visit → S → S)) (min_epoch : Option ℕ) where
  -- The loop passes the entries `es` and stands in front of `tail`.
  pub record Passed (fuel size pos : ℕ) (ahead : List ℕ) (script : List Answer) (prev : List ℕ)
      (n : ℕ) (s : S) (es : List Entry) (tail : List ℕ) : Type ℓ where
    pub pos' : ℕ
    pub ahead' : List ℕ
    pub script' : List Answer
    pub eq :
        walk_loop visitor min_epoch (length es + fuel) size pos ahead script (walk_at pos prev n s)
        ≡ walk_loop visitor min_epoch fuel size pos' ahead' script'
            (walk_at pos' (log_head prev es) (length es + n) (replay_log visitor min_epoch es s))
    pub pos_lem : pos' ≡ pos + length (encode_log prev es)
    pub ahead_lem : ahead' ≡ tail
    pub smooth : IsSmooth script'
    pub quiet : script ≡ [] → script' ≡ []

  visit-fields_of :
      (prev : List ℕ) (e : Entry) (next : Input) (s : S)
      → IsEntry e
      → visit visitor min_epoch (verified prev e next) s ≡ replay_entry visitor min_epoch e s
  unfolding visit replay_entry fields_of
  visit-fields_of prev e next s h =
      ap
        (λ (t : ℕ). elim visitor [
          | none ↦ s
          | some f ↦
              if passes min_epoch e.epoch then f (record (visit_of e) { timestamp = t }) s else s
        ])
        (join_timestamp-fields_of e h)

  -- One round of the loop on a written entry.
  record Stepped (fuel size pos : ℕ) (ahead : List ℕ) (script : List Answer) (prev : List ℕ) (n : ℕ)
      (s : S) (e : Entry) (rest : List ℕ) : Type ℓ where
    pos' : ℕ
    ahead' : List ℕ
    script' : List Answer
    eq :
        walk_loop visitor min_epoch (suc fuel) size pos ahead script (walk_at pos prev n s)
        ≡ walk_loop visitor min_epoch fuel size pos' ahead' script'
            (walk_at pos' (entry_hash prev e) (suc n) (replay_entry visitor min_epoch e s))
    pos_lem : pos' ≡ pos + length (entry_bytes prev e)
    ahead_lem : ahead' ≡ rest
    smooth : IsSmooth script'
    quiet : script ≡ [] → script' ≡ []

  walk_loop-Stepped :
      (fuel size pos : ℕ) (ahead : List ℕ) (script : List Answer) (prev : List ℕ) (n : ℕ) (s : S)
      (e : Entry) (rest : List ℕ)
      → e.seq ≡ n
      → IsEntry e
      → suc n < 2 ^ 64
      → IsSmooth script
      → ahead ≡ entry_bytes prev e ++ rest
      → pos + length ahead ≡ size
      → Stepped fuel size pos ahead script prev n s e rest
  unfolding advance fields_of
  walk_loop-Stepped fuel size pos ahead script prev n s e rest hn h small smooth split total =
      let i0 : Input = record { pos = pos; ahead = ahead; script = script } in
      let long = ap length split ∙ length-append (entry_bytes prev e) rest in
      let some_bytes = length-entry_bytes prev e h in
      let a = verify_entry-Accepted (size - pos) prev e i0 rest h smooth split (omega arith) in
      let accepted = ap (λ (t : ℕ). verify_entry (size - pos) prev t i0) (sym hn) ∙ a.eq in
      let told = query-IsSmooth a.next.script a.smooth in
      let counted : u64 (e.seq + 1) ≡ suc n = omega arith in
      record {
        pos' = a.next.pos;
        ahead' = a.next.ahead;
        script' = (query a.next.script).1;
        eq =
            loop_go visitor min_epoch fuel size pos ahead script (walk_at pos prev n s)
              (omega arith) accepted told.0
            ∙ ap₂
                (λ m t.
                  walk_loop visitor min_epoch fuel size a.next.pos a.next.ahead
                    (query a.next.script).1 (walk_at a.next.pos (entry_hash prev e) m t))
                counted (visit-fields_of prev e a.next s h);
        pos_lem = a.pos;
        ahead_lem = a.ahead;
        smooth = told.1;
        quiet = λ q. query_quiet a.next.script (a.quiet q);
      }

  pub walk_loop-Passed :
      (es : List Entry) (fuel size pos : ℕ) (ahead : List ℕ) (script : List Answer) (prev : List ℕ)
      (n : ℕ) (s : S) (tail : List ℕ)
      → IsLog n es
      → length es + n < 2 ^ 64
      → IsSmooth script
      → ahead ≡ encode_log prev es ++ tail
      → pos + length ahead ≡ size
      → Passed fuel size pos ahead script prev n s es tail
  unfolding encode_log log_head replay_log
  walk_loop-Passed [] fuel size pos ahead script prev n s tail h small smooth e total = record {
    pos' = pos;
    ahead' = ahead;
    script' = script;
    eq = rw (zero-add fuel, zero-add n);
    pos_lem = omega arith;
    ahead_lem = e;
    smooth = smooth;
    quiet = λ q. q;
  }
  walk_loop-Passed (x ∷ es) fuel size pos ahead script prev n s tail h small smooth e total =
      let rest = encode_log (entry_hash prev x) es ++ tail in
      let split = e ∙ append_assoc (entry_bytes prev x) (encode_log (entry_hash prev x) es) tail in
      let long = ap length split ∙ length-append (entry_bytes prev x) rest in
      let st =
        walk_loop-Stepped (length es + fuel) size pos ahead script prev n s x rest h.0 h.1
          (omega arith) smooth split total in
      let r =
        walk_loop-Passed es fuel size st.pos' st.ahead' st.script' (entry_hash prev x) (suc n)
          (replay_entry visitor min_epoch x s) tail h.2 (omega arith) st.smooth st.ahead_lem
          (omega (arith, st.pos_lem, ap length st.ahead_lem)) in
      record {
        pos' = r.pos';
        ahead' = r.ahead';
        script' = r.script';
        eq =
            ap
              (λ (k : ℕ).
                walk_loop visitor min_epoch k size pos ahead script (walk_at pos prev n s))
              {x = suc (length es) + fuel} {y = suc (length es + fuel)} (omega arith)
            ∙ st.eq
            ∙ r.eq
            ∙ ap
                (λ (k : ℕ). walk_loop visitor min_epoch fuel size r.pos' r.ahead' r.script' (
                  walk_at r.pos' (log_head (entry_hash prev x) es) k
                    (replay_log visitor min_epoch es (replay_entry visitor min_epoch x s))))
                {x = length es + suc n} {y = suc (length es) + n} (omega arith);
        pos_lem = omega (
          arith,
          r.pos_lem,
          st.pos_lem,
          length-append (entry_bytes prev x) (encode_log (entry_hash prev x) es),
        );
        ahead_lem = r.ahead_lem;
        smooth = r.smooth;
        quiet = λ q. r.quiet (st.quiet q);
      }
