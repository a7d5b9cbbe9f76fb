-- ===== src/Wal/Halts.antt =====
-- The loop of the reader over a journal that `append` wrote, whole or with a torn tail.
use lite_speed_store.Base.{
  ℕ, suc, ◌+◌, ◌-◌, ◌^◌, ◌≤◌, ◌<◌, ◌≡◌, refl, sym, ap, ap₂, ◌∙◌, arith, Option, List, [], ◌++◌,
  append_assoc, length, length-append, length-take, length-drop, take, drop,
}
use native.Mathlib.Nat.{add-zero}
use lite_speed_store.Endian.{put_le32, put_le64}
use lite_speed_store.Posix.{Answer, Input}
use lite_speed_store.Posix.Laws.{IsSmooth}
use lite_speed_store.Wal.{header, header_size, zero_hash}
use lite_speed_store.Wal.Format.{Entry, entry_bytes}
use lite_speed_store.Wal.Check.{torn}
use lite_speed_store.Wal.Walk.{Ending, at_end, broke, Visit, Walk, walk_loop, start}
use lite_speed_store.Wal.Fields.{IsEntry}
use lite_speed_store.Wal.Steps.{loop_end, loop_exit}
use lite_speed_store.Wal.Torn.{verify_entry-TornRound}
use lite_speed_store.Wal.Log.{
  IsLog, encode_log, log_head, replay_log, walk_at, walk_loop-Passed, length-le-encode_log,
}

-- The file of a journal with these entries.
unfoldable pub journal : List Entry → List ℕ
journal es = header ++ encode_log zero_hash es

length-header : length header ≡ header_size
unfolding header put_le32 put_le64
length-header = refl

drop-header : (rest : List ℕ) → drop header_size (header ++ rest) ≡ rest
unfolding header put_le32 put_le64
drop-header rest = refl

-- A file that the writer left: the header, whole entries, and `tail` behind them.
pub record IsLeft (bytes : List ℕ) (es : List Entry) (tail : List ℕ) : Type 0 where
  pub log : IsLog 0 es
  pub small : length es < 2 ^ 64
  pub bytes_lem : bytes ≡ journal es ++ tail

module _ {bytes : List ℕ} {es : List Entry} {tail : List ℕ} (left : IsLeft bytes es tail) where
  pub bytes_split : bytes ≡ header ++ (encode_log zero_hash es ++ tail)
  unfolding journal
  bytes_split = left.bytes_lem ∙ append_assoc header (encode_log zero_hash es) tail

  pub length-journal : length bytes ≡ length (journal es) + length tail
  length-journal = ap length left.bytes_lem ∙ length-append (journal es) tail

  journal_sizes :
      (length (journal es) ≡ header_size + length (encode_log zero_hash es))
      × (length es ≤ length (encode_log zero_hash es))
  unfolding journal
  journal_sizes = (
    length-append header (encode_log zero_hash es)
        ∙ ap (λ (t : ℕ). t + length (encode_log zero_hash es)) length-header,
    length-le-encode_log 0 zero_hash es left.log,
  )

  behind_header : drop header_size bytes ≡ encode_log zero_hash es ++ tail
  behind_header = ap (drop header_size) bytes_split ∙ drop-header (encode_log zero_hash es ++ tail)

module _ {ℓ} {S : Type ℓ} (visitor : Option (Visit → S → S)) (min_epoch : Option ℕ) where
  -- The state of the loop behind the last whole entry.
  abbrev pub walk_behind : List Entry → S → Walk S
  walk_behind es s =
      walk_at (length (journal es)) (log_head zero_hash es) (length es)
        (replay_log visitor min_epoch es s)

  -- The loop is left behind the last whole entry.
  pub record Halts (bytes : List ℕ) (script : List Answer) (es : List Entry) (s : S) (how : Ending)
      : Type ℓ where
    pub script' : List Answer
    pub eq :
        walk_loop visitor min_epoch
          (suc (length bytes))
          (length bytes)
          header_size
          (drop header_size bytes)
          script
          (start s)
        ≡ record { how = how; walk = walk_behind es s; script = script' }
    pub smooth : IsSmooth script'
    pub quiet : script ≡ [] → script' ≡ []

  -- The loop in front of what follows the last whole entry.
  pub record Behind (bytes : List ℕ) (script : List Answer) (es : List Entry) (s : S)
      (tail : List ℕ) : Type ℓ where
    pub fuel : ℕ
    pub ahead' : List ℕ
    pub script' : List Answer
    pub eq :
        walk_loop visitor min_epoch
          (suc (length bytes))
          (length bytes)
          header_size
          (drop header_size bytes)
          script
          (start s)
        ≡ walk_loop visitor min_epoch
            (suc fuel)
            (length bytes)
            (length (journal es))
            ahead'
            script'
            (walk_behind es s)
    pub ahead_lem : ahead' ≡ tail
    pub smooth : IsSmooth script'
    pub quiet : script ≡ [] → script' ≡ []

  pub loop-Behind :
      {bytes : List ℕ} {es : List Entry} {tail : List ℕ} (script : List Answer) (s : S)
      → IsLeft bytes es tail
      → IsSmooth script
      → Behind bytes script es s tail
  unfolding start
  loop-Behind {bytes} {es} {tail} script s left smooth =
      let (size, count) = journal_sizes left in
      let total = length-journal left in
      let fuel : ℕ = length bytes - length es in
      let p =
        walk_loop-Passed visitor min_epoch es (suc fuel) (length bytes) header_size
          (drop header_size bytes) script zero_hash 0 s tail left.log (omega (arith, left.small))
          smooth (behind_header left) (omega (arith, total, size, length-drop header_size bytes)) in
      record {
        fuel = fuel;
        ahead' = p.ahead';
        script' = p.script';
        eq =
            ap
              (λ (k : ℕ).
                walk_loop visitor min_epoch k (length bytes) header_size (drop header_size bytes)
                  script (walk_at header_size zero_hash 0 s))
              {x = suc (length bytes)} {y = length es + suc fuel}
              (omega (arith, total, size, count))
            ∙ p.eq
            ∙ ap₂
                (λ (k m : ℕ).
                  walk_loop visitor min_epoch (suc fuel) (length bytes) k p.ahead' p.script'
                    (walk_at k (log_head zero_hash es) m (replay_log visitor min_epoch es s)))
                (p.pos_lem ∙ sym size) (add-zero (length es));
        ahead_lem = p.ahead_lem;
        smooth = p.smooth;
        quiet = p.quiet;
      }

  pub loop_whole :
      {bytes : List ℕ} {es : List Entry} (script : List Answer) (s : S)
      → IsLeft bytes es []
      → IsSmooth script
      → Halts bytes script es s at_end
  loop_whole {bytes} {es} script s left smooth =
      let b = loop-Behind script s left smooth in
      record {
        script' = b.script';
        eq =
            b.eq
            ∙ loop_end visitor min_epoch b.fuel (length bytes) (length (journal es)) b.ahead'
                b.script' (walk_behind es s) (omega (arith, length-journal left));
        smooth = b.smooth;
        quiet = b.quiet;
      }

  pub loop_torn :
      {bytes : List ℕ} {es : List Entry} (script : List Answer) (s : S) (e : Entry) (cut : ℕ)
      → IsLeft bytes es (take cut (entry_bytes (log_head zero_hash es) e))
      → IsEntry e
      → 0 < cut
      → cut < length (entry_bytes (log_head zero_hash es) e)
      → IsSmooth script
      → Halts bytes script es s (broke torn)
  loop_torn {bytes} {es} script s e cut left h some_bytes short smooth =
      let b = loop-Behind script s left smooth in
      let pos = length (journal es) in
      let next = entry_bytes (log_head zero_hash es) e in
      let total = length-journal left in
      let size = length-take cut next in
      let i0 : Input = record { pos = pos; ahead = b.ahead'; script = b.script' } in
      let t =
        verify_entry-TornRound (length bytes - pos) (log_head zero_hash es) e (length es) i0 h
          b.smooth cut short b.ahead_lem (omega (arith, total, ap length b.ahead_lem)) in
      record {
        script' = t.script;
        eq =
            b.eq
            ∙ loop_exit visitor min_epoch b.fuel (length bytes) pos b.ahead' b.script'
                (walk_behind es s) (omega (arith, total, size, short, some_bytes)) t.eq;
        smooth = t.smooth;
        quiet = λ q. t.quiet (b.quiet q);
      }
