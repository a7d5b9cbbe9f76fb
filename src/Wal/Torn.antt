-- ===== src/Wal/Torn.antt =====
-- The reader on an entry that was not written to its end: a torn tail, at whatever byte it stops.
use lite_speed_store.Base.{
  ℕ, ◌+◌, ◌-◌, ◌<◌, ◌≡◌, ap, ◌∙◌, arith, true, inl, inr, List, [], ◌++◌, length, length-take, take,
  take-append_ge, lt→ltb, ltb→le, ltb→lt, ltb, Bool-cases,
}
use lite_speed_store.Crc32
use lite_speed_store.Posix.{Answer, Input, read_exact}
use lite_speed_store.Posix.Laws.{IsSmooth, read_loop-IsSmooth, read_loop_quiet}
use lite_speed_store.Wal.Format.{
  Entry, fixed_part, entry_bytes, entry_hash, covered, entry_fixed_size, hash_size,
}
use lite_speed_store.Wal.Check.{torn, exit, read_prefix, verify_entry}
use lite_speed_store.Wal.Fields.{IsEntry, fields_of, decode_fixed-fixed_part, length-fixed_part}
use lite_speed_store.Wal.Reads.{read-Served, read_torn}
use lite_speed_store.Wal.Round.{
  body, crc_bytes, read_crc, length-crc_bytes, length-entry_bytes, calculate-lt, small_fields,
}

-- The round ends by `break`.
pub record TornRound (room : ℕ) (prev : List ℕ) (n : ℕ) (i0 : Input) : Type 0 where
  pub script : List Answer
  pub eq : verify_entry room prev n i0 ≡ exit torn script
  pub smooth : IsSmooth script
  pub quiet : i0.script ≡ [] → script ≡ []

read_exact-IsSmooth :
    (i : Input) (n : ℕ) → IsSmooth i.script → IsSmooth (read_exact i n).input.script
unfolding read_exact
read_exact-IsSmooth i n h = read_loop-IsSmooth i.script i.pos i.ahead [] n h

read_exact_quiet : (i : Input) (n : ℕ) → i.script ≡ [] → (read_exact i n).input.script ≡ []
unfolding read_exact
read_exact_quiet i n = read_loop_quiet i.script i.pos i.ahead [] n

module _ (room : ℕ) (prev : List ℕ) (e : Entry) (n : ℕ) (i0 : Input) (h : IsEntry e)
    (smooth : IsSmooth i0.script) (cut : ℕ) (short : cut < length (entry_bytes prev e))
    (ahead : i0.ahead ≡ take cut (entry_bytes prev e)) (fits : room ≡ length i0.ahead) where
  cut_length : length i0.ahead ≡ cut
  cut_length = ap length ahead ∙ length-take cut (entry_bytes prev e) ∙ omega (arith, short)

  no_crc : cut < 4 → TornRound room prev n i0
  unfolding verify_entry read_prefix
  no_crc small = record {
    script = (read_exact i0 4).input.script;
    eq = rw (read_torn i0 4 (omega (arith, cut_length, small)));
    smooth = read_exact-IsSmooth i0 4 smooth;
    quiet = read_exact_quiet i0 4;
  }

  -- The CRC is there, and `part` is what is left of the entry behind it.
  module _ (part : List ℕ) (split : i0.ahead ≡ crc_bytes prev e ++ part) where
    no_fixed : length part < entry_fixed_size → TornRound room prev n i0
    unfolding verify_entry read_prefix
    no_fixed small =
        let s1 =
          read-Served i0 4 (crc_bytes prev e) part smooth
            (length-crc_bytes (Crc32.calculate (body prev e))) split in
        let crc = read_crc (Crc32.calculate (body prev e)) (calculate-lt (body prev e)) in
        let missing =
          read_torn s1.next entry_fixed_size (omega (arith, ap length s1.ahead, small)) in
        record {
          script = (read_exact s1.next entry_fixed_size).input.script;
          eq = rw (s1.eq, crc, missing);
          smooth = read_exact-IsSmooth s1.next entry_fixed_size s1.smooth;
          quiet = λ q. read_exact_quiet s1.next entry_fixed_size (s1.quiet q);
        }

    -- The fixed part is there too: its lengths show that the entry does not fit.
    no_room : (more : List ℕ) → part ≡ fixed_part e ++ more → TornRound room prev n i0
    unfolding verify_entry read_prefix fields_of
    no_room more whole =
        let s1 =
          read-Served i0 4 (crc_bytes prev e) part smooth
            (length-crc_bytes (Crc32.calculate (body prev e))) split in
        let crc = read_crc (Crc32.calculate (body prev e)) (calculate-lt (body prev e)) in
        let s2 =
          read-Served s1.next entry_fixed_size (fixed_part e) more s1.smooth (length-fixed_part e h)
            (s1.ahead ∙ whole) in
        let tight : ltb room (4 + entry_fixed_size + hash_size + length e.key + length e.value)
            ≡ true =
          lt→ltb room _ (omega (arith, length-entry_bytes prev e h, cut_length, short, fits)) in
        record {
          script = s2.next.script;
          eq = rw (s1.eq, crc, s2.eq, decode_fixed-fixed_part e h, small_fields e h, tight);
          smooth = s2.smooth;
          quiet = λ q. s2.quiet (s1.quiet q);
        }

  -- A proper prefix of an entry is a torn tail.
  pub verify_entry-TornRound : TornRound room prev n i0
  unfolding entry_bytes covered
  verify_entry-TornRound = elim (Bool-cases (ltb cut 4)) [
    | inl small ↦ no_crc (ltb→lt cut 4 small)
    | inr large ↦
        let crc = crc_bytes prev e in
        let four = length-crc_bytes (Crc32.calculate (body prev e)) in
        let part = take (cut - length crc) (body prev e) in
        let split : i0.ahead ≡ crc ++ part =
          ahead ∙ take-append_ge cut crc (body prev e) (omega (arith, four, ltb→le cut 4 large)) in
        elim (Bool-cases (ltb (length part) entry_fixed_size)) [
          | inl small ↦ no_fixed part split (ltb→lt _ _ small)
          | inr enough ↦
              no_room part split
                (take (cut - length crc - length (fixed_part e))
                  (e.key ++ (e.value ++ entry_hash prev e)))
                (take-append_ge (cut - length crc) (fixed_part e)
                  (e.key ++ (e.value ++ entry_hash prev e))
                  (omega (
                    arith,
                    length-fixed_part e h,
                    ltb→le _ _ enough,
                    length-take (cut - length crc) (body prev e),
                  )))
        ]
  ]
