-- ===== src/Wal/Round.antt =====
-- One round of the reader on an entry that the writer wrote.
use lite_speed_store.Base.{
  ℕ, ◌+◌, ◌^◌, ◌≤◌, ◌<◌, ◌≡◌, refl, sym, ap, ◌∙◌, arith, false, ◌||◌, some, List, [], ◌++◌,
  append_assoc, append-nil, length, length-append, ltb, le→ltb, ==_refl, equal_bytes_refl,
}
use lite_speed_store.Endian.{put_le32, get_le32}
use lite_speed_store.Endian.Value.{get_le32-put_le32, put_le32-le_bytes, length-le_bytes}
use lite_speed_store.Crc32
use lite_speed_store.Posix.{Input}
use lite_speed_store.Posix.Laws.{IsSmooth}
use lite_speed_store.Wal.{max_field_size}
use lite_speed_store.Wal.Format.{
  Entry, fixed_part, covered, entry_hash, entry_bytes, entry_fixed_size, hash_size,
}
use lite_speed_store.Wal.Check.{go, Verified, read_prefix, read_entry, verify_entry}
use lite_speed_store.Wal.Fields.{
  IsEntry, fields_of, decode_fixed-fixed_part, length-fixed_part, length-chain_hash,
}
use lite_speed_store.Wal.Reads.{read-Served}

-- The bytes that the CRC covers, and the CRC's own.
abbrev pub body : List ℕ → Entry → List ℕ
body prev e = covered (fixed_part e) e.key e.value (entry_hash prev e)

abbrev pub crc_bytes : List ℕ → Entry → List ℕ
crc_bytes prev e = put_le32 [] (Crc32.calculate (body prev e))

pub length-crc_bytes : (v : ℕ) → length (put_le32 [] v) ≡ 4
length-crc_bytes v = ap length (put_le32-le_bytes [] v) ∙ length-le_bytes 4 v

pub calculate-lt : (bytes : List ℕ) → Crc32.calculate bytes < 2 ^ 32
unfolding Crc32.calculate
calculate-lt bytes = omega arith

-- An entry takes 69 bytes and its key and value.
pub length-entry_bytes :
    (prev : List ℕ) (e : Entry)
    → IsEntry e
    → length (entry_bytes prev e) ≡ 4 + entry_fixed_size + hash_size + length e.key + length e.value
unfolding entry_bytes covered entry_hash
length-entry_bytes prev e h =
    let hash = entry_hash prev e in
    omega (
      arith,
      length-append (crc_bytes prev e) (body prev e),
      length-crc_bytes (Crc32.calculate (body prev e)),
      length-append (fixed_part e) (e.key ++ (e.value ++ hash)),
      length-fixed_part e h,
      length-append e.key (e.value ++ hash),
      length-append e.value hash,
      length-chain_hash prev (fixed_part e) e.key e.value,
    )

after_fixed : List ℕ → Entry → List ℕ → List ℕ
after_fixed prev e rest = e.key ++ (e.value ++ (entry_hash prev e ++ rest))

entry_split :
    (prev : List ℕ) (e : Entry) (rest : List ℕ)
    → entry_bytes prev e ++ rest ≡ crc_bytes prev e ++ (fixed_part e ++ after_fixed prev e rest)
unfolding entry_bytes covered after_fixed
entry_split prev e rest = simp append_assoc

pub read_crc : (v : ℕ) → v < 2 ^ 32 → get_le32 (put_le32 [] v) ≡ some v
read_crc v h = ap get_le32 (sym (append-nil (put_le32 [] v))) ∙ get_le32-put_le32 v [] h

pub small_fields :
    (e : Entry)
    → IsEntry e
    → (ltb max_field_size (length e.key) || ltb max_field_size (length e.value)) ≡ false
small_fields e h =
    rw (le→ltb max_field_size (length e.key) h.key, le→ltb max_field_size (length e.value) h.value)

-- The round up to the length checks, in front of what follows the fixed part.
pub record Opened (room : ℕ) (prev : List ℕ) (e : Entry) (i0 : Input) (behind : List ℕ)
    : Type 0 where
  pub next : Input
  pub eq : read_prefix room i0 ≡ go (Crc32.calculate (body prev e), fixed_part e, fields_of e, next)
  pub pos : next.pos ≡ i0.pos + (4 + entry_fixed_size)
  pub ahead : next.ahead ≡ behind
  pub smooth : IsSmooth next.script
  pub quiet : i0.script ≡ [] → next.script ≡ []

pub open_entry :
    (room : ℕ) (prev : List ℕ) (e : Entry) (i0 : Input) (behind : List ℕ)
    → IsEntry e
    → IsSmooth i0.script
    → i0.ahead ≡ crc_bytes prev e ++ (fixed_part e ++ behind)
    → length (entry_bytes prev e) ≤ room
    → Opened room prev e i0 behind
unfolding read_prefix fields_of
open_entry room prev e i0 behind h smooth ahead fits =
    let s1 =
      read-Served i0 4 (crc_bytes prev e) (fixed_part e ++ behind) smooth
        (length-crc_bytes (Crc32.calculate (body prev e))) ahead in
    let s2 =
      read-Served s1.next entry_fixed_size (fixed_part e) behind s1.smooth (length-fixed_part e h)
        s1.ahead in
    let crc = read_crc (Crc32.calculate (body prev e)) (calculate-lt (body prev e)) in
    let enough : ltb room (4 + entry_fixed_size + hash_size + length e.key + length e.value)
        ≡ false =
      le→ltb room _ (omega (arith, length-entry_bytes prev e h, fits)) in
    record {
      next = s2.next;
      eq = rw (s1.eq, crc, s2.eq, decode_fixed-fixed_part e h, small_fields e h, enough);
      pos = omega (arith, s1.pos, s2.pos);
      ahead = s2.ahead;
      smooth = s2.smooth;
      quiet = λ q. s2.quiet (s1.quiet q);
    }

-- What the round makes of a written entry.
abbrev pub verified : List ℕ → Entry → Input → Verified
verified prev e next = record {
  fields = fields_of e;
  key = e.key;
  value = e.value;
  hash = entry_hash prev e;
  input = next;
}

-- A round that accepts the entry and stands in front of `rest`.
pub record Accepted (room : ℕ) (prev : List ℕ) (e : Entry) (i0 : Input) (rest : List ℕ)
    : Type 0 where
  pub next : Input
  pub eq : verify_entry room prev e.seq i0 ≡ go (verified prev e next)
  pub pos : next.pos ≡ i0.pos + length (entry_bytes prev e)
  pub ahead : next.ahead ≡ rest
  pub smooth : IsSmooth next.script
  pub quiet : i0.script ≡ [] → next.script ≡ []

pub verify_entry-Accepted :
    (room : ℕ) (prev : List ℕ) (e : Entry) (i0 : Input) (rest : List ℕ)
    → IsEntry e
    → IsSmooth i0.script
    → i0.ahead ≡ entry_bytes prev e ++ rest
    → length (entry_bytes prev e) ≤ room
    → Accepted room prev e i0 rest
unfolding verify_entry read_entry fields_of entry_hash after_fixed
verify_entry-Accepted room prev e i0 rest h smooth ahead fits =
    let o =
      open_entry room prev e i0 (after_fixed prev e rest) h smooth (ahead ∙ entry_split prev e rest)
        fits in
    let hash = entry_hash prev e in
    let s3 =
      read-Served o.next (length e.key) e.key (e.value ++ (hash ++ rest)) o.smooth refl o.ahead in
    let s4 = read-Served s3.next (length e.value) e.value (hash ++ rest) s3.smooth refl s3.ahead in
    let s5 =
      read-Served s4.next hash_size hash rest s4.smooth
        (length-chain_hash prev (fixed_part e) e.key e.value) s4.ahead in
    record {
      next = s5.next;
      eq = rw (
        o.eq,
        s3.eq,
        s4.eq,
        s5.eq,
        ==_refl (Crc32.calculate (body prev e)),
        equal_bytes_refl hash,
        ==_refl e.seq,
      );
      pos = omega (arith, o.pos, s3.pos, s4.pos, s5.pos, length-entry_bytes prev e h);
      ahead = s5.ahead;
      smooth = s5.smooth;
      quiet = λ q. s5.quiet (s4.quiet (s3.quiet (o.quiet q)));
    }
