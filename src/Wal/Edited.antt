-- ===== src/Wal/Edited.antt =====
-- An attacker edits a byte of the key or the value of an entry, and nothing else.
use lite_speed_store.Base.{
  ℕ, ◌≤◌, ◌≡◌, ◌≢◌, sym, ap, ◌∙◌, arith, false, List, [], ◌∷◌, ◌++◌, append_assoc, length,
  length-append, All, IsByte, ◌==◌, Bool-cases, inl, inr, All-append_parts, subst, ==_iff,
}
use lite_speed_store.Crc32
use lite_speed_store.Crc32.Detects.{calculate-differs}
use lite_speed_store.Posix.{Answer, Input}
use lite_speed_store.Posix.Laws.{IsSmooth}
use lite_speed_store.Wal.Format.{hash_size, Entry, fixed_part, covered, entry_hash, entry_bytes}
use lite_speed_store.Wal.Check.{exit, tampered_entry, verify_entry, read_entry}
use lite_speed_store.Wal.Fields.{IsEntry, fields_of, length-chain_hash}
use lite_speed_store.Wal.Reads.{read-Served}
use lite_speed_store.Wal.Round.{body, crc_bytes, open_entry}

-- The entry's bytes with another key and value.
unfoldable pub edited_bytes : List ℕ → Entry → List ℕ → List ℕ → List ℕ
edited_bytes prev e key value =
    crc_bytes prev e ++ covered (fixed_part e) key value (entry_hash prev e)

-- One byte of key and value is another.
pub record Edits (e : Entry) (key value : List ℕ) : Type 0 where
  pub key_size : length key ≡ length e.key
  pub value_size : length value ≡ length e.value
  pub front : List ℕ
  pub was : ℕ
  pub is : ℕ
  pub back : List ℕ
  pub before : e.key ++ e.value ≡ front ++ was ∷ back
  pub after : key ++ value ≡ front ++ is ∷ back
  pub other : was ≢ is
  pub byte : IsByte was

covered_at :
    (fixed key value hash front back : List ℕ) (b : ℕ)
    → key ++ value ≡ front ++ b ∷ back
    → covered fixed key value hash ≡ (fixed ++ front) ++ b ∷ (back ++ hash)
unfolding covered
covered_at fixed key value hash front back b h =
    ap (λ (t : List ℕ). fixed ++ t)
      (sym (append_assoc key value hash)
        ∙ ap (λ (t : List ℕ). t ++ hash) h
        ∙ append_assoc front (b ∷ back) hash)
    ∙ sym (append_assoc fixed front (b ∷ (back ++ hash)))

-- The stored CRC does not fit the edited entry.
module _ (prev : List ℕ) (e : Entry) (key value : List ℕ) (x : Edits e key value) where
  crc_differs :
      All IsByte (edited_bytes prev e key value)
      → (Crc32.calculate (covered (fixed_part e) key value (entry_hash prev e))
          == Crc32.calculate (body prev e))
        ≡ false
  unfolding edited_bytes
  crc_differs bytes =
      let hash = entry_hash prev e in
      let at = covered_at (fixed_part e) key value hash x.front x.back x.is x.after in
      let was = covered_at (fixed_part e) e.key e.value hash x.front x.back x.was x.before in
      let inner = (All-append_parts IsByte (crc_bytes prev e) _ bytes).1 in
      let (front, rest) =
        All-append_parts IsByte (fixed_part e ++ x.front) (x.is ∷ (x.back ++ hash))
          (subst (All IsByte) at inner) in
      let differ =
        calculate-differs (fixed_part e ++ x.front) (x.back ++ hash) x.was x.is front rest.1 x.byte
          rest.0 x.other in
      elim (Bool-cases (
        Crc32.calculate (covered (fixed_part e) key value hash) == Crc32.calculate (body prev e))) [
          | inl same ↦ absurd (
              differ
                (ap Crc32.calculate (sym was) ∙ sym ((==_iff _ _).0 same) ∙ ap Crc32.calculate at))
          | inr h ↦ h
        ]

  edited_split :
      (rest : List ℕ)
      → edited_bytes prev e key value ++ rest
        ≡ crc_bytes prev e ++ (fixed_part e ++ (key ++ (value ++ (entry_hash prev e ++ rest))))
  unfolding edited_bytes covered
  edited_split rest = simp append_assoc

  pub length-edited_bytes : length (edited_bytes prev e key value) ≡ length (entry_bytes prev e)
  unfolding edited_bytes entry_bytes covered
  length-edited_bytes =
      let hash = entry_hash prev e in
      omega (
        arith,
        length-append (crc_bytes prev e) (fixed_part e ++ (key ++ (value ++ hash))),
        length-append (crc_bytes prev e) (fixed_part e ++ (e.key ++ (e.value ++ hash))),
        length-append (fixed_part e) (key ++ (value ++ hash)),
        length-append (fixed_part e) (e.key ++ (e.value ++ hash)),
        length-append key (value ++ hash),
        length-append e.key (e.value ++ hash),
        length-append value hash,
        length-append e.value hash,
        x.key_size,
        x.value_size,
      )

  -- A round that leaves the loop with the edited entry.
  pub record Refused (room n : ℕ) (i0 : Input) : Type 0 where
    pub script : List Answer
    pub eq : verify_entry room prev n i0 ≡ exit tampered_entry script
    pub smooth : IsSmooth script
    pub quiet : i0.script ≡ [] → script ≡ []

  pub verify_entry-Refused :
      (room n : ℕ) (i0 : Input) (rest : List ℕ)
      → IsEntry e
      → IsSmooth i0.script
      → i0.ahead ≡ edited_bytes prev e key value ++ rest
      → All IsByte (edited_bytes prev e key value)
      → length (entry_bytes prev e) ≤ room
      → Refused room n i0
  unfolding verify_entry read_entry fields_of entry_hash
  verify_entry-Refused room n i0 rest h smooth ahead bytes fits =
      let hash = entry_hash prev e in
      let o =
        open_entry room prev e i0 (key ++ (value ++ (hash ++ rest))) h smooth
          (ahead ∙ edited_split rest) fits in
      let s3 =
        read-Served o.next (length e.key) key (value ++ (hash ++ rest)) o.smooth x.key_size
          o.ahead in
      let s4 =
        read-Served s3.next (length e.value) value (hash ++ rest) s3.smooth x.value_size s3.ahead in
      let s5 =
        read-Served s4.next hash_size hash rest s4.smooth
          (length-chain_hash prev (fixed_part e) e.key e.value) s4.ahead in
      record {
        script = s5.next.script;
        eq = rw (o.eq, s3.eq, s4.eq, s5.eq, crc_differs bytes);
        smooth = s5.smooth;
        quiet = λ q. s5.quiet (s4.quiet (s3.quiet (o.quiet q)));
      }
