-- ===== src/Snapshot/Parts.antt =====
-- Reading a part of the payload that the writer put at the offset.
use lite_speed_store.Base.{
  ℕ, ◌+◌, ◌-◌, ◌*◌, ◌≡◌, refl, sym, ap, ◌∙◌, arith, some, List, [], ◌∷◌, ◌++◌, append_assoc, u32,
  IsByte, IsU32, IsU64, All, length, length-append, drop, drop-drop, take-append_left,
  drop-append_left, le→ltb,
}
use lite_speed_store.Endian.{get_le32, get_le64}
use lite_speed_store.Endian.Value.{
  le_bytes, le_value, length-le_bytes, le_bytes-IsByte, le_value-le_bytes4, le_value-le_bytes8,
  le_value_inj, get_le32-le_value, get_le64-le_value, put_le64-le_bytes,
}
use lite_speed_store.Engine.{Record}
use lite_speed_store.Snapshot.{double_to_bits, bits_to_double}
use lite_speed_store.Snapshot.Load.{Parse, parsed, read_le32, read_le64, read_string, read_record}
use lite_speed_store.Snapshot.Layout.{record_bytes, Fits}

-- Behind the offset are just the bytes `rest`.
pub record At (payload : List ℕ) (offset : ℕ) (rest : List ℕ) : Type 0 where
  pub eq : drop offset payload ≡ rest
  pub within : offset + length rest ≡ length payload

module _ (payload : List ℕ) where
  pub advance :
      (offset n : ℕ) (front rest : List ℕ)
      → length front ≡ n
      → At payload offset (front ++ rest)
      → At payload (offset + n) rest
  advance offset n front rest h a = record {
    eq =
        sym (drop-drop offset n payload)
        ∙ ap (drop n) a.eq
        ∙ ap (λ (k : ℕ). drop k (front ++ rest)) (sym h)
        ∙ drop-append_left front rest;
    within = omega (arith, a.within, length-append front rest);
  }

  read_le32-At :
      (offset v : ℕ) (rest : List ℕ)
      → IsU32 v
      → At payload offset (le_bytes 4 v ++ rest)
      → read_le32 payload offset ≡ parsed (v, offset + 4)
  unfolding read_le32
  read_le32-At offset v rest h a =
      let read : get_le32 (drop offset payload) ≡ some v =
        ap get_le32 a.eq
        ∙ get_le32-le_value (le_bytes 4 v) rest (length-le_bytes 4 v) (le_bytes-IsByte 4 v)
        ∙ ap some (le_value-le_bytes4 v h) in
      rw (
        le→ltb (length payload) (offset + 4)
            (omega (arith, a.within, length-append (le_bytes 4 v) rest)),
        read,
      )

  read_le64-At :
      (offset v : ℕ) (rest : List ℕ)
      → IsU64 v
      → At payload offset (le_bytes 8 v ++ rest)
      → read_le64 payload offset ≡ parsed (v, offset + 8)
  unfolding read_le64
  read_le64-At offset v rest h a =
      let read : get_le64 (drop offset payload) ≡ some v =
        ap get_le64 a.eq
        ∙ get_le64-le_value (le_bytes 8 v) rest (length-le_bytes 8 v) (le_bytes-IsByte 8 v)
        ∙ ap some (le_value-le_bytes8 v h) in
      rw (
        le→ltb (length payload) (offset + 8)
            (omega (arith, a.within, length-append (le_bytes 8 v) rest)),
        read,
      )

  read_string-At :
      (offset : ℕ) (text rest : List ℕ)
      → At payload offset (text ++ rest)
      → read_string payload (length text) offset ≡ parsed (text, offset + length text)
  unfolding read_string
  read_string-At offset text rest a =
      let long = length-append text rest in
      rw (
        le→ltb (length payload - offset) (length text) (omega (arith, a.within, long)),
        le→ltb (length payload) (offset + length text) (omega (arith, a.within, long)),
        a.eq,
        take-append_left text rest,
      )

-- The number of a double's bytes, and back.
double_to_bits-le_value : (d : List ℕ) → double_to_bits d ≡ le_value d
unfolding double_to_bits
double_to_bits-le_value [] = refl
double_to_bits-le_value (b ∷ bs) = ap (λ (n : ℕ). b + 256 * n) (double_to_bits-le_value bs)

double_to_bits-IsU64 : (d : List ℕ) → length d ≡ 8 → All IsByte d → IsU64 (double_to_bits d)
unfolding double_to_bits
double_to_bits-IsU64 (b0 ∷ b1 ∷ b2 ∷ b3 ∷ b4 ∷ b5 ∷ b6 ∷ b7 ∷ []) h bytes = omega arith
double_to_bits-IsU64 d h bytes = absurd (omega arith)

-- A double survives the two casts.
bits_to_double-double_to_bits :
    (d : List ℕ) → length d ≡ 8 → All IsByte d → bits_to_double (double_to_bits d) ≡ d
unfolding bits_to_double
bits_to_double-double_to_bits d h bytes =
    let n = double_to_bits d in
    put_le64-le_bytes [] n
    ∙ le_value_inj (le_bytes 8 n) d (le_bytes-IsByte 8 n) bytes (length-le_bytes 8 n ∙ sym h)
        (le_value-le_bytes8 n (double_to_bits-IsU64 d h bytes) ∙ double_to_bits-le_value d)

pub move :
    (payload : List ℕ) (offset : ℕ) {xs ys : List ℕ}
    → xs ≡ ys
    → At payload offset xs
    → At payload offset ys
move payload offset e a = record { eq = a.eq ∙ e; within = omega (arith, a.within, ap length e) }

-- A part that was read, with the offset behind it.
pub record Reads {ℓ} {A : Type ℓ} (payload : List ℕ) (p : Parse (A × ℕ)) (a : A) (rest : List ℕ)
    : Type ℓ where
  pub next : ℕ
  pub eq : p ≡ parsed (a, next)
  pub behind : At payload next rest

module _ (payload : List ℕ) where
  pub number32-Reads :
      (offset v : ℕ) (rest : List ℕ)
      → IsU32 v
      → At payload offset (le_bytes 4 (u32 v) ++ rest)
      → Reads payload (read_le32 payload offset) v rest
  number32-Reads offset v rest h a =
      let same : u32 v ≡ v = omega (arith, h) in
      let a' = move payload offset (ap (λ (n : ℕ). le_bytes 4 n ++ rest) same) a in
      record {
        next = offset + 4;
        eq = read_le32-At payload offset v rest h a';
        behind = advance payload offset 4 (le_bytes 4 v) rest (length-le_bytes 4 v) a';
      }

  pub number64-Reads :
      (offset v : ℕ) (rest : List ℕ)
      → IsU64 v
      → At payload offset (le_bytes 8 v ++ rest)
      → Reads payload (read_le64 payload offset) v rest
  number64-Reads offset v rest h a = record {
    next = offset + 8;
    eq = read_le64-At payload offset v rest h a;
    behind = advance payload offset 8 (le_bytes 8 v) rest (length-le_bytes 8 v) a;
  }

  pub string-Reads :
      (offset : ℕ) (text rest : List ℕ)
      → At payload offset (text ++ rest)
      → Reads payload (read_string payload (length text) offset) text rest
  string-Reads offset text rest a = record {
    next = offset + length text;
    eq = read_string-At payload offset text rest a;
    behind = advance payload offset (length text) text rest refl a;
  }

  pub record-Reads :
      (offset : ℕ) (r : Record) (rest : List ℕ)
      → Fits r
      → At payload offset (record_bytes r ++ rest)
      → Reads payload (read_record payload offset) r rest
  unfolding read_record
  record-Reads offset r rest f a =
      let a1 = move payload offset (simp append_assoc) a in
      let p1 = number64-Reads offset r.timestamp _ f.timestamp a1 in
      let bits = double_to_bits-IsU64 r.duration f.duration f.bytes in
      let p2 = number64-Reads p1.next (double_to_bits r.duration) _ bits p1.behind in
      let p3 = number32-Reads p2.next (length r.value) _ f.value p2.behind in
      let p4 = string-Reads p3.next r.value rest p3.behind in
      record {
        next = p4.next;
        eq = rw (
          p1.eq,
          p2.eq,
          p3.eq,
          p4.eq,
          bits_to_double-double_to_bits r.duration f.duration f.bytes,
        );
        behind = p4.behind;
      }
