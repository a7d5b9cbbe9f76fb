-- ===== src/Wal/Sound.antt =====
-- What a round that accepted an entry has checked, whatever the kernel and the file.
use lite_speed_store.Base.{
  ℕ, ◌+◌, ◌≡◌, refl, sym, ap, ◌∙◌, Bool, true, false, not, ◌||◌, Option, none, some, List, ◌++◌,
  append_assoc, length, ltb, ◌==◌, ==_iff, equal_bytes, equal_bytes→eq,
}
use lite_speed_store.Endian.{get_le32}
use lite_speed_store.Crc32
use lite_speed_store.Posix.{Input}
use lite_speed_store.Wal.{max_field_size}
use lite_speed_store.Wal.Format.{
  Fixed, decode_fixed, chain_hash, covered, entry_fixed_size, hash_size,
}
use lite_speed_store.Wal.Check.{
  Exit, torn, malformed_entry, tampered_entry, Try, go, exit, ◌>>=◌, leave_if, in_bounds,
  read_or_torn, Verified, read_prefix, read_entry, verify_entry,
}
use lite_speed_store.Wal.Reads.{go_inv, read-Moved, Moved-total}

pub record Checked (prev : List ℕ) (n : ℕ) (i0 : Input) (v : Verified) : Type 0 where
  pub crc : List ℕ
  pub fixed : List ℕ
  pub crc_size : length crc ≡ 4
  pub crc_matches : get_le32 crc ≡ some (Crc32.calculate (covered fixed v.key v.value v.hash))
  pub fixed_size : length fixed ≡ entry_fixed_size
  pub fields : decode_fixed fixed ≡ some v.fields
  pub key_size : length v.key ≡ v.fields.key_len
  pub value_size : length v.value ≡ v.fields.value_len
  pub hash : v.hash ≡ chain_hash prev fixed v.key v.value
  pub seq : v.fields.seq ≡ n
  pub ahead : i0.ahead ≡ crc ++ (covered fixed v.key v.value v.hash ++ v.input.ahead)
  pub total : v.input.pos + length v.input.ahead ≡ i0.pos + length i0.ahead

bind_go {ℓ κ} :
    {A : Type ℓ} {B : Type κ} (m : Try A) (f : A → Try B) {b : B}
    → (m >>= f) ≡ go b
    → (a : A) × (m ≡ go a) × (f a ≡ go b)
bind_go (go a) f h = (a, refl, h)
bind_go (exit x s) f h = cc

stay : (b : Bool) (x : Exit) (i : Input) {u : Unit {0}} → leave_if b x i ≡ go u → b ≡ false
stay true x i h = cc
stay false x i h = refl

bound {ℓ} : {A : Type ℓ} (o : Option A) (i : Input) {a : A} → in_bounds o i ≡ go a → o ≡ some a
bound none i h = cc
bound (some b) i h = cc

not-false : (b : Bool) → not b ≡ false → b ≡ true
not-false true h = refl
not-false false h = cc

record Prefixed (i0 : Input) (stored : ℕ) (fixed : List ℕ) (f : Fixed) (i2 : Input) : Type 0 where
  crc : List ℕ
  crc_size : length crc ≡ 4
  crc_value : get_le32 crc ≡ some stored
  fixed_size : length fixed ≡ entry_fixed_size
  fields : decode_fixed fixed ≡ some f
  ahead : i0.ahead ≡ crc ++ (fixed ++ i2.ahead)
  total : i2.pos + length i2.ahead ≡ i0.pos + length i0.ahead

prefix-Prefixed :
    (room : ℕ) (i0 : Input) (stored : ℕ) (fixed : List ℕ) (f : Fixed) (i2 : Input)
    → read_prefix room i0 ≡ go (stored, fixed, f, i2)
    → Prefixed i0 stored fixed f i2
unfolding read_prefix
prefix-Prefixed room i0 stored fixed f i2 h =
    let ((crc, i1), h1, k1) = bind_go (read_or_torn i0 4) _ h in
    let (stored', h2, k2) = bind_go (in_bounds (get_le32 crc) i1) _ k1 in
    let ((fixed', i2'), h3, k3) = bind_go (read_or_torn i1 entry_fixed_size) _ k2 in
    let (f', h4, k4) = bind_go (in_bounds (decode_fixed fixed') i2') _ k3 in
    let (_, _, k5) =
      bind_go
        (leave_if (ltb max_field_size f'.key_len || ltb max_field_size f'.value_len) malformed_entry
          i2')
        _ k4 in
    let (_, _, k6) =
      bind_go
        (leave_if (ltb room (4 + entry_fixed_size + hash_size + f'.key_len + f'.value_len)) torn
          i2')
        _ k5 in
    let same = go_inv k6 in
    let m1 = read-Moved i0 4 crc i1 h1 in
    let m2 = read-Moved i1 entry_fixed_size fixed' i2' h3 in
    record {
      crc = crc;
      crc_size = m1.size;
      crc_value =
          bound (get_le32 crc) i1 h2 ∙ ap (λ (t : ℕ × List ℕ × Fixed × Input). some t.0) same;
      fixed_size = ap (λ (t : ℕ × List ℕ × Fixed × Input). length t.1) (sym same) ∙ m2.size;
      fields =
          ap (λ (t : ℕ × List ℕ × Fixed × Input). decode_fixed t.1) (sym same)
          ∙ bound (decode_fixed fixed') i2' h4
          ∙ ap (λ (t : ℕ × List ℕ × Fixed × Input). some t.2) same;
      ahead =
          m1.ahead
          ∙ ap (λ (t : List ℕ). crc ++ t) m2.ahead
          ∙ ap (λ (t : ℕ × List ℕ × Fixed × Input). crc ++ (t.1 ++ t.3.ahead)) same;
      total =
          ap (λ (t : ℕ × List ℕ × Fixed × Input). t.3.pos + length t.3.ahead) (sym same)
          ∙ Moved-total m2
          ∙ Moved-total m1;
    }

record Entered (prev : List ℕ) (n stored : ℕ) (fixed : List ℕ) (f : Fixed) (i2 : Input)
    (v : Verified) : Type 0 where
  fields : v.fields ≡ f
  key_size : length v.key ≡ f.key_len
  value_size : length v.value ≡ f.value_len
  crc : Crc32.calculate (covered fixed v.key v.value v.hash) ≡ stored
  hash : v.hash ≡ chain_hash prev fixed v.key v.value
  seq : f.seq ≡ n
  ahead : i2.ahead ≡ v.key ++ (v.value ++ (v.hash ++ v.input.ahead))
  total : v.input.pos + length v.input.ahead ≡ i2.pos + length i2.ahead

entry-Entered :
    (prev : List ℕ) (n stored : ℕ) (fixed : List ℕ) (f : Fixed) (i2 : Input) (v : Verified)
    → read_entry prev n stored fixed f i2 ≡ go v
    → Entered prev n stored fixed f i2 v
unfolding read_entry
entry-Entered prev n stored fixed f i2 v h =
    let ((key, i3), h1, k1) = bind_go (read_or_torn i2 f.key_len) _ h in
    let ((value, i4), h2, k2) = bind_go (read_or_torn i3 f.value_len) _ k1 in
    let ((hash, i5), h3, k3) = bind_go (read_or_torn i4 hash_size) _ k2 in
    let crc_ok = Crc32.calculate (covered fixed key value hash) == stored in
    let hash_ok = equal_bytes (chain_hash prev fixed key value) hash in
    let (_, c1, k4) = bind_go (leave_if (not crc_ok) tampered_entry i5) _ k3 in
    let (_, c2, k5) = bind_go (leave_if (not hash_ok) tampered_entry i5) _ k4 in
    let (_, c3, k6) = bind_go (leave_if (not (f.seq == n)) tampered_entry i5) _ k5 in
    let same = go_inv k6 in
    let m1 = read-Moved i2 f.key_len key i3 h1 in
    let m2 = read-Moved i3 f.value_len value i4 h2 in
    let m3 = read-Moved i4 hash_size hash i5 h3 in
    let chained : chain_hash prev fixed key value ≡ hash =
      equal_bytes→eq (chain_hash prev fixed key value) hash (not-false hash_ok (stay _ _ i5 c2)) in
    record {
      fields = ap (λ (t : Verified). t.fields) (sym same);
      key_size = ap (λ (t : Verified). length t.key) (sym same) ∙ m1.size;
      value_size = ap (λ (t : Verified). length t.value) (sym same) ∙ m2.size;
      crc =
          ap (λ (t : Verified). Crc32.calculate (covered fixed t.key t.value t.hash)) (sym same)
          ∙ ap (λ (t : List ℕ). Crc32.calculate (covered fixed key value t)) chained
          ∙ (==_iff (Crc32.calculate (covered fixed key value hash)) stored).0
              (not-false crc_ok (stay _ _ i5 c1));
      hash =
          ap (λ (t : Verified). t.hash) (sym same)
          ∙ ap (λ (t : Verified). chain_hash prev fixed t.key t.value) same;
      seq = (==_iff f.seq n).0 (not-false (f.seq == n) (stay _ _ i5 c3));
      ahead =
          m1.ahead
          ∙ ap (λ (t : List ℕ). key ++ t) m2.ahead
          ∙ ap (λ (t : List ℕ). key ++ (value ++ t)) m3.ahead
          ∙ ap (λ (t : List ℕ). key ++ (value ++ (t ++ i5.ahead))) (sym chained)
          ∙ ap (λ (t : Verified). t.key ++ (t.value ++ (t.hash ++ t.input.ahead))) same;
      total =
          ap (λ (t : Verified). t.input.pos + length t.input.ahead) (sym same)
          ∙ Moved-total m3
          ∙ Moved-total m2
          ∙ Moved-total m1;
    }

-- A round that goes on has read an entry whose CRC, chain hash, sequence number and lengths match.
pub verify_entry-Checked :
    (room : ℕ) (prev : List ℕ) (n : ℕ) (i0 : Input) (v : Verified)
    → verify_entry room prev n i0 ≡ go v
    → Checked prev n i0 v
unfolding verify_entry covered
verify_entry-Checked room prev n i0 v h =
    let ((stored, fixed, f, i2), h1, k1) = bind_go (read_prefix room i0) _ h in
    let p = prefix-Prefixed room i0 stored fixed f i2 h1 in
    let e = entry-Entered prev n stored fixed f i2 v k1 in
    record {
      crc = p.crc;
      fixed = fixed;
      crc_size = p.crc_size;
      crc_matches = p.crc_value ∙ ap some (sym e.crc);
      fixed_size = p.fixed_size;
      fields = p.fields ∙ ap some (sym e.fields);
      key_size = e.key_size ∙ ap (λ (t : Fixed). t.key_len) (sym e.fields);
      value_size = e.value_size ∙ ap (λ (t : Fixed). t.value_len) (sym e.fields);
      hash = e.hash;
      seq = ap (λ (t : Fixed). t.seq) e.fields ∙ e.seq;
      ahead =
          p.ahead
          ∙ ap (λ (t : List ℕ). p.crc ++ (fixed ++ t)) e.ahead
          ∙ ap (λ (t : List ℕ). p.crc ++ t)
              (sym (
                append_assoc fixed (v.key ++ (v.value ++ v.hash)) v.input.ahead
                ∙ ap (λ (t : List ℕ). fixed ++ t)
                    (append_assoc v.key (v.value ++ v.hash) v.input.ahead
                      ∙ ap (λ (t : List ℕ). v.key ++ t)
                          (append_assoc v.value v.hash v.input.ahead))));
      total = e.total ∙ p.total;
    }
