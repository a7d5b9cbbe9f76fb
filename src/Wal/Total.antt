-- ===== src/Wal/Total.antt =====
-- One round of the reader, on any file: its reads of its own arrays.
use lite_speed_store.Base.{
  ℕ, ◌+◌, ◌≡◌, refl, arith, Bool, true, false, not, ◌||◌, Option, none, some, List, length,
  length-drop, drop, ltb, ◌==◌, equal_bytes,
}
use lite_speed_store.Endian.{get_le32}
use lite_speed_store.Endian.Total.{get_elem?-total, get_le32-total, get_le64-total}
use lite_speed_store.Crc32
use lite_speed_store.Posix.{Input, ReadResult, read_exact}
use lite_speed_store.Wal.{max_field_size}
use lite_speed_store.Wal.Format.{
  Fixed, decode_fixed, chain_hash, covered, entry_fixed_size, hash_size, off_seq, off_ts_low,
  off_ts_high, off_epoch, off_key_len, off_value_len, off_type,
}
use lite_speed_store.Wal.Check.{
  torn, malformed_entry, tampered_entry, overread, Try, go, exit, ◌>>=◌, ◌>>◌, leave_if, or_leave,
  in_bounds, read_or_torn, Verified, read_prefix, read_entry, verify_entry,
}
use lite_speed_store.Wal.Reads.{read-Moved}

decode_fixed-total :
    (p : List ℕ) → length p ≡ entry_fixed_size → (f : Fixed) × (decode_fixed p ≡ some f)
unfolding decode_fixed
decode_fixed-total p h =
    let (a, ha) = get_le64-total (drop off_seq p) (omega (arith, h, length-drop off_seq p)) in
    let (b, hb) =
      get_le32-total (drop off_key_len p) (omega (arith, h, length-drop off_key_len p)) in
    let (c, hc) =
      get_le32-total (drop off_value_len p) (omega (arith, h, length-drop off_value_len p)) in
    let (d, hd) = get_elem?-total p off_type (omega (arith, h)) in
    let (e, he) = get_le64-total (drop off_epoch p) (omega (arith, h, length-drop off_epoch p)) in
    let (g, hg) = get_le32-total (drop off_ts_low p) (omega (arith, h, length-drop off_ts_low p)) in
    let (k, hk) =
      get_le32-total (drop off_ts_high p) (omega (arith, h, length-drop off_ts_high p)) in
    (
      record {
        seq = a;
        timestamp_low = g;
        timestamp_high = k;
        epoch = e;
        key_len = b;
        value_len = c;
        type = d;
      },
      rw (ha, hb, hc, hd, he, hg, hk),
    )

-- A step that does not leave the loop by a read past an array's end.
abbrev pub Safe {ℓ} : {A : Type ℓ} → Try A → Type 0
Safe (go a) = Unit
Safe (exit torn s) = Unit
Safe (exit malformed_entry s) = Unit
Safe (exit tampered_entry s) = Unit
Safe (exit overread s) = ⊥

bind-Safe {ℓ κ} :
    {A : Type ℓ} {B : Type κ} (m : Try A) (f : A → Try B)
    → Safe m
    → ((a : A) → m ≡ go a → Safe (f a))
    → Safe (m >>= f)
bind-Safe (go a) f s h = h a refl
bind-Safe (exit torn x) f s h = tt
bind-Safe (exit malformed_entry x) f s h = tt
bind-Safe (exit tampered_entry x) f s h = tt
bind-Safe (exit overread x) f s h = absurd s

or_leave-Safe : (r : ReadResult) (o : Option (List ℕ)) → Safe (or_leave r o)
or_leave-Safe r none = tt
or_leave-Safe r (some c) = tt

read-Safe : (i : Input) (size : ℕ) → Safe (read_or_torn i size)
unfolding read_or_torn
read-Safe i size = or_leave-Safe (read_exact i size) (read_exact i size).chunk

bounds-Safe {ℓ} :
    {A : Type ℓ} (o : Option A) (i : Input) → (a : A) × (o ≡ some a) → Safe (in_bounds o i)
bounds-Safe none i (a, h) = absurd cc
bounds-Safe (some b) i h = tt

leave_malformed {ℓ} :
    {B : Type ℓ} (b : Bool) (i : Input) (k : Try B)
    → Safe k
    → Safe (leave_if b malformed_entry i >> k)
leave_malformed true i k s = tt
leave_malformed false i k s = s

leave_torn {ℓ} :
    {B : Type ℓ} (b : Bool) (i : Input) (k : Try B) → Safe k → Safe (leave_if b torn i >> k)
leave_torn true i k s = tt
leave_torn false i k s = s

leave_tampered {ℓ} :
    {B : Type ℓ} (b : Bool) (i : Input) (k : Try B)
    → Safe k
    → Safe (leave_if b tampered_entry i >> k)
leave_tampered true i k s = tt
leave_tampered false i k s = s

prefix-Safe : (room : ℕ) (i0 : Input) → Safe (read_prefix room i0)
unfolding read_prefix
prefix-Safe room i0 = bind-Safe (read_or_torn i0 4) _ (read-Safe i0 4) (λ (crc, i1) h1.
    bind-Safe (in_bounds (get_le32 crc) i1) _
      (bounds-Safe (get_le32 crc) i1
        (get_le32-total crc (omega (arith, (read-Moved i0 4 crc i1 h1).size))))
      (λ stored h2.
        bind-Safe (read_or_torn i1 entry_fixed_size) _ (read-Safe i1 entry_fixed_size)
          (λ (fixed, i2) h3.
            bind-Safe (in_bounds (decode_fixed fixed) i2) _
              (bounds-Safe (decode_fixed fixed) i2
                (decode_fixed-total fixed (read-Moved i1 entry_fixed_size fixed i2 h3).size))
              (λ f h4.
                let last : Try (ℕ × List ℕ × Fixed × Input) = go (stored, fixed, f, i2) in
                let large = ltb max_field_size f.key_len || ltb max_field_size f.value_len in
                let over = ltb room (4 + entry_fixed_size + hash_size + f.key_len + f.value_len) in
                leave_malformed large i2 (leave_if over torn i2 >> last)
                  (leave_torn over i2 last tt)))))

entry-Safe :
    (prev : List ℕ) (n stored : ℕ) (fixed : List ℕ) (f : Fixed) (i2 : Input)
    → Safe (read_entry prev n stored fixed f i2)
unfolding read_entry
entry-Safe prev n stored fixed f i2 =
    bind-Safe (read_or_torn i2 f.key_len) _ (read-Safe i2 f.key_len) (λ (key, i3) h1.
      bind-Safe (read_or_torn i3 f.value_len) _ (read-Safe i3 f.value_len) (λ (value, i4) h2.
        bind-Safe (read_or_torn i4 hash_size) _ (read-Safe i4 hash_size) (λ (hash, i5) h3.
          let v : Verified = record {
            fields = f;
            key = key;
            value = value;
            hash = chain_hash prev fixed key value;
            input = i5;
          } in
          let crc_ok = Crc32.calculate (covered fixed key value hash) == stored in
          let hash_ok = equal_bytes (chain_hash prev fixed key value) hash in
          let k2 = leave_if (not (f.seq == n)) tampered_entry i5 >> go v in
          leave_tampered (not crc_ok) i5 (leave_if (not hash_ok) tampered_entry i5 >> k2)
            (leave_tampered (not hash_ok) i5 k2 (leave_tampered (not (f.seq == n)) i5 (go v) tt)))))

pub verify_entry-Safe :
    (room : ℕ) (prev : List ℕ) (n : ℕ) (i0 : Input) → Safe (verify_entry room prev n i0)
unfolding verify_entry
verify_entry-Safe room prev n i0 =
    bind-Safe (read_prefix room i0) _ (prefix-Safe room i0)
      (λ (stored, fixed, f, i2) h. entry-Safe prev n stored fixed f i2)
