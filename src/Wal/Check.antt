-- ===== src/Wal/Check.antt =====
-- One round of the loop of `WAL::walkChain`: it reads an entry and checks it, and goes on, or leaves
-- the loop by `break`, by `return fail(...)` or by a read past an array's end.
use lite_speed_store.Base.{
  ℕ, ◌+◌, Bool, true, false, not, ◌||◌, Option, none, some, List, ltb, ◌==◌, equal_bytes,
}
use lite_speed_store.Endian.{get_le32}
use lite_speed_store.Crc32
use lite_speed_store.Posix.{Answer, Input, ReadResult, read_exact}
use lite_speed_store.Wal.{max_field_size}
use lite_speed_store.Wal.Format.{
  Fixed, decode_fixed, chain_hash, covered, entry_fixed_size, hash_size,
}

-- How a round leaves the loop: by `break`, by `return fail(...)`, or by a read past the end of an
-- array, which is no behaviour of the program.
pub data Exit : Type 0 where
  torn malformed_entry tampered_entry overread : Exit

-- A step of a round goes on with a value, or leaves the loop with the kernel's further answers.
pub data Try {ℓ} (A : Type ℓ) : Type ℓ where
  go : A → Try A
  exit : Exit → List Answer → Try A

infixl 5 ◌>>=◌ ◌>>◌
abbrev pub ◌>>=◌ {ℓ κ} : {A : Type ℓ} {B : Type κ} → Try A → (A → Try B) → Try B
go a >>= f = f a
exit e script >>= f = exit e script

abbrev pub ◌>>◌ {ℓ} : {B : Type ℓ} → Try (Unit {0}) → Try B → Try B
m >> k = m >>= λ _. k

-- if (test) leave
abbrev pub leave_if : Bool → Exit → Input → Try (Unit {0})
leave_if true e i = exit e i.script
leave_if false e i = go tt

abbrev pub or_leave : ReadResult → Option (List ℕ) → Try (List ℕ × Input)
or_leave r none = exit torn r.input.script
or_leave r (some chunk) = go (chunk, r.input)

-- if (!readExact(...)) { torn = true; break; }
unfoldable pub read_or_torn : Input → ℕ → Try (List ℕ × Input)
read_or_torn i size = let r = read_exact i size in or_leave r r.chunk

-- A read from an array on the stack.
abbrev pub in_bounds {ℓ} : {A : Type ℓ} → Option A → Input → Try A
in_bounds none i = exit overread i.script
in_bounds (some a) i = go a

-- An entry that passed every check, and what is in front of the descriptor after it.
pub record Verified : Type 0 where
  pub fields : Fixed
  pub key : List ℕ
  pub value : List ℕ
  pub hash : List ℕ
  pub input : Input

-- From the CRC to the length checks: the stored CRC, the fixed part and its fields. `room` is the
-- number of bytes from the entry's start to the end of the file.
unfoldable pub read_prefix : ℕ → Input → Try (ℕ × List ℕ × Fixed × Input)
unfolding read_or_torn
read_prefix room i0 = do
  (crc_bytes, i1) ← read_or_torn i0 4
  stored_crc ← in_bounds (get_le32 crc_bytes) i1
  (fixed, i2) ← read_or_torn i1 entry_fixed_size
  f ← in_bounds (decode_fixed fixed) i2
  leave_if (ltb max_field_size f.key_len || ltb max_field_size f.value_len) malformed_entry i2
  leave_if (ltb room (4 + entry_fixed_size + hash_size + f.key_len + f.value_len)) torn i2
  go (stored_crc, fixed, f, i2)

-- The key, the value and the hash, then the checks on the entry as a whole.
unfoldable pub read_entry : List ℕ → ℕ → ℕ → List ℕ → Fixed → Input → Try Verified
unfolding read_or_torn
read_entry prev_hash expected_seq stored_crc fixed f i2 = do
  (key, i3) ← read_or_torn i2 f.key_len
  (value, i4) ← read_or_torn i3 f.value_len
  (hash_bytes, i5) ← read_or_torn i4 hash_size
  let body = covered fixed key value hash_bytes
  leave_if (not (Crc32.calculate body == stored_crc)) tampered_entry i5
  let computed = chain_hash prev_hash fixed key value
  leave_if (not (equal_bytes computed hash_bytes)) tampered_entry i5
  leave_if (not (f.seq == expected_seq)) tampered_entry i5
  go (record { fields = f; key = key; value = value; hash = computed; input = i5 })

unfoldable pub verify_entry : ℕ → List ℕ → ℕ → Input → Try Verified
unfolding read_prefix read_entry
verify_entry room prev_hash expected_seq i0 = do
  (stored_crc, fixed, f, i2) ← read_prefix room i0
  read_entry prev_hash expected_seq stored_crc fixed f i2
