-- ===== src/Snapshot/Load.antt =====
-- `Snapshot::load`, on what the stream delivers of the file.
use lite_speed_store.Base.{
  ℕ, zero, suc, ◌+◌, ◌-◌, ◌/◌, Bool, true, false, not, ◌||◌, Option, none, some, List, [], ◌∷◌,
  ◌++◌, length, take, drop, ltb, ◌==◌, if◌then◌else◌,
}
use lite_speed_store.Endian.{get_le32, get_le64}
use lite_speed_store.Crc32
use lite_speed_store.Engine.{Record, Table, alter}
use lite_speed_store.Engine.Recover.{Image}
use lite_speed_store.Snapshot.{
  snap_magic, snap_version, snap_off_magic, snap_off_version, snap_off_crc, snap_header_size,
  min_record_bytes, min_key_bytes, bits_to_double,
}

-- A step goes on with a value, or the call returns false, or it reads past the end of an array,
-- which is no behaviour of the program. The image that a refused file leaves half built has no use.
pub data Parse {ℓ} (A : Type ℓ) : Type ℓ where
  parsed : A → Parse A
  refused : Parse A
  past_end : Parse A

infixl 5 ◌>>=◌ ◌>>◌
abbrev pub ◌>>=◌ {ℓ κ} : {A : Type ℓ} {B : Type κ} → Parse A → (A → Parse B) → Parse B
parsed a >>= f = f a
refused >>= f = refused
past_end >>= f = past_end

abbrev pub ◌>>◌ {ℓ} : {B : Type ℓ} → Parse (Unit {0}) → Parse B → Parse B
m >> k = m >>= λ _. k

-- if (test) return false
abbrev pub refuse_if : Bool → Parse (Unit {0})
refuse_if true = refused
refuse_if false = parsed tt

abbrev pub array_read {ℓ} : {A : Type ℓ} → Option A → Parse A
array_read none = past_end
array_read (some a) = parsed a

-- The parts of the payload, each with the offset behind it.
module _ (payload : List ℕ) where
  unfoldable pub read_le32 : ℕ → Parse (ℕ × ℕ)
  read_le32 offset = do
    refuse_if (ltb (length payload) (offset + 4))
    value ← array_read (get_le32 (drop offset payload))
    parsed (value, offset + 4)

  unfoldable pub read_le64 : ℕ → Parse (ℕ × ℕ)
  read_le64 offset = do
    refuse_if (ltb (length payload) (offset + 8))
    value ← array_read (get_le64 (drop offset payload))
    parsed (value, offset + 8)

  -- The bytes of a string from its pointer and its length.
  abbrev string_at : ℕ → ℕ → Option (List ℕ)
  string_at offset size =
      if ltb (length payload) (offset + size) then none else some (take size (drop offset payload))

  -- if (size > payload.size() - offset) return false, then the string.
  unfoldable pub read_string : ℕ → ℕ → Parse (List ℕ × ℕ)
  read_string size offset = do
    refuse_if (ltb (length payload - offset) size)
    text ← array_read (string_at offset size)
    parsed (text, offset + size)

  unfoldable pub read_record : ℕ → Parse (Record × ℕ)
  unfolding read_le32 read_le64 read_string bits_to_double
  read_record offset = do
    (raw_timestamp, o1) ← read_le64 offset
    (raw_duration, o2) ← read_le64 o1
    (value_len, o3) ← read_le32 o2
    (value, o4) ← read_string value_len o3
    parsed (
      record { value = value; duration = bits_to_double raw_duration; timestamp = raw_timestamp },
      o4,
    )

  -- The loop over the records of a key, `left` of them to go. Each is pushed to the history that
  -- `image.state[key]` found or made.
  unfoldable pub read_records : ℕ → List ℕ → ℕ → Table → Parse (Table × ℕ)
  unfolding read_record
  read_records zero key offset state = parsed (state, offset)
  read_records (suc left) key offset state = do
    (r, o1) ← read_record offset
    read_records left key o1 (alter key (λ h. h ++ r ∷ []) state)

  -- One round of the loop over the keys.
  unfoldable pub read_key : ℕ → Table → Parse (Table × ℕ)
  unfolding read_le32 read_string read_records
  read_key offset state = do
    (key_len, o1) ← read_le32 offset
    (key, o2) ← read_string key_len o1
    (record_count, o3) ← read_le32 o2
    refuse_if (ltb ((length payload - o3) / min_record_bytes) record_count)
    read_records record_count key o3 (alter key (λ h. h) state)

  unfoldable pub read_keys : ℕ → ℕ → Table → Parse (Table × ℕ)
  unfolding read_key
  read_keys zero offset state = parsed (state, offset)
  read_keys (suc left) offset state = do
    (state', o1) ← read_key offset state
    read_keys left o1 state'

  unfoldable pub read_payload : Parse Image
  unfolding read_le64 read_le32 read_keys
  read_payload = do
    (epoch, o1) ← read_le64 0
    (key_count, o2) ← read_le32 o1
    refuse_if (ltb ((length payload - o2) / min_key_bytes) key_count)
    (state, o3) ← read_keys key_count o2 []
    parsed (record { epoch = epoch; state = state })

-- From the header on.
unfoldable pub load_bytes : List ℕ → Parse Image
unfolding read_payload
load_bytes file = do
  refuse_if (ltb (length file) snap_header_size)
  let header = take snap_header_size file
  magic ← array_read (get_le32 (drop snap_off_magic header))
  version ← array_read (get_le32 (drop snap_off_version header))
  stored_crc ← array_read (get_le32 (drop snap_off_crc header))
  refuse_if (not (magic == snap_magic) || not (version == snap_version))
  let payload = drop snap_header_size file
  refuse_if (not (Crc32.calculate payload == stored_crc))
  read_payload payload

-- A file that cannot be opened is refused.
unfoldable pub load : Option (List ℕ) → Parse Image
unfolding load_bytes
load none = refused
load (some file) = load_bytes file
