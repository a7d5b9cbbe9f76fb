-- ===== src/Wal/Fields.antt =====
-- The fixed part of an entry: the reader decodes the fields that the writer encoded.
use lite_speed_store.Base.{
  ℕ, ◌*◌, ◌/◌, ◌%◌, ◌^◌, ◌≤◌, ◌≡◌, refl, ap, ◌∙◌, arith, some, List, [], ◌∷◌, ◌++◌, append_assoc,
  u32, u64, shl, shr, IsU32, IsU64, bit_and, bit_or, bit_and_mask, shl_bit_or, length, drop,
  get_elem?,
}
use lite_speed_store.Endian.{get_le32, get_le64}
use lite_speed_store.Endian.Value.{
  le_bytes, length-le_bytes, le_bytes-IsByte, le_value-le_bytes4, le_value-le_bytes8,
  put_le32-le_bytes, put_le64-le_bytes, get_le32-le_value, get_le64-le_value,
}
use lite_speed_store.Sha256.{hash}
use lite_speed_store.Sha256.Stream.{update-append, length-digest}
use lite_speed_store.Wal.{max_field_size}
use lite_speed_store.Wal.Format.{
  Entry, type_byte, fixed_part, chain_hash, Fixed, decode_fixed, join_timestamp, off_seq,
  off_ts_low, off_ts_high, off_epoch, off_key_len, off_value_len, off_type, entry_fixed_size,
}

-- What the types of `append`'s arguments and its field check give.
pub record IsEntry (e : Entry) : Type 0 where
  pub seq : IsU64 e.seq
  pub timestamp : IsU64 e.timestamp
  pub epoch : IsU64 e.epoch
  pub key : length e.key ≤ max_field_size
  pub value : length e.value ≤ max_field_size

unfoldable pub fields_of : Entry → Fixed
fields_of e = record {
  seq = e.seq;
  timestamp_low = e.timestamp % 2 ^ 32;
  timestamp_high = e.timestamp / 2 ^ 32;
  epoch = e.epoch;
  key_len = length e.key;
  value_len = length e.value;
  type = type_byte e.type;
}

abbrev layout : Fixed → List ℕ
layout f =
    le_bytes 8 f.seq
    ++ (le_bytes 4 f.timestamp_low
        ++ (le_bytes 4 f.timestamp_high
            ++ (le_bytes 8 f.epoch
                ++ (le_bytes 4 f.key_len ++ (le_bytes 4 f.value_len ++ f.type ∷ [])))))

get32 : (v : ℕ) (rest : List ℕ) → IsU32 v → get_le32 (le_bytes 4 v ++ rest) ≡ some v
get32 v rest h =
    get_le32-le_value (le_bytes 4 v) rest (length-le_bytes 4 v) (le_bytes-IsByte 4 v)
    ∙ ap some (le_value-le_bytes4 v h)

get64 : (v : ℕ) (rest : List ℕ) → IsU64 v → get_le64 (le_bytes 8 v ++ rest) ≡ some v
get64 v rest h =
    get_le64-le_value (le_bytes 8 v) rest (length-le_bytes 8 v) (le_bytes-IsByte 8 v)
    ∙ ap some (le_value-le_bytes8 v h)

decode_parts :
    (p : List ℕ) (f : Fixed)
    → get_le64 (drop off_seq p) ≡ some f.seq
    → get_le32 (drop off_key_len p) ≡ some f.key_len
    → get_le32 (drop off_value_len p) ≡ some f.value_len
    → get_elem? p off_type ≡ some f.type
    → get_le64 (drop off_epoch p) ≡ some f.epoch
    → get_le32 (drop off_ts_low p) ≡ some f.timestamp_low
    → get_le32 (drop off_ts_high p) ≡ some f.timestamp_high
    → decode_fixed p ≡ some f
unfolding decode_fixed
decode_parts p f h1 h2 h3 h4 h5 h6 h7 = rw (h1, h2, h3, h4, h5, h6, h7)

low_word : (t : ℕ) → u32 (bit_and t 0xFFFFFFFF) ≡ t % 2 ^ 32
low_word t = omega (arith, bit_and_mask 32 t)

high_word : (t : ℕ) → IsU64 t → u32 (bit_and (shr t 32) 0xFFFFFFFF) ≡ t / 2 ^ 32
high_word t h = omega (arith, bit_and_mask 32 (t / 2 ^ 32))

fits_word : (n : ℕ) → n ≤ max_field_size → u32 n ≡ n
fits_word n h = omega arith

-- The casts and masks of `append` lose nothing.
fixed_part-layout : (e : Entry) → IsEntry e → fixed_part e ≡ layout (fields_of e)
unfolding fixed_part fields_of
fixed_part-layout e h =
    rw
      (
        low_word e.timestamp,
        high_word e.timestamp h.timestamp,
        fits_word (length e.key) h.key,
        fits_word (length e.value) h.value,
      )
      (simp (put_le64-le_bytes, put_le32-le_bytes, append_assoc))

decode-layout :
    (f : Fixed)
    → IsU64 f.seq
    → IsU32 f.timestamp_low
    → IsU32 f.timestamp_high
    → IsU64 f.epoch
    → IsU32 f.key_len
    → IsU32 f.value_len
    → decode_fixed (layout f) ≡ some f
decode-layout f h1 h2 h3 h4 h5 h6 =
    decode_parts (layout f) f (get64 f.seq _ h1) (get32 f.key_len _ h5) (get32 f.value_len _ h6)
      refl (get64 f.epoch _ h4) (get32 f.timestamp_low _ h2) (get32 f.timestamp_high _ h3)

-- The fields that the reader takes from an entry's fixed part are those that the writer put there,
-- where sequence number, timestamp and epoch are 64-bit numbers and key and value are within the
-- field limit.
pub decode_fixed-fixed_part :
    (e : Entry) → IsEntry e → decode_fixed (fixed_part e) ≡ some (fields_of e)
unfolding fields_of
decode_fixed-fixed_part e h =
    ap decode_fixed (fixed_part-layout e h)
    ∙ decode-layout (fields_of e) h.seq (omega arith) (omega (arith, h.timestamp)) h.epoch
        (omega (arith, h.key)) (omega (arith, h.value))

pub length-fixed_part : (e : Entry) → IsEntry e → length (fixed_part e) ≡ entry_fixed_size
length-fixed_part e h = ap length (fixed_part-layout e h)

-- The timestamp that the reader joins from the low and the high half is the one that was split,
-- for an entry with 64-bit numbers and fields within the limit.
pub join_timestamp-fields_of : (e : Entry) → IsEntry e → join_timestamp (fields_of e) ≡ e.timestamp
unfolding join_timestamp fields_of
join_timestamp-fields_of e h =
    ap (λ (t : ℕ). bit_or t (e.timestamp % 2 ^ 32)) high
    ∙ shl_bit_or 32 (e.timestamp / 2 ^ 32) (e.timestamp % 2 ^ 32) (omega arith)
    ∙ omega arith
  where
    high : u64 (shl (e.timestamp / 2 ^ 32) 32) ≡ e.timestamp / 2 ^ 32 * 2 ^ 32
    high = omega (arith, h.timestamp)

-- The chain hash is the hash of the four buffers, one after the other.
pub chain_hash-hash :
    (prev fixed key value : List ℕ)
    → chain_hash prev fixed key value ≡ hash (prev ++ (fixed ++ (key ++ value)))
unfolding chain_hash hash
chain_hash-hash prev fixed key value = simp (update-append, append_assoc)

pub length-chain_hash :
    (prev fixed key value : List ℕ) → length (chain_hash prev fixed key value) ≡ 32
unfolding chain_hash
length-chain_hash prev fixed key value = length-digest _
