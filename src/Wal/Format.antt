-- ===== src/Wal/Format.antt =====
-- The layout of an entry, from the constants of src/WAL.cpp and the parts of `append` that build it:
-- crc(4) | seq(8) | timestamp low(4), high(4) | epoch(8) | key_len(4) | value_len(4) | type(1) |
-- key | value | chain_hash(32).
use lite_speed_store.Base.{
  ℕ, ◌+◌, Option, some, List, [], ◌∷◌, ◌++◌, u32, u64, shl, shr, bit_and, bit_or, length, drop,
  get_elem?,
}
use lite_speed_store.Endian.{put_le32, put_le64, get_le32, get_le64, ◌>>=◌}
use lite_speed_store.Crc32
use lite_speed_store.Sha256.{init, update, digest}
use lite_speed_store.Wal.{RecordType, put, delete}

abbrev pub off_seq : ℕ
off_seq = 0

abbrev pub off_ts_low : ℕ
off_ts_low = off_seq + 8

abbrev pub off_ts_high : ℕ
off_ts_high = off_ts_low + 4

abbrev pub off_epoch : ℕ
off_epoch = off_ts_high + 4

abbrev pub off_key_len : ℕ
off_key_len = off_epoch + 8

abbrev pub off_value_len : ℕ
off_value_len = off_key_len + 4

abbrev pub off_type : ℕ
off_type = off_value_len + 4

abbrev pub entry_fixed_size : ℕ
entry_fixed_size = off_type + 1

abbrev pub hash_size : ℕ
hash_size = 32

unfoldable pub type_byte : RecordType → ℕ
type_byte put = 1
type_byte delete = 2

-- The arguments of `append` and the fields that it takes from the object. An int64_t is its bit
-- pattern: `timestamp` is below 2 ^ 64.
pub record Entry : Type 0 where
  pub seq : ℕ
  pub timestamp : ℕ
  pub epoch : ℕ
  pub type : RecordType
  pub key : List ℕ
  pub value : List ℕ

unfoldable pub fixed_part : Entry → List ℕ
fixed_part e =
    let timestamp_low = u32 (bit_and e.timestamp 0xFFFFFFFF) in
    let timestamp_high = u32 (bit_and (shr e.timestamp 32) 0xFFFFFFFF) in
    let f1 = put_le64 [] e.seq in
    let f2 = put_le32 f1 timestamp_low in
    let f3 = put_le32 f2 timestamp_high in
    let f4 = put_le64 f3 e.epoch in
    let f5 = put_le32 f4 (u32 (length e.key)) in
    let f6 = put_le32 f5 (u32 (length e.value)) in f6 ++ type_byte e.type ∷ []

-- SHA256(prev_hash | fixed | key | value), fed to the context in four updates.
unfoldable pub chain_hash : List ℕ → List ℕ → List ℕ → List ℕ → List ℕ
chain_hash prev fixed key value =
    let c1 = update init prev in
    let c2 = update c1 fixed in let c3 = update c2 key in let c4 = update c3 value in digest c4

-- What the CRC covers.
unfoldable pub covered : List ℕ → List ℕ → List ℕ → List ℕ → List ℕ
covered fixed key value hash = fixed ++ (key ++ (value ++ hash))

-- The chain hash of an entry on top of the head `prev`, and the bytes that go to the file.
unfoldable pub entry_hash : List ℕ → Entry → List ℕ
entry_hash prev e = chain_hash prev (fixed_part e) e.key e.value

unfoldable pub entry_bytes : List ℕ → Entry → List ℕ
entry_bytes prev e =
    let body = covered (fixed_part e) e.key e.value (entry_hash prev e) in
    put_le32 [] (Crc32.calculate body) ++ body

-- The fields that the reader takes from the fixed part.
pub record Fixed : Type 0 where
  pub seq : ℕ
  pub timestamp_low : ℕ
  pub timestamp_high : ℕ
  pub epoch : ℕ
  pub key_len : ℕ
  pub value_len : ℕ
  pub type : ℕ

unfoldable pub decode_fixed : List ℕ → Option Fixed
decode_fixed fixed = do
  seq ← get_le64 (drop off_seq fixed)
  key_len ← get_le32 (drop off_key_len fixed)
  value_len ← get_le32 (drop off_value_len fixed)
  type ← get_elem? fixed off_type
  epoch ← get_le64 (drop off_epoch fixed)
  low ← get_le32 (drop off_ts_low fixed)
  high ← get_le32 (drop off_ts_high fixed)
  some (record {
    seq = seq;
    timestamp_low = low;
    timestamp_high = high;
    epoch = epoch;
    key_len = key_len;
    value_len = value_len;
    type = type;
  })

-- The timestamp as it was before it was split.
unfoldable pub join_timestamp : Fixed → ℕ
join_timestamp f = bit_or (u64 (shl f.timestamp_high 32)) f.timestamp_low
