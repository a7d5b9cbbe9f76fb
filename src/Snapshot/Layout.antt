-- ===== src/Snapshot/Layout.antt =====
-- The snapshot file as a concatenation, and the sizes that its fields can hold.
use lite_speed_store.Base.{
  ℕ, ◌+◌, ◌*◌, ◌≤◌, ◌≡◌, sym, ap, ◌∙◌, arith, List, [], ◌∷◌, ◌++◌, append_assoc, append-nil, u32,
  IsByte, IsU32, IsU64, All, length, length-append,
}
use lite_speed_store.Endian.{put_le32, put_le64}
use lite_speed_store.Endian.Value.{le_bytes, put_le32-le_bytes, put_le64-le_bytes}
use lite_speed_store.Crc32
use lite_speed_store.Engine.{Record, Table}
use lite_speed_store.Engine.Recover.{Image}
use lite_speed_store.Snapshot.{
  snap_magic, snap_version, min_record_bytes, min_key_bytes, double_to_bits, put_record,
  put_records, put_keys, payload_of, file_of,
}

abbrev pub record_bytes : Record → List ℕ
record_bytes r =
    le_bytes 8 r.timestamp
    ++ (le_bytes 8 (double_to_bits r.duration) ++ (le_bytes 4 (u32 (length r.value)) ++ r.value))

unfoldable pub records_bytes : List Record → List ℕ
records_bytes [] = []
records_bytes (r ∷ records) = record_bytes r ++ records_bytes records

abbrev pub key_bytes : List ℕ × List Record → List ℕ
key_bytes (key, records) =
    le_bytes 4 (u32 (length key))
    ++ (key ++ (le_bytes 4 (u32 (length records)) ++ records_bytes records))

unfoldable pub keys_bytes : Table → List ℕ
keys_bytes [] = []
keys_bytes (entry ∷ rest) = key_bytes entry ++ keys_bytes rest

put_record-bytes : (p : List ℕ) (r : Record) → put_record p r ≡ p ++ record_bytes r
unfolding put_record
put_record-bytes p r = simp (put_le32-le_bytes, put_le64-le_bytes, append_assoc)

put_records-bytes : (p : List ℕ) (rs : List Record) → put_records p rs ≡ p ++ records_bytes rs
unfolding put_records records_bytes
put_records-bytes p [] = sym (append-nil p)
put_records-bytes p (r ∷ rs) =
    put_records-bytes (put_record p r) rs
    ∙ ap (λ (t : List ℕ). t ++ records_bytes rs) (put_record-bytes p r)
    ∙ append_assoc p (record_bytes r) (records_bytes rs)

put_keys-bytes : (p : List ℕ) (t : Table) → put_keys p t ≡ p ++ keys_bytes t
unfolding put_keys keys_bytes
put_keys-bytes p [] = sym (append-nil p)
put_keys-bytes p ((key, records) ∷ rest) =
    put_keys-bytes
      (put_records (put_le32 (put_le32 p (u32 (length key)) ++ key) (u32 (length records))) records)
      rest
    ∙ simp (put_records-bytes, put_le32-le_bytes, append_assoc)

pub payload_of-bytes :
    (image : Image)
    → payload_of image
      ≡ le_bytes 8 image.epoch ++ (le_bytes 4 (u32 (length image.state)) ++ keys_bytes image.state)
unfolding payload_of
payload_of-bytes image =
    put_keys-bytes (put_le32 (put_le64 [] image.epoch) (u32 (length image.state))) image.state
    ∙ simp (put_le32-le_bytes, put_le64-le_bytes, append_assoc)

pub file_of-bytes :
    (image : Image)
    → file_of image
      ≡ le_bytes 4 snap_magic
        ++ (le_bytes 4 snap_version
            ++ (le_bytes 4 (Crc32.calculate (payload_of image)) ++ payload_of image))
unfolding file_of
file_of-bytes image = simp (put_le32-le_bytes, append_assoc)

-- What the fields of the file can hold.
pub record Fits (r : Record) : Type 0 where
  pub timestamp : IsU64 r.timestamp
  pub duration : length r.duration ≡ 8
  pub bytes : All IsByte r.duration
  pub value : IsU32 (length r.value)

pub record FitsKey (entry : List ℕ × List Record) : Type 0 where
  pub key : IsU32 (length entry.0)
  pub count : IsU32 (length entry.1)
  pub records : All Fits entry.1

length-record_bytes : (r : Record) → length (record_bytes r) ≡ min_record_bytes + length r.value
length-record_bytes r = omega (
  arith,
  length-append (le_bytes 8 r.timestamp)
      (le_bytes 8 (double_to_bits r.duration) ++ (le_bytes 4 (u32 (length r.value)) ++ r.value)),
  length-append (le_bytes 8 (double_to_bits r.duration))
      (le_bytes 4 (u32 (length r.value)) ++ r.value),
  length-append (le_bytes 4 (u32 (length r.value))) r.value,
)

-- The counts that `load` checks are possible.
pub records_size : (rs : List Record) → min_record_bytes * length rs ≤ length (records_bytes rs)
unfolding records_bytes
records_size [] = omega arith
records_size (r ∷ rs) = omega (
  arith,
  records_size rs,
  length-record_bytes r,
  length-append (record_bytes r) (records_bytes rs),
)

length-key_bytes :
    (key : List ℕ) (records : List Record) → min_key_bytes ≤ length (key_bytes (key, records))
length-key_bytes key records = omega (
  arith,
  length-append (le_bytes 4 (u32 (length key)))
      (key ++ (le_bytes 4 (u32 (length records)) ++ records_bytes records)),
  length-append key (le_bytes 4 (u32 (length records)) ++ records_bytes records),
  length-append (le_bytes 4 (u32 (length records))) (records_bytes records),
)

pub keys_size : (t : Table) → min_key_bytes * length t ≤ length (keys_bytes t)
unfolding keys_bytes
keys_size [] = omega arith
keys_size ((key, records) ∷ t) = omega (
  arith,
  keys_size t,
  length-key_bytes key records,
  length-append (key_bytes (key, records)) (keys_bytes t),
)
