-- ===== src/Snapshot.antt =====
-- src/Snapshot.cpp: the layout of the snapshot file, magic(4) | version(4) | crc(4) | payload, and
-- what `Snapshot::save` puts there. The payload is epoch(8) | key_count(4), then for each key
-- key_len(4) | key | record_count(4), then for each record timestamp(8) | duration(8) |
-- value_len(4) | value. SnapshotRecord has the fields of the engine's Record, and is this record.
pub mod Load
pub mod Layout
pub mod Parts
pub mod Round
pub mod Safe
pub mod Save
pub mod Replace
mod Tests
use lite_speed_store.Base.{ℕ, ◌+◌, ◌*◌, List, [], ◌∷◌, ◌++◌, u32, length}
use lite_speed_store.Endian.{put_le32, put_le64}
use lite_speed_store.Crc32
use lite_speed_store.Engine.{Record, Table}
use lite_speed_store.Engine.Recover.{Image}

abbrev pub snap_magic : ℕ
snap_magic = 0x534E4150

abbrev pub snap_version : ℕ
snap_version = 1

abbrev pub snap_off_magic : ℕ
snap_off_magic = 0

abbrev pub snap_off_version : ℕ
snap_off_version = snap_off_magic + 4

abbrev pub snap_off_crc : ℕ
snap_off_crc = snap_off_version + 4

abbrev pub snap_header_size : ℕ
snap_header_size = snap_off_crc + 4

abbrev pub min_record_bytes : ℕ
min_record_bytes = 8 + 8 + 4

abbrev pub min_key_bytes : ℕ
min_key_bytes = 4 + 4

-- doubleToBits on a little-endian host: the number that the double's bytes in memory stand for.
unfoldable pub double_to_bits : List ℕ → ℕ
double_to_bits [] = 0
double_to_bits (b ∷ bs) = b + 256 * double_to_bits bs

-- bitsToDouble on a little-endian host.
unfoldable pub bits_to_double : ℕ → List ℕ
bits_to_double bits = put_le64 [] bits

-- The body of the loop over the records of a key.
unfoldable pub put_record : List ℕ → Record → List ℕ
unfolding double_to_bits
put_record payload r =
    let p1 = put_le64 payload r.timestamp in
    let p2 = put_le64 p1 (double_to_bits r.duration) in
    let p3 = put_le32 p2 (u32 (length r.value)) in p3 ++ r.value

unfoldable pub put_records : List ℕ → List Record → List ℕ
unfolding put_record
put_records payload [] = payload
put_records payload (r ∷ records) = put_records (put_record payload r) records

-- The loop over the keys.
unfoldable pub put_keys : List ℕ → Table → List ℕ
unfolding put_records
put_keys payload [] = payload
put_keys payload ((key, records) ∷ rest) =
    let p1 = put_le32 payload (u32 (length key)) in
    let p2 = p1 ++ key in
    let p3 = put_le32 p2 (u32 (length records)) in put_keys (put_records p3 records) rest

unfoldable pub payload_of : Image → List ℕ
unfolding put_keys
payload_of image =
    put_keys (put_le32 (put_le64 [] image.epoch) (u32 (length image.state))) image.state

-- `fileBuf`.
unfoldable pub file_of : Image → List ℕ
unfolding payload_of
file_of image =
    let payload = payload_of image in
    let crc = Crc32.calculate payload in
    put_le32 (put_le32 (put_le32 [] snap_magic) snap_version) crc ++ payload
