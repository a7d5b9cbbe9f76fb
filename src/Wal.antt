-- ===== src/Wal.antt =====
-- include/persistence/WAL.hpp and the file header of src/WAL.cpp: the write-ahead log's types, its
-- constants and state, opening, rotation and closing. Its mutex makes each method one step.
pub mod Format
pub mod Append
pub mod Check
pub mod Walk
pub mod Recover
pub mod Fields
pub mod Reads
pub mod Round
pub mod Steps
pub mod Torn
pub mod Log
pub mod Halts
pub mod Replay
pub mod Writes
pub mod Crash
pub mod Sound
pub mod Chain
pub mod Tamper
pub mod Evidence
pub mod Keeps
pub mod Total
pub mod Ends
pub mod Rotation
pub mod Rotated
pub mod Durable
pub mod PowerLoss
pub mod Begins
pub mod Untouched
pub mod Opens
pub mod Edited
pub mod Caught
pub mod Late
mod Tests
mod DurableTests
mod OpenTests
pub mod EditTests
use lite_speed_store.Base.{
  ℕ, zero, suc, ◌+◌, ◌*◌, ◌^◌, Bool, true, false, not, ◌&&◌, Option, none, some, List, [], ◌∷◌,
  ◌++◌, length, drop, replicate, ltb, ◌==◌, if◌then◌else◌,
}
use lite_speed_store.Endian.{put_le32, put_le64, get_le32}
use lite_speed_store.Posix.{
  Answer, Disk, Input, fsync, ftruncate, probe, seek, write_exact, read_exact,
}

abbrev pub header_size : ℕ
header_size = 16

-- kMaxFieldSize, 1 MiB
abbrev pub max_field_size : ℕ
max_field_size = 2 ^ 20

abbrev pub wal_magic : ℕ
wal_magic = 0x314C5357

abbrev pub wal_version : ℕ
wal_version = 2

abbrev pub hdr_off_magic : ℕ
hdr_off_magic = 0

abbrev pub hdr_off_version : ℕ
hdr_off_version = hdr_off_magic + 4

-- Sha256Digest{}
abbrev pub zero_hash : List ℕ
zero_hash = replicate 32 0

pub data RecordType : Type 0 where
  put delete : RecordType

pub data RecoveryStatus : Type 0 where
  ok truncated_tail malformed tampered : RecoveryStatus

pub record RecoveryResult : Type 0 where
  pub status : RecoveryStatus
  pub entries_verified : ℕ
  pub tamper_offset : ℕ
  pub tamper_seq : ℕ
  pub head_hash : List ℕ

pub record Checkpoint : Type 0 where
  pub seq : ℕ
  pub head : List ℕ

-- The exceptions, one for each message.
pub data Error : Type 0 where
  open_failed stat_failed header_write_failed header_invalid : Error
  field_too_long entry_write_failed fsync_failed : Error

pub data Outcome {ℓ} (A : Type ℓ) : Type ℓ where
  returned : A → Outcome A
  thrown : Error → Outcome A

-- `fd_open` is `m_fd != -1`; `disk` is the file that the path names, open or not.
pub record Wal : Type 0 where
  pub fd_open : Bool
  pub epoch : ℕ
  pub seq : ℕ
  pub head_hash : List ℕ
  pub sync_every_n : ℕ
  pub pending_writes : ℕ
  pub disk : Disk

unfoldable pub header : List ℕ
header = put_le64 (put_le32 (put_le32 [] wal_magic) wal_version) 0

unfoldable pub write_header : Disk → Bool × Disk
write_header d =
    let (written, d1) = write_exact d header in
    let synced = fsync d1 in if written then synced else (false, d1)

-- getLE32(p) == expected
unfoldable pub reads32 : List ℕ → ℕ → Bool
reads32 p expected = elim (get_le32 p) [ none ↦ false | some v ↦ v == expected ]

unfoldable pub header_ok : Option (List ℕ) → Bool
unfolding reads32
header_ok none = false
header_ok (some h) =
    reads32 (drop hdr_off_magic h) wal_magic && reads32 (drop hdr_off_version h) wal_version

unfoldable pub validate_header : Disk → Bool × Disk
unfolding header_ok
validate_header d =
    let (sought, d1) = seek d in
    let r = read_exact (record { pos = 0; ahead = d1.bytes; script = d1.script }) header_size in
    if sought then (header_ok r.chunk, record d1 { script = r.input.script }) else (false, d1)

-- The fields at their initialisers.
unfoldable pub fresh : ℕ → Disk → Wal
fresh sync_every_n d = record {
  fd_open = true;
  epoch = 0;
  seq = 0;
  head_hash = zero_hash;
  sync_every_n = if ltb sync_every_n 1 then 1 else sync_every_n;
  pending_writes = 0;
  disk = d;
}

-- The constructor: the object, or the exception, with the file that it leaves. The file is as
-- open(2) finds it; O_CREAT makes an absent one empty.
unfoldable pub open_wal : ℕ → Disk → Outcome Wal × Disk
open_wal sync_every_n d =
    let (opened, d1) = probe d in
    let (stated, d2) = seek d1 in
    let (written, dw) = write_header d2 in
    let (valid, dv) = validate_header d2 in
    if not opened
    then (thrown open_failed, d1)
    else if not stated
    then (thrown stat_failed, d2)
    else if length d2.bytes == 0
    then (if written
        then (returned (fresh sync_every_n dw), dw)
        else (thrown header_write_failed, dw))
    else (if valid then (returned (fresh sync_every_n dv), dv) else (thrown header_invalid, dv))

unfoldable pub set_epoch : ℕ → Wal → Wal
set_epoch epoch w = record w { epoch = epoch }

unfoldable pub head : Wal → Checkpoint
head w = record { seq = w.seq; head = w.head_hash }

-- The fsync's failure is only reported; each later failure returns at once.
unfoldable pub reset : Wal → Bool × Wal
reset w =
    let (synced, d1) = fsync w.disk in
    let (cut, d2) = ftruncate 0 d1 in
    let (sought, d3) = seek d2 in
    let (written, d4) = write_header d3 in
    if not w.fd_open
    then (false, w)
    else if not cut
    then (false, record w { disk = d2 })
    else if not sought
    then (false, record w { disk = d3 })
    else if not written
    then (false, record w { disk = d4 })
    else (true, record w { seq = 0; head_hash = zero_hash; pending_writes = 0; disk = d4 })

-- The descriptor is gone whatever close(2) answers.
unfoldable pub close : Wal → Wal
close w =
    let (synced, d1) = fsync w.disk in
    let flushed = if ltb 0 w.pending_writes then d1 else w.disk in
    let (closed, d2) = probe flushed in
    if w.fd_open then (record w { fd_open = false; pending_writes = 0; disk = d2 }) else w
