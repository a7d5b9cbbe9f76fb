-- ===== src/Wal/OpenTests.antt =====
-- Concrete runs of the constructor and of `reset`.
use lite_speed_store.Base.{◌+◌, ◌^◌, ◌<◌, ◌≡◌, refl, arith, true, [], ◌∷◌, length, take}
use lite_speed_store.Endian.{put_le32, put_le64}
use lite_speed_store.Wal.Rotated.{refusal, open_wal_short}
use lite_speed_store.Wal.Rotation.{reset-IsWriter, open_wal-IsWriter}
use lite_speed_store.Posix.{
  probe, fsync, ftruncate, seek, query, call, write_exact, write_loop, transfer, interrupted,
  failed, Disk,
}
use lite_speed_store.Wal.{
  thrown, fresh, open_wal, returned, reset, write_header, Wal, header_size, put, header, zero_hash,
}
use lite_speed_store.Wal.Format.{Entry}
use lite_speed_store.Wal.Halts.{journal}
use lite_speed_store.Wal.Writes.{IsWriter}

-- An open log.
abbrev old_wal : Wal
old_wal = record {
  fd_open = true;
  epoch = 3;
  seq = 0;
  head_hash = zero_hash;
  sync_every_n = 1;
  pending_writes = 0;
  disk = record { bytes = header; synced = []; script = transfer 7 ∷ failed ∷ [] };
}

abbrev entry : Entry
entry = record {
  seq = 0;
  timestamp = 2 ^ 63 + 5;
  epoch = 3;
  type = put;
  key = 97 ∷ [];
  value = 1 ∷ 2 ∷ [];
}

-- A journal with an entry, whose kernel writes the new header in three parts.
abbrev full_wal : Wal
full_wal = record old_wal {
  disk = record {
    bytes = journal (entry ∷ []);
    synced = [];
    script =
        transfer 0
        ∷ transfer 0
        ∷ transfer 0
        ∷ transfer 4
        ∷ interrupted
        ∷ transfer 5
        ∷ transfer 9
        ∷ [];
  };
}

reset-IsWriter_example : IsWriter (reset full_wal).1 []
unfolding reset fsync ftruncate seek query call write_header write_exact write_loop header put_le32
    put_le64
reset-IsWriter_example = reset-IsWriter full_wal refl (omega arith) refl

-- A file that is new, whose kernel writes the header in two parts.
abbrev new_disk : Disk
new_disk = record {
  bytes = [];
  synced = [];
  script = transfer 0 ∷ transfer 0 ∷ transfer 5 ∷ interrupted ∷ transfer 99 ∷ [];
}

abbrev opened_wal : Wal
opened_wal = fresh 0 (write_header (seek (probe new_disk).1).1).1

new-returned : (open_wal 0 new_disk).0 ≡ returned opened_wal
unfolding open_wal fresh probe fsync seek query call write_header write_exact write_loop header
    put_le32 put_le64
new-returned = refl

open_wal-IsWriter_example : IsWriter opened_wal []
open_wal-IsWriter_example = open_wal-IsWriter 0 new_disk opened_wal refl new-returned

-- A header of which seven bytes were written.
abbrev cut_header : Disk
cut_header = record { bytes = take 7 header; synced = []; script = transfer 1 ∷ interrupted ∷ [] }

cut_header_sizes : (0 < length cut_header.bytes) × (length cut_header.bytes < header_size)
unfolding header put_le32 put_le64
cut_header_sizes = (omega arith, omega arith)

open_wal_short_example :
    ((open_wal 1 cut_header).0
      ≡ thrown (refusal (call cut_header.script).0 (query (call cut_header.script).1).0))
    × ((open_wal 1 cut_header).1.bytes ≡ cut_header.bytes)
open_wal_short_example = open_wal_short 1 cut_header cut_header_sizes.0 cut_header_sizes.1
