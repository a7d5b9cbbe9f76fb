-- ===== src/Wal/EditTests.antt =====
-- A journal of one entry, with a byte of its value edited.
use lite_speed_store.Base.{ℕ, refl, arith, true, none, some, List, [], ◌∷◌, ◌++◌, All, IsByte, suc}
use lite_speed_store.Endian.{put_le32, put_le64}
use lite_speed_store.Crc32.{calculate, run, step, table, table_from, shift_bits, shift_bit}
use lite_speed_store.Sha256.{
  update, digest, update_byte, init, finish_padding, pad_zeros, put_length, digest_from, word_bytes,
  absorb, put_byte,
}
use lite_speed_store.Sha256.Compress.{transform}
use lite_speed_store.Posix.{transfer, interrupted}
use lite_speed_store.Wal.{Wal, put, header, zero_hash}
use lite_speed_store.Wal.Format.{Entry, fixed_part, covered, entry_hash, chain_hash, type_byte}
use lite_speed_store.Wal.Walk.{Visit}
use lite_speed_store.Wal.Fields.{IsEntry}
use lite_speed_store.Wal.Log.{encode_log, log_head}
use lite_speed_store.Wal.Halts.{journal}
use lite_speed_store.Wal.Edited.{Edits, edited_bytes}
use lite_speed_store.Wal.Caught.{Caught, edit-Caught}
use lite_speed_store.Wal.Tests.{all_bytes, all_bytes-All}

-- "C:" in the value.
abbrev pub entry : Entry
entry = record {
  seq = 0;
  timestamp = 1;
  epoch = 0;
  type = put;
  key = 112 ∷ [];
  value = 67 ∷ 58 ∷ [];
}

pub entry-IsEntry : IsEntry entry
entry-IsEntry = record {
  seq = omega arith;
  timestamp = omega arith;
  epoch = omega arith;
  key = omega arith;
  value = omega arith;
}

pub edit : Edits entry (112 ∷ []) (99 ∷ 58 ∷ [])
edit = record {
  key_size = refl;
  value_size = refl;
  front = 112 ∷ [];
  was = 67;
  is = 99;
  back = 58 ∷ [];
  before = refl;
  after = refl;
  other = λ e. omega (arith, e);
  byte = omega arith;
}

abbrev pub bytes : List ℕ
bytes = journal [] ++ (edited_bytes (log_head zero_hash []) entry (112 ∷ []) (99 ∷ 58 ∷ []) ++ [])

abbrev wal : Wal
wal = record {
  fd_open = true;
  epoch = 0;
  seq = 0;
  head_hash = zero_hash;
  sync_every_n = 1;
  pending_writes = 0;
  disk = record { bytes = bytes; synced = []; script = transfer 9 ∷ interrupted ∷ [] };
}

pub all-IsByte : All IsByte bytes
unfolding journal encode_log log_head edited_bytes header put_le32 put_le64 fixed_part covered
    entry_hash chain_hash type_byte update digest update_byte init finish_padding pad_zeros
    put_length digest_from word_bytes absorb put_byte transform calculate run step table shift_bits
    shift_bit all_bytes table_from
all-IsByte = all_bytes-All bytes refl

edit-Caught_example : Caught (some (λ (v : Visit) (n : ℕ). suc n)) none wal 0 []
edit-Caught_example =
    edit-Caught (some (λ (v : Visit) (n : ℕ). suc n)) none wal 0 [] entry (112 ∷ []) (99 ∷ 58 ∷ [])
      [] edit refl (tt, (tt, tt)) all-IsByte
      (record { log = tt; small = omega arith; bytes_lem = refl }) entry-IsEntry
