-- ===== src/Engine/Tests.antt =====
-- Concrete runs of the engine on a new journal whose kernel breaks the first write off.
use lite_speed_store.Base.{
  ℕ, ◌≡◌, refl, sym, arith, true, Option, none, some, List, [], ◌∷◌, ◌++◌, append-nil, equal_bytes,
}
use lite_speed_store.Posix.{transfer, interrupted, failed, write_exact, write_loop, fsync, call}
use lite_speed_store.Endian.{put_le32, put_le64}
use lite_speed_store.Crc32.{calculate, run, step, table, table_from, shift_bits, shift_bit}
use lite_speed_store.Sha256.{
  update, digest, update_byte, init, finish_padding, pad_zeros, put_length, digest_from, word_bytes,
  absorb, put_byte,
}
use lite_speed_store.Sha256.Compress.{transform}
use lite_speed_store.Wal.{Wal, put, delete, header, zero_hash}
use lite_speed_store.Wal.Append.{next_entry, append, commit}
use lite_speed_store.Wal.Format.{
  fixed_part, covered, entry_hash, entry_bytes, chain_hash, type_byte,
}
use lite_speed_store.Wal.Log.{encode_log, log_head, replay_log}
use lite_speed_store.Wal.Halts.{journal}
use lite_speed_store.Wal.Walk.{passes}
use lite_speed_store.Engine.{
  Record, StorageEngine, done, failed, serialize, find, erase, is_some, set, remove, logged,
  append_capped, alter, push_capped,
}
use lite_speed_store.Engine.Recover.{Image, epoch_of, loaded, load_state, load_history}
use lite_speed_store.Engine.Answers.{with_record}
use lite_speed_store.Engine.Restart.{IsSynced}
use lite_speed_store.Engine.Synced.{set-IsSynced, remove-IsSynced}
use lite_speed_store.Engine.Crash.{IsReopened, Recovers, set-Recovers, remove-Recovers}

-- 1.5
abbrev duration : List ℕ
duration = 0 ∷ 0 ∷ 0 ∷ 0 ∷ 0 ∷ 0 ∷ 0xF8 ∷ 0x3F ∷ []

abbrev one : Record
one = record { value = 7 ∷ []; duration = duration; timestamp = 5 }

-- A new journal at the epoch after the snapshot's, and an engine that loaded the snapshot.
abbrev torn_wal : Wal
torn_wal = record {
  fd_open = true;
  epoch = 4;
  seq = 0;
  head_hash = zero_hash;
  sync_every_n = 2;
  pending_writes = 0;
  disk = record { bytes = header; synced = []; script = transfer 7 ∷ failed ∷ [] };
}

abbrev good_wal : Wal
good_wal = record torn_wal { disk = record torn_wal.disk { script = [] } }

abbrev image : Option Image
image = some (record { epoch = 3; state = (97 ∷ [], one ∷ []) ∷ [] })

abbrev engine_of : Wal → StorageEngine
engine_of w = record {
  table = loaded 2 image;
  wal = some w;
  snapshot_epoch = some 3;
  max_history = 2;
}

torn-IsSynced : IsSynced image (engine_of torn_wal) torn_wal []
unfolding journal encode_log log_head epoch_of passes replay_log
torn-IsSynced = record {
  has_wal = refl;
  writer = record {
    opened = refl;
    log = tt;
    seq = refl;
    head = refl;
    bytes = sym (append-nil header);
    epoch = omega arith;
  };
  epoch = refl;
  newer = refl;
  table = refl;
}

good-IsSynced : IsSynced image (engine_of good_wal) good_wal []
unfolding journal encode_log log_head epoch_of passes replay_log
good-IsSynced = record {
  has_wal = refl;
  writer = record {
    opened = refl;
    log = tt;
    seq = refl;
    head = refl;
    bytes = sym (append-nil header);
    epoch = omega arith;
  };
  epoch = refl;
  newer = refl;
  table = refl;
}

-- A new engine on the file that `w` is about.
abbrev reopened : Wal → StorageEngine
reopened w = record {
  table = [];
  wal = some (record w {
    fd_open = true;
    disk = record w.disk { script = transfer 9 ∷ interrupted ∷ [] };
  });
  snapshot_epoch = none;
  max_history = 2;
}

abbrev torn_set : Wal
torn_set = (append torn_wal put (97 ∷ []) (serialize duration (1 ∷ 2 ∷ [])) 6).1

set-IsReopened :
    IsReopened (set (engine_of torn_wal) (97 ∷ []) (1 ∷ 2 ∷ []) duration 6).1 (reopened torn_set)
unfolding set remove logged serialize append next_entry commit write_exact write_loop fsync call
    entry_bytes header put_le32 put_le64 fixed_part covered entry_hash chain_hash type_byte update
    digest update_byte init finish_padding pad_zeros put_length digest_from word_bytes absorb
    put_byte transform calculate run step table shift_bits shift_bit table_from find is_some erase
    loaded load_state load_history append_capped alter push_capped equal_bytes
set-IsReopened = record {
  was = torn_set;
  had = refl;
  now = _;
  has = refl;
  opened = refl;
  smooth = (tt, (tt, tt));
  bytes = refl;
  limit = refl;
}

abbrev torn_remove : Wal
torn_remove = (append torn_wal delete (97 ∷ []) [] 6).1

remove-IsReopened : IsReopened (remove (engine_of torn_wal) (97 ∷ []) 6).1 (reopened torn_remove)
unfolding set remove logged serialize append next_entry commit write_exact write_loop fsync call
    entry_bytes header put_le32 put_le64 fixed_part covered entry_hash chain_hash type_byte update
    digest update_byte init finish_padding pad_zeros put_length digest_from word_bytes absorb
    put_byte transform calculate run step table shift_bits shift_bit table_from find is_some erase
    loaded load_state load_history append_capped alter push_capped equal_bytes
remove-IsReopened = record {
  was = torn_remove;
  had = refl;
  now = _;
  has = refl;
  opened = refl;
  smooth = (tt, (tt, tt));
  bytes = refl;
  limit = refl;
}

set-Recovers_example :
    Recovers image
      (reopened torn_set)
      (engine_of torn_wal).table
      (with_record (engine_of torn_wal) (97 ∷ []) (1 ∷ 2 ∷ []) duration 6)
      ((set (engine_of torn_wal) (97 ∷ []) (1 ∷ 2 ∷ []) duration 6).0 ≡ done tt)
set-Recovers_example =
    set-Recovers image (engine_of torn_wal) (reopened torn_set) torn_wal [] (97 ∷ []) (1 ∷ 2 ∷ [])
      duration 6 torn-IsSynced (omega arith) (omega arith) refl set-IsReopened

remove-Recovers_example :
    Recovers image
      (reopened torn_remove)
      (engine_of torn_wal).table
      (erase (97 ∷ []) (engine_of torn_wal).table)
      ((remove (engine_of torn_wal) (97 ∷ []) 6).0 ≡ done true)
remove-Recovers_example =
    remove-Recovers image (engine_of torn_wal) (reopened torn_remove) torn_wal [] (97 ∷ []) 6 true
      torn-IsSynced (omega arith) (omega arith) remove-IsReopened

set_returns : (set (engine_of good_wal) (97 ∷ []) (1 ∷ 2 ∷ []) duration 6).0 ≡ done tt
unfolding set remove logged serialize append next_entry commit write_exact write_loop fsync call
    entry_bytes header put_le32 put_le64 fixed_part covered entry_hash chain_hash type_byte update
    digest update_byte init finish_padding pad_zeros put_length digest_from word_bytes absorb
    put_byte transform calculate run step table shift_bits shift_bit table_from find is_some erase
    loaded load_state load_history append_capped alter push_capped equal_bytes
set_returns = refl

remove_returns : (remove (engine_of good_wal) (97 ∷ []) 6).0 ≡ done true
unfolding set remove logged serialize append next_entry commit write_exact write_loop fsync call
    entry_bytes header put_le32 put_le64 fixed_part covered entry_hash chain_hash type_byte update
    digest update_byte init finish_padding pad_zeros put_length digest_from word_bytes absorb
    put_byte transform calculate run step table shift_bits shift_bit table_from find is_some erase
    loaded load_state load_history append_capped alter push_capped equal_bytes
remove_returns = refl

set-IsSynced_example :
    (w' : Wal) × IsSynced image
      (set (engine_of good_wal) (97 ∷ []) (1 ∷ 2 ∷ []) duration 6).1
      w'
      ([] ++ next_entry good_wal put (97 ∷ []) (serialize duration (1 ∷ 2 ∷ [])) 6 ∷ [])
set-IsSynced_example =
    set-IsSynced image (engine_of good_wal) good_wal [] (97 ∷ []) (1 ∷ 2 ∷ []) duration 6
      good-IsSynced (omega arith) (omega arith) refl set_returns

remove-IsSynced_example :
    (w' : Wal) × IsSynced image
      (remove (engine_of good_wal) (97 ∷ []) 6).1
      w'
      ([] ++ next_entry good_wal delete (97 ∷ []) [] 6 ∷ [])
remove-IsSynced_example =
    remove-IsSynced image (engine_of good_wal) good_wal [] (97 ∷ []) 6 true good-IsSynced
      (omega arith) (omega arith) remove_returns

abbrev after_remove :
    Recovers image
      (reopened torn_remove)
      (engine_of torn_wal).table
      (erase (97 ∷ []) (engine_of torn_wal).table)
      ((remove (engine_of torn_wal) (97 ∷ []) 6).0 ≡ done true)
after_remove =
    remove-Recovers image (engine_of torn_wal) (reopened torn_remove) torn_wal [] (97 ∷ []) 6 true
      torn-IsSynced (omega arith) (omega arith) remove-IsReopened
