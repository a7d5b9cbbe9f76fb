-- ===== src/Wal/DurableTests.antt =====
-- A first append with an fsync at each second one, and a power loss after it; a restart with an
-- entry that is not synced, and a power loss after the next append.
use lite_speed_store.Base.{
  ℕ, suc, ◌≡◌, refl, sym, arith, true, Option, none, some, [], ◌∷◌, ◌++◌, append-nil,
}
use lite_speed_store.Endian.{put_le32, put_le64}
use lite_speed_store.Posix.{transfer, interrupted, write_exact, write_loop, fsync, call}
use lite_speed_store.Wal.{Wal, put, header, zero_hash, returned}
use lite_speed_store.Wal.Format.{
  fixed_part, covered, entry_hash, entry_bytes, chain_hash, type_byte,
}
use lite_speed_store.Wal.Append.{next_entry, commit, append}
use lite_speed_store.Wal.Walk.{Visit}
use lite_speed_store.Wal.Log.{encode_log, log_head}
use lite_speed_store.Wal.Halts.{journal}
use lite_speed_store.Wal.Writes.{IsWriter}
use lite_speed_store.Wal.Durable.{IsDurable}
use lite_speed_store.Wal.PowerLoss.{Loses, append-Loses}
use lite_speed_store.Wal.Late.{Update, IsLate, restart-IsLate}
use lite_speed_store.Wal.EditTests.{entry, entry-IsEntry}

abbrev wal : Wal
wal = record {
  fd_open = true;
  epoch = 3;
  seq = 0;
  head_hash = zero_hash;
  sync_every_n = 2;
  pending_writes = 0;
  disk = record { bytes = header; synced = header; script = transfer 7 ∷ interrupted ∷ [] };
}

wal-IsWriter : IsWriter wal []
unfolding journal encode_log log_head
wal-IsWriter = record {
  opened = refl;
  log = tt;
  seq = refl;
  head = refl;
  bytes = sym (append-nil header);
  epoch = omega arith;
}

wal-IsDurable : IsDurable wal []
unfolding journal encode_log
wal-IsDurable = record {
  front = [];
  back = [];
  split = refl;
  synced = sym (append-nil header);
  pending = refl;
  bound = omega arith;
}

append_returns : (append wal put (97 ∷ []) (1 ∷ 2 ∷ []) 77).0 ≡ returned tt
unfolding append next_entry commit write_exact write_loop fsync call entry_bytes header put_le32
    put_le64 fixed_part covered entry_hash chain_hash type_byte
append_returns = refl

-- An object that has the synced bytes for its file.
abbrev restarted : Wal
restarted = record wal {
  disk = record {
    bytes = (append wal put (97 ∷ []) (1 ∷ 2 ∷ []) 77).1.disk.synced;
    synced = [];
    script = transfer 9 ∷ interrupted ∷ [];
  };
}

-- The visitor that counts.
abbrev counter : Option (Visit → ℕ → ℕ)
counter = some (λ v n. suc n)

append-Loses_example :
    Loses counter none 0 ([] ++ next_entry wal put (97 ∷ []) (1 ∷ 2 ∷ []) 77 ∷ []) 2 restarted
append-Loses_example =
    append-Loses counter none 0 wal restarted [] put (97 ∷ []) (1 ∷ 2 ∷ []) 77 wal-IsWriter
      wal-IsDurable (omega arith) (omega arith) append_returns refl (tt, (tt, tt)) refl

abbrev update : Update
update = record { type = put; key = 97 ∷ []; value = 1 ∷ []; timestamp = 78 }

restart-IsLate_example :
    IsLate counter none 0 2 (journal (entry ∷ [])) (journal []) [] (entry ∷ []) (update ∷ [])
restart-IsLate_example =
    restart-IsLate counter none 0 2 (journal (entry ∷ [])) [] (entry ∷ []) (update ∷ [])
      (record {
        log = (refl, entry-IsEntry, tt);
        small = omega arith;
        bytes_lem = sym (append-nil (journal (entry ∷ [])));
      })
      (omega arith)
