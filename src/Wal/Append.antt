-- ===== src/Wal/Append.antt =====
-- `WAL::append`.
use lite_speed_store.Base.{ℕ, ◌+◌, ◌||◌, not, List, u64, length, ltb, leb, if◌then◌else◌}
use lite_speed_store.Posix.{Disk, fsync, write_exact}
use lite_speed_store.Wal.{
  Wal, RecordType, Outcome, returned, thrown, field_too_long, entry_write_failed, fsync_failed,
  max_field_size,
}
use lite_speed_store.Wal.Format.{Entry, entry_hash, entry_bytes}

-- The entry that `append` builds from its arguments and the object.
unfoldable pub next_entry : Wal → RecordType → List ℕ → List ℕ → ℕ → Entry
next_entry w type key value timestamp = record {
  seq = w.seq;
  timestamp = timestamp;
  epoch = w.epoch;
  type = type;
  key = key;
  value = value;
}

-- After a complete write: the chain moves on, and every `sync_every_n`-th append is synced.
unfoldable pub commit : Wal → List ℕ → Disk → Outcome (Unit {0}) × Wal
commit w hash d =
    let moved = record w {
      head_hash = hash;
      seq = u64 (w.seq + 1);
      pending_writes = w.pending_writes + 1;
      disk = d;
    } in
    let (synced, d1) = fsync d in
    if leb w.sync_every_n (w.pending_writes + 1)
    then (if synced
        then (returned tt, record moved { pending_writes = 0; disk = d1 })
        else (thrown fsync_failed, record moved { disk = d1 }))
    else (returned tt, moved)

unfoldable pub append : Wal → RecordType → List ℕ → List ℕ → ℕ → Outcome (Unit {0}) × Wal
unfolding next_entry
append w type key value timestamp =
    let e = next_entry w type key value timestamp in
    let (written, d) = write_exact w.disk (entry_bytes w.head_hash e) in
    if ltb max_field_size (length key) || ltb max_field_size (length value)
    then (thrown field_too_long, w)
    else if not w.fd_open
    then (returned tt, w)
    else if not written
    then (thrown entry_write_failed, record w { disk = d })
    else commit w (entry_hash w.head_hash e) d
