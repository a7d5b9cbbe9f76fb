-- ===== src/Demo/Tests.antt =====
-- The demo's run on a kernel that fails no call, over a file that an earlier run left.
use lite_speed_store.Base.{◌≡◌, refl, List, [], ◌∷◌, equal_bytes}
use lite_speed_store.Endian.{put_le32, put_le64, get_le32, get_le64}
use lite_speed_store.Crc32.{calculate, run, step, table, table_from, shift_bits, shift_bit}
use lite_speed_store.Sha256.{
  update, digest, update_byte, init, finish_padding, pad_zeros, put_length, digest_from, word_bytes,
  absorb, put_byte,
}
use lite_speed_store.Sha256.Compress.{transform}
use lite_speed_store.Posix.{
  Disk, probe, call, seek, query, fsync, write_exact, write_loop, read_exact, read_loop,
}
use lite_speed_store.Wal.{
  open_wal, write_header, validate_header, header_ok, reads32, header, fresh, close, head,
}
use lite_speed_store.Wal.Append.{append, commit, next_entry}
use lite_speed_store.Wal.Format.{
  entry_bytes, fixed_part, covered, entry_hash, chain_hash, type_byte, decode_fixed, join_timestamp,
}
use lite_speed_store.Wal.Check.{read_or_torn, read_prefix, read_entry, verify_entry}
use lite_speed_store.Wal.Walk.{
  walk_chain, walk_loop, start, visit, advance, result, fail, conclude, passes, truncate_tail,
}
use lite_speed_store.Wal.Recover.{verify, report}
use lite_speed_store.Wal.Opens.{served}
use lite_speed_store.Demo.{
  Line, intact, flipped, tampering, Run, goes, terminated, nowhere, main, record_events, check_file,
  attack, search, is_prefix, print_verify, to_hex_prefix, unlink,
}

-- The lines behind the checkpoint's.
shown : Run (List Line × Disk) → List Line
shown (goes (first ∷ lines, d)) = lines
shown (goes ([], d)) = []
shown terminated = []
shown nowhere = []

run_shows : shown (main (served (1 ∷ 2 ∷ 3 ∷ []) [])) ≡ intact 3 ∷ flipped 66 ∷ tampering 16 0 ∷ []
unfolding shown main record_events check_file attack search is_prefix print_verify to_hex_prefix
    unlink probe call seek query fsync write_exact write_loop read_exact read_loop open_wal
    write_header validate_header header_ok reads32 header fresh close head append commit next_entry
    entry_bytes fixed_part covered entry_hash chain_hash type_byte decode_fixed join_timestamp
    read_or_torn read_prefix read_entry verify_entry walk_chain walk_loop start visit advance result
    fail conclude passes truncate_tail verify report put_le32 put_le64 get_le32 get_le64 calculate
    run step table table_from shift_bits shift_bit update digest update_byte init finish_padding
    pad_zeros put_length digest_from word_bytes absorb put_byte transform equal_bytes
run_shows = refl
