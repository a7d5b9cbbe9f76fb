-- ===== src/Wal/Tests.antt =====
-- Concrete runs of the journal: a first append, torn after seven bytes or complete, and the journal
-- with its entry read back.
use lite_speed_store.Base.{
  ℕ, suc, ◌+◌, ◌^◌, ◌≡◌, ◌⊎◌, refl, sym, arith, Bool, true, ◌&&◌, Option, none, some, List, [], ◌∷◌,
  ◌++◌, append-nil, length, length-append, take, drop, ltb, ltb→lt, All, IsByte, Bool-cases, inl,
  inr,
}
use lite_speed_store.Endian.{put_le32, put_le64}
use lite_speed_store.Crc32.{calculate, run, step, table, table_from, shift_bits, shift_bit}
use lite_speed_store.Sha256.{
  update, digest, update_byte, init, finish_padding, pad_zeros, put_length, digest_from, word_bytes,
  absorb, put_byte,
}
use lite_speed_store.Sha256.Compress.{transform}
use lite_speed_store.Posix.{Answer, transfer, interrupted, failed, Disk}
use lite_speed_store.Wal.{
  Wal, RecoveryResult, header_size, put, header, zero_hash, ok, truncated_tail,
}
use lite_speed_store.Wal.Format.{
  Entry, entry_bytes, fixed_part, covered, entry_hash, chain_hash, type_byte,
}
use lite_speed_store.Wal.Append.{next_entry, append}
use lite_speed_store.Wal.Walk.{Visit}
use lite_speed_store.Wal.Fields.{IsEntry}
use lite_speed_store.Wal.Round.{length-entry_bytes}
use lite_speed_store.Wal.Log.{encode_log, log_head, replay_log}
use lite_speed_store.Wal.Halts.{journal, IsLeft}
use lite_speed_store.Wal.Replay.{verdict, adopted, recover_whole, recover_torn, verify_whole}
use lite_speed_store.Wal.Recover.{recover, verify}
use lite_speed_store.Wal.Writes.{IsWriter, Rejected, Extended, Broken, append_cases}
use lite_speed_store.Wal.Crash.{Survives, append-Survives}
use lite_speed_store.Wal.Evidence.{IsJournal, IsClean, verify-IsClean, tamper_evident}
use lite_speed_store.Wal.Tamper.{Collides}
use lite_speed_store.Wal.Ends.{recover-returns}

-- A new journal, whose kernel writes seven bytes and then fails.
abbrev torn_wal : Wal
torn_wal = record {
  fd_open = true;
  epoch = 3;
  seq = 0;
  head_hash = zero_hash;
  sync_every_n = 1;
  pending_writes = 0;
  disk = record { bytes = header; synced = []; script = transfer 7 ∷ failed ∷ [] };
}

torn_wal-IsWriter : IsWriter torn_wal []
unfolding journal encode_log log_head
torn_wal-IsWriter = record {
  opened = refl;
  log = tt;
  seq = refl;
  head = refl;
  bytes = sym (append-nil header);
  epoch = omega arith;
}

-- An object that has `bytes` for its file, and a kernel that interrupts it once.
abbrev reader : List ℕ → Wal
reader bytes = record torn_wal {
  disk = record { bytes = bytes; synced = []; script = transfer 9 ∷ interrupted ∷ [] };
}

-- The visitor that counts.
abbrev counter : Option (Visit → ℕ → ℕ)
counter = some (λ v n. suc n)

append-Survives_example :
    Survives counter none 0 []
      (next_entry torn_wal put (97 ∷ []) (1 ∷ 2 ∷ []) 77)
      (append torn_wal put (97 ∷ []) (1 ∷ 2 ∷ []) 77).0
      (reader (append torn_wal put (97 ∷ []) (1 ∷ 2 ∷ []) 77).1.disk.bytes)
append-Survives_example =
    append-Survives counter none 0 torn_wal
      (reader (append torn_wal put (97 ∷ []) (1 ∷ 2 ∷ []) 77).1.disk.bytes) [] put (97 ∷ [])
      (1 ∷ 2 ∷ []) 77 torn_wal-IsWriter (omega arith) (omega arith) refl (tt, (tt, tt)) refl

append_cases_example :
    Rejected torn_wal put (97 ∷ []) (1 ∷ 2 ∷ []) 77
    ⊎ (Extended torn_wal put (97 ∷ []) (1 ∷ 2 ∷ []) 77 []
        ⊎ Broken torn_wal put (97 ∷ []) (1 ∷ 2 ∷ []) 77 [])
append_cases_example =
    append_cases torn_wal put (97 ∷ []) (1 ∷ 2 ∷ []) 77 [] torn_wal-IsWriter (omega arith)
      (omega arith)

abbrev entry : Entry
entry = record {
  seq = 0;
  timestamp = 2 ^ 63 + 5;
  epoch = 3;
  type = put;
  key = 97 ∷ [];
  value = 1 ∷ 2 ∷ [];
}

entry-IsEntry : IsEntry entry
entry-IsEntry = record {
  seq = omega arith;
  timestamp = omega arith;
  epoch = omega arith;
  key = omega arith;
  value = omega arith;
}

whole-IsLeft : IsLeft (journal (entry ∷ [])) (entry ∷ []) []
whole-IsLeft = record {
  log = (refl, entry-IsEntry, tt);
  small = omega arith;
  bytes_lem = sym (append-nil (journal (entry ∷ [])));
}

recover_whole_example :
    (script : List Answer) × (recover counter (some 2) (reader (journal (entry ∷ []))) 0
      ≡ some (
        verdict ok (entry ∷ []),
        replay_log counter (some 2) (entry ∷ []) 0,
        adopted
            (entry ∷ [])
            (record (reader (journal (entry ∷ []))).disk { script = script })
            (reader (journal (entry ∷ []))),
      ))
recover_whole_example =
    recover_whole counter (some 2) (reader (journal (entry ∷ []))) (entry ∷ []) 0 refl
      (tt, (tt, tt)) whole-IsLeft

abbrev torn_bytes : List ℕ
torn_bytes = journal [] ++ take 7 (entry_bytes (log_head zero_hash []) entry)

torn-IsLeft : IsLeft torn_bytes [] (take 7 (entry_bytes (log_head zero_hash []) entry))
torn-IsLeft = record { log = tt; small = omega arith; bytes_lem = refl }

recover_torn_example :
    (d : Disk) × (recover counter none (reader torn_bytes) 0
      ≡ some (
        verdict truncated_tail [],
        replay_log counter none [] 0,
        adopted [] d (reader torn_bytes),
      ))
    × ((d.bytes ≡ journal []) ⊎ (d.bytes ≡ torn_bytes))
    × ((reader torn_bytes).disk.script ≡ [] → d.bytes ≡ journal [])
recover_torn_example =
    recover_torn counter none (reader torn_bytes) [] 0 entry 7 refl (tt, (tt, tt)) torn-IsLeft
      entry-IsEntry (omega arith)
      (omega (arith, length-entry_bytes (log_head zero_hash []) entry entry-IsEntry))

length-header : length header ≡ 16
unfolding header put_le32 put_le64
length-header = refl

journal-IsJournal : IsJournal (reader (journal (entry ∷ [])))
unfolding journal encode_log
journal-IsJournal =
    let long = length-append header (entry_bytes zero_hash entry ++ []) in
    let long2 = length-append (entry_bytes zero_hash entry) [] in
    let long3 = length-entry_bytes zero_hash entry entry-IsEntry in
    record {
      opened = refl;
      smooth = (tt, (tt, tt));
      long = omega (arith, long, long2, long3, length-header);
      small = omega (arith, long, long2, long3, length-header);
    }

abbrev seen :
    (script : List Answer) × (verify (reader (journal (entry ∷ [])))
      ≡ some (
        verdict ok (entry ∷ []),
        record (reader (journal (entry ∷ []))) {
          disk = record (reader (journal (entry ∷ []))).disk { script = script };
        },
      ))
seen = verify_whole (reader (journal (entry ∷ []))) (entry ∷ []) refl (tt, (tt, tt)) whole-IsLeft

abbrev after : Wal
after = record (reader (journal (entry ∷ []))) {
  disk = record (reader (journal (entry ∷ []))).disk { script = seen.0 };
}

verify-IsClean_example : IsClean (reader (journal (entry ∷ []))) (verdict ok (entry ∷ []))
verify-IsClean_example =
    verify-IsClean (reader (journal (entry ∷ []))) after (verdict ok (entry ∷ [])) journal-IsJournal
      seen.1 refl

unfoldable pub all_bytes : List ℕ → Bool
all_bytes [] = true
all_bytes (b ∷ bs) = ltb b 256 && all_bytes bs

pub all_bytes-All : (bs : List ℕ) → all_bytes bs ≡ true → All IsByte bs
unfolding all_bytes
all_bytes-All [] h = tt
all_bytes-All (b ∷ bs) h = elim (Bool-cases (ltb b 256)) [
  | inl small ↦ (ltb→lt b 256 small, all_bytes-All bs (rw small at h))
  | inr big ↦ cc (rw big at h)
]

journal-bytes : All IsByte (journal (entry ∷ []))
unfolding journal encode_log entry_bytes header put_le32 put_le64 fixed_part covered entry_hash
    chain_hash type_byte update digest update_byte init finish_padding pad_zeros put_length
    digest_from word_bytes absorb put_byte transform calculate run step table shift_bits shift_bit
    all_bytes table_from
journal-bytes = all_bytes-All (journal (entry ∷ [])) refl

tamper_evident_example :
    (c1 : IsClean (reader (journal (entry ∷ []))) (verdict ok (entry ∷ []))) × (c2 : IsClean
      (reader (journal (entry ∷ [])))
      (verdict ok (entry ∷ [])))
    × (Collides zero_hash zero_hash c1.raws c2.raws
        ⊎ (drop header_size (journal (entry ∷ [])) ≡ drop header_size (journal (entry ∷ []))))
tamper_evident_example =
    tamper_evident (reader (journal (entry ∷ []))) (reader (journal (entry ∷ []))) after after
      (verdict ok (entry ∷ [])) (verdict ok (entry ∷ [])) journal-IsJournal journal-IsJournal
      journal-bytes journal-bytes seen.1 seen.1 refl refl refl refl

recover-returns_example :
    ((r : RecoveryResult) × (n : ℕ) × (w' : Wal) × (recover counter none (reader torn_bytes) 0
        ≡ some (r, n, w')))
    × ((r : RecoveryResult) × (w' : Wal) × (verify (reader torn_bytes) ≡ some (r, w')))
recover-returns_example = recover-returns counter none (reader torn_bytes) 0
