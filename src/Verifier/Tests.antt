-- ===== src/Verifier/Tests.antt =====
-- Runs of the verifier on a journal that is torn in its first entry, and on one with an edited byte.
use lite_speed_store.Base.{
  length, ℕ, ◌≡◌, refl, arith, true, some, List, [], ◌∷◌, ◌++◌, take, ◌^◌, ◌+◌,
}
use lite_speed_store.Posix.{Disk, transfer, interrupted}
use lite_speed_store.Wal.{put, zero_hash}
use lite_speed_store.Wal.Format.{Entry, entry_bytes}
use lite_speed_store.Wal.Fields.{IsEntry}
use lite_speed_store.Wal.Log.{log_head}
use lite_speed_store.Wal.Halts.{journal, IsLeft}
use lite_speed_store.Wal.Round.{length-entry_bytes}
use lite_speed_store.Verifier.{Printed, main, tampering}
use lite_speed_store.Verifier.Alarm.{main_edited}
use lite_speed_store.Wal.EditTests.{edit, bytes, all-IsByte}
use lite_speed_store.Wal.EditTests
use lite_speed_store.Verifier.Laws.{main-read_only}
use lite_speed_store.Verifier.Verdict.{main_journal, printed_of}
use lite_speed_store.Wal.Opens.{served}

-- Five bytes, on a kernel that interrupts the first read.
abbrev stub : Disk
stub = record {
  bytes = 1 ∷ 2 ∷ 3 ∷ 4 ∷ 5 ∷ [];
  synced = [];
  script = transfer 1 ∷ transfer 1 ∷ transfer 1 ∷ interrupted ∷ [];
}

main-read_only_example :
    (out : ℕ × Printed) × (after : Disk) × (main true ((118 ∷ []) ∷ (119 ∷ []) ∷ []) stub
      ≡ some (out, after))
    × (after.bytes ≡ stub.bytes)
main-read_only_example = main-read_only true ((118 ∷ []) ∷ (119 ∷ []) ∷ []) stub (omega arith)

abbrev entry : Entry
entry = record {
  seq = 0;
  timestamp = 2 ^ 63 + 5;
  epoch = 3;
  type = put;
  key = 97 ∷ [];
  value = 1 ∷ 2 ∷ [];
}

entry-IsEntry : IsEntry entry
entry-IsEntry = record {
  seq = omega arith;
  timestamp = omega arith;
  epoch = omega arith;
  key = omega arith;
  value = omega arith;
}

abbrev torn_bytes : List ℕ
torn_bytes = journal [] ++ take 7 (entry_bytes (log_head zero_hash []) entry)

torn-IsLeft : IsLeft torn_bytes [] (take 7 (entry_bytes (log_head zero_hash []) entry))
torn-IsLeft = record { log = tt; small = omega arith; bytes_lem = refl }

main_journal_example :
    (after : Disk) × (main true ((118 ∷ []) ∷ (119 ∷ []) ∷ []) (served torn_bytes [])
      ≡ some ((0, printed_of [] 7), after))
main_journal_example =
    main_journal torn_bytes [] (118 ∷ []) (119 ∷ []) [] entry 7 torn-IsLeft entry-IsEntry
      (omega (arith, length-entry_bytes (log_head zero_hash []) entry entry-IsEntry))

main_edited_example :
    (after : Disk) × (main true ((118 ∷ []) ∷ (119 ∷ []) ∷ []) (served bytes [])
      ≡ some ((1, tampering (length (journal [])) 0), after))
main_edited_example =
    main_edited bytes [] (118 ∷ []) (119 ∷ []) [] EditTests.entry (112 ∷ []) (99 ∷ 58 ∷ []) [] edit
      all-IsByte (record { log = tt; small = omega arith; bytes_lem = refl })
      EditTests.entry-IsEntry
