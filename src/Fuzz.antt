-- ===== src/Fuzz.antt =====
-- fuzz/fuzz_wal.cpp and fuzz/fuzz_snapshot.cpp: the entry points that the fuzzer calls. The answer is
-- what the entry point returns, and `none` stands for a crash or an endless loop.
pub mod Laws
mod Tests
use lite_speed_store.Base.{
  ℕ, zero, suc, Bool, not, Option, none, some, List, [], ◌∷◌, ◌++◌, take, drop, if◌then◌else◌,
}
use lite_speed_store.Endian.{put_le32}
use lite_speed_store.Crc32
use lite_speed_store.Posix.{Answer, transfer, interrupted, failed, Disk, call}
use lite_speed_store.Wal.{Wal, Outcome, returned, thrown, open_wal}
use lite_speed_store.Wal.Walk.{Visit}
use lite_speed_store.Wal.Recover.{recover}
use lite_speed_store.Engine.Recover.{Image}
use lite_speed_store.Snapshot.Load.{Parse, parsed, refused, past_end, load}

-- The loop over write(2), which ends on any failure: `left` is what is still to be written.
unfoldable pub write_all : List Answer → List ℕ → List ℕ → List ℕ × List Answer
write_all script file [] = (file, script)
write_all [] file left = (file ++ left, [])
write_all (interrupted ∷ script) file left = (file, script)
write_all (failed ∷ script) file left = (file, script)
write_all (transfer zero ∷ script) file left = (file, script)
write_all (transfer (suc n) ∷ script) file left =
    write_all script (file ++ take (suc n) left) (drop (suc n) left)

abbrev fuzz_header : List ℕ
fuzz_header = 0x57 ∷ 0x53 ∷ 0x4C ∷ 0x31 ∷ 0x02 ∷ 0 ∷ 0 ∷ 0 ∷ 0 ∷ 0 ∷ 0 ∷ 0 ∷ 0 ∷ 0 ∷ 0 ∷ 0 ∷ []

-- The visitor with the empty body.
abbrev no_visit : Visit → Unit {0} → Unit {0}
no_visit v s = s

-- The try block, on what the constructor gave.
unfoldable pub try_recover : Outcome Wal → Option ℕ
try_recover (thrown x) = some 0
try_recover (returned w) = elim (recover (some no_visit) none w tt) [
  | none ↦ none
  | some r ↦ some 0
]

-- The file that is made, and whether it was opened.
unfoldable pub wal_file : List ℕ → List Answer → Bool × Disk
unfolding write_all
wal_file input script =
    let (opened, s1) = call script in
    let (head, s2) = write_all s1 [] fuzz_header in
    let (file, s3) = write_all s2 head input in
    let (closed, s4) = call s3 in (opened, record { bytes = file; synced = []; script = s4 })

unfoldable pub fuzz_wal : List ℕ → List Answer → Option ℕ
unfolding wal_file try_recover
fuzz_wal input script =
    let (opened, d) = wal_file input script in
    if not opened then some 0 else try_recover (open_wal 1 d).0

-- The header with the magic, the version and the checksum of the input.
unfoldable pub wrap : List ℕ → List ℕ
wrap input = put_le32 (put_le32 (put_le32 [] 0x534E4150) 1) (Crc32.calculate input) ++ input

unfoldable pub try_load : Parse Image → Option ℕ
try_load (parsed image) = some 0
try_load refused = some 0
try_load past_end = none

unfoldable pub snapshot_file : List ℕ → List Answer → Bool × List ℕ
unfolding write_all wrap
snapshot_file input script =
    let (opened, s1) = call script in
    let (file, s2) = write_all s1 [] (wrap input) in (opened, file)

unfoldable pub fuzz_snapshot : List ℕ → List Answer → Option ℕ
unfolding snapshot_file try_load
fuzz_snapshot input script =
    let (opened, file) = snapshot_file input script in
    if not opened then some 0 else try_load (load (some file))
