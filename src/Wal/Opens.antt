-- ===== src/Wal/Opens.antt =====
-- The constructor of the log on a file that begins with the header, where no call of the kernel fails.
use lite_speed_store.Base.{
  ℕ, ◌≡◌, refl, sym, ap, false, ◌∙◌, arith, ◌≤◌, true, some, List, [], ◌++◌, length, length-append,
  take, take-append_left, subst, ◌==◌,
}
use lite_speed_store.Endian.{get_le32, put_le32, put_le64}
use lite_speed_store.Posix.{Disk, call, query, probe, seek, read_exact}
use lite_speed_store.Posix.Laws.{
  IsSmooth, query_quiet, query-IsSmooth, read_loop_served, read_loop_quiet,
}
use lite_speed_store.Wal.{
  Wal, header, header_size, header_ok, reads32, fresh, open_wal, validate_header, returned,
}

header_ok-header : header_ok (some header) ≡ true
unfolding header_ok reads32 header put_le32 put_le64 get_le32
header_ok-header = refl

header-le : (bytes rest : List ℕ) → bytes ≡ header ++ rest → header_size ≤ length bytes
unfolding header put_le32 put_le64
header-le bytes rest e = omega (arith, ap length e, length-append header rest)

-- The header of a journal is accepted.
validate_header-journal :
    (d : Disk) (rest : List ℕ)
    → d.script ≡ []
    → d.bytes ≡ header ++ rest
    → (validate_header d).0 ≡ true
unfolding validate_header seek read_exact header put_le32 put_le64
validate_header-journal d rest q e =
    let quiet = query_quiet d.script q in
    let told : (query d.script).0 ≡ true =
      (query-IsSmooth d.script (subst IsSmooth (sym q) tt)).0 in
    let served =
      read_loop_served (query d.script).1 0 d.bytes [] header_size (subst IsSmooth (sym quiet) tt)
        (header-le d.bytes rest e) in
    let top : take header_size d.bytes ≡ header =
      ap (take header_size) e ∙ take-append_left header rest in
    rw (told, served, top) header_ok-header

validate_header-quiet :
    (d : Disk)
    → d.script ≡ []
    → ((validate_header d).1.script ≡ [])
      × ((validate_header d).1.bytes ≡ d.bytes)
      × ((validate_header d).1.synced ≡ d.synced)
unfolding validate_header seek read_exact
validate_header-quiet d q =
    let quiet = query_quiet d.script q in
    let told : (query d.script).0 ≡ true =
      (query-IsSmooth d.script (subst IsSmooth (sym q) tt)).0 in
    (rw told (read_loop_quiet (query d.script).1 0 d.bytes [] header_size quiet), rw told, rw told)

-- A file of these bytes, on a kernel that fails no call.
abbrev pub served : List ℕ → List ℕ → Disk
served bytes synced = record { bytes = bytes; synced = synced; script = [] }

-- So the constructor gives an object on it, with the file as it was.
pub record IsOpened (sync_every_n : ℕ) (bytes synced : List ℕ) : Type 0 where
  pub wal : Wal
  pub disk : Disk
  pub eq : open_wal sync_every_n (served bytes synced) ≡ (returned wal, disk)
  pub opened : wal.fd_open ≡ true
  pub same : wal.disk.bytes ≡ bytes
  pub script : wal.disk.script ≡ []
  pub unsynced : wal.disk.synced ≡ synced
  pub pending : wal.pending_writes ≡ 0
  pub every : sync_every_n ≤ wal.sync_every_n

pub journal-IsOpened :
    (sync_every_n : ℕ) (bytes synced rest : List ℕ)
    → bytes ≡ header ++ rest
    → IsOpened sync_every_n bytes synced
unfolding open_wal probe seek call query fresh
journal-IsOpened sync_every_n bytes synced rest e =
    let d = served bytes synced in
    let valid = validate_header-journal d rest refl e in
    let (script, same, unsynced) = validate_header-quiet d refl in
    let some_bytes : (length bytes == 0) ≡ false = ground (arith, header-le bytes rest e) in
    record {
      wal = fresh sync_every_n (validate_header d).1;
      disk = (validate_header d).1;
      eq = rw (some_bytes, valid);
      opened = refl;
      same = same;
      script = script;
      unsynced = unsynced;
      pending = refl;
      every = ground arith;
    }
