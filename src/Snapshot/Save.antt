-- ===== src/Snapshot/Save.antt =====
-- `Snapshot::save`: the file is written beside the old one, synced, and moved over it.
use lite_speed_store.Base.{Bool, false, not, Option, none, some, List, ℕ, [], if◌then◌else◌}
use lite_speed_store.Posix.{Answer, Disk, call, fsync, probe, write_exact}
use lite_speed_store.Engine.Recover.{Image}
use lite_speed_store.Snapshot.{file_of}

-- A file of the directory: its bytes, and its bytes at the last fsync.
pub record Stored : Type 0 where
  pub bytes : List ℕ
  pub synced : List ℕ

-- The files at `path` and at `path.tmp`, and the kernel's answers to the calls on them.
pub record Directory : Type 0 where
  pub snap : Option Stored
  pub tmp : Option Stored
  pub script : List Answer

-- fsyncParentDir: the directory is opened, synced and closed.
unfoldable pub fsync_parent_dir : List Answer → Bool × List Answer
fsync_parent_dir script =
    let (opened, s1) = call script in
    let (synced, s2) = call s1 in
    let (closed, s3) = call s2 in if not opened then (false, s1) else (synced, s3)

abbrev stored : Disk → Stored
stored d = record { bytes = d.bytes; synced = d.synced }

-- `written` is the buffer; O_TRUNC empties the file.
unfoldable pub replace_file : List ℕ → Directory → Bool × Directory
unfolding fsync_parent_dir
replace_file buffer d =
    let (opened, s1) = call d.script in
    let empty : Disk = record { bytes = []; synced = []; script = s1 } in
    let (written, d2) = write_exact empty buffer in
    let (synced, d3) = fsync d2 in
    let (closed, d4) = probe d3 in
    let (renamed, s5) = call d4.script in
    let (durable, s6) = fsync_parent_dir s5 in
    let left = λ (f : Disk) (s : List Answer). record d { tmp = some (stored f); script = s } in
    if not opened
    then (false, record d { script = s1 })
    else if not written
    then (false, left d2 (probe d2).1.script)
    else if not synced
    then (false, left d3 (probe d3).1.script)
    else if not closed
    then (false, left d4 d4.script)
    else if not renamed
    then (false, left d4 s5)
    else (durable, record { snap = some (stored d4); tmp = none; script = s6 })

unfoldable pub save : Image → Directory → Bool × Directory
unfolding replace_file
save image d = replace_file (file_of image) d
