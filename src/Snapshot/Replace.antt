-- ===== src/Snapshot/Replace.antt =====
-- What `save` does to the directory, whatever the kernel answers.
use lite_speed_store.Base.{
  ℕ, ◌≡◌, refl, ap, ap₂, ◌∙◌, arith, Bool, true, false, not, Option, none, some, List, [], ◌++◌,
  take, take_all, if◌then◌else◌,
}
use lite_speed_store.Posix.{Answer, Disk, call, fsync, probe, write_exact}
use lite_speed_store.Posix.Laws.{write_loop-Wrote}
use lite_speed_store.Engine.Recover.{Image}
use lite_speed_store.Snapshot.{file_of}
use lite_speed_store.Snapshot.Save.{Stored, Directory, fsync_parent_dir, replace_file, save}

-- The old file is in place and the call reports a failure; or the new one is, in full and synced.
pub data Replaced (buffer : List ℕ) (d : Directory) (reply : Bool) (d' : Directory) : Type 0 where
  kept : reply ≡ false → d'.snap ≡ d.snap → Replaced buffer d reply d'
  replaced :
      d'.snap ≡ some (record { bytes = buffer; synced = buffer }) → Replaced buffer d reply d'

written-bytes :
    (d : Disk) (buffer : List ℕ)
    → d.bytes ≡ []
    → (write_exact d buffer).0 ≡ true
    → (write_exact d buffer).1.bytes ≡ buffer
unfolding write_exact
written-bytes d buffer e h =
    let w = write_loop-Wrote d.script d.bytes buffer in
    w.bytes
    ∙ ap (λ (t : List ℕ). t ++ take w.count buffer) e
    ∙ take_all w.count buffer (omega (arith, w.whole h))

synced-bytes :
    (d : Disk) → (fsync d).0 ≡ true → ((fsync d).1.bytes ≡ d.bytes) × ((fsync d).1.synced ≡ d.bytes)
unfolding fsync
synced-bytes d h = (refl, rw h)

-- The chain of tests.
gates :
    (buffer : List ℕ) (d : Directory) (a b c e r last : Bool) (x1 x2 x3 x4 x5 x6 : Directory)
    → x1.snap ≡ d.snap
    → x2.snap ≡ d.snap
    → x3.snap ≡ d.snap
    → x4.snap ≡ d.snap
    → x5.snap ≡ d.snap
    → (b ≡ true → c ≡ true → x6.snap ≡ some (record { bytes = buffer; synced = buffer }))
    → (p : Bool × Directory)
    → p ≡ (
        if not a
        then (false, x1)
        else if not b
        then (false, x2)
        else if not c
        then (false, x3)
        else if not e
        then (false, x4)
        else if not r
        then (false, x5)
        else (last, x6))
    → Replaced buffer d p.0 p.1
gates buffer d false b c e r last x1 x2 x3 x4 x5 x6 k1 k2 k3 k4 k5 k6 p h = rw h (kept refl k1)
gates buffer d true false c e r last x1 x2 x3 x4 x5 x6 k1 k2 k3 k4 k5 k6 p h = rw h (kept refl k2)
gates buffer d true true false e r last x1 x2 x3 x4 x5 x6 k1 k2 k3 k4 k5 k6 p h =
    rw h (kept refl k3)
gates buffer d true true true false r last x1 x2 x3 x4 x5 x6 k1 k2 k3 k4 k5 k6 p h =
    rw h (kept refl k4)
gates buffer d true true true true false last x1 x2 x3 x4 x5 x6 k1 k2 k3 k4 k5 k6 p h =
    rw h (kept refl k5)
gates buffer d true true true true true last x1 x2 x3 x4 x5 x6 k1 k2 k3 k4 k5 k6 p h =
    rw h (replaced (k6 refl refl))

abbrev as_stored : List ℕ → List ℕ → Option Stored
as_stored a b = some (record { bytes = a; synced = b })

replace_file-Replaced :
    (buffer : List ℕ) (d : Directory)
    → Replaced buffer d (replace_file buffer d).0 (replace_file buffer d).1
unfolding replace_file probe
replace_file-Replaced buffer d =
    let s1 = (call d.script).1 in
    let empty : Disk = record { bytes = []; synced = []; script = s1 } in
    let d2 = (write_exact empty buffer).1 in
    let d3 = (fsync d2).1 in
    let d4 = (probe d3).1 in
    let s5 = (call d4.script).1 in
    let s6 = (fsync_parent_dir s5).1 in
    let left =
      λ (f : Disk) (s : List Answer). record d { tmp = as_stored f.bytes f.synced; script = s } in
    gates buffer d (call d.script).0 (write_exact empty buffer).0 (fsync d2).0 (probe d3).0
      (call d4.script).0 (fsync_parent_dir s5).0 (record d { script = s1 })
      (left d2 (probe d2).1.script) (left d3 (probe d3).1.script) (left d4 d4.script) (left d4 s5)
      (record { snap = as_stored d4.bytes d4.synced; tmp = none; script = s6 }) refl refl refl refl
      refl
      (λ written synced.
        let bytes = written-bytes empty buffer refl written in
        let (same, safe) = synced-bytes d2 synced in ap₂ as_stored (same ∙ bytes) (safe ∙ bytes))
      (replace_file buffer d) refl

-- Whatever the kernel answers, `save` leaves at the snapshot's path the file from before, and
-- reports failure, or all the bytes of the new file, synced; so where it reports success it is the
-- new file.
pub save-Replaced :
    (image : Image) (d : Directory) → Replaced (file_of image) d (save image d).0 (save image d).1
unfolding save
save-Replaced image d = replace_file-Replaced (file_of image) d
