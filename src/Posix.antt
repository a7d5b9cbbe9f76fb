-- ===== src/Posix.antt =====
-- The POSIX calls that the store makes on its journal, as documented: read and write may move fewer
-- bytes than asked, be interrupted or fail, and what each call meets is up to the kernel. A script
-- lists the kernel's answers, one for each call; past its end every call succeeds in full. On top
-- of them stand `writeExact` and `readExact` of src/WAL.cpp.
pub mod Laws
mod Tests
use lite_speed_store.Base.{
  ℕ, zero, suc, ◌+◌, ◌-◌, min, Bool, true, false, Option, none, some, List, [], ◌∷◌, ◌++◌, ltb,
  length, take, drop, replicate, if◌then◌else◌,
}

-- `transfer n`: at most `n` bytes are moved. A call that moves no data just succeeds on it.
pub data Answer : Type 0 where
  transfer : ℕ → Answer
  interrupted : Answer
  failed : Answer

-- The file behind the descriptor: its bytes, its bytes at the last successful fsync, and the script.
pub record Disk : Type 0 where
  pub bytes : List ℕ
  pub synced : List ℕ
  pub script : List Answer

-- A call that moves no data (open, fsync, ftruncate, close): did it succeed?
unfoldable pub call : List Answer → Bool × List Answer
call [] = (true, [])
call (transfer n ∷ script) = (true, script)
call (interrupted ∷ script) = (false, script)
call (failed ∷ script) = (false, script)

unfoldable pub fsync : Disk → Bool × Disk
fsync d =
    let (done, script) = call d.script in
    (done, record d { synced = if done then d.bytes else d.synced; script = script })

-- A file grows by zeros where the new size is past its end.
unfoldable pub ftruncate : ℕ → Disk → Bool × Disk
ftruncate size d =
    let (done, script) = call d.script in
    let cut = take size d.bytes ++ replicate (size - length d.bytes) 0 in
    (done, record d { bytes = if done then cut else d.bytes; script = script })

-- open and close: only the script moves on.
unfoldable pub probe : Disk → Bool × Disk
probe d = let (done, script) = call d.script in (done, record d { script = script })

-- fstat and lseek, which no signal interrupts.
unfoldable pub query : List Answer → Bool × List Answer
query [] = (true, [])
query (transfer n ∷ script) = (true, script)
query (interrupted ∷ script) = (true, script)
query (failed ∷ script) = (false, script)

unfoldable pub seek : Disk → Bool × Disk
unfolding query
seek d = let (done, script) = query d.script in (done, record d { script = script })

pub record Written : Type 0 where
  pub done : Bool
  pub bytes : List ℕ
  pub script : List Answer

-- The loop of `writeExact` on a file opened with O_APPEND: `left` is what is still to be written.
unfoldable pub write_loop : List Answer → List ℕ → List ℕ → Written
write_loop script file [] = record { done = true; bytes = file; script = script }
write_loop [] file left = record { done = true; bytes = file ++ left; script = [] }
write_loop (interrupted ∷ script) file left = write_loop script file left
write_loop (failed ∷ script) file left = record { done = false; bytes = file; script = script }
write_loop (transfer zero ∷ script) file left = record {
  done = false;
  bytes = file;
  script = script;
}
write_loop (transfer (suc n) ∷ script) file left =
    write_loop script (file ++ take (suc n) left) (drop (suc n) left)

unfoldable pub write_exact : Disk → List ℕ → Bool × Disk
write_exact d buffer =
    let w = write_loop d.script d.bytes buffer in
    (w.done, record d { bytes = w.bytes; script = w.script })

-- What is in front of the descriptor's offset `pos`.
pub record Input : Type 0 where
  pub pos : ℕ
  pub ahead : List ℕ
  pub script : List Answer

pub record ReadResult : Type 0 where
  pub chunk : Option (List ℕ)
  pub input : Input

-- The loop of `readExact`: `got` is what is in the buffer, `left` how many bytes it still wants.
unfoldable pub read_loop : List Answer → ℕ → List ℕ → List ℕ → ℕ → ReadResult
read_loop script pos ahead got zero = record {
  chunk = some got;
  input = record { pos = pos; ahead = ahead; script = script };
}
read_loop [] pos ahead got (suc left) =
    let moved = min (suc left) (length ahead) in
    record {
      chunk = if ltb moved (suc left) then none else some (got ++ take moved ahead);
      input = record { pos = pos + moved; ahead = drop moved ahead; script = [] };
    }
read_loop (interrupted ∷ script) pos ahead got (suc left) =
    read_loop script pos ahead got (suc left)
read_loop (failed ∷ script) pos ahead got (suc left) = record {
  chunk = none;
  input = record { pos = pos; ahead = ahead; script = script };
}
read_loop (transfer zero ∷ script) pos ahead got (suc left) = record {
  chunk = none;
  input = record { pos = pos; ahead = ahead; script = script };
}
read_loop (transfer (suc n) ∷ script) pos [] got (suc left) = record {
  chunk = none;
  input = record { pos = pos; ahead = []; script = script };
}
read_loop (transfer (suc n) ∷ script) pos (b ∷ ahead) got (suc left) =
    let moved = min (suc n) (min (suc left) (suc (length ahead))) in
    read_loop script (pos + moved) (drop moved (b ∷ ahead)) (got ++ take moved (b ∷ ahead))
      (suc left - moved)

unfoldable pub read_exact : Input → ℕ → ReadResult
unfolding read_loop
read_exact i size = read_loop i.script i.pos i.ahead [] size
