-- ===== src/Lib.antt =====
-- LiteSpeedStore: a key-value store with a tamper-evident write-ahead log.
--
-- Parts, and the files that model them (paths are from the repository's root):
-- * Base, with Base/Lists, Base/Tests, Base/Words, Base/Bits and Base/Xor: shared names, lists over
--   the native numbers, Boolean tests, machine words, laws of the bitwise operations. A byte is a
--   number, a byte buffer a list of them.
-- * Endian (include/persistence/Endian.hpp): putLE32, putLE64, getLE32 and getLE64 as put_le32,
--   put_le64, get_le32 and get_le64. doubleToBits and bitsToDouble are in Snapshot.
-- * Crc32 (include/persistence/CRC32.hpp): the table and CRC32::calculate; Crc32/Bitwise has the
--   division by the polynomial as a shift register, bit by bit.
-- * Sha256 (include/persistence/SHA256.hpp): the context as a record; update, digest and hash, and
--   transform in Sha256/Compress. An access past the end of an array gives none in transform and sets
--   the field past_end of the context. Sha256/Standard has the hash of a whole message, by blocks.
-- * Posix (the calls that src/WAL.cpp makes, and its writeExact and readExact, of which
--   src/Snapshot.cpp has a copy of the first): a file is its bytes, its bytes at the last fsync, and
--   a script that lists what the kernel answers to the calls to come: a transfer of at most so many
--   bytes, an interrupt, an error. The script is a parameter of every operation; behind its end each
--   call succeeds in full.
-- * Wal (src/WAL.cpp and include/persistence/WAL.hpp): the object as a record; the constructor is
--   open_wal, and set_epoch, head, reset and close are the methods of these names. Wal/Format has
--   the layout of an entry, Wal/Append WAL::append, Wal/Check one round of walkChain's loop (a round
--   goes on or leaves the loop), Wal/Walk the loop and what follows it, Wal/Recover recover and
--   verify. An exception is a value of Outcome.
-- * Snapshot (src/Snapshot.cpp and include/persistence/Snapshot.hpp): the payload and the file that
--   Snapshot::save builds; Snapshot/Save what it does with the files at the path and at path.tmp,
--   Snapshot/Load Snapshot::load, where each return of false is the value refused.
-- * Engine (src/StorageEngine.cpp and include/StorageEngine.hpp): the object as a record, the map
--   as a list of pairs; set, get, remove, getAverage, count and historyCount, recover in
--   Engine/Recover, snapshot, exportSnapshotState and makeSnapshotPath in Engine/Snapshot, and the
--   constructor on files in Engine/Construct. The engine logs each change before it makes it in
--   memory; snapshot saves the memory with the log's epoch and starts a new journal with the next
--   one; a restart loads the snapshot and has the log call a visitor (replay) for each entry of a
--   later epoch.
-- * Life, with the store through its life as a relation between the states of the engine and its
--   directory (Step, Life): calls, snapshots, crashes of the process in the middle of either, and
--   restarts, with any answers of the kernel but in a restart, which no call of the kernel fails.
--   A crash keeps the bytes that were written. After a call or a snapshot that the kernel failed,
--   the life goes on with a restart, since the object is then not fit for more calls (a write that
--   broke off leaves torn bytes in front of the next). Life/Means says what the files stand for.
-- * Verifier (tools/verify.cpp): toHex and main. Fuzz (fuzz/fuzz_wal.cpp, fuzz/fuzz_snapshot.cpp):
--   the two entry points. Trace (include/FastTrace.hpp): the end of a traced scope. Example
--   (src/main.cpp): the program that times an operation. Demo (tools/demo.cpp): the four blocks of
--   its main; Demo/Tests runs it.
-- The other files of Sha256, Wal, Snapshot, Engine, Life, Verifier and Fuzz hold the lemmas, by what
-- they are about; Engine/Spec has what the engine promises its clients. The Tests files hold concrete
-- runs.
--
-- Bounds and fuel: a 32-bit or 64-bit cast is a remainder, and the sequence number wraps at 2^64. A
-- signed timestamp is its bit pattern, below 2^64. A size is unbounded where the code has a size_t
-- that counts bytes in memory. Loops over a buffer, a map, a count or a script are structural. The
-- two loops of digest that write zeros have 64 rounds as fuel, as many as the buffer has bytes. The
-- loop of walkChain has the length of the file, plus one, as fuel: each round that goes on takes an
-- entry's bytes.
--
-- A double is the eight bytes that it has in memory, on a host whose integers are little-endian; the
-- machine's arithmetic on doubles is a parameter of get_average. The clock's answer is an argument
-- of set and remove. The order in which a std::unordered_map is gone through is a parameter (IsOrder
-- in Engine/Listing says what is assumed of it), and so is what std::filesystem::path says of a
-- path. A stream that reads a file delivers the bytes of the file.
--
-- Not modelled: the mutexes (each method is one step); the texts of messages and exceptions, of
-- which a value stands for each; what a power loss leaves of bytes that are not synced (they are
-- taken to be lost) and of a rename; the benchmark, which measures time, and the tests, which are
-- runs on fixed data.
pub mod Base
pub mod Endian
pub mod Crc32
pub mod Sha256
pub mod Posix
pub mod Wal
pub mod Engine
pub mod Snapshot
pub mod Verifier
pub mod Fuzz
pub mod Trace
pub mod Life
pub mod Demo
pub mod Example
