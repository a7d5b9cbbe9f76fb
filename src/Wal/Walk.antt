-- ===== src/Wal/Walk.antt =====
-- `WAL::walkChain`: the loop over the entries, and what follows it.
use lite_speed_store.Base.{
  ℕ, zero, suc, ◌+◌, ◌-◌, Bool, true, false, not, Option, none, some, List, u64, length, drop, ltb,
  if◌then◌else◌,
}
use lite_speed_store.Posix.{Answer, Disk, query, probe, seek, ftruncate}
use lite_speed_store.Wal.{
  RecoveryStatus, ok, truncated_tail, malformed, tampered, RecoveryResult, header_size, zero_hash,
}
use lite_speed_store.Wal.Format.{join_timestamp}
use lite_speed_store.Wal.Check.{
  Exit, torn, malformed_entry, tampered_entry, overread, go, exit, Verified, verify_entry,
}

-- The arguments of the visitor. The type byte is cast unchecked, so it may be any byte.
pub record Visit : Type 0 where
  pub type : ℕ
  pub key : List ℕ
  pub value : List ℕ
  pub timestamp : ℕ

-- The loop's variables. `position` is `none` where lseek answered -1; `state` is what the visitor
-- works on.
pub record Walk {ℓ} (S : Type ℓ) : Type ℓ where
  pub position : Option ℕ
  pub prev_hash : List ℕ
  pub expected_seq : ℕ
  pub state : S

-- How the loop ends: by its condition, by a round that leaves it, or, which is no behaviour of the
-- program, with its fuel.
pub data Ending : Type 0 where
  at_end hung : Ending
  broke : Exit → Ending

pub record Ended {ℓ} (S : Type ℓ) : Type ℓ where
  pub how : Ending
  pub walk : Walk S
  pub script : List Answer

-- !minEpochExclusive || epoch > *minEpochExclusive
unfoldable pub passes : Option ℕ → ℕ → Bool
passes none epoch = true
passes (some min_epoch) epoch = ltb min_epoch epoch

module _ {ℓ} {S : Type ℓ} (visitor : Option (Visit → S → S)) (min_epoch : Option ℕ) where
  unfoldable pub visit : Verified → S → S
  visit v s = elim visitor [
    | none ↦ s
    | some f ↦
        if passes min_epoch v.fields.epoch
        then f
            (record {
              type = v.fields.type;
              key = v.key;
              value = v.value;
              timestamp = join_timestamp v.fields;
            })
            s
        else s
  ]

  -- The end of a round, but for the position.
  unfoldable pub advance : Verified → Walk S → Walk S
  unfolding visit
  advance v w = record {
    position = none;
    prev_hash = v.hash;
    expected_seq = u64 (v.fields.seq + 1);
    state = visit v w.state;
  }

  -- The loop, at offset `pos` of a file of `size` bytes.
  unfoldable pub walk_loop : ℕ → ℕ → ℕ → List ℕ → List Answer → Walk S → Ended S
  unfolding advance
  walk_loop zero size pos ahead script w = record { how = hung; walk = w; script = script }
  walk_loop (suc fuel) size pos ahead script w = elim (ltb pos size) [
    | false ↦ record { how = at_end; walk = w; script = script }
    | true ↦
        elim (verify_entry (size - pos) w.prev_hash w.expected_seq
          (record { pos = pos; ahead = ahead; script = script })) [
            | exit e script' ↦ record { how = broke e; walk = w; script = script' }
            | go v ↦
                let (told, script') = query v.input.script in
                elim told [
                  | true ↦
                      walk_loop fuel size v.input.pos v.input.ahead script'
                        (record (advance v w) { position = some v.input.pos })
                  | false ↦ record { how = broke torn; walk = advance v w; script = script' }
                ]
          ]
  ]

-- ftruncate to the last good position, then the seek to the end. A lost position is -1, which
-- ftruncate refuses.
unfoldable pub truncate_tail : Option ℕ → Disk → Disk
truncate_tail none d = let (cut, d1) = probe d in let (sought, d2) = seek d1 in d2
truncate_tail (some pos) d = let (cut, d1) = ftruncate pos d in let (sought, d2) = seek d1 in d2

unfoldable pub result {ℓ} : {S : Type ℓ} → RecoveryStatus → Walk S → RecoveryResult
result status w = record {
  status = status;
  entries_verified = w.expected_seq;
  tamper_offset = 0;
  tamper_seq = 0;
  head_hash = w.prev_hash;
}

-- The lambda `fail`.
unfoldable pub fail {ℓ} : {S : Type ℓ} → RecoveryStatus → Walk S → RecoveryResult
fail status w = record {
  status = status;
  entries_verified = w.expected_seq;
  tamper_offset = elim w.position [ none ↦ 0 | some pos ↦ pos ];
  tamper_seq = w.expected_seq;
  head_hash = w.prev_hash;
}

-- `no_result` is no value of the program: an overread or an endless loop.
pub data Walked {ℓ} (S : Type ℓ) : Type ℓ where
  walked : RecoveryResult → S → Disk → Walked S
  no_result : Walked S

unfoldable pub conclude {ℓ} : {S : Type ℓ} → Bool → Disk → Ending → Walk S → Walked S
unfolding result fail truncate_tail
conclude allow_truncate d at_end w = walked (result ok w) w.state d
conclude allow_truncate d (broke torn) w =
    walked (result truncated_tail w) w.state
      (if allow_truncate then truncate_tail w.position d else d)
conclude allow_truncate d (broke malformed_entry) w = walked (fail malformed w) w.state d
conclude allow_truncate d (broke tampered_entry) w = walked (fail tampered w) w.state d
conclude allow_truncate d (broke overread) w = no_result
conclude allow_truncate d hung w = no_result

-- RecoveryResult{}
unfoldable pub empty_result : RecoveryResult
empty_result = record {
  status = ok;
  entries_verified = 0;
  tamper_offset = 0;
  tamper_seq = 0;
  head_hash = zero_hash;
}

-- The loop's variables before it.
unfoldable pub start {ℓ} : {S : Type ℓ} → S → Walk S
start s = record { position = some header_size; prev_hash = zero_hash; expected_seq = 0; state = s }

module _ {ℓ} {S : Type ℓ} (visitor : Option (Visit → S → S)) (min_epoch : Option ℕ) where
  -- Each round takes more than one byte, so the file's length is fuel enough.
  unfoldable pub walk_chain : Bool → Bool → Disk → S → Walked S
  unfolding walk_loop start conclude empty_result
  walk_chain fd_open allow_truncate d s =
      let (stated, d1) = seek d in
      let (sought, d2) = seek d1 in
      let size = length d2.bytes in
      let e =
        walk_loop visitor min_epoch (suc size) size header_size (drop header_size d2.bytes)
          d2.script (start s) in
      if not fd_open
      then walked empty_result s d
      else if not stated
      then walked empty_result s d1
      else if not sought
      then walked empty_result s d2
      else conclude allow_truncate (record d2 { script = e.script }) e.how e.walk
