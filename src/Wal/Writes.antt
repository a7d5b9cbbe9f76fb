-- ===== src/Wal/Writes.antt =====
-- What `append` does to the journal, whatever the kernel answers.
use lite_speed_store.Base.{
  ℕ, suc, ◌+◌, ◌^◌, ◌≤◌, ◌<◌, ◌≡◌, refl, sym, ap, ap₂, ◌∙◌, arith, Bool, true, false, ◌||◌, ◌⊎◌,
  inl, inr, List, [], ◌∷◌, ◌++◌, append_assoc, append-nil, u64, IsU64, length, length-append, take,
  take_all, ltb, le→ltb, ltb→lt, ltb→le, lt→ltb, Bool-cases,
}
use lite_speed_store.Posix.{Disk, write_exact, write_loop, fsync}
use lite_speed_store.Posix.Laws.{Wrote, write_loop-Wrote}
use lite_speed_store.Wal.{
  Wal, RecordType, Outcome, returned, thrown, field_too_long, entry_write_failed, fsync_failed,
  max_field_size, header, zero_hash,
}
use lite_speed_store.Wal.Format.{Entry, entry_bytes, entry_hash}
use lite_speed_store.Wal.Append.{next_entry, commit, append}
use lite_speed_store.Wal.Fields.{IsEntry}
use lite_speed_store.Wal.Log.{IsLog, encode_log, log_head, encode_log-append, log_head-append}
use lite_speed_store.Wal.Halts.{journal}

-- An open log whose file is the journal of `es`, and whose chain state continues it.
pub record IsWriter (w : Wal) (es : List Entry) : Type 0 where
  pub opened : w.fd_open ≡ true
  pub log : IsLog 0 es
  pub seq : w.seq ≡ length es
  pub head : w.head_hash ≡ log_head zero_hash es
  pub bytes : w.disk.bytes ≡ journal es
  pub epoch : IsU64 w.epoch

journal-append :
    (es : List Entry) (e : Entry)
    → journal (es ++ e ∷ []) ≡ journal es ++ entry_bytes (log_head zero_hash es) e
unfolding journal encode_log
journal-append es e =
    ap (λ (t : List ℕ). header ++ t)
      (encode_log-append zero_hash es (e ∷ [])
        ∙ ap (λ (t : List ℕ). encode_log zero_hash es ++ t)
            (append-nil (entry_bytes (log_head zero_hash es) e)))
    ∙ sym (append_assoc header (encode_log zero_hash es) (entry_bytes (log_head zero_hash es) e))

IsLog-append :
    (n : ℕ) (es : List Entry) (e : Entry)
    → IsLog n es
    → e.seq ≡ length es + n
    → IsEntry e
    → IsLog n (es ++ e ∷ [])
IsLog-append n [] e h s k = (omega arith, k, tt)
IsLog-append n (x ∷ es) e h s k = (h.0, h.1, IsLog-append (suc n) es e h.2 (omega arith) k)

or_true : (b : Bool) → (b || true) ≡ true
or_true true = refl
or_true false = refl

module _ (w : Wal) (type : RecordType) (key value : List ℕ) (timestamp : ℕ) where
  -- The three ways in which `append` ends on an open log.
  pub record Rejected : Type 0 where
    pub long : (max_field_size < length key) ⊎ (max_field_size < length value)
    pub eq : append w type key value timestamp ≡ (thrown field_too_long, w)

  pub record Extended (es : List Entry) : Type 0 where
    pub outcome : Outcome (Unit {0})
    pub next : Wal
    pub eq : append w type key value timestamp ≡ (outcome, next)
    pub ends : (outcome ≡ returned tt) ⊎ (outcome ≡ thrown fsync_failed)
    pub writer : IsWriter next (es ++ next_entry w type key value timestamp ∷ [])

  pub record Broken (es : List Entry) : Type 0 where
    pub cut : ℕ
    pub disk : Disk
    pub eq :
        append w type key value timestamp ≡ (thrown entry_write_failed, record w { disk = disk })
    pub short :
        cut < length (entry_bytes (log_head zero_hash es) (next_entry w type key value timestamp))
    pub bytes_lem :
        disk.bytes
        ≡ journal es
          ++ take cut (entry_bytes (log_head zero_hash es) (next_entry w type key value timestamp))
    pub entry : IsEntry (next_entry w type key value timestamp)

  commit-ends :
      (hash : List ℕ) (d : Disk)
      → (((commit w hash d).0 ≡ returned tt) ⊎ ((commit w hash d).0 ≡ thrown fsync_failed))
        × ((commit w hash d).1.fd_open ≡ w.fd_open)
        × ((commit w hash d).1.seq ≡ u64 (w.seq + 1))
        × ((commit w hash d).1.head_hash ≡ hash)
        × ((commit w hash d).1.disk.bytes ≡ d.bytes)
        × ((commit w hash d).1.epoch ≡ w.epoch)
  unfolding commit fsync
  commit-ends hash d =
      (ground arith, ground arith, ground arith, ground arith, ground arith, ground arith)

  module _ (es : List Entry) (i : IsWriter w es) (small : suc (length es) < 2 ^ 64)
      (stamp : IsU64 timestamp) where
    abbrev new : Entry
    new = next_entry w type key value timestamp

    abbrev new_bytes : List ℕ
    new_bytes = entry_bytes (log_head zero_hash es) new

    wrote :
        Wrote w.disk.bytes
          (entry_bytes w.head_hash new)
          (write_loop w.disk.script w.disk.bytes (entry_bytes w.head_hash new))
    wrote = write_loop-Wrote w.disk.script w.disk.bytes (entry_bytes w.head_hash new)

    new-IsEntry : length key ≤ max_field_size → length value ≤ max_field_size → IsEntry new
    unfolding next_entry
    new-IsEntry hk hv = record {
      seq = omega (arith, i.seq);
      timestamp = stamp;
      epoch = i.epoch;
      key = hk;
      value = hv;
    }

    written_bytes :
        (write_exact w.disk (entry_bytes w.head_hash new)).1.bytes
        ≡ journal es ++ take wrote.count new_bytes
    unfolding write_exact
    written_bytes =
        wrote.bytes
        ∙ ap₂ (λ (a b : List ℕ). a ++ take wrote.count (entry_bytes b new)) i.bytes i.head

    commit-IsWriter :
        (d : Disk)
        → IsEntry new
        → d.bytes ≡ journal es ++ new_bytes
        → IsWriter (commit w (entry_hash w.head_hash new) d).1 (es ++ new ∷ [])
    unfolding next_entry log_head
    commit-IsWriter d entry whole =
        let c = commit-ends (entry_hash w.head_hash new) d in
        record {
          opened = c.1 ∙ i.opened;
          log = IsLog-append 0 es new i.log (omega (arith, i.seq)) entry;
          seq = omega (arith, c.2, i.seq, length-append es (new ∷ []));
          head =
              c.3
              ∙ ap (λ (t : List ℕ). entry_hash t new) i.head
              ∙ sym (log_head-append zero_hash es (new ∷ []));
          bytes = c.4 ∙ whole ∙ sym (journal-append es new);
          epoch = rw c.5 i.epoch;
        }

    append_long : (max_field_size < length key) ⊎ (max_field_size < length value) → Rejected
    unfolding append
    append_long (inl long) = record {
      long = inl long;
      eq = rw (lt→ltb max_field_size (length key) long);
    }
    append_long (inr long) = record {
      long = inr long;
      eq =
          rw (lt→ltb max_field_size (length value) long, or_true (ltb max_field_size (length key)));
    }

    full :
        (write_exact w.disk (entry_bytes w.head_hash new)).0 ≡ true
        → take wrote.count new_bytes ≡ new_bytes
    unfolding write_exact
    full done =
        take_all wrote.count new_bytes
          (omega (arith, wrote.whole done, ap (λ (t : List ℕ). length (entry_bytes t new)) i.head))

    narrow :
        (write_exact w.disk (entry_bytes w.head_hash new)).0 ≡ false
        → wrote.count < length new_bytes
    unfolding write_exact
    narrow stopped =
        omega (arith, wrote.partial stopped, ap (λ (t : List ℕ). length (entry_bytes t new)) i.head)

    append_fits :
        length key ≤ max_field_size → length value ≤ max_field_size → Extended es ⊎ Broken es
    unfolding append
    append_fits hk hv =
        let out = write_exact w.disk (entry_bytes w.head_hash new) in
        let entry = new-IsEntry hk hv in
        elim (Bool-cases out.0) [
          | inl done ↦
              let whole : out.1.bytes ≡ journal es ++ new_bytes =
                written_bytes ∙ ap (λ (t : List ℕ). journal es ++ t) (full done) in
              inl (record {
                outcome = (commit w (entry_hash w.head_hash new) out.1).0;
                next = (commit w (entry_hash w.head_hash new) out.1).1;
                eq = rw (
                  le→ltb max_field_size (length key) hk,
                  le→ltb max_field_size (length value) hv,
                  i.opened,
                  done,
                );
                ends = (commit-ends (entry_hash w.head_hash new) out.1).0;
                writer = commit-IsWriter out.1 entry whole;
              })
          | inr stopped ↦ inr (record {
            cut = wrote.count;
            disk = out.1;
            eq = rw (
              le→ltb max_field_size (length key) hk,
              le→ltb max_field_size (length value) hv,
              i.opened,
              stopped,
            );
            short = narrow stopped;
            bytes_lem = written_bytes;
            entry = entry;
          })
        ]

    -- `append` with a 64-bit timestamp on an open log whose file is the journal of entries (fewer
    -- than 2^64 with the new one), whatever the kernel answers: a field over the limit is rejected
    -- with nothing changed; or the journal and the object's chain state are extended by the new
    -- entry, and the call returns or throws that the fsync failed; or the write breaks off, with a
    -- proper prefix of the entry behind the journal and the object's chain state as it was.
    pub append_cases : Rejected ⊎ (Extended es ⊎ Broken es)
    append_cases = elim (Bool-cases (ltb max_field_size (length key))) [
      | inl long ↦ inl (append_long (inl (ltb→lt _ _ long)))
      | inr hk ↦ elim (Bool-cases (ltb max_field_size (length value))) [
        | inl long ↦ inl (append_long (inr (ltb→lt _ _ long)))
        | inr hv ↦ inr (append_fits (ltb→le _ _ hk) (ltb→le _ _ hv))
      ]
    ]
