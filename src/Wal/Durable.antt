-- ===== src/Wal/Durable.antt =====
-- What of the journal an fsync has made durable, after appends that returned.
use lite_speed_store.Base.{
  Bool, Bool-cases, false, leb, ltb, ◌||◌, not, if◌then◌else◌, ◌+◌, ◌⊎◌, append-nil, append_assoc,
  ℕ, suc, ◌^◌, ◌<◌, ◌≡◌, refl, sym, ap, ◌∙◌, subst, arith, true, inl, inr, List, [], ◌∷◌, ◌++◌,
  length, length-append, IsU64,
}
use lite_speed_store.Wal.{
  Wal, RecordType, Outcome, returned, thrown, Error, max_field_size, field_too_long,
  entry_write_failed,
}
use lite_speed_store.Posix.{Disk, call, fsync, write_exact}
use lite_speed_store.Wal.Halts.{journal}
use lite_speed_store.Wal.Format.{Entry, entry_hash, entry_bytes}
use lite_speed_store.Wal.Append.{next_entry, append, commit}
use lite_speed_store.Wal.Writes.{IsWriter, append_cases}

thrown-ne-returned : {x : Error} → ◌≡◌ {A = Outcome (Unit {0})} (thrown x) (returned tt) → ⊥
thrown-ne-returned e = cc

-- An `append` that returns has extended the journal.
pub append_returned :
    (w : Wal) (type : RecordType) (key value : List ℕ) (now : ℕ) (es : List Entry)
    → IsWriter w es
    → suc (length es) < 2 ^ 64
    → IsU64 now
    → (append w type key value now).0 ≡ returned tt
    → IsWriter (append w type key value now).1 (es ++ next_entry w type key value now ∷ [])
append_returned w type key value now es i small stamp h =
    elim (append_cases w type key value now es i small stamp) [
      | inl r ↦
          absurd (thrown-ne-returned (sym (ap (λ (p : Outcome (Unit {0}) × Wal). p.0) r.eq) ∙ h))
      | inr (inl x) ↦
          subst (λ (v : Wal). IsWriter v (es ++ next_entry w type key value now ∷ []))
            (sym (ap (λ (p : Outcome (Unit {0}) × Wal). p.1) x.eq)) x.writer
      | inr (inr b) ↦
          absurd (thrown-ne-returned (sym (ap (λ (p : Outcome (Unit {0}) × Wal). p.0) b.eq) ∙ h))
    ]

-- All but the last `pending_writes` entries of the journal are synced, and these are fewer than
-- `sync_every_n`.
pub record IsDurable (w : Wal) (es : List Entry) : Type 0 where
  pub front : List Entry
  pub back : List Entry
  pub split : es ≡ front ++ back
  pub synced : w.disk.synced ≡ journal front
  pub pending : length back ≡ w.pending_writes
  pub bound : w.pending_writes < w.sync_every_n

-- The two ways in which `commit` returns.
Committed : Wal → Disk → Wal → Type 0
Committed w d next =
    (next.sync_every_n ≡ w.sync_every_n)
    × (((next.disk.synced ≡ next.disk.bytes) × (next.pending_writes ≡ 0))
        ⊎ ((next.disk.synced ≡ d.synced)
            × (next.pending_writes ≡ w.pending_writes + 1)
            × (w.pending_writes + 1 < w.sync_every_n)))

commit-Committed :
    (w : Wal) (hash : List ℕ) (d : Disk)
    → (commit w hash d).0 ≡ returned tt
    → Committed w d (commit w hash d).1
unfolding commit fsync Committed
commit-Committed w hash d h = elim (Bool-cases (leb w.sync_every_n (w.pending_writes + 1))) [
  | inl due ↦ elim (Bool-cases (call d.script).0) [
    | inl done ↦ rw (due, done) (refl, inl (refl, refl))
    | inr lost ↦ absurd (thrown-ne-returned (rw (commit, due, fsync, lost) at h))
  ]
  | inr early ↦ rw early (refl, inr (refl, refl, ground (arith, early)))
]

append_tests :
    (long opened written : Bool) (w u v : Wal) (c p : Outcome (Unit {0}) × Wal) (x y : Error)
    → opened ≡ true
    → p ≡ (
        if long
        then (thrown x, w)
        else if not opened
        then (returned tt, u)
        else if not written
        then (thrown y, v)
        else c)
    → p.0 ≡ returned tt
    → p ≡ c
append_tests true opened written w u v c p x y o is h = absurd (thrown-ne-returned (rw is at h))
append_tests false false written w u v c p x y o is h = cc
append_tests false true false w u v c p x y o is h = absurd (thrown-ne-returned (rw is at h))
append_tests false true true w u v c p x y o is h = is

-- An `append` to an open log that returns has come to `commit`.
append-commit :
    (w : Wal) (type : RecordType) (key value : List ℕ) (now : ℕ)
    → w.fd_open ≡ true
    → (append w type key value now).0 ≡ returned tt
    → append w type key value now
      ≡ commit w
          (entry_hash w.head_hash (next_entry w type key value now))
          (write_exact w.disk (entry_bytes w.head_hash (next_entry w type key value now))).1
unfolding append
append-commit w type key value now opened h =
    let out = write_exact w.disk (entry_bytes w.head_hash (next_entry w type key value now)) in
    append_tests (ltb max_field_size (length key) || ltb max_field_size (length value)) w.fd_open
      out.0 w w (record w { disk = out.1 }) _ (append w type key value now) field_too_long
      entry_write_failed opened refl h

write_exact-synced : (d : Disk) (buffer : List ℕ) → (write_exact d buffer).1.synced ≡ d.synced
unfolding write_exact
write_exact-synced d buffer = refl

module _ (w next : Wal) (es : List Entry) (new : Entry) (d : Disk) (durable : IsDurable w es)
    (writer : IsWriter next (es ++ new ∷ [])) where
  Committed-IsDurable :
      d.synced ≡ w.disk.synced → Committed w d next → IsDurable next (es ++ new ∷ [])
  unfolding Committed
  Committed-IsDurable same (n, inl (synced, none_left)) = record {
    front = es ++ new ∷ [];
    back = [];
    split = sym (append-nil (es ++ new ∷ []));
    synced = synced ∙ writer.bytes;
    pending = sym none_left;
    bound = omega (arith, n, none_left, durable.bound);
  }
  Committed-IsDurable same (n, inr (synced, one_more, below)) = record {
    front = durable.front;
    back = durable.back ++ new ∷ [];
    split =
        ap (λ (t : List Entry). t ++ new ∷ []) durable.split
        ∙ append_assoc durable.front durable.back (new ∷ []);
    synced = synced ∙ same ∙ durable.synced;
    pending = omega (arith, length-append durable.back (new ∷ []), durable.pending, one_more);
    bound = omega (arith, n, one_more, below);
  }

pub append-IsDurable :
    (w : Wal) (type : RecordType) (key value : List ℕ) (now : ℕ) (es : List Entry)
    → IsWriter w es
    → IsDurable w es
    → suc (length es) < 2 ^ 64
    → IsU64 now
    → (append w type key value now).0 ≡ returned tt
    → IsDurable (append w type key value now).1 (es ++ next_entry w type key value now ∷ [])
append-IsDurable w type key value now es i durable small stamp h =
    let new = next_entry w type key value now in
    let hash = entry_hash w.head_hash new in
    let d = (write_exact w.disk (entry_bytes w.head_hash new)).1 in
    let is = append-commit w type key value now i.opened h in
    let committed =
      commit-Committed w hash d (sym (ap (λ (p : Outcome (Unit {0}) × Wal). p.0) is) ∙ h) in
    Committed-IsDurable w (append w type key value now).1 es new d durable
      (append_returned w type key value now es i small stamp h)
      (write_exact-synced w.disk (entry_bytes w.head_hash new))
      (subst (λ (p : Outcome (Unit {0}) × Wal). Committed w d p.1) (sym is) committed)
