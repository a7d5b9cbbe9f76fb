-- ===== src/Wal/Untouched.antt =====
-- `verify` and the file's bytes.
use lite_speed_store.Base.{
  suc, drop, length, ◌∙◌, none, none-ne-some, ◌≡◌, refl, ap, Bool, true, false, not, some,
  if◌then◌else◌, List, ℕ, some_inv,
}
use lite_speed_store.Posix.{Disk, seek}
use lite_speed_store.Wal.{Wal, RecoveryResult, header_size}
use lite_speed_store.Wal.Check.{torn, malformed_entry, tampered_entry, overread}
use lite_speed_store.Wal.Walk.{
  empty_result, walk_loop, start, Ending, at_end, broke, hung, Walk, Walked, walked, no_result,
  conclude, walk_chain,
}
use lite_speed_store.Wal.Recover.{verify, report}

unfoldable Same {ℓ} : {S : Type ℓ} → List ℕ → Walked S → Type 0
Same bytes (walked r s d) = d.bytes ≡ bytes
Same bytes no_result = Unit

walked-Same {ℓ} :
    {S : Type ℓ} (r : RecoveryResult) (s : S) (d : Disk) (bytes : List ℕ)
    → d.bytes ≡ bytes
    → Same bytes (walked r s d)
unfolding Same
walked-Same r s d bytes h = h

if-Same {ℓ} :
    {S : Type ℓ} (bytes : List ℕ) (b : Bool) (x y : Walked S)
    → Same bytes x
    → Same bytes y
    → Same bytes (if b then x else y)
if-Same bytes true x y p q = p
if-Same bytes false x y p q = q

conclude-Same {ℓ} :
    {S : Type ℓ} (d : Disk) (how : Ending) (w : Walk S) → Same d.bytes (conclude false d how w)
unfolding conclude Same
conclude-Same d at_end w = refl
conclude-Same d hung w = tt
conclude-Same d (broke torn) w = refl
conclude-Same d (broke malformed_entry) w = refl
conclude-Same d (broke tampered_entry) w = refl
conclude-Same d (broke overread) w = tt

walk_chain-Same :
    (fd_open : Bool) (d : Disk)
    → Same d.bytes (walk_chain {0} {S = Unit {0}} none none fd_open false d tt)
unfolding walk_chain seek
walk_chain-Same fd_open d =
    let d1 = (seek d).1 in
    let d2 = (seek d1).1 in
    let size = length d2.bytes in
    let e =
      walk_loop {0} {S = Unit {0}} none none (suc size) size header_size (drop header_size d2.bytes)
        d2.script (start tt) in
    if-Same d.bytes (not fd_open) _ _ (walked-Same empty_result tt d d.bytes refl) (
      if-Same d.bytes (not (seek d).0) _ _ (walked-Same empty_result tt d1 d.bytes refl) (
        if-Same d.bytes (not (seek d1).0) _ _ (walked-Same empty_result tt d2 d.bytes refl)
          (conclude-Same (record d2 { script = e.script }) e.how e.walk)))

report-Same :
    (w w' : Wal) (r : RecoveryResult) (x : Walked (Unit {0}))
    → Same w.disk.bytes x
    → report w x ≡ some (r, w')
    → w'.disk.bytes ≡ w.disk.bytes
unfolding report Same
report-Same w w' r (walked q s d) same h =
    ap (λ (p : RecoveryResult × Wal). p.1.disk.bytes) (some_inv h) ∙ same
report-Same w w' r no_result same h = absurd (none-ne-some h)

pub verify-bytes :
    (w w' : Wal) (r : RecoveryResult) → verify w ≡ some (r, w') → w'.disk.bytes ≡ w.disk.bytes
unfolding verify
verify-bytes w w' r h =
    report-Same w w' r (walk_chain {0} {S = Unit {0}} none none w.fd_open false w.disk tt)
      (walk_chain-Same w.fd_open w.disk) h
