-- ===== src/Snapshot/Safe.antt =====
-- `load` on any file: its reads of its buffers.
use lite_speed_store.Base.{
  ℕ, zero, suc, ◌+◌, ◌-◌, ◌/◌, ◌≤◌, ◌≡◌, refl, arith, Bool, true, false, ◌⊎◌, inl, inr, not, ◌||◌,
  ◌==◌, Option, none, some, List, [], ◌∷◌, ◌++◌, length, length-drop, length-take, take, drop, ltb,
  ltb→le, le→ltb, Bool-cases,
}
use lite_speed_store.Endian.{get_le32}
use lite_speed_store.Endian.Total.{get_le32-total, get_le64-total}
use lite_speed_store.Crc32
use lite_speed_store.Engine.{Table, alter}
use lite_speed_store.Engine.Distinct.{IsDistinct, alter-IsDistinct}
use lite_speed_store.Engine.Recover.{Image}
use lite_speed_store.Snapshot.{
  snap_magic, snap_version, snap_off_magic, snap_off_version, snap_off_crc, snap_header_size,
  min_record_bytes, min_key_bytes,
}
use lite_speed_store.Snapshot.Load.{
  Parse, parsed, refused, past_end, ◌>>=◌, ◌>>◌, refuse_if, array_read, read_le32, read_le64,
  read_string, read_record, read_records, read_key, read_keys, read_payload, load_bytes, load,
}

-- The step reads in bounds, and what it gives has the property.
abbrev Ensures {ℓ} : {A : Type ℓ} → (A → Type 0) → Parse A → Type 0
Ensures P (parsed a) = P a
Ensures P refused = Unit
Ensures P past_end = ⊥

bind-Ensures {ℓ κ} :
    {A : Type ℓ} {B : Type κ} (P : A → Type 0) (Q : B → Type 0) (m : Parse A) (f : A → Parse B)
    → Ensures P m
    → ((a : A) → P a → Ensures Q (f a))
    → Ensures Q (m >>= f)
bind-Ensures P Q (parsed a) f h k = k a h
bind-Ensures P Q refused f h k = tt
bind-Ensures P Q past_end f h k = absurd h

refuse-Ensures {ℓ} :
    {A : Type ℓ} (P : A → Type 0) (b : Bool) (k : Parse A)
    → (b ≡ false → Ensures P k)
    → Ensures P (refuse_if b >> k)
refuse-Ensures P true k h = tt
refuse-Ensures P false k h = h refl

module _ (payload : List ℕ) where
  -- The offset stays within the payload.
  abbrev IsWithin {ℓ} : {A : Type ℓ} → A × ℕ → Type 0
  IsWithin (a, offset) = offset ≤ length payload

  read_le32-Ensures : (offset : ℕ) → Ensures IsWithin (read_le32 payload offset)
  unfolding read_le32
  read_le32-Ensures offset = elim (Bool-cases (ltb (length payload) (offset + 4))) [
    | inl short ↦ rw short tt
    | inr long ↦
        let room = ltb→le (length payload) (offset + 4) long in
        let (v, e) =
          get_le32-total (drop offset payload) (omega (arith, room, length-drop offset payload)) in
        rw (long, e) room
  ]

  read_le64-Ensures : (offset : ℕ) → Ensures IsWithin (read_le64 payload offset)
  unfolding read_le64
  read_le64-Ensures offset = elim (Bool-cases (ltb (length payload) (offset + 8))) [
    | inl short ↦ rw short tt
    | inr long ↦
        let room = ltb→le (length payload) (offset + 8) long in
        let (v, e) =
          get_le64-total (drop offset payload) (omega (arith, room, length-drop offset payload)) in
        rw (long, e) room
  ]

  read_string-Ensures :
      (size offset : ℕ)
      → offset ≤ length payload
      → Ensures IsWithin (read_string payload size offset)
  unfolding read_string
  read_string-Ensures size offset within = elim (Bool-cases (ltb (length payload - offset) size)) [
    | inl short ↦ rw short tt
    | inr long ↦
        let room : offset + size ≤ length payload =
          omega (arith, ltb→le (length payload - offset) size long) in
        rw (long, le→ltb (length payload) (offset + size) room) room
  ]

  read_record-Ensures : (offset : ℕ) → Ensures IsWithin (read_record payload offset)
  unfolding read_record
  read_record-Ensures offset =
      bind-Ensures IsWithin IsWithin (read_le64 payload offset) _ (read_le64-Ensures offset)
        (λ (ts, o1) h1.
          bind-Ensures IsWithin IsWithin (read_le64 payload o1) _ (read_le64-Ensures o1)
            (λ (bits, o2) h2.
              bind-Ensures IsWithin IsWithin (read_le32 payload o2) _ (read_le32-Ensures o2)
                (λ (len, o3) h3.
                  bind-Ensures IsWithin IsWithin (read_string payload len o3) _
                    (read_string-Ensures len o3 h3) (λ (value, o4) h4. h4))))

  -- And the map that is built has each key once.
  abbrev IsState : Table × ℕ → Type 0
  IsState (state, offset) = (offset ≤ length payload) × IsDistinct state

  read_records-Ensures :
      (left : ℕ) (key : List ℕ) (offset : ℕ) (state : Table)
      → offset ≤ length payload
      → IsDistinct state
      → Ensures IsState (read_records payload left key offset state)
  unfolding read_records
  read_records-Ensures zero key offset state h d = (h, d)
  read_records-Ensures (suc left) key offset state h d =
      bind-Ensures IsWithin IsState (read_record payload offset) _ (read_record-Ensures offset)
        (λ (r, o1) h1.
          read_records-Ensures left key o1 (alter key (λ t. t ++ r ∷ []) state) h1
            (alter-IsDistinct key (λ t. t ++ r ∷ []) state d))

  read_key-Ensures :
      (offset : ℕ) (state : Table)
      → IsDistinct state
      → Ensures IsState (read_key payload offset state)
  unfolding read_key
  read_key-Ensures offset state d =
      bind-Ensures IsWithin IsState (read_le32 payload offset) _ (read_le32-Ensures offset)
        (λ (key_len, o1) h1.
          bind-Ensures IsWithin IsState (read_string payload key_len o1) _
            (read_string-Ensures key_len o1 h1)
            (λ (key, o2) h2.
              bind-Ensures IsWithin IsState (read_le32 payload o2) _ (read_le32-Ensures o2)
                (λ (n, o3) h3.
                  refuse-Ensures IsState (ltb ((length payload - o3) / min_record_bytes) n)
                    (read_records payload n key o3 (alter key (λ t. t) state))
                    (λ e.
                      read_records-Ensures n key o3 (alter key (λ t. t) state) h3
                        (alter-IsDistinct key (λ t. t) state d)))))

  read_keys-Ensures :
      (left offset : ℕ) (state : Table)
      → offset ≤ length payload
      → IsDistinct state
      → Ensures IsState (read_keys payload left offset state)
  unfolding read_keys
  read_keys-Ensures zero offset state h d = (h, d)
  read_keys-Ensures (suc left) offset state h d =
      bind-Ensures IsState IsState (read_key payload offset state) _
        (read_key-Ensures offset state d)
        (λ (state', o1) (h1, d1). read_keys-Ensures left o1 state' h1 d1)

  read_payload-Ensures : Ensures (λ (image : Image). IsDistinct image.state) (read_payload payload)
  unfolding read_payload
  read_payload-Ensures =
      bind-Ensures IsWithin _ (read_le64 payload 0) _ (read_le64-Ensures 0) (λ (epoch, o1) h1.
        bind-Ensures IsWithin _ (read_le32 payload o1) _ (read_le32-Ensures o1) (λ (n, o2) h2.
          refuse-Ensures _ (ltb ((length payload - o2) / min_key_bytes) n) _ (λ e.
            bind-Ensures IsState _ (read_keys payload n o2 []) _ (read_keys-Ensures n o2 [] h2 tt)
              (λ (state, o3) h3. h3.1))))

header_number :
    (file : List ℕ) (offset : ℕ)
    → snap_header_size ≤ length file
    → offset + 4 ≤ snap_header_size
    → (v : ℕ) × (get_le32 (drop offset (take snap_header_size file)) ≡ some v)
header_number file offset long fits = get_le32-total (drop offset (take snap_header_size file)) (
    omega
      (arith, length-drop offset (take snap_header_size file), length-take snap_header_size file))

array-Ensures {ℓ} :
    {A : Type ℓ} (o : Option A) → (a : A) × (o ≡ some a) → Ensures (λ (a : A). Unit) (array_read o)
array-Ensures none (a, h) = cc
array-Ensures (some b) h = tt

load_bytes-Ensures :
    (file : List ℕ) → Ensures (λ (image : Image). IsDistinct image.state) (load_bytes file)
unfolding load_bytes
load_bytes-Ensures file = refuse-Ensures _ (ltb (length file) snap_header_size) _ (λ e.
    let long = ltb→le (length file) snap_header_size e in
    bind-Ensures (λ n. Unit) _ _ _
      (array-Ensures _ (header_number file snap_off_magic long (omega arith)))
      (λ magic h1.
        bind-Ensures (λ n. Unit) _ _ _
          (array-Ensures _ (header_number file snap_off_version long (omega arith)))
          (λ version h2.
            bind-Ensures (λ n. Unit) _ _ _
              (array-Ensures _ (header_number file snap_off_crc long (omega arith)))
              (λ crc h3.
                refuse-Ensures _ (not (magic == snap_magic) || not (version == snap_version)) _
                  (λ e1.
                    refuse-Ensures _ (not (Crc32.calculate (drop snap_header_size file) == crc)) _
                      (λ e2. read_payload-Ensures (drop snap_header_size file)))))))

answers :
    (p : Parse Image)
    → Ensures (λ (image : Image). IsDistinct image.state) p
    → (p ≡ refused) ⊎ ((image : Image) × (p ≡ parsed image) × IsDistinct image.state)
answers (parsed image) h = inr (image, refl, h)
answers refused h = inl refl
answers past_end h = absurd h

-- Whatever bytes the file has, or if there is none, `load` does not read past the end of its
-- buffers: it refuses the file, or gives an image with each key once.
pub load_answers :
    (file : Option (List ℕ))
    → (load file ≡ refused)
      ⊎ ((image : Image) × (load file ≡ parsed image) × IsDistinct image.state)
unfolding load
load_answers none = inl refl
load_answers (some file) = answers (load_bytes file) (load_bytes-Ensures file)
