-- ===== src/Snapshot/Round.antt =====
-- `load` on the file that `save` makes.
use lite_speed_store.Base.{
  ℕ, ◌-◌, ◌/◌, ◌≤◌, ◌≡◌, sym, ap, ◌∙◌, subst, arith, some, none, List, [], ◌∷◌, ◌++◌, append_assoc,
  append-nil, u32, IsU32, IsU64, All, length, length-append, take, drop, le→ltb, ==_refl,
  take-append_left, drop-append_left,
}
use lite_speed_store.Endian.{get_le32}
use lite_speed_store.Endian.Value.{
  le_bytes, length-le_bytes, le_bytes-IsByte, le_value-le_bytes4, get_le32-le_value,
}
use lite_speed_store.Crc32
use lite_speed_store.Engine.{Record, Table, find}
use lite_speed_store.Engine.Recover.{Image}
use lite_speed_store.Engine.Distinct.{IsDistinct, find-front, alter_new, alter_last}
use lite_speed_store.Snapshot.{
  snap_magic, snap_version, snap_off_magic, snap_off_version, snap_off_crc, snap_header_size,
  min_record_bytes, min_key_bytes, payload_of, file_of,
}
use lite_speed_store.Snapshot.Load.{
  parsed, read_records, read_key, read_keys, read_payload, load_bytes, load,
}
use lite_speed_store.Snapshot.Layout.{
  record_bytes, records_bytes, key_bytes, keys_bytes, payload_of-bytes, file_of-bytes, Fits,
  FitsKey, records_size, keys_size,
}
use lite_speed_store.Snapshot.Parts.{
  At, Reads, move, number32-Reads, number64-Reads, string-Reads, record-Reads,
}

-- An image that the file has room for: 64-bit and 32-bit numbers, doubles of eight bytes, each key
-- once.
pub record IsImage (image : Image) : Type 0 where
  pub epoch : IsU64 image.epoch
  pub count : IsU32 (length image.state)
  pub keys : All FitsKey image.state
  pub distinct : IsDistinct image.state

module _ (payload : List ℕ) where
  -- The records go behind those that the last entry has.
  records-Reads :
      (rs h : List Record) (key : List ℕ) (offset : ℕ) (front : Table) (rest : List ℕ)
      → find key front ≡ none
      → All Fits rs
      → At payload offset (records_bytes rs ++ rest)
      → Reads payload
          (read_records payload (length rs) key offset (front ++ (key, h) ∷ []))
          (front ++ (key, h ++ rs) ∷ [])
          rest
  unfolding read_records records_bytes
  records-Reads [] h key offset front rest new f a = record {
    next = offset;
    eq = ap (λ (t : List Record). parsed (front ++ (key, t) ∷ [], offset)) (sym (append-nil h));
    behind = a;
  }
  records-Reads (r ∷ rs) h key offset front rest new f a =
      let a1 = move payload offset (append_assoc (record_bytes r) (records_bytes rs) rest) a in
      let p = record-Reads payload offset r (records_bytes rs ++ rest) f.0 a1 in
      let q = records-Reads rs (h ++ r ∷ []) key p.next front rest new f.1 p.behind in
      record {
        next = q.next;
        eq =
            rw (p.eq, alter_last key (λ t. t ++ r ∷ []) front h new) q.eq
            ∙ ap (λ (t : List Record). parsed (front ++ (key, t) ∷ [], q.next))
                (append_assoc h (r ∷ []) rs);
        behind = q.behind;
      }

  key-Reads :
      (key : List ℕ) (rs : List Record) (offset : ℕ) (front : Table) (rest : List ℕ)
      → find key front ≡ none
      → FitsKey (key, rs)
      → At payload offset (key_bytes (key, rs) ++ rest)
      → Reads payload (read_key payload offset front) (front ++ (key, rs) ∷ []) rest
  unfolding read_key
  key-Reads key rs offset front rest new f a =
      let a1 = move payload offset (simp append_assoc) a in
      let p1 = number32-Reads payload offset (length key) _ f.key a1 in
      let p2 = string-Reads payload p1.next key _ p1.behind in
      let p3 = number32-Reads payload p2.next (length rs) _ f.count p2.behind in
      let q = records-Reads rs [] key p3.next front rest new f.records p3.behind in
      let room : length rs ≤ (length payload - p3.next) / min_record_bytes =
        omega (arith, p3.behind.within, length-append (records_bytes rs) rest, records_size rs) in
      record {
        next = q.next;
        eq =
            rw
              (
                p1.eq,
                p2.eq,
                p3.eq,
                le→ltb ((length payload - p3.next) / min_record_bytes) (length rs) room,
                alter_new key (λ h. h) front new,
              )
              q.eq;
        behind = q.behind;
      }

  keys-Reads :
      (t front : Table) (offset : ℕ) (rest : List ℕ)
      → IsDistinct (front ++ t)
      → All FitsKey t
      → At payload offset (keys_bytes t ++ rest)
      → Reads payload (read_keys payload (length t) offset front) (front ++ t) rest
  unfolding read_keys keys_bytes
  keys-Reads [] front offset rest d f a = record {
    next = offset;
    eq = ap (λ (s : Table). parsed (s, offset)) (sym (append-nil front));
    behind = a;
  }
  keys-Reads ((key, rs) ∷ t) front offset rest d f a =
      let a1 = move payload offset (append_assoc (key_bytes (key, rs)) (keys_bytes t) rest) a in
      let new = find-front front t key rs d in
      let p = key-Reads key rs offset front (keys_bytes t ++ rest) new f.0 a1 in
      let regroup = append_assoc front ((key, rs) ∷ []) t in
      let q =
        keys-Reads t (front ++ (key, rs) ∷ []) p.next rest (subst IsDistinct (sym regroup) d) f.1
          p.behind in
      record {
        next = q.next;
        eq = rw p.eq q.eq ∙ ap (λ (s : Table). parsed (s, q.next)) regroup;
        behind = q.behind;
      }

payload-parsed : (image : Image) → IsImage image → read_payload (payload_of image) ≡ parsed image
unfolding read_payload
payload-parsed image i =
    let payload = payload_of image in
    let layout : payload
        ≡ le_bytes 8 image.epoch
          ++ (le_bytes 4 (u32 (length image.state)) ++ (keys_bytes image.state ++ [])) =
      payload_of-bytes image ∙ simp append-nil in
    let start : At payload 0 (
        le_bytes 8 image.epoch
        ++ (le_bytes 4 (u32 (length image.state)) ++ (keys_bytes image.state ++ []))) =
      record { eq = layout; within = omega (arith, ap length layout) } in
    let p1 = number64-Reads payload 0 image.epoch _ i.epoch start in
    let p2 = number32-Reads payload p1.next (length image.state) _ i.count p1.behind in
    let q = keys-Reads payload image.state [] p2.next [] i.distinct i.keys p2.behind in
    let room : length image.state ≤ (length payload - p2.next) / min_key_bytes =
      omega (
        arith,
        p2.behind.within,
        length-append (keys_bytes image.state) [],
        keys_size image.state,
      ) in
    rw (
      p1.eq,
      p2.eq,
      le→ltb ((length payload - p2.next) / min_key_bytes) (length image.state) room,
      q.eq,
    )

calculate-IsU32 : (bytes : List ℕ) → IsU32 (Crc32.calculate bytes)
unfolding Crc32.calculate
calculate-IsU32 bytes = omega arith

get-header :
    (front : List ℕ) (v : ℕ) (rest : List ℕ)
    → IsU32 v
    → get_le32 (drop (length front) (front ++ (le_bytes 4 v ++ rest))) ≡ some v
get-header front v rest h =
    ap get_le32 (drop-append_left front (le_bytes 4 v ++ rest))
    ∙ get_le32-le_value (le_bytes 4 v) rest (length-le_bytes 4 v) (le_bytes-IsByte 4 v)
    ∙ ap some (le_value-le_bytes4 v h)

-- The checks on the header pass.
header_passes :
    (file payload : List ℕ)
    → snap_header_size ≤ length file
    → get_le32 (drop snap_off_magic (take snap_header_size file)) ≡ some snap_magic
    → get_le32 (drop snap_off_version (take snap_header_size file)) ≡ some snap_version
    → get_le32 (drop snap_off_crc (take snap_header_size file)) ≡ some (Crc32.calculate payload)
    → drop snap_header_size file ≡ payload
    → load_bytes file ≡ read_payload payload
unfolding load_bytes
header_passes file payload long magic version crc behind = simp (
  le→ltb (length file) snap_header_size long,
  magic,
  version,
  crc,
  behind,
  ==_refl (Crc32.calculate payload),
)

-- The header in front of any payload, with its checksum.
abbrev pub sealed : List ℕ → List ℕ
sealed payload =
    le_bytes 4 snap_magic ++ (le_bytes 4 snap_version ++ le_bytes 4 (Crc32.calculate payload))

pub load_bytes-sealed :
    (payload : List ℕ) → load_bytes (sealed payload ++ payload) ≡ read_payload payload
load_bytes-sealed payload =
    let crc = Crc32.calculate payload in
    let long = length-append (sealed payload) payload in
    let top : take snap_header_size (sealed payload ++ payload) ≡ sealed payload =
      take-append_left (sealed payload) payload in
    header_passes (sealed payload ++ payload) payload (omega (arith, long))
      (ap (λ (h : List ℕ). get_le32 (drop snap_off_magic h)) top
        ∙ get-header [] snap_magic (le_bytes 4 snap_version ++ le_bytes 4 crc) (omega arith))
      (ap (λ (h : List ℕ). get_le32 (drop snap_off_version h)) top
        ∙ get-header (le_bytes 4 snap_magic) snap_version (le_bytes 4 crc) (omega arith))
      (ap (λ (h : List ℕ). get_le32 (drop snap_off_crc h)) top
        ∙ get-header (le_bytes 4 snap_magic ++ le_bytes 4 snap_version) crc []
            (calculate-IsU32 payload))
      (drop-append_left (sealed payload) payload)

-- `load` gives back the image that the file of `save` was made of, for an image with a 64-bit
-- epoch, fewer than 2^32 keys, each once, and keys, histories and values whose sizes and doubles
-- the fields hold.
pub load-file_of : (image : Image) → IsImage image → load (some (file_of image)) ≡ parsed image
unfolding load
load-file_of image i =
    let payload = payload_of image in
    let file : file_of image ≡ sealed payload ++ payload =
      file_of-bytes image ∙ simp append_assoc in
    ap load_bytes file ∙ load_bytes-sealed payload ∙ payload-parsed image i
