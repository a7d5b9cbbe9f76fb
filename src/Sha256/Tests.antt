-- ===== src/Sha256/Tests.antt =====
-- The vectors of tests/sha256_test.cpp.
use lite_speed_store.Base.{ℕ, List, [], ◌∷◌, ◌≡◌, refl}
use lite_speed_store.Sha256.Compress.{transform}
use lite_speed_store.Sha256.{
  init, put_byte, absorb, update_byte, update, pad_zeros, put_length, word_bytes, digest_from,
  finish_padding, digest, hash,
}

hash_empty :
    hash []
    ≡ 0xe3 ∷ 0xb0 ∷ 0xc4 ∷ 0x42 ∷ 0x98 ∷ 0xfc ∷ 0x1c ∷ 0x14 ∷ 0x9a ∷ 0xfb ∷ 0xf4 ∷ 0xc8 ∷ 0x99
      ∷ 0x6f ∷ 0xb9 ∷ 0x24 ∷ 0x27 ∷ 0xae ∷ 0x41 ∷ 0xe4 ∷ 0x64 ∷ 0x9b ∷ 0x93 ∷ 0x4c ∷ 0xa4 ∷ 0x95
      ∷ 0x99 ∷ 0x1b ∷ 0x78 ∷ 0x52 ∷ 0xb8 ∷ 0x55 ∷ []
unfolding hash digest update init finish_padding pad_zeros put_length digest_from word_bytes absorb
    put_byte transform
hash_empty = refl

hash_abc :
    hash (97 ∷ 98 ∷ 99 ∷ [])
    ≡ 0xba ∷ 0x78 ∷ 0x16 ∷ 0xbf ∷ 0x8f ∷ 0x01 ∷ 0xcf ∷ 0xea ∷ 0x41 ∷ 0x41 ∷ 0x40 ∷ 0xde ∷ 0x5d
      ∷ 0xae ∷ 0x22 ∷ 0x23 ∷ 0xb0 ∷ 0x03 ∷ 0x61 ∷ 0xa3 ∷ 0x96 ∷ 0x17 ∷ 0x7a ∷ 0x9c ∷ 0xb4 ∷ 0x10
      ∷ 0xff ∷ 0x61 ∷ 0xf2 ∷ 0x00 ∷ 0x15 ∷ 0xad ∷ []
unfolding hash digest update update_byte init finish_padding pad_zeros put_length digest_from
    word_bytes absorb put_byte transform
hash_abc = refl

-- "abc" in two pieces.
abbrev abc : List (List ℕ)
abc = (97 ∷ []) ∷ (98 ∷ 99 ∷ []) ∷ []
