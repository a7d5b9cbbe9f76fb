-- ===== src/Sha256/Meets.antt =====
-- What the streaming context computes, against Sha256/Standard.
use lite_speed_store.Base.{ℕ, ◌-◌, ◌%◌, List, [], ◌∷◌, ◌++◌}
use lite_speed_store.Sha256.{Sha256, update}

-- The number of zeros in the padding.
abbrev zeros : ℕ → ℕ
zeros size = (119 - size % 64) % 64

-- The calls of `update` on the pieces of a message, in their order.
abbrev pub update_all : Sha256 → List (List ℕ) → Sha256
update_all c [] = c
update_all c (piece ∷ pieces) = update_all (update c piece) pieces

abbrev pub flatten : List (List ℕ) → List ℕ
flatten [] = []
flatten (piece ∷ pieces) = piece ++ flatten pieces
