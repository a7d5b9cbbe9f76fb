-- ===== src/Engine/EditTests.antt =====
-- The constructor of the engine on a journal of one entry, with a byte of its value edited.
use lite_speed_store.Base.{◌≡◌, refl, arith, some, none, [], ◌∷◌}
use lite_speed_store.Posix.{Disk}
use lite_speed_store.Wal.Opens.{served}
use lite_speed_store.Wal.EditTests.{entry, entry-IsEntry, edit, bytes, all-IsByte}
use lite_speed_store.Engine.{failed, tampering}
use lite_speed_store.Engine.Construct.{construct}
use lite_speed_store.Engine.Refuses.{construct-edited}

construct-edited_example :
    (after : Disk) × (construct (λ t. t) 2 3 none (served bytes [])
      ≡ some (failed tampering, after))
    × (after.bytes ≡ bytes)
construct-edited_example =
    construct-edited (λ t. t) 2 3 none bytes [] [] entry (112 ∷ []) (99 ∷ 58 ∷ []) [] edit
      all-IsByte (record { log = tt; small = omega arith; bytes_lem = refl }) entry-IsEntry
