-- ===== src/Snapshot/Tests.antt =====
-- A snapshot of two keys, written and read back.
use lite_speed_store.Base.{◌^◌, ◌+◌, ◌≡◌, refl, arith, ◌⊎◌, none, some, [], ◌∷◌, take}
use lite_speed_store.Posix.{transfer, interrupted, failed}
use lite_speed_store.Engine.{Record, find}
use lite_speed_store.Engine.Recover.{Image}
use lite_speed_store.Engine.Distinct.{IsDistinct}
use lite_speed_store.Snapshot.{file_of}
use lite_speed_store.Snapshot.Layout.{Fits}
use lite_speed_store.Snapshot.Load.{parsed, refused, load}
use lite_speed_store.Snapshot.Round.{IsImage, load-file_of}
use lite_speed_store.Snapshot.Safe.{load_answers}
use lite_speed_store.Snapshot.Save.{Directory, save}
use lite_speed_store.Snapshot.Replace.{Replaced, save-Replaced}
use lite_speed_store.Base.{equal_bytes}

-- The value of two bytes, and 1.5.
abbrev first : Record
first = record {
  value = 104 ∷ 105 ∷ [];
  duration = 0 ∷ 0 ∷ 0 ∷ 0 ∷ 0 ∷ 0 ∷ 0xF8 ∷ 0x3F ∷ [];
  timestamp = 2 ^ 63 + 5;
}

abbrev second : Record
second = record first { value = [] }

abbrev image : Image
image = record { epoch = 3; state = (97 ∷ [], first ∷ second ∷ []) ∷ ([], second ∷ []) ∷ [] }

first-Fits : Fits first
first-Fits = record {
  timestamp = omega arith;
  duration = refl;
  bytes = (
    omega arith,
    (
      omega arith,
      (omega arith, (omega arith, (omega arith, (omega arith, (omega arith, (omega arith, tt)))))),
    ),
  );
  value = omega arith;
}

second-Fits : Fits second
second-Fits = record {
  timestamp = first-Fits.timestamp;
  duration = refl;
  bytes = first-Fits.bytes;
  value = omega arith;
}

image-IsImage : IsImage image
unfolding find equal_bytes
image-IsImage = record {
  epoch = omega arith;
  count = omega arith;
  keys = (
    record { key = omega arith; count = omega arith; records = (first-Fits, (second-Fits, tt)) },
    (record { key = omega arith; count = omega arith; records = (second-Fits, tt) }, tt),
  );
  distinct = (refl, (refl, tt));
}

load-file_of_example : load (some (file_of image)) ≡ parsed image
load-file_of_example = load-file_of image image-IsImage

-- The file cut off after 20 bytes.
load_answers_example :
    (load (some (take 20 (file_of image))) ≡ refused)
    ⊎ ((read : Image) × (load (some (take 20 (file_of image))) ≡ parsed read)
        × IsDistinct read.state)
load_answers_example = load_answers (some (take 20 (file_of image)))

-- A directory whose kernel interrupts a write and fails the rename.
abbrev directory : Directory
directory = record {
  snap = some (record { bytes = 1 ∷ []; synced = [] });
  tmp = none;
  script = transfer 1 ∷ interrupted ∷ transfer 200 ∷ transfer 1 ∷ transfer 1 ∷ failed ∷ [];
}

save-Replaced_example :
    Replaced (file_of image) directory (save image directory).0 (save image directory).1
save-Replaced_example = save-Replaced image directory
