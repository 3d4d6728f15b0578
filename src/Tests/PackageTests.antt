-- ===== src/Tests/PackageTests.antt =====
-- An archive with a directory, two files and a path that climbs out.
use stanchion.Manifest.{components}
use stanchion.Prelude.{
  text_eq, is_empty, split, ◌≡◌, refl, ◌≤◌, arith, none, some, Option, List, [], ◌∷◌, Outcome, ok,
  err, Text, codes,
}
use stanchion.Signature.{Bytes}
use stanchion.Package.{
  io, cut_short, WriteFault, Limits, Entry, directory, regular, unsafe_path, unpack,
}
use stanchion.Package.Bounding.{IsBounded, volume, unpack-IsBounded}

abbrev file : Text → Bytes → Outcome Text Entry
file path contents = ok (record {
  path = ok path;
  kind = regular;
  declared = some 1;
  contents = contents;
  fault = none;
})

abbrev folder : Outcome Text Entry
folder = ok (record {
  path = ok (codes "lib/");
  kind = directory;
  declared = none;
  contents = [];
  fault = none;
})

abbrev disk : List (Text × Bytes) → Text → Option WriteFault
disk files path = none

abbrev limits : Limits
limits = record { entries = 3; total_bytes = 5; file_bytes = 2 }

abbrev climbing : List (Outcome Text Entry)
climbing =
    folder ∷ file (codes "./lib//a.lua") (1 ∷ 2 ∷ []) ∷ file (codes "lib/../../b") (3 ∷ []) ∷ []

climbing_refused :
    unpack disk limits (ok climbing)
    ≡ (err (unsafe_path (codes "lib/../../b")), (codes "lib/a.lua", 1 ∷ 2 ∷ []) ∷ [])
unfolding unpack components split is_empty text_eq
climbing_refused = refl

unpack-IsBounded_example :
    IsBounded limits (unpack disk limits (ok climbing)).1
    × ((unpack disk limits (ok climbing)).0 ≡ ok tt
        → volume (unpack disk limits (ok climbing)).1 ≤ 5)
unpack-IsBounded_example = unpack-IsBounded limits disk (omega arith) (ok climbing)

-- a full disk leaves the first byte of a file
full_disk :
    unpack
      (λ files path. some (cut_short 1 (codes "no space")))
      limits
      (ok (file (codes "a") (1 ∷ 2 ∷ []) ∷ []))
    ≡ (err (io (codes "no space")), (codes "a", 1 ∷ []) ∷ [])
unfolding unpack components split is_empty text_eq
full_disk = refl
