-- ===== src/Package.antt =====
-- crates/stanchion-dist/src/package.rs: `safe_relative`, `unpack` and `verify_directory`. Reading the
-- archive is the part of flate2 and tar: an archive is the list of the entries that they give.
pub mod Confining
pub mod Bounding
use stanchion.Prelude.{
  ℕ, zero, suc, ◌+◌, ◌-◌, Bool, true, false, not, ◌&&◌, ◌||◌, Option, none, some, List, [], ◌∷◌,
  ◌++◌, ltb, leb, if◌then◌else◌, length, any, Outcome, ok, err, ◌>>=◌, ◌>>◌, map_err, Text, codes,
  is_empty, u64_max, text_eq, strip_prefix, to_ascii_lowercase,
}
use stanchion.Manifest.{Component, root_dir, cur_dir, parent_dir, normal, components}
use stanchion.Signature.{Bytes, DirectoryDigest, hex}
use stanchion.Signature

pub data PackageError : Type 0 where
  unsafe_path : Text → PackageError
  unsafe_entry : Text → Text → PackageError
  duplicate_entry : Text → PackageError
  too_large : PackageError
  digest_mismatch : Text → Text → PackageError
  io : Text → PackageError

pub record Limits : Type 0 where
  pub entries : ℕ
  pub total_bytes : ℕ
  pub file_bytes : ℕ

unfoldable pub default_limits : Limits
default_limits = record { entries = 4096; total_bytes = 67108864; file_bytes = 16777216 }

pub data EntryKind : Type 0 where
  directory regular : EntryKind
  other : Text → EntryKind

-- `contents` is what the entry's reader gives before its end or before the error `fault`
pub record Entry : Type 0 where
  pub path : Outcome Text Text
  pub kind : EntryKind
  pub declared : Option ℕ
  pub contents : Bytes
  pub fault : Option Text

-- the loop of `safe_relative`
unfoldable pub safe_parts : List Component → Option (List Text)
safe_parts [] = some []
safe_parts (normal part ∷ cs) =
    let rest = safe_parts cs in
    if is_empty part then none else elim rest [ none ↦ none | some parts ↦ some (part ∷ parts) ]
safe_parts (cur_dir ∷ cs) = safe_parts cs
safe_parts (parent_dir ∷ cs) = none
safe_parts (root_dir ∷ cs) = none

unfoldable pub join_parts : List Text → Text
join_parts [] = []
join_parts (p ∷ []) = p
join_parts (p ∷ q ∷ ps) = p ++ (b'/' ∷ join_parts (q ∷ ps))

unfoldable pub safe_relative : Text → Option Text
unfolding safe_parts join_parts
safe_relative path = elim (safe_parts (components path)) [
  | none ↦ none
  | some [] ↦ none
  | some (p ∷ ps) ↦ some (join_parts (p ∷ ps))
]

-- the state of `unpack`, with the files that it has written
pub record Unpacking : Type 0 where
  pub seen : List Text
  pub total : ℕ
  pub dirs : ℕ
  pub files : List (Text × Bytes)

abbrev pub saturating_add : ℕ → ℕ → ℕ
saturating_add a b = if leb (a + b) u64_max then a + b else u64_max

unfoldable pub take : ℕ → Bytes → Bytes
take zero bytes = []
take (suc n) [] = []
take (suc n) (b ∷ bytes) = b ∷ take n bytes

-- the limits bound what is taken in, on this side of the first write
unfoldable pub admit_directory :
    Limits → Text → Unpacking → Outcome PackageError (Unit {0}) × Unpacking
admit_directory limits raw s = elim (safe_relative raw) [
  | none ↦ (err (unsafe_path raw), s)
  | some _ ↦
      let counted = record s { dirs = saturating_add s.dirs 1 } in
      if ltb limits.entries (saturating_add counted.dirs (length s.seen))
      then (err too_large, counted)
      else (ok tt, counted)
]

-- the error, if one stands before the first write of a file
unfoldable pub check_file : Limits → Entry → Text → Unpacking → Option PackageError
check_file limits entry relative s =
    if any (text_eq relative) s.seen
    then some (duplicate_entry relative)
    else if ltb limits.entries (suc (length s.seen))
    then some too_large
    else if ltb limits.file_bytes (elim entry.declared [ none ↦ 0 | some n ↦ n ])
    then some too_large
    else none

abbrev pub copied : Limits → Entry → Bytes
copied limits entry = take (saturating_add limits.file_bytes 1) entry.contents

-- `io::copy` meets the reader's error only where it reads up to it
abbrev pub copy_fault : Limits → Entry → Option Text
copy_fault limits entry =
    if ltb (length entry.contents) (saturating_add limits.file_bytes 1) then entry.fault else none

-- why a file is not written: it cannot be created, or the write fails after so many bytes, or it
-- fails once they are all written
pub data WriteFault : Type 0 where
  blocked : Text → WriteFault
  cut_short : ℕ → Text → WriteFault
  unflushed : Text → WriteFault

-- a file that is written as far as its reader and the limits let it be
unfoldable pub fill_file :
    Limits → Entry → Text → Unpacking → Outcome PackageError (Unit {0}) × Unpacking
unfolding take
fill_file limits entry relative s =
    let written = record s { files = (relative, copied limits entry) ∷ s.files } in
    elim (copy_fault limits entry) [
      | some e ↦ (err (io e), written)
      | none ↦
          let counted = record written {
            total = saturating_add s.total (length (copied limits entry));
          } in
          if ltb limits.file_bytes (length (copied limits entry))
          then (err too_large, written)
          else if ltb limits.total_bytes counted.total
          then (err too_large, counted)
          else (ok tt, counted)
    ]

-- `disk` says what is wrong with a file that is to be written, where something is
module _ (disk : List (Text × Bytes) → Text → Option WriteFault) where
  unfoldable pub write_file :
      Limits → Entry → Text → Unpacking → Outcome PackageError (Unit {0}) × Unpacking
  unfolding fill_file
  write_file limits entry relative s = elim (disk s.files relative) [
    | none ↦ fill_file limits entry relative s
    | some (blocked e) ↦ (err (io e), s)
    | some (cut_short n e) ↦
        (err (io e), record s { files = (relative, take n (copied limits entry)) ∷ s.files })
    | some (unflushed e) ↦
        let filled = fill_file limits entry relative s in (filled.0 >> err (io e), filled.1)
  ]

  unfoldable pub unpack_file :
      Limits → Entry → Text → Unpacking → Outcome PackageError (Unit {0}) × Unpacking
  unfolding write_file check_file safe_relative
  unpack_file limits entry raw s = elim (safe_relative raw) [
    | none ↦ (err (unsafe_path raw), s)
    | some relative ↦ elim (check_file limits entry relative s) [
      | some e ↦ (err e, s)
      | none ↦ write_file limits entry relative (record s { seen = relative ∷ s.seen })
    ]
  ]

  unfoldable pub unpack_entry :
      Limits → Entry → Unpacking → Outcome PackageError (Unit {0}) × Unpacking
  unfolding unpack_file admit_directory
  unpack_entry limits entry s = elim entry.path [
    | err e ↦ (err (io e), s)
    | ok raw ↦ elim entry.kind [
      | directory ↦ admit_directory limits raw s
      | other kind ↦ (err (unsafe_entry raw kind), s)
      | regular ↦ unpack_file limits entry raw s
    ]
  ]

  unfoldable pub unpack_each :
      Limits → List (Outcome Text Entry) → Unpacking → Outcome PackageError (Unit {0}) × Unpacking
  unfolding unpack_entry
  unpack_each limits [] s = (ok tt, s)
  unpack_each limits (err e ∷ entries) s = (err (io e), s)
  unpack_each limits (ok entry ∷ entries) s =
      let next = unpack_entry limits entry s in
      elim next.0 [ err e ↦ (err e, next.1) | ok _ ↦ unpack_each limits entries next.1 ]

  -- the outcome, and the files that are on the disk in either case
  unfoldable pub unpack :
      Limits
      → Outcome Text (List (Outcome Text Entry))
      → Outcome PackageError (Unit {0}) × List (Text × Bytes)
  unfolding unpack_each
  unpack limits (err e) = (err (io e), [])
  unpack limits (ok entries) =
      let end =
        unpack_each limits entries (record { seen = []; total = 0; dirs = 0; files = [] }) in
      (end.0, end.1.files)

-- `verify_directory`, on the walk of the directory
unfoldable pub verify_directory :
    (Bytes → Bytes)
    → Outcome Text (List (Text × Bytes))
    → Text
    → Outcome PackageError DirectoryDigest
verify_directory sha256 walked expected =
    let expected_hex : Text = elim (strip_prefix (codes "sha256:") expected) [
      | none ↦ expected
      | some rest ↦ rest
    ] in
    elim walked [
      | err e ↦ err (io e)
      | ok files ↦
          let digest = Signature.compute sha256 files in
          if text_eq (to_ascii_lowercase expected_hex) (to_ascii_lowercase (hex digest))
          then ok digest
          else err (
              digest_mismatch (codes "sha256:" ++ to_ascii_lowercase expected_hex)
                (codes "sha256:" ++ hex digest))
    ]
