-- ===== src/Rocks/Command/Safety.antt =====
-- What reaches the `luarocks` command from a manifest.
use stanchion.Prelude.{
  ◌≡◌, true, ◌||◌, ◌⊎◌, inl, inr, some, List, [], ◌∷◌, arith, all, Text, codes,
  is_ascii_alphanumeric, to_ascii_lowercase, ends_with, Option-cases,
}
use stanchion.Rocks.Requirement.{Requirement, RocksError, ok, err, pinned_version}
use stanchion.Rocks.Command.{
  is_bare_char, validate_bare_argument, validate_rock_name, validate_rock_version, install_args,
}

-- The text starts with an ASCII letter or digit, and goes on with those and `.`, `_`, `-`.
abbrev pub IsBare : Text → Type 0
IsBare [] = ⊥
IsBare (c ∷ s) = (is_ascii_alphanumeric c ≡ true) × (all is_bare_char (c ∷ s) ≡ true)

abbrev pub IsRockFile : Text → Type 0
IsRockFile name =
    (ends_with (codes ".rock") (to_ascii_lowercase name)
      || ends_with (codes ".rockspec") (to_ascii_lowercase name))
    ≡ true

pub validate_bare_argument-IsBare :
    (value : Text) → validate_bare_argument value ≡ ok tt → IsBare value
unfolding validate_bare_argument
validate_bare_argument-IsBare [] h = ground arith
validate_bare_argument-IsBare (c ∷ s) h = ground arith

pub validate_rock_name-IsBare :
    (name : Text) → validate_rock_name name ≡ ok tt → IsBare name × ¬ IsRockFile name
unfolding validate_rock_name
validate_rock_name-IsBare name h = (validate_bare_argument-IsBare name (ground arith), ground arith)

-- The command is run with `install -- name` and at most one more argument, a version; both are
-- bare words, and the name is no `.rock` or `.rockspec` file.
pub install_args-IsBare :
    (name : Text) (requirement : Requirement) {args : List Text}
    → install_args name requirement ≡ ok args
    → IsBare name
      × (¬ IsRockFile name)
      × ((args ≡ codes "install" ∷ codes "--" ∷ name ∷ [])
          ⊎ ((version : Text) × (args ≡ codes "install" ∷ codes "--" ∷ name ∷ version ∷ [])
              × IsBare version
              × (pinned_version requirement ≡ some version)))
unfolding install_args validate_rock_version
install_args-IsBare name requirement h = elim (Option-cases (pinned_version requirement)) [
  | inl e ↦
      let (bare, no_file) = validate_rock_name-IsBare name (ground arith) in
      (bare, no_file, inl (ground arith))
  | inr (version, e) ↦
      let (bare, no_file) = validate_rock_name-IsBare name (ground arith) in
      let v = validate_bare_argument-IsBare version (ground arith) in
      (bare, no_file, inr (version, ground arith, v, e))
]

-- A name or a version that the grammar refuses is never handed to the process.
pub install_args-refused :
    (name : Text) (requirement : Requirement) {e : RocksError}
    → validate_rock_name name ≡ err e
    → install_args name requirement ≡ err e
unfolding install_args
install_args-refused name requirement h = ground arith
