-- ===== src/Rocks/Command.antt =====
-- `RocksConfig`, `RockPaths` and the name grammar of crates/stanchion-abi/src/rocks.rs. The
-- `luarocks` process is a parameter: a function from its arguments to its standard output.
pub mod Safety
pub mod Installed
use stanchion.Prelude.{
  ℕ, Ordering, lt, eq, gt, Bool, true, false, not, ◌&&◌, ◌||◌, Option, none, some, List, [], ◌∷◌,
  ◌++◌, if◌then◌else◌, ◌==◌, all, Text, Map, lookup, insert, codes, text_eq, trim, is_empty, split,
  is_ascii_alphanumeric, to_ascii_lowercase, ends_with,
}
use stanchion.Rocks.Version.{RockVersion, parse_version, version_cmp}
use stanchion.Rocks.Requirement.{
  Requirement, RocksError, invalid_name, Result, ok, err, is_gt, pinned_version,
}

pub record RocksConfig : Type 0 where
  pub binary : Text
  pub tree : Text
  pub lua_version : Text
  pub load_c_modules : Bool

unfoldable pub new_config : Text → RocksConfig
new_config tree = record {
  binary = codes "luarocks";
  tree = tree;
  lua_version = codes "5.4";
  load_c_modules = false;
}

unfoldable pub check_c_abi : RocksConfig → Text → Result (Unit {0})
check_c_abi config runtime_version =
    if config.load_c_modules && not (text_eq config.lua_version runtime_version)
    then err (invalid_name config.lua_version)
    else ok tt

infixl 5 ◌>>=◌
abbrev pub ◌>>=◌ {ℓ κ} : {A : Type ℓ} {B : Type κ} → Result A → (A → Result B) → Result B
err e >>= f = err e
ok a >>= f = f a

infixl 5 ◌>>◌
abbrev pub ◌>>◌ {ℓ} : {B : Type ℓ} → Result (Unit {0}) → Result B → Result B
ok u >> next = next
err e >> next = err e

unfoldable pub is_bare_char : ℕ → Bool
is_bare_char c = is_ascii_alphanumeric c || c == b'.' || c == b'_' || c == b'-'

unfoldable pub validate_bare_argument : Text → Result (Unit {0})
unfolding is_bare_char
validate_bare_argument [] = err (invalid_name [])
validate_bare_argument (first ∷ rest) =
    if not (is_ascii_alphanumeric first)
    then err (invalid_name (first ∷ rest))
    else if not (all is_bare_char (first ∷ rest))
    then err (invalid_name (first ∷ rest))
    else ok tt

abbrev is_rock_file : Text → Bool
is_rock_file lower = ends_with (codes ".rock") lower || ends_with (codes ".rockspec") lower

unfoldable pub validate_rock_name : Text → Result (Unit {0})
validate_rock_name name = do
  validate_bare_argument name
  (if is_rock_file (to_ascii_lowercase name) then err (invalid_name name) else ok tt)

unfoldable pub validate_rock_version : Text → Result (Unit {0})
validate_rock_version = validate_bare_argument

-- the arguments that `RocksConfig::run` passes
abbrev pub run_args : RocksConfig → List Text → List Text
run_args config args =
    codes "--tree" ∷ config.tree ∷ codes "--lua-version" ∷ config.lua_version ∷ args

-- the arguments that `RocksConfig::install` runs the command with
unfoldable pub install_args : Text → Requirement → Result (List Text)
install_args name requirement = do
  validate_rock_name name
  elim (pinned_version requirement) [
    | some version ↦ do
      validate_rock_version version
      ok (codes "install" ∷ codes "--" ∷ name ∷ version ∷ [])
    | none ↦ ok (codes "install" ∷ codes "--" ∷ name ∷ [])
  ]

-- `str::lines`: no line after a final newline, and no `\r` before one
strip_cr : Text → Text
strip_cr [] = []
strip_cr (c ∷ []) = if c == b'\r' then [] else c ∷ []
strip_cr (c ∷ d ∷ s) = c ∷ strip_cr (d ∷ s)

drop_last_empty : List Text → List Text
drop_last_empty [] = []
drop_last_empty (l ∷ []) = if is_empty l then [] else l ∷ []
drop_last_empty (l ∷ m ∷ ls) = strip_cr l ∷ drop_last_empty (m ∷ ls)

unfoldable pub lines : Text → List Text
unfolding strip_cr drop_last_empty
lines s = drop_last_empty (split b'\n' s)

-- name and version of one line; a line with no tab is skipped
unfoldable pub row : List Text → Option (Text × RockVersion)
row (name ∷ version ∷ _) = some (name, parse_version version)
row _ = none

unfoldable pub add_version : Text → RockVersion → Map RockVersion → Map RockVersion
add_version name version installed = elim (lookup name installed) [
  | none ↦ insert name version installed
  | some current ↦
      if is_gt (version_cmp version current) then insert name version installed else installed
]

unfoldable pub add_row : Option (Text × RockVersion) → Map RockVersion → Map RockVersion
unfolding add_version
add_row none installed = installed
add_row (some (name, version)) installed = add_version name version installed

-- the loop of `RocksConfig::installed`
unfoldable pub collect : List Text → Map RockVersion → Map RockVersion
unfolding add_row row
collect [] installed = installed
collect (line ∷ rest) installed = collect rest (add_row (row (split b'\t' line)) installed)

pub record RockPaths : Type 0 where
  pub path : Text
  pub cpath : Option Text

module _ (process : Text → List Text → Result Text) where
  unfoldable pub run : RocksConfig → List Text → Result Text
  run config args = process config.binary (run_args config args)

  unfoldable pub installed : RocksConfig → Result (Map RockVersion)
  unfolding run collect lines
  installed config = do
    listing ← run config (codes "list" ∷ codes "--porcelain" ∷ [])
    ok (collect (lines listing) [])

  unfoldable pub paths : RocksConfig → Result RockPaths
  unfolding run
  paths config = do
    path ← run config (codes "path" ∷ codes "--lr-path" ∷ [])
    elim config.load_c_modules [
      | true ↦ do
        cpath ← run config (codes "path" ∷ codes "--lr-cpath" ∷ [])
        ok (record { path = trim path; cpath = some (trim cpath) })
      | false ↦ ok (record { path = trim path; cpath = none })
    ]

  unfoldable pub install : RocksConfig → Text → Requirement → Result (Unit {0})
  unfolding run install_args
  install config name requirement = do
    args ← install_args name requirement
    _ ← run config args
    ok tt
