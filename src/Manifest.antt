-- ===== src/Manifest.antt =====
-- crates/stanchion-abi/src/manifest.rs: a plugin's manifest and its validation. A semver version
-- or requirement is its canonical text; `semver` itself is a parameter where it is called.
pub mod Validation
use stanchion.Prelude.{
  ℕ, Bool, true, false, not, ◌&&◌, ◌||◌, Option, none, some, List, [], ◌∷◌, ◌++◌, ◌==◌, leb,
  if◌then◌else◌, all, length, Text, Map, codes, text_eq, is_empty, ends_with, is_ascii_alphanumeric,
  split,
}
use stanchion.Value.{Table}

pub data PluginType : Type 0 where
  lua wasm : PluginType

-- `Version` and `VersionReq` of the semver crate
abbrev pub Version : Type 0
Version = Text

abbrev pub VersionReq : Type 0
VersionReq = Text

pub record DetailedDependency : Type 0 where
  pub version : VersionReq
  pub optional : Bool

pub data DependencySpec : Type 0 where
  requirement_only : VersionReq → DependencySpec
  detailed : DetailedDependency → DependencySpec

unfoldable pub requirement : DependencySpec → VersionReq
requirement (requirement_only r) = r
requirement (detailed d) = d.version

unfoldable pub is_optional : DependencySpec → Bool
is_optional (requirement_only r) = false
is_optional (detailed d) = d.optional

pub record Budget : Type 0 where
  pub max_instructions : ℕ
  pub memory_bytes : Option ℕ

pub record Manifest : Type 0 where
  pub name : Text
  pub version : Option Version
  pub plugin_type : PluginType
  pub entry : Text
  pub dependencies : Map DependencySpec
  pub capabilities : Map Table
  pub rocks : Map Text
  pub config : Table
  pub budget : Option Budget
  pub dir : Text

unfoldable pub effective_version : Manifest → Version
effective_version m = elim m.version [ some v ↦ v | none ↦ codes "0.0.0" ]

unfoldable pub is_name_byte : ℕ → Bool
is_name_byte c = is_ascii_alphanumeric c || c == b'-' || c == b'_' || c == b'.'

-- the length in bytes, which is that in characters, since only ASCII passes
unfoldable pub is_valid_name : Text → Bool
unfolding is_name_byte is_empty
is_valid_name name =
    not (is_empty name)
    && leb (length name) 128
    && all is_name_byte name
    && not (text_eq name (codes "."))
    && not (text_eq name (codes ".."))

-- `std::path::Component`, on a system whose separator is `/`
pub data Component : Type 0 where
  root_dir cur_dir parent_dir : Component
  normal : Text → Component

-- a piece between separators; `first` is set at the start of the path
unfoldable pub component : Bool → Text → Option Component
component first piece =
    if is_empty piece
    then none
    else if text_eq piece (codes ".")
    then (if first then some cur_dir else none)
    else if text_eq piece (codes "..")
    then some parent_dir
    else some (normal piece)

abbrev pub push_component : Option Component → List Component → List Component
push_component none cs = cs
push_component (some c) cs = c ∷ cs

unfoldable pub later_components : List Text → List Component
unfolding component
later_components [] = []
later_components (p ∷ ps) = push_component (component false p) (later_components ps)

-- the pieces of a path split at `/`; a leading separator is the root
unfoldable pub first_components : List Text → List Component
first_components [] = []
first_components (p ∷ []) = push_component (component true p) []
first_components (p ∷ q ∷ ps) =
    if is_empty p
    then root_dir ∷ later_components (q ∷ ps)
    else push_component (component true p) (later_components (q ∷ ps))

-- `Path::components`: repeated separators, a trailing one and inner `.` are dropped
unfoldable pub components : Text → List Component
unfolding first_components later_components
components path = first_components (split b'/' path)

abbrev pub is_confined : Component → Bool
is_confined (normal _) = true
is_confined cur_dir = true
is_confined parent_dir = false
is_confined root_dir = false

pub data ManifestError : Type 0 where
  bad_name empty_entry parent_entry absolute_entry not_lua not_wasm : ManifestError

pub data Checked : Type 0 where
  fine : Checked
  refused : ManifestError → Checked

infixl 5 ◌>>◌
abbrev pub ◌>>◌ : Checked → Checked → Checked
fine >> k = k
refused e >> k = refused e

unfoldable pub validate_name : Text → Checked
validate_name name = if is_valid_name name then fine else refused bad_name

-- the loop of `validate_entry_path`
check_components : List Component → Checked
check_components [] = fine
check_components (normal _ ∷ cs) = check_components cs
check_components (cur_dir ∷ cs) = check_components cs
check_components (parent_dir ∷ cs) = refused parent_entry
check_components (root_dir ∷ cs) = refused absolute_entry

unfoldable pub validate_entry_path : Text → Checked
unfolding check_components
validate_entry_path entry =
    if is_empty entry then refused empty_entry else check_components (components entry)

unfoldable pub check_suffix : PluginType → Text → Checked
check_suffix lua entry = if ends_with (codes ".lua") entry then fine else refused not_lua
check_suffix wasm entry = if ends_with (codes ".wasm") entry then fine else refused not_wasm

-- `Manifest::validate`
unfoldable pub validate : Manifest → Checked
unfolding validate_name validate_entry_path check_suffix
validate m =
    validate_name m.name >> (validate_entry_path m.entry >> check_suffix m.plugin_type m.entry)
