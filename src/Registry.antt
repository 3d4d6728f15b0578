-- ===== src/Registry.antt =====
-- crates/stanchion-registry/src/lib.rs and error.rs: the registry's state, and how it verifies,
-- looks up, reloads, removes, revokes and calls plugins. The world behind it is the record
-- `Host`: the file system, SHA-256 and the plugin runtimes, over a state `W` of their own.
pub mod Verify
pub mod Operations
pub use stanchion.Prelude.{Outcome, ok, err, ◌>>=◌, ◌>>◌, map_err}
use stanchion.Prelude.{
  ℕ, zero, suc, ◌+◌, Bool, true, false, not, ◌&&◌, ◌||◌, ◌⊎◌, inl, inr, Option, none, some, List,
  [], ◌∷◌, ◌++◌, if◌then◌else◌, get_elem?, set, remove_at, any, is_some, is_empty, Text, Map,
  lookup, insert, contains_key, codes, text_eq, keep, split,
}
use stanchion.Value.{Value}
use stanchion.Manifest.{
  Manifest, PluginType, lua, wasm, Component, root_dir, cur_dir, parent_dir, normal, components,
  Checked, fine, refused, ManifestError, validate,
}
use stanchion.Signature.{
  Bytes, Signer, unsigned, VerifyError, missing, invalid, untrusted, io, DirectoryDigest, covers,
  matches, Revocations, needs_digest,
}
use stanchion.Signature
use stanchion.Capability.{HostSetup, Policy}
use stanchion.Rocks.Version.{RockVersion}
use stanchion.Rocks.Requirement.{Requirement, RocksError, parse_requirement}
use stanchion.Rocks.Requirement
use stanchion.Rocks.Command.{RocksConfig, RockPaths}
use stanchion.Lock.{Lockfile, LockError}
use stanchion.Lock

pub data FailureReason : Type 0 where
  io_failed runtime missing_dependency : Text → FailureReason
  bad_manifest : ManifestError → FailureReason
  unparsed_manifest : Text → FailureReason
  renamed : Text → FailureReason
  retyped : PluginType → FailureReason
  already_registered : Text → FailureReason
  incompatible_dependency : Text → Text → Text → FailureReason
  unsigned_plugin : FailureReason
  signature_invalid untrusted_signer revoked : Text → FailureReason
  locked_out : LockError → FailureReason
  digest_mismatch uncovered_file : Text → FailureReason
  dependency_failed : Text → FailureReason
  dependency_cycle : List Text → FailureReason
  no_backend : PluginType → FailureReason
  bad_rock_requirement : Text → Text → FailureReason
  missing_rock : Text → Requirement → FailureReason
  incompatible_rock : Text → Requirement → RockVersion → FailureReason
  no_rocks_tree : FailureReason
  rocks_failed : RocksError → FailureReason
  unknown_outcome no_outcome : FailureReason

pub record LoadFailure : Type 0 where
  pub name : Text
  pub dir : Text
  pub reason : FailureReason

pub data RegistryError : Type 0 where
  unknown_plugin : Text → RegistryError
  reload_failed : LoadFailure → RegistryError
  backend : Text → RegistryError
  io_error : Text → Text → RegistryError
  rocks_error : RocksError → RegistryError

-- an instance is the runtime's handle to a live plugin
abbrev pub Instance : Type 0
Instance = ℕ

pub record LoadedPlugin : Type 0 where
  pub manifest : Manifest
  pub instance_of : Instance
  pub granted : List Text
  pub signer : Signer
  pub digest : Option DirectoryDigest

-- how a call on an instance ends: a value, an error, or a panic that the registry catches
pub data Called : Type 0 where
  value : Value → Called
  failed panicked : Text → Called

pub record LoadItem : Type 0 where
  pub manifest : Manifest
  pub signer : Signer
  pub digest : Option DirectoryDigest
  pub entry_bytes : Bytes

-- what the registry passes to a runtime beside the plugin
pub record LoadContext : Type 0 where
  pub setup : HostSetup
  pub policy : Policy
  pub rock_paths : List Text
  pub rocks : Option RocksConfig
  pub constructor : Text

pub record Host (W : Type 0) : Type 0 where
  -- reads and parses `<dir>/plugin.toml`
  pub parse_manifest : W → Text → Outcome FailureReason Manifest
  -- walks a directory and reads every file in it
  pub walk : W → Text → Outcome Text (List (Text × Bytes))
  pub read_file : W → Text → Text → Outcome Text Bytes
  pub sha256 : Bytes → Bytes
  -- the runtimes' part
  pub reload_plugin : W → LoadItem → LoadContext → W × Outcome Text (Instance × List Text)
  pub unload : W → PluginType → Text → W
  pub call : W → Instance → Text → List Value → W × Called
  pub revoke_capability : W → Instance → Text → W × Bool

pub record Registry : Type 0 where
  pub runtimes : List PluginType
  pub host_setup : HostSetup
  pub setup_error : Option Text
  pub policy : Policy
  pub constructor : Text
  pub plugins : List LoadedPlugin
  pub index : Map ℕ
  pub verifier : Option (DirectoryDigest → Text → Outcome VerifyError Signer)
  pub require_signatures : Bool
  pub revocations : Option Revocations
  pub lockfile : Option Lockfile
  pub rocks : Option RocksConfig
  pub rock_paths : Option RockPaths

-- `rock_path_list`
unfoldable pub rock_path_list : Registry → List Text
rock_path_list r = elim r.rock_paths [
  | none ↦ []
  | some paths ↦ keep (λ template. not (is_empty template)) (split b';' paths.path)
]

unfoldable pub load_context : Registry → LoadContext
unfolding rock_path_list
load_context r = record {
  setup = r.host_setup;
  policy = r.policy;
  rock_paths = rock_path_list r;
  rocks = r.rocks;
  constructor = r.constructor;
}

abbrev pub same_type : PluginType → PluginType → Bool
same_type lua lua = true
same_type wasm wasm = true
same_type lua wasm = false
same_type wasm lua = false

abbrev pub has_runtime : Registry → PluginType → Bool
has_runtime r ty = any (same_type ty) r.runtimes

unfoldable pub get : Registry → Text → Option LoadedPlugin
get r name = elim (lookup name r.index) [
  | none ↦ none
  | some position ↦ get_elem? r.plugins position
]

-- `remove` builds the index anew: each plugin by its place in the list
unfoldable pub rebuild : ℕ → List LoadedPlugin → Map ℕ → Map ℕ
rebuild position [] index = index
rebuild position (plugin ∷ plugins) index =
    rebuild (suc position) plugins (insert plugin.manifest.name position index)

-- whether `verify_plugin` computes a digest
abbrev wants_digest : Registry → Bool
wants_digest r =
    is_some r.verifier
    || is_some r.lockfile
    || elim r.revocations [ none ↦ false | some list ↦ not (is_empty list) ]

-- from the verifier's answer to the signer
unfoldable pub judge : Bool → Outcome VerifyError Signer → Outcome FailureReason Signer
judge required (ok signer) = ok signer
judge required (err missing) = if required then err unsigned_plugin else ok unsigned
judge required (err (untrusted m)) = err (untrusted_signer m)
judge required (err (io m)) = err (io_failed m)
judge required (err (invalid m)) = err (signature_invalid m)

unfoldable pub find_signer : Registry → Option DirectoryDigest → Text → Outcome FailureReason Signer
unfolding judge
find_signer r (some digest) dir = elim r.verifier [
  | some verify ↦ judge r.require_signatures (verify digest dir)
  | none ↦ if r.require_signatures then err unsigned_plugin else ok unsigned
]
find_signer r none dir = if r.require_signatures then err unsigned_plugin else ok unsigned

unfoldable pub check_revoked :
    Option Revocations → Option DirectoryDigest → Signer → Outcome FailureReason (Unit {0})
check_revoked none digest signer = ok tt
check_revoked (some list) digest signer = elim (Signature.check list digest signer) [
  | some reason ↦ err (revoked reason)
  | none ↦ ok tt
]

unfoldable pub check_locked :
    Option Lockfile → Manifest → Option DirectoryDigest → Signer → Outcome FailureReason (Unit {0})
check_locked none manifest digest signer = ok tt
check_locked (some lock) manifest none signer = ok tt
check_locked (some lock) manifest (some digest) signer =
    elim (Lock.check lock manifest digest signer) [
      | Lock.Result.ok _ ↦ ok tt
      | Lock.Result.err e ↦ err (locked_out e)
    ]

-- `slash_path`, and `bind_entry`
component_text : Component → Text
component_text root_dir = codes "/"
component_text cur_dir = codes "."
component_text parent_dir = codes ".."
component_text (normal part) = part

join_slash : List Component → Text
join_slash [] = []
join_slash (c ∷ []) = component_text c
join_slash (c ∷ d ∷ cs) = component_text c ++ (b'/' ∷ join_slash (d ∷ cs))

unfoldable pub slash_path : Text → Text
unfolding join_slash component_text
slash_path path = join_slash (components path)

unfoldable pub bind_entry :
    (Bytes → Bytes) → Manifest → DirectoryDigest → Bytes → Outcome FailureReason (Unit {0})
bind_entry sha256 manifest digest entry_bytes =
    let relative = slash_path manifest.entry in
    if not (covers digest relative)
    then err (uncovered_file relative)
    else if not (matches sha256 digest relative entry_bytes)
    then err (digest_mismatch relative)
    else ok tt

abbrev pub bind_if_digest :
    (Bytes → Bytes) → Manifest → Option DirectoryDigest → Bytes → Outcome FailureReason (Unit {0})
bind_if_digest sha256 manifest none entry_bytes = ok tt
bind_if_digest sha256 manifest (some digest) entry_bytes =
    bind_entry sha256 manifest digest entry_bytes

abbrev valid : Checked → Outcome FailureReason (Unit {0})
valid fine = ok tt
valid (refused e) = err (bad_manifest e)

-- the loop of `manifest::read_manifest` over the rocks
unfoldable pub check_rock_requirements : Map Text → Outcome FailureReason (Unit {0})
check_rock_requirements [] = ok tt
check_rock_requirements ((rock, raw) ∷ rocks) =
    let rest = check_rock_requirements rocks in
    elim (parse_requirement raw) [
      | Requirement.Result.ok _ ↦ rest
      | Requirement.Result.err _ ↦ err (bad_rock_requirement rock raw)
    ]

module _ {W : Type 0} (host : Host W) where
  unfoldable pub compute : W → Text → Outcome FailureReason DirectoryDigest
  compute w dir = do
    files ← map_err io_failed (host.walk w dir)
    ok (Signature.compute host.sha256 files)

  unfoldable pub digest_if : Bool → W → Text → Outcome FailureReason (Option DirectoryDigest)
  digest_if true w dir = do d ← compute w dir; ok (some d)
  digest_if false w dir = ok none

  unfoldable pub verify_plugin :
      Registry → W → Manifest → Outcome FailureReason (Signer × Option DirectoryDigest)
  unfolding check_revoked check_locked
  verify_plugin r w manifest = do
    digest ← digest_if (wants_digest r) w manifest.dir
    signer ← find_signer r digest manifest.dir
    check_revoked r.revocations digest signer
    check_locked r.lockfile manifest digest signer
    ok (signer, digest)

  unfoldable pub read_manifest : W → Text → Outcome FailureReason Manifest
  unfolding check_rock_requirements
  read_manifest w dir = do
    manifest ← host.parse_manifest w dir
    valid (validate manifest)
    check_rock_requirements manifest.rocks
    ok (record manifest { dir = dir })
