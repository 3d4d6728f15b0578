-- ===== src/Installer.antt =====
-- crates/stanchion-dist/src/install.rs: `Installer`, which stages a build beside the plugin root's
-- directories, and `Staged`, which is committed or discarded. The plugin root is a `Disk`; the index,
-- the source of packages, the reader of archives, the host and the faults of the file system are
-- parameters.
pub mod Keeping
pub mod Pinned
pub mod PluginRoot
pub mod Committing
pub mod Discarding
pub mod Checking
pub mod Moving
pub mod Staging
use stanchion.Prelude.{
  ℕ, Bool, true, false, not, ◌&&◌, Option, none, some, List, [], ◌∷◌, ◌++◌, if◌then◌else◌, any,
  is_some, ◌==◌, Outcome, ok, err, ◌>>=◌ as ◌>>=?◌, map_err, Text, text_eq, codes,
}
use stanchion.Value.{Value}
use stanchion.Manifest.{Manifest, Version, VersionReq, effective_version}
use stanchion.Signature.{Bytes, DirectoryDigest}
use stanchion.Lock.{
  LockError, digest_mismatch, Lockfile, LockedPlugin, bare_hex, eq_ignore_ascii_case, from_digest,
  at_version, signed_by, issued_by, fetched_from,
}
use stanchion.Lock
use stanchion.Registry.{Host, FailureReason, read_manifest}
use stanchion.Upgrade.{UpgradeReview, between}
use stanchion.Upgrade
use stanchion.Index.{
  IndexError, no_match, Release, PluginReleases, Semver, release_hex, validate_plugin_name, exact,
  with_field, best_match,
}
use stanchion.Package.{PackageError, Limits, Entry, unpack, verify_directory}
use stanchion.Installer.PluginRoot.{
  Disk, Directory, Faults, put, already_exists, create_dir_all, create_dir, set_permissions,
  read_dir, remove_dir_all, rename,
}

pub data SourceError : Type 0 where
  not_found unsupported transport malformed insecure : Text → SourceError

-- what a `Mismatch` message tells
pub data Mismatch : Type 0 where
  unreadable : Text → FailureReason → Mismatch
  contains_other : Text → Text → Mismatch
  declares_other : Text → Version → Version → Mismatch

pub data InstallError : Type 0 where
  index_error : IndexError → InstallError
  source_error : SourceError → InstallError
  package_error : PackageError → InstallError
  no_source : Text → InstallError
  lock_error : LockError → InstallError
  mismatch : Mismatch → InstallError
  io : Text → InstallError

-- the code that the installer stands on: the file system, the readers of manifests and archives, and
-- semver
pub record System : Type 0 where
  pub faults : Faults
  pub host : Host Disk
  pub read_archive : Bytes → Outcome Text (List (Outcome Text Entry))
  pub semver : Semver
  pub version_le : Version → Version → Bool
  pub float_eq : ℕ → ℕ → Bool

-- its root is the `Disk`
pub record Installer : Type 0 where
  pub releases : Text → Outcome IndexError PluginReleases
  pub fetch : Text → Outcome SourceError Bytes
  pub limits : Limits

-- `staging` and `target` are names in the root
pub record Staged : Type 0 where
  pub name : Text
  pub release : Release
  pub digest : DirectoryDigest
  pub manifest : Manifest
  pub review : Option UpgradeReview
  pub staging : Text
  pub target : Text

-- a step on the plugin root that can fail
abbrev pub Action : Type 0 → Type 0
Action A = Disk → Outcome InstallError A × Disk

infixl 5 ◌>>=◌ ◌>>◌
abbrev pub ◌>>=◌ : {A B : Type 0} → Action A → (A → Action B) → Action B
◌>>=◌ action next disk = elim (action disk).0 [
  | err e ↦ (err e, (action disk).1)
  | ok a ↦ next a (action disk).1
]

abbrev pub ◌>>◌ : {B : Type 0} → Action (Unit {0}) → Action B → Action B
action >> next = action >>= λ _. next

abbrev pub pure : {A : Type 0} → A → Action A
pure a disk = (ok a, disk)

abbrev pub lift : {A : Type 0} → Outcome InstallError A → Action A
lift outcome disk = (outcome, disk)

abbrev pub inspect : {A : Type 0} → (Disk → Outcome InstallError A) → Action A
inspect look disk = (look disk, disk)

abbrev pub lift_io : (Disk → Outcome Text (Unit {0}) × Disk) → Action (Unit {0})
lift_io call disk = (map_err io (call disk).0, (call disk).1)

-- `let _ = …`
abbrev pub ignore : (Disk → Outcome Text (Unit {0}) × Disk) → Action (Unit {0})
ignore call disk = (ok tt, (call disk).1)

unfoldable pub staging_name : Text → Text
staging_name name = b'.' ∷ (name ++ codes ".staging")

-- `Path::file_stem`: what stands before the last dot, where that is not the first character
abbrev or_whole : Text → Option Text → Text
or_whole name none = name
or_whole name (some []) = name
or_whole name (some (c ∷ stem)) = c ∷ stem

unfoldable pub before_last_dot : Text → Option Text
before_last_dot [] = none
before_last_dot (c ∷ name) = elim (before_last_dot name) [
  | some stem ↦ some (c ∷ stem)
  | none ↦ if c == b'.' then some [] else none
]

unfoldable pub file_stem : Text → Text
unfolding before_last_dot
file_stem name = or_whole name (before_last_dot name)

-- `target.with_extension("previous")`
unfoldable pub previous_name : Text → Text
unfolding file_stem
previous_name name = file_stem name ++ codes ".previous"

abbrev pub manifest_file : Text
manifest_file = codes "plugin.toml"

unfoldable pub has_manifest : Option Directory → Bool
has_manifest none = false
has_manifest (some dir) = any (λ (file : Text × Bytes). text_eq file.0 manifest_file) dir.files

abbrev or_missing : {A : Type 0} → InstallError → Option A → Outcome InstallError A
or_missing e none = err e
or_missing e (some a) = ok a

abbrev version_of : Option LockedPlugin → Option Version
version_of none = none
version_of (some pin) = pin.version

-- a pin overrides what the index says the digest is
unfoldable pub check_pin : Text → Release → Lockfile → Outcome InstallError (Unit {0})
check_pin name release lockfile = elim (Lock.get lockfile name) [
  | none ↦ ok tt
  | some pin ↦
      if eq_ignore_ascii_case (bare_hex pin.digest) (release_hex release)
      then ok tt
      else err (lock_error (digest_mismatch name pin.digest release.digest))
]

unfoldable pub check_name : Text → Manifest → Outcome InstallError (Unit {0})
check_name name manifest =
    if text_eq manifest.name name then ok tt else err (mismatch (contains_other name manifest.name))

unfoldable pub check_version : Text → Release → Manifest → Outcome InstallError (Unit {0})
check_version name release manifest =
    if text_eq (effective_version manifest) release.version
    then ok tt
    else err (mismatch (declares_other name release.version (effective_version manifest)))

module _ (system : System) where
  -- `if name.exists() { remove_dir_all(name)? }`
  unfoldable pub clear_away : Text → Action (Unit {0})
  unfolding remove_dir_all
  clear_away name disk = elim (disk name) [
    | none ↦ (ok tt, disk)
    | some _ ↦ lift_io (remove_dir_all system.faults name) disk
  ]

  unfoldable pub staging_dir : Text → Action Text
  unfolding staging_name create_dir_all clear_away create_dir set_permissions
  staging_dir name = do
    lift_io (create_dir_all system.faults)
    let staging = staging_name name
    clear_away staging
    lift_io (create_dir system.faults staging)
    lift_io (set_permissions system.faults staging 0o700)
    pure staging

  unfoldable pub check_staged : Text → Action (Unit {0})
  unfolding read_dir
  check_staged staging disk = elim (read_dir system.faults staging disk) [
    | err reason ↦ (err (io reason), disk)
    | ok empty ↦ (if empty then ok tt else err (io already_exists), disk)
  ]

  unfoldable pub read_installed : Text → Disk → Option Manifest
  unfolding has_manifest
  read_installed target disk =
      if has_manifest (disk target)
      then elim (read_manifest system.host disk target) [
        | ok manifest ↦ some manifest
        | err _ ↦ none
      ]
      else none

  abbrev review_of : Manifest → Option Manifest → Option UpgradeReview
  review_of manifest none = none
  review_of manifest (some installed) =
      some (between system.float_eq system.version_le installed manifest)

  abbrev with_files : List (Text × Bytes) → Option Directory → Directory
  with_files files none = record { mode = system.faults.default_mode; files = files }
  with_files files (some dir) = record dir { files = files }

  -- what was written stays there, whether unpacking ends well or not
  unfoldable pub unpack_into : Limits → Text → Bytes → Action (Unit {0})
  unfolding unpack
  unpack_into limits staging archive disk =
      let end = unpack (system.faults.write disk) limits (system.read_archive archive) in
      (map_err package_error end.0, put staging (some (with_files end.1 (disk staging))) disk)

  -- the checks of what was unpacked
  unfoldable pub check_package : Text → Release → Text → Disk → Outcome InstallError Staged
  check_package name release staging disk =
      map_err package_error
        (verify_directory system.host.sha256 (system.host.walk disk staging) release.digest)
      >>=? λ digest.
          (map_err (λ reason. mismatch (unreadable name reason))
              (read_manifest system.host disk staging)
            >>=? λ manifest.
                (check_name name manifest >>=? λ _.
                (check_version name release manifest >>=? λ _. ok (record {
                  name = name;
                  release = release;
                  digest = digest;
                  manifest = manifest;
                  review = review_of manifest (read_installed name disk);
                  staging = staging;
                  target = name;
                }))))

  -- a staging directory does not outlive a failure
  unfoldable pub or_remove : {A : Type 0} → Text → Action A → Action A
  or_remove staging action disk = elim (action disk).0 [
    | ok a ↦ action disk
    | err e ↦ (err e, (remove_dir_all system.faults staging (action disk).1).1)
  ]

  module _ (installer : Installer) where
    -- the closure of `stage_release`
    unfoldable pub unpack_checked : Text → Release → Bytes → Text → Action Staged
    unpack_checked name release archive staging = do
      unpack_into installer.limits staging archive
      inspect (check_package name release staging)

    -- `stage_release`, once there is a staging directory
    unfoldable pub stage_into : Text → Release → Bytes → Text → Action Staged
    stage_into name release archive staging = do
      or_remove staging (check_staged staging)
      or_remove staging (unpack_checked name release archive staging)

    unfoldable pub stage_archive : Text → Release → Bytes → Action Staged
    stage_archive name release archive = do
      staging ← staging_dir name
      stage_into name release archive staging

    -- what `stage_release` does before it touches the disk
    unfoldable pub fetch_checked : Text → Release → Lockfile → Outcome InstallError Bytes
    unfolding check_pin
    fetch_checked name release lockfile = map_err index_error (validate_plugin_name name) >>=? λ _.
        (check_pin name release lockfile >>=? λ _.
        (or_missing (no_source name) release.source >>=? λ reference.
        map_err source_error (installer.fetch reference)))

    unfoldable pub stage_release : Text → Release → Lockfile → Action Staged
    stage_release name release lockfile = do
      archive ← lift (fetch_checked name release lockfile)
      stage_archive name release archive

    -- the release that `stage` takes: the pinned one, or the best
    unfoldable pub choose :
        Text → VersionReq → Lockfile → PluginReleases → Outcome InstallError Release
    choose name requirement lockfile releases = elim (version_of (Lock.get lockfile name)) [
      | some pinned ↦
          or_missing (index_error (no_match name (b'=' ∷ pinned))) (exact releases pinned)
      | none ↦
          or_missing (index_error (no_match name requirement))
            (best_match system.semver releases requirement)
    ]

    unfoldable pub stage : Text → VersionReq → Lockfile → Action Staged
    stage name requirement lockfile = do
      releases ← lift (map_err index_error (installer.releases name))
      release ← lift (choose name requirement lockfile releases)
      stage_release name release lockfile

    unfoldable pub stage_upgrade : Text → VersionReq → Lockfile → Action Staged
    stage_upgrade name requirement lockfile = do
      releases ← lift (map_err index_error (installer.releases name))
      release ←
          (lift (
            or_missing (index_error (no_match name requirement))
              (best_match system.semver releases requirement)))
      stage_release name release lockfile

  -- whether there was an installed version, which is then set aside
  unfoldable pub set_aside : Text → Text → Action Bool
  unfolding clear_away rename
  set_aside target previous = do
    clear_away previous
    had_previous ← inspect (λ disk. ok (is_some (disk target)))
    (if had_previous then lift_io (rename system.faults target previous) else pure tt)
    pure had_previous

  unfoldable pub put_in_place : Bool → Text → Text → Text → Action (Unit {0})
  unfolding remove_dir_all rename
  put_in_place had_previous staging target previous disk =
      let moved = rename system.faults staging target disk in
      elim moved.0 [
        | ok _ ↦ (ok tt, moved.1)
        | err reason ↦
            let restored =
              if had_previous then (rename system.faults previous target moved.1).1 else moved.1 in
            (err (io reason), (remove_dir_all system.faults staging restored).1)
      ]

  unfoldable pub pin_of : Staged → LockedPlugin
  pin_of staged = with_field staged.release.source fetched_from (
      with_field staged.release.issuer issued_by (
        with_field staged.release.signer signed_by
          (at_version (from_digest staged.digest) (effective_version staged.manifest))))

  -- the previous version, once the new one is in place
  unfoldable pub tidy : Bool → Text → Disk → Outcome Text (Unit {0}) × Disk
  unfolding remove_dir_all
  tidy had_previous previous disk =
      if had_previous then remove_dir_all system.faults previous disk else (ok tt, disk)

  unfoldable pub commit : Staged → Action LockedPlugin
  commit staged = do
    let previous = previous_name staged.target
    had_previous ← set_aside staged.target previous
    put_in_place had_previous staged.staging staged.target previous
    ignore (tidy had_previous previous)
    pure (pin_of staged)

  unfoldable pub discard : Staged → Action (Unit {0})
  unfolding remove_dir_all
  discard staged = lift_io (remove_dir_all system.faults staged.staging)

-- `Staged::widens`: a first install always does
unfoldable pub widens : Staged → Bool
widens staged = elim staged.review [ none ↦ true | some review ↦ Upgrade.widens review ]
