-- ===== src/Tests/InstallerTests.antt =====
-- An upgrade of one plugin: a release that the lockfile pins, an archive with its manifest, and a root
-- that holds the old version.
use stanchion.Prelude.{
  ends_with, split, strip_prefix, to_ascii_lowercase, is_ascii_alphanumeric, all, ◌⊎◌, true, false,
  ◌≡◌, ◌≢◌, refl, Option, none, some, List, [], ◌∷◌, arith, Outcome, ok, err, Text, codes, lt,
  text_eq, lookup, if◌then◌else◌,
}
use stanchion.Manifest.{effective_version, validate, components, is_valid_name, Manifest, lua}
use stanchion.Value.{nil, empty}
use stanchion.Signature
use stanchion.Upgrade
use stanchion.Signature.{Bytes, Signer, DirectoryDigest, identity, issuer}
use stanchion.Lock
use stanchion.Lock.{
  bare_hex, eq_ignore_ascii_case, get, Lockfile, LockedPlugin, check, pin, empty_lock, new_pin,
  at_version,
}
use stanchion.Registry.{read_manifest, Host, value}
use stanchion.Index.{release_hex, validate_plugin_name, exact, Release, Semver}
use stanchion.Package.{verify_directory, Entry, regular}
use stanchion.Installer.PluginRoot.{Disk, Directory, Faults, put}
use stanchion.Installer.{
  put_in_place, set_aside, read_installed, check_version, check_name, System, Installer, Staged,
  InstallError, staging_name, previous_name, stage, commit, pin_of, choose, stage_release,
  fetch_checked, stage_archive, stage_into, unpack_checked, staging_dir, check_package,
  check_staged, or_remove, unpack_into,
}
use stanchion.Installer.Staging.{IsChosen, stage-ok}
use stanchion.Installer.Discarding.{stage-err}
use stanchion.Installer.Committing.{Replaces, commit-Replaces}
use stanchion.Installer.Pinned.{commit-check, is_byte}

abbrev name : Text
name = codes "clock"

abbrev manifest : Manifest
manifest = record {
  name = name;
  version = some (codes "2");
  plugin_type = lua;
  entry = codes "init.lua";
  dependencies = [];
  capabilities = [];
  rocks = [];
  config = empty;
  budget = none;
  dir = [];
}

-- no call fails
abbrev faults : Faults
faults = record {
  create_root = λ disk. none;
  create = λ disk n. none;
  protect = λ disk n. none;
  list = λ disk n. none;
  remove = λ disk n. none;
  move = λ disk from to. none;
  write = λ disk files path. none;
  default_mode = 0o755;
}

abbrev files_of : Option Directory → Outcome Text (List (Text × Bytes))
files_of none = err (codes "not found")
files_of (some dir) = ok dir.files

-- the hash of the toy host is one byte
abbrev host : Host Disk
host = record {
  parse_manifest = λ disk dir. ok manifest;
  walk = λ disk dir. files_of (disk dir);
  read_file = λ disk dir entry. ok [];
  sha256 = λ bytes. 0xab ∷ [];
  reload_plugin = λ disk item context. (disk, ok (0, []));
  unload = λ disk ty n. disk;
  call = λ disk handle method args. (disk, value nil);
  revoke_capability = λ disk handle capability. (disk, true);
}

abbrev archive : List (Outcome Text Entry)
archive =
    ok (record {
      path = ok (codes "plugin.toml");
      kind = regular;
      declared = some 2;
      contents = 7 ∷ 8 ∷ [];
      fault = none;
    })
    ∷ []

abbrev semver : Semver
semver = record { cmp = λ a b. lt; matches = λ requirement version. true }

abbrev system : System
system = record {
  faults = faults;
  host = host;
  read_archive = λ bytes. ok archive;
  semver = semver;
  version_le = λ a b. false;
  float_eq = λ a b. true;
}

abbrev release : Release
release = record {
  version = codes "2";
  digest = codes "sha256:AB";
  source = some (codes "https://example.org/clock.tar.gz");
  signer = none;
  issuer = none;
  capabilities = [];
  yanked = false;
  yanked_reason = none;
}

abbrev installer : Installer
installer = record {
  releases = λ n.
      ok (record {
        schema = 1;
        name = name;
        updated = none;
        expires = none;
        releases = release ∷ [];
      });
  fetch = λ reference. ok [];
  limits = record { entries = 2; total_bytes = 9; file_bytes = 9 };
}

abbrev lockfile : Lockfile
lockfile = record {
  version = 1;
  plugins =
      (
        name,
        record {
          digest = codes "sha256:ab";
          version = some (codes "2");
          signer = none;
          issuer = none;
          source = none;
        },
      )
      ∷ [];
}

abbrev old : Directory
old = record { mode = 0o755; files = (codes "plugin.toml", 1 ∷ []) ∷ [] }

abbrev root : Disk
root n = if text_eq n name then some old else none

abbrev staged : Staged
staged = record {
  name = name;
  release = release;
  digest = Signature.compute host.sha256 ((codes "plugin.toml", 7 ∷ 8 ∷ []) ∷ []);
  manifest = record manifest { dir = staging_name name };
  review = some (
      Upgrade.between (λ a b. true) (λ a b. false) (record manifest { dir = name })
        (record manifest { dir = staging_name name }));
  staging = staging_name name;
  target = name;
}

clock_staged : (stage system installer name (codes "*") lockfile root).0 ≡ ok staged
unfolding stage choose exact stage_release fetch_checked stage_archive stage_into unpack_checked
    staging_dir check_package check_staged or_remove unpack_into get lookup text_eq
    validate_plugin_name is_valid_name is_ascii_alphanumeric eq_ignore_ascii_case to_ascii_lowercase
    bare_hex strip_prefix release_hex components split verify_directory Signature.hex
    Signature.to_hex Signature.compute read_manifest validate ends_with check_name check_version
    effective_version read_installed
clock_staged = refl

stage-ok_example :
    IsChosen system name lockfile staged (stage system installer name (codes "*") lockfile root).1
stage-ok_example = stage-ok system installer name lockfile (codes "*") root clock_staged

-- a host whose hash of the same files is another one, so that staging fails
abbrev other_system : System
other_system = record system { host = record host { sha256 = λ bytes. 0 ∷ [] } }

stage-err_example :
    ((k : Text)
      → k ≢ staging_name name
      → (stage other_system installer name (codes "*") lockfile root).1 k ≡ root k)
    × ((e : InstallError)
        → (stage other_system installer name (codes "*") lockfile root).0 ≡ err e
        → ((stage other_system installer name (codes "*") lockfile root).1 (staging_name name)
            ≡ none)
          ⊎ ((stage other_system installer name (codes "*") lockfile root).1 (staging_name name)
              ≡ root (staging_name name)))
stage-err_example =
    stage-err other_system installer name lockfile (codes "*") (λ disk. refl, λ disk. refl) root

abbrev new : Directory
new = record { mode = 0o700; files = (codes "plugin.toml", 7 ∷ 8 ∷ []) ∷ [] }

abbrev staged_root : Disk
staged_root = put (staging_name name) (some new) root

clock_previous : previous_name name ≢ name
unfolding previous_name
clock_previous e = ground arith

clock_committed : (commit system staged staged_root).0 ≡ ok (pin_of system staged)
unfolding commit set_aside text_eq previous_name staging_name put_in_place
clock_committed = refl

commit-Replaces_example : Replaces staged staged_root (commit system staged staged_root)
commit-Replaces_example = commit-Replaces system staged staged_root refl clock_previous

clock_bytes : all is_byte staged.digest.root ≡ true
unfolding Signature.compute
clock_bytes = refl

commit-check_example :
    ((signer : Signer)
      → ((s : Text) → staged.release.signer ≡ some s → identity signer ≡ some s)
      → ((i : Text) → staged.release.issuer ≡ some i → issuer signer ≡ some i)
      → check
          (pin empty_lock staged.manifest.name (pin_of system staged))
          staged.manifest
          staged.digest
          signer
        ≡ Lock.ok tt)
    × ((m : Manifest) (d : DirectoryDigest) (signer : Signer)
        → m.name ≢ staged.manifest.name
        → check (pin empty_lock staged.manifest.name (pin_of system staged)) m d signer
          ≡ check empty_lock m d signer)
commit-check_example = commit-check system staged staged_root empty_lock clock_committed clock_bytes

-- A plugin whose name ends in `.previous` is its own previous version: a commit deletes it before the
-- new version is moved in, so a move that fails leaves nothing of it.
abbrev unlucky : Text
unlucky = codes "clock.previous"

unlucky_previous : previous_name unlucky ≡ unlucky
unfolding previous_name
unlucky_previous = refl

abbrev stuck_system : System
stuck_system = record system {
  faults = record faults { move = λ disk from to. some (codes "busy") };
}

unlucky_lost :
    (commit stuck_system
        (record staged { target = unlucky; staging = staging_name unlucky })
        (put (staging_name unlucky) (some new) (put unlucky (some old) root))).1
      unlucky
    ≡ none
unfolding commit set_aside text_eq previous_name staging_name put_in_place
unlucky_lost = refl

-- The staging directory of `clock` is the directory of a plugin by a usable name.
clock_clash : is_valid_name (staging_name name) ≡ true
unfolding staging_name is_valid_name is_ascii_alphanumeric text_eq
clock_clash = refl
