-- ===== src/Installer/Keeping.antt =====
-- Which directories of the plugin root a step leaves alone.
use stanchion.Prelude.{ℕ, false, ◌≡◌, arith, Outcome, ok, Text, text_eq}
use stanchion.Lock.{Lockfile}
use stanchion.Index.{Release}
use stanchion.Signature.{Bytes}
use stanchion.Package.{Limits}
use stanchion.Installer.PluginRoot.{
  Disk, Faults, create_dir_all, create_dir, set_permissions, remove_dir_all, rename,
}
use stanchion.Installer.{
  System, Installer, Action, staging_name, clear_away, staging_dir, check_staged, unpack_into,
  or_remove, unpack_checked, stage_into, stage_archive, stage_release,
}

-- The directory `k` is as it was.
abbrev pub Keeps {ℓ} : {E : Type ℓ} {A : Type 0} → Text → (Disk → Outcome E A × Disk) → Type 0
Keeps k step = (disk : Disk) → (step disk).1 k ≡ disk k

module _ (faults : Faults) (k : Text) where
  create_dir_all-Keeps : Keeps k (create_dir_all faults)
  unfolding create_dir_all
  create_dir_all-Keeps disk = ground arith

  module _ (name : Text) (apart : text_eq k name ≡ false) where
    create_dir-Keeps : Keeps k (create_dir faults name)
    unfolding create_dir
    create_dir-Keeps disk = ground arith

    set_permissions-Keeps : (mode : ℕ) → Keeps k (set_permissions faults name mode)
    unfolding set_permissions
    set_permissions-Keeps mode disk = ground arith

    pub remove_dir_all-Keeps : Keeps k (remove_dir_all faults name)
    unfolding remove_dir_all
    remove_dir_all-Keeps disk = ground arith

    rename-Keeps : (to : Text) → text_eq k to ≡ false → Keeps k (rename faults name to)
    unfolding rename
    rename-Keeps to apart' disk = ground arith

module _ (system : System) (k name : Text) (apart : text_eq k name ≡ false) where
  clear_away-Keeps : Keeps k (clear_away system name)
  unfolding clear_away
  clear_away-Keeps disk = ground (arith, remove_dir_all-Keeps system.faults k name apart disk)

  unpack_into-Keeps :
      (limits : Limits) (archive : Bytes) → Keeps k (unpack_into system limits name archive)
  unfolding unpack_into
  unpack_into-Keeps limits archive disk = ground arith

  or_remove-Keeps :
      {A : Type 0} (action : Action A) → Keeps k action → Keeps k (or_remove system name action)
  unfolding or_remove
  or_remove-Keeps action h disk =
      ground (arith, h disk, remove_dir_all-Keeps system.faults k name apart (action disk).1)

module _ (system : System) {k : Text} where
  check_staged-Keeps : (name : Text) → Keeps k (check_staged system name)
  unfolding check_staged
  check_staged-Keeps name disk = ground arith

pub staging_dir-name :
    (system : System) (name : Text) (disk : Disk) {staging : Text}
    → (staging_dir system name disk).0 ≡ ok staging
    → staging ≡ staging_name name
unfolding staging_dir
staging_dir-name system name disk h = ground arith

module _ (system : System) (k name : Text) (apart : text_eq k (staging_name name) ≡ false) where
  staging_dir-Keeps : Keeps k (staging_dir system name)
  unfolding staging_dir
  staging_dir-Keeps disk = grind (
    arith,
    create_dir_all-Keeps system.faults k,
    clear_away-Keeps system k (staging_name name) apart,
    create_dir-Keeps system.faults k (staging_name name) apart,
    set_permissions-Keeps system.faults k (staging_name name) apart 0o700,
  )

  module _ (installer : Installer) (release : Release) where
    unpack_checked-Keeps :
        (archive : Bytes)
        → Keeps k (unpack_checked system installer name release archive (staging_name name))
    unfolding unpack_checked
    unpack_checked-Keeps archive disk =
        grind (arith, unpack_into-Keeps system k (staging_name name) apart installer.limits archive)

    stage_into-Keeps :
        (archive : Bytes)
        → Keeps k (stage_into system installer name release archive (staging_name name))
    unfolding stage_into
    stage_into-Keeps archive disk = grind (
      arith,
      or_remove-Keeps system k (staging_name name) apart,
      check_staged-Keeps system {k = k} (staging_name name),
      unpack_checked-Keeps archive,
    )

    stage_archive-Keeps :
        (archive : Bytes) → Keeps k (stage_archive system installer name release archive)
    unfolding stage_archive
    stage_archive-Keeps archive disk =
        grind (
          arith,
          staging_dir-Keeps disk,
          staging_dir-name system name disk,
          stage_into-Keeps archive,
        )

    pub stage_release-Keeps :
        (lockfile : Lockfile) → Keeps k (stage_release system installer name release lockfile)
    unfolding stage_release
    stage_release-Keeps lockfile disk = grind (arith, stage_archive-Keeps)
