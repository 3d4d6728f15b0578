-- ===== src/Installer/Discarding.antt =====
-- What a failed attempt to stage a plugin leaves in the plugin root.
use stanchion.Prelude.{
  false, ◌≡◌, ◌≢◌, ◌⊎◌, inl, inr, none, arith, err, Outcome-cases, Text, text_eq, text_eq_iff,
  text_eq_refl,
}
use stanchion.Manifest.{VersionReq}
use stanchion.Signature.{Bytes}
use stanchion.Lock.{Lockfile}
use stanchion.Index.{Release}
use stanchion.Installer.PluginRoot.{Disk, Faults, remove_dir_all}
use stanchion.Installer.{
  InstallError, System, Installer, Action, ◌>>=◌, staging_name, staging_dir, check_staged,
  or_remove, unpack_checked, stage_into, stage_archive, fetch_checked, stage_release, stage,
}
use stanchion.Installer.Keeping.{Keeps, staging_dir-name, stage_release-Keeps}

-- No removal of the directory fails, nor does the change of its mode.
abbrev pub IsRemovable : Faults → Text → Type 0
IsRemovable faults name =
    ((disk : Disk) → faults.remove disk name ≡ none)
    × ((disk : Disk) → faults.protect disk name ≡ none)

module _ (system : System) (name : Text)
    (removable : IsRemovable system.faults (staging_name name)) where
  or_remove-removed :
      {A : Type 0} (action : Action A) (disk : Disk) {e : InstallError}
      → (or_remove system (staging_name name) action disk).0 ≡ err e
      → (or_remove system (staging_name name) action disk).1 (staging_name name) ≡ none
  unfolding or_remove remove_dir_all
  or_remove-removed action disk h =
      ground (arith, removable.0 (action disk).1, text_eq_refl (staging_name name))

  -- The staging directory is gone, or as it was.
  staging_dir-removed :
      (disk : Disk) {e : InstallError}
      → (staging_dir system name disk).0 ≡ err e
      → ((staging_dir system name disk).1 (staging_name name) ≡ none)
        ⊎ ((staging_dir system name disk).1 (staging_name name) ≡ disk (staging_name name))
  unfolding staging_dir
  staging_dir-removed disk h =
      grind (arith, text_eq_refl (staging_name name), removable.0, removable.1)

  module _ (installer : Installer) (release : Release) where
    stage_into-removed :
        (archive : Bytes) (disk : Disk) {e : InstallError}
        → (stage_into system installer name release archive (staging_name name) disk).0 ≡ err e
        → (stage_into system installer name release archive (staging_name name) disk).1
            (staging_name name)
          ≡ none
    unfolding stage_into
    stage_into-removed archive disk h =
        let staging = staging_name name in
        let checked = or_remove system staging (check_staged system staging) disk in
        let unpacking = unpack_checked system installer name release archive staging in
        elim (Outcome-cases checked.0) [
          | inl (a, e) ↦ rw (e, ◌>>=◌) (or_remove-removed unpacking checked.1 (rw (e, ◌>>=◌) at h))
          | inr (x, e) ↦ rw (e, ◌>>=◌) (or_remove-removed (check_staged system staging) disk e)
        ]

    stage_archive-removed :
        (archive : Bytes) (disk : Disk) {e : InstallError}
        → (stage_archive system installer name release archive disk).0 ≡ err e
        → ((stage_archive system installer name release archive disk).1 (staging_name name) ≡ none)
          ⊎ ((stage_archive system installer name release archive disk).1 (staging_name name)
              ≡ disk (staging_name name))
    unfolding stage_archive
    stage_archive-removed archive disk h = grind (
      arith,
      staging_dir-removed disk,
      staging_dir-name system name disk,
      stage_into-removed archive (staging_dir system name disk).1,
    )

    stage_release-removed :
        (lockfile : Lockfile) (disk : Disk) {e : InstallError}
        → (stage_release system installer name release lockfile disk).0 ≡ err e
        → ((stage_release system installer name release lockfile disk).1 (staging_name name) ≡ none)
          ⊎ ((stage_release system installer name release lockfile disk).1 (staging_name name)
              ≡ disk (staging_name name))
    unfolding stage_release
    stage_release-removed lockfile disk h =
        elim (Outcome-cases (fetch_checked system installer name release lockfile)) [
          | inl (archive, e) ↦
              rw (e, ◌>>=◌) (stage_archive-removed archive disk (rw (e, ◌>>=◌) at h))
          | inr (x, e) ↦ inr (rw (e, ◌>>=◌))
        ]

module _ (system : System) (installer : Installer) (name : Text) (lockfile : Lockfile)
    (requirement : VersionReq) where
  stage-Keeps :
      (k : Text)
      → text_eq k (staging_name name) ≡ false
      → Keeps k (stage system installer name requirement lockfile)
  unfolding stage
  stage-Keeps k apart disk = grind (arith, stage_release-Keeps system k name apart installer)

  -- Whatever comes of `stage`, every directory of the plugin root but the staging directory is as it
  -- was. Where it fails, the staging directory is gone, or as it was: its removal and the change of
  -- its mode do not fail.
  pub stage-err :
      IsRemovable system.faults (staging_name name)
      → (disk : Disk)
      → ((k : Text)
          → k ≢ staging_name name
          → (stage system installer name requirement lockfile disk).1 k ≡ disk k)
        × ((e : InstallError)
            → (stage system installer name requirement lockfile disk).0 ≡ err e
            → ((stage system installer name requirement lockfile disk).1 (staging_name name) ≡ none)
              ⊎ ((stage system installer name requirement lockfile disk).1 (staging_name name)
                  ≡ disk (staging_name name)))
  unfolding stage
  stage-err removable disk = (
    λ k apart. stage-Keeps k (ground (arith, text_eq_iff k (staging_name name))) disk,
    λ e h. grind (arith, stage_release-removed system name removable installer),
  )
