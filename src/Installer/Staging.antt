-- ===== src/Installer/Staging.antt =====
-- What has been checked of a build once it is staged.
use stanchion.Prelude.{
  ◌≡◌, refl, sym, ◌∙◌, inl, inr, Option, none, some, List, arith, Outcome, ok, Bool-cases, In, here,
  there, [], ◌∷◌, subst, Text, text_eq, text_eq_iff, map_err,
}
use stanchion.Manifest.{Version, VersionReq, effective_version}
use stanchion.Lock.{Lockfile, LockedPlugin, bare_hex, eq_ignore_ascii_case}
use stanchion.Lock
use stanchion.Index.{Release, PluginReleases, no_match, exact, best_match, find_version}
use stanchion.Installer.PluginRoot.{Disk}
use stanchion.Installer.{
  InstallError, index_error, System, Installer, Staged, ◌>>=◌, choose, stage, stage_upgrade, lift,
  stage_release, or_missing,
}
use stanchion.Installer.Checking.{bind_ensures, IsStaged, stage_release-ok}

find_version-ok :
    (version : Version) (releases : List Release) {r : Release}
    → find_version version releases ≡ some r
    → In r releases × (r.version ≡ version)
unfolding find_version
find_version-ok version [] h = cc
find_version-ok version (o ∷ releases) {r = r} h = elim (Bool-cases (text_eq o.version version)) [
  | inl e ↦
      let same : o ≡ r = ground arith in
      rw (sym same) (here refl, (text_eq_iff o.version version).0 e)
  | inr e ↦ let (i, same) = find_version-ok version releases (ground arith) in (there i, same)
]

-- What stands in the staging directory is a build that has been checked, of the version that the
-- lockfile pins if it pins one.
abbrev pub IsChosen : System → Text → Lockfile → Staged → Disk → Type 0
IsChosen system name lockfile staged disk =
    IsStaged system name staged.release lockfile staged disk
    × ((pin : LockedPlugin) (version : Version)
        → Lock.get lockfile name ≡ some pin
        → pin.version ≡ some version
        → effective_version staged.manifest ≡ version)

or_missing-ok :
    {A : Type 0} (e : InstallError) (o : Option A) {a : A} → or_missing e o ≡ ok a → o ≡ some a
or_missing-ok e none h = absurd (ground arith)
or_missing-ok e (some a) h = ground arith

module _ (system : System) (installer : Installer) (name : Text) (lockfile : Lockfile)
    (requirement : VersionReq) where
  choose-ok :
      (document : PluginReleases) {release : Release} (pin : LockedPlugin) (version : Version)
      → choose system installer name requirement lockfile document ≡ ok release
      → Lock.get lockfile name ≡ some pin
      → pin.version ≡ some version
      → release.version ≡ version
  unfolding choose exact
  choose-ok document pin version h found pinned =
      let given : choose system installer name requirement lockfile document
          ≡ or_missing (index_error (no_match name (b'=' ∷ version))) (exact document version) =
        ground arith in
      (find_version-ok version document.releases (or_missing-ok _ _ (sym given ∙ h))).1

  own_release :
      (release : Release) (staged : Staged) (disk : Disk)
      → IsStaged system name release lockfile staged disk
      → IsStaged system name staged.release lockfile staged disk
  own_release release staged disk checked =
      subst (λ r. IsStaged system name r lockfile staged disk) (sym (checked.2.5)) checked

  accepted_release :
      (document : PluginReleases) (release : Release) (staged : Staged) (disk : Disk)
      → choose system installer name requirement lockfile document ≡ ok release
      → IsStaged system name release lockfile staged disk
      → IsChosen system name lockfile staged disk
  accepted_release document release staged disk e checked = (
    own_release release staged disk checked,
    λ pin version found pinned. checked.2.4 ∙ choose-ok document pin version e found pinned,
  )

  -- Where `stage` ends well, the plugin root holds in the staging directory a build that has been
  -- checked: the name is usable; the digest is the one that the release names, and the pin of the
  -- lockfile if there is one; the manifest is that of the plugin by that name, at the release's
  -- version. Where the lockfile pins a version, the staged plugin is at that version, whatever was
  -- asked for.
  pub stage-ok :
      (disk : Disk) {staged : Staged}
      → (stage system installer name requirement lockfile disk).0 ≡ ok staged
      → IsChosen system name lockfile staged
          (stage system installer name requirement lockfile disk).1
  unfolding stage
  stage-ok disk {staged = staged} h =
      bind_ensures (IsChosen system name lockfile)
        (lift (map_err index_error (installer.releases name)))
        (λ document.
          lift (choose system installer name requirement lockfile document) >>= λ release.
          stage_release system installer name release lockfile)
        disk
        (λ document _.
          bind_ensures (IsChosen system name lockfile)
            (lift (choose system installer name requirement lockfile document))
            (λ release. stage_release system installer name release lockfile) disk
            (λ release e g.
              accepted_release document release staged _ e
                (stage_release-ok system name release installer lockfile disk g)))
        h

  -- An upgrade is held against the same checks, the lockfile's pin included.
  stage_upgrade-ok :
      (disk : Disk) {staged : Staged}
      → (stage_upgrade system installer name requirement lockfile disk).0 ≡ ok staged
      → IsStaged system name staged.release lockfile staged
          (stage_upgrade system installer name requirement lockfile disk).1
  unfolding stage_upgrade
  stage_upgrade-ok disk {staged = staged} h =
      let offered : PluginReleases → Outcome InstallError Release = λ document.
        or_missing (index_error (no_match name requirement))
          (best_match system.semver document requirement) in
      let P : Staged → Disk → Type 0 = λ build. IsStaged system name build.release lockfile build in
      bind_ensures P (lift (map_err index_error (installer.releases name)))
        (λ document. lift (offered document) >>= λ release.
          stage_release system installer name release lockfile)
        disk
        (λ document _.
          bind_ensures P (lift (offered document))
            (λ release. stage_release system installer name release lockfile) disk
            (λ release _ g.
              own_release release staged _
                (stage_release-ok system name release installer lockfile disk g)))
        h
