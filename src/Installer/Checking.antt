-- ===== src/Installer/Checking.antt =====
-- The checks that a release passes before it is staged, and while it is.
use stanchion.Prelude.{
  true, ◌≡◌, refl, sym, inl, inr, some, List, arith, Outcome, ok, err, Outcome-cases, subst,
  >>=-eq-ok, Text, text_eq_iff, to_ascii_lowercase, map_err,
}
use stanchion.Manifest.{Manifest, effective_version, is_valid_name}
use stanchion.Signature.{Bytes, DirectoryDigest, hex}
use stanchion.Signature
use stanchion.Lock.{Lockfile, LockedPlugin, bare_hex, eq_ignore_ascii_case}
use stanchion.Lock
use stanchion.Registry.{read_manifest}
use stanchion.Index.{Release, release_hex, validate_plugin_name}
use stanchion.Package.{verify_directory}
use stanchion.Installer.PluginRoot.{Disk}
use stanchion.Installer.{
  package_error, index_error, System, Installer, Staged, Action, ◌>>=◌, check_name, check_version,
  check_pin, check_package, inspect, or_remove, unpack_checked, stage_into, stage_archive,
  fetch_checked, lift, stage_release, staging_name, staging_dir, check_staged, unpack_into,
}
use stanchion.Installer.Keeping.{staging_dir-name}

-- What holds where a step ends well: of a chain, if its first step ended well and the rest then does.
pub bind_ensures :
    {A B : Type 0} (P : B → Disk → Type 0) (action : Action A) (next : A → Action B) (disk : Disk)
    {b : B}
    → ((a : A)
        → (action disk).0 ≡ ok a
        → (next a (action disk).1).0 ≡ ok b
        → P b (next a (action disk).1).1)
    → ((action >>= next) disk).0 ≡ ok b
    → P b ((action >>= next) disk).1
bind_ensures P action next disk {b = b} f h = elim (Outcome-cases (action disk).0) [
  | inl (a, e) ↦
      let same : (action >>= next) disk ≡ next a (action disk).1 = rw (e, ◌>>=◌) in
      subst (λ end. end.0 ≡ ok b → P b end.1) (sym same) (f a e) h
  | inr (x, e) ↦ absurd (ground arith)
]

verify_directory-ok :
    (sha256 : Bytes → Bytes) (walked : Outcome Text (List (Text × Bytes))) (release : Release)
    {digest : DirectoryDigest}
    → verify_directory sha256 walked release.digest ≡ ok digest
    → (files : List (Text × Bytes)) × (walked ≡ ok files)
      × (digest ≡ Signature.compute sha256 files)
      × (to_ascii_lowercase (release_hex release) ≡ to_ascii_lowercase (hex digest))
unfolding verify_directory release_hex
verify_directory-ok sha256 (err e) release h = absurd (ground arith)
verify_directory-ok sha256 (ok files) release h = (
  files,
  refl,
  ground arith,
  ground (
    arith,
    text_eq_iff (to_ascii_lowercase (release_hex release))
        (to_ascii_lowercase (hex (Signature.compute sha256 files))),
  ),
)

-- The build that stands in the staging directory: its digest is the one that the release names, and
-- it is the plugin and the version that were asked for.
abbrev pub IsChecked : System → Text → Release → Staged → Disk → Type 0
IsChecked system name release staged disk =
    ((files : List (Text × Bytes)) × (system.host.walk disk (staging_name name) ≡ ok files)
      × (staged.digest ≡ Signature.compute system.host.sha256 files))
    × (to_ascii_lowercase (release_hex release) ≡ to_ascii_lowercase (hex staged.digest))
    × (read_manifest system.host disk (staging_name name) ≡ ok staged.manifest)
    × (staged.manifest.name ≡ name)
    × (effective_version staged.manifest ≡ release.version)
    × (staged.release ≡ release)
    × (staged.staging ≡ staging_name name)
    × (staged.target ≡ name)

check_name-ok : (name : Text) (m : Manifest) → check_name name m ≡ ok tt → m.name ≡ name
unfolding check_name
check_name-ok name m h = ground (arith, text_eq_iff m.name name)

check_version-ok :
    (name : Text) (release : Release) (m : Manifest)
    → check_version name release m ≡ ok tt
    → effective_version m ≡ release.version
unfolding check_version
check_version-ok name release m h =
    ground (arith, text_eq_iff (effective_version m) release.version)

valid_name :
    (name : Text) {valid : Text} → validate_plugin_name name ≡ ok valid → is_valid_name name ≡ true
unfolding validate_plugin_name
valid_name name h = ground arith

map_err-ok : {E F A : Type 0} (f : E → F) (o : Outcome E A) {a : A} → map_err f o ≡ ok a → o ≡ ok a
map_err-ok f (ok b) h = ground arith
map_err-ok f (err e) h = absurd (ground arith)

-- The name is usable, and the lockfile pins no other build.
abbrev pub IsStaged : System → Text → Release → Lockfile → Staged → Disk → Type 0
IsStaged system name release lockfile staged disk =
    (is_valid_name name ≡ true)
    × ((pin : LockedPlugin)
        → Lock.get lockfile name ≡ some pin
        → eq_ignore_ascii_case (bare_hex pin.digest) (hex staged.digest) ≡ true)
    × IsChecked system name release staged disk

same_digits :
    (a b c : Text)
    → eq_ignore_ascii_case a b ≡ true
    → to_ascii_lowercase b ≡ to_ascii_lowercase c
    → eq_ignore_ascii_case a c ≡ true
unfolding eq_ignore_ascii_case
same_digits a b c h e = rw (sym e) h

module _ (system : System) (name : Text) (release : Release) where
  check_package-ok :
      (disk : Disk) {staged : Staged}
      → check_package system name release (staging_name name) disk ≡ ok staged
      → IsChecked system name release staged disk
  unfolding check_package
  check_package-ok disk h =
      let walked = system.host.walk disk (staging_name name) in
      let digested = verify_directory system.host.sha256 walked release.digest in
      let (digest, e1, f1) = >>=-eq-ok (map_err package_error digested) _ h in
      let (files, e2, e3, e4) =
        verify_directory-ok system.host.sha256 walked release
          (map_err-ok package_error digested e1) in
      let manifests = read_manifest system.host disk (staging_name name) in
      let (m, g1, f2) = >>=-eq-ok (map_err _ manifests) _ f1 in
      let (_, g2, f3) = >>=-eq-ok (check_name name m) _ f2 in
      let (_, g3, f4) = >>=-eq-ok (check_version name release m) _ f3 in
      let named = check_name-ok name m g2 in
      let versioned = check_version-ok name release m g3 in
      let read = map_err-ok _ manifests g1 in ground arith

  or_remove-ensures :
      {A : Type 0} (P : A → Disk → Type 0) (staging : Text) (action : Action A) (disk : Disk)
      {a : A}
      → ((action disk).0 ≡ ok a → P a (action disk).1)
      → (or_remove system staging action disk).0 ≡ ok a
      → P a (or_remove system staging action disk).1
  unfolding or_remove
  or_remove-ensures P staging action disk f h = elim (Outcome-cases (action disk).0) [
    | inl (b, e) ↦ rw (e, or_remove) (f (rw (e, or_remove) at h))
    | inr (x, e) ↦ absurd (ground arith)
  ]

  pin_agrees :
      (lockfile : Lockfile) {pin : LockedPlugin}
      → check_pin name release lockfile ≡ ok tt
      → Lock.get lockfile name ≡ some pin
      → eq_ignore_ascii_case (bare_hex pin.digest) (release_hex release) ≡ true
  unfolding check_pin
  pin_agrees lockfile h e = ground arith

  module _ (installer : Installer) where
    unpack_checked-ok :
        (archive : Bytes) (disk : Disk) {staged : Staged}
        → (unpack_checked system installer name release archive (staging_name name) disk).0
          ≡ ok staged
        → IsChecked system name release staged
            (unpack_checked system installer name release archive (staging_name name) disk).1
    unfolding unpack_checked
    unpack_checked-ok archive disk h =
        let checking = check_package system name release (staging_name name) in
        bind_ensures (IsChecked system name release)
          (unpack_into system installer.limits (staging_name name) archive) (λ _. inspect checking)
          disk (λ _ _ g. check_package-ok _ g) h

    stage_into-ok :
        (archive : Bytes) (disk : Disk) {staged : Staged}
        → (stage_into system installer name release archive (staging_name name) disk).0 ≡ ok staged
        → IsChecked system name release staged
            (stage_into system installer name release archive (staging_name name) disk).1
    unfolding stage_into
    stage_into-ok archive disk h =
        let unpacking = unpack_checked system installer name release archive (staging_name name) in
        bind_ensures (IsChecked system name release)
          (or_remove system (staging_name name) (check_staged system (staging_name name)))
          (λ _. or_remove system (staging_name name) unpacking) disk
          (λ _ _.
            or_remove-ensures (IsChecked system name release) (staging_name name) unpacking _
              (unpack_checked-ok archive _))
          h

    stage_archive-ok :
        (archive : Bytes) (disk : Disk) {staged : Staged}
        → (stage_archive system installer name release archive disk).0 ≡ ok staged
        → IsChecked system name release staged
            (stage_archive system installer name release archive disk).1
    unfolding stage_archive
    stage_archive-ok archive disk h =
        bind_ensures (IsChecked system name release) (staging_dir system name)
          (stage_into system installer name release archive) disk
          (λ staging e. rw (staging_dir-name system name disk e) (stage_into-ok archive _)) h

    -- What has been found before anything is fetched, and what was fetched.
    fetch_checked-ok :
        (lockfile : Lockfile) {archive : Bytes}
        → fetch_checked system installer name release lockfile ≡ ok archive
        → (is_valid_name name ≡ true)
          × ((pin : LockedPlugin)
              → Lock.get lockfile name ≡ some pin
              → eq_ignore_ascii_case (bare_hex pin.digest) (release_hex release) ≡ true)
    unfolding fetch_checked
    fetch_checked-ok lockfile h =
        let (_, e1, f1) = >>=-eq-ok (map_err index_error (validate_plugin_name name)) _ h in
        let (_, e2, f2) = >>=-eq-ok (check_pin name release lockfile) _ f1 in
        (valid_name name (map_err-ok _ _ e1), λ pin found. pin_agrees lockfile e2 found)

    pub stage_release-ok :
        (lockfile : Lockfile) (disk : Disk) {staged : Staged}
        → (stage_release system installer name release lockfile disk).0 ≡ ok staged
        → IsStaged system name release lockfile staged
            (stage_release system installer name release lockfile disk).1
    unfolding stage_release
    stage_release-ok lockfile disk h =
        bind_ensures (IsStaged system name release lockfile)
          (lift (fetch_checked system installer name release lockfile))
          (stage_archive system installer name release) disk
          (λ archive e g.
            let (valid, agrees) = fetch_checked-ok lockfile e in
            let checked = stage_archive-ok archive disk g in
            (valid, λ pin found. same_digits _ _ _ (agrees pin found) checked.1, checked))
          h
