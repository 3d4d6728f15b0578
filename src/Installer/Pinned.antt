-- ===== src/Installer/Pinned.antt =====
-- The pin that a commit returns, in the lockfile it is put into.
use mathlib.Core.List.{reverse, reverse-append, reverse-reverse}
use stanchion.Prelude.{
  ℕ, ◌<◌, ◌/◌, ◌%◌, Bool, true, not, ◌≡◌, ◌≢◌, refl, sym, ap, ◌∙◌, some, [], ◌∷◌, ◌++◌, arith, ok,
  Text, text_eq_iff, text_eq_refl, all, all-append, ltb, is_whitespace, trim_start, trim,
  to_ascii_lowercase, strip_prefix, lookup, lookup-insert,
}
use stanchion.Manifest.{Manifest, effective_version}
use stanchion.Signature.{Bytes, DirectoryDigest, hex, to_hex, hex_digit, Signer, identity, issuer}
use stanchion.Lock.{
  Lockfile, LockedPlugin, sha256_prefix, normalize_digest, from_digest, new_pin, bare_hex,
  eq_ignore_ascii_case, check, pin, at_version, signed_by, issued_by, fetched_from,
}
use stanchion.Lock
use stanchion.Lock.Pinning.{Fits, check_iff}
use stanchion.Installer.PluginRoot.{Disk}
use stanchion.Installer.{System, Staged, pin_of, commit}
use stanchion.Installer.Committing.{commit-cases}

abbrev pub is_byte : ℕ → Bool
is_byte b = ltb b 256

abbrev is_black : ℕ → Bool
is_black c = not (is_whitespace c)

hex_digit-is_black : (d : ℕ) → d < 16 → is_black (hex_digit d) ≡ true
unfolding hex_digit is_whitespace
hex_digit-is_black d h = ground arith

to_hex-is_black : (bytes : Bytes) → all is_byte bytes ≡ true → all is_black (to_hex bytes) ≡ true
unfolding to_hex
to_hex-is_black [] h = refl
to_hex-is_black (b ∷ bytes) h = ground (
  arith,
  hex_digit-is_black (b / 16) (ground arith),
  hex_digit-is_black (b % 16) (ground arith),
  to_hex-is_black bytes (ground arith),
)

trim_start-black : (s : Text) → all is_black s ≡ true → trim_start s ≡ s
unfolding trim_start
trim_start-black [] h = refl
trim_start-black (c ∷ s) h = ground arith

all-reverse : (p : ℕ → Bool) (s : Text) → all p s ≡ true → all p (reverse s) ≡ true
all-reverse p [] h = refl
all-reverse p (c ∷ s) h =
    ap (all p) (reverse-append (c ∷ []) s)
    ∙ all-append p (reverse s) (c ∷ [])
    ∙ ground (arith, all-reverse p s (ground arith))

trim-black : (s : Text) → all is_black s ≡ true → trim s ≡ s
unfolding trim
trim-black s h =
    rw (trim_start-black s h, trim_start-black (reverse s) (all-reverse is_black s h))
      (reverse-reverse s)

to_ascii_lowercase_twice :
    (s : Text) → to_ascii_lowercase (to_ascii_lowercase s) ≡ to_ascii_lowercase s
unfolding to_ascii_lowercase
to_ascii_lowercase_twice [] = refl
to_ascii_lowercase_twice (c ∷ s) = ground (arith, to_ascii_lowercase_twice s)

all_black : (s : Text) → all is_black s ≡ true → all is_black (sha256_prefix ++ s) ≡ true
unfolding is_whitespace
all_black s h = h

normalize_digest-hex :
    (s : Text)
    → all is_black s ≡ true
    → normalize_digest (sha256_prefix ++ s) ≡ sha256_prefix ++ to_ascii_lowercase s
unfolding normalize_digest strip_prefix
normalize_digest-hex s h = rw (trim-black (sha256_prefix ++ s) (all_black s h)) refl

found :
    (lock : Lockfile) (name : Text) (entry : LockedPlugin)
    → lookup name (pin lock name entry).plugins ≡ some entry
unfolding pin
found lock name entry = rw (lookup-insert name name entry lock.plugins, text_eq_refl name) refl

lookup-pin_other :
    (lock : Lockfile) (name other : Text) (entry : LockedPlugin)
    → other ≢ name
    → lookup other (pin lock name entry).plugins ≡ lookup other lock.plugins
unfolding pin
lookup-pin_other lock name other entry h =
    lookup-insert other name entry lock.plugins ∙ ground (arith, text_eq_iff other name)

check-pin_other :
    (lock : Lockfile) (name : Text) (entry : LockedPlugin) (m : Manifest) (d : DirectoryDigest)
    (signer : Signer)
    → m.name ≢ name
    → check (pin lock name entry) m d signer ≡ check lock m d signer
unfolding check
check-pin_other lock name entry m d signer h = rw (lookup-pin_other lock name m.name entry h, check)

module _ (system : System) (staged : Staged) where
  pin_of-digest : (pin_of system staged).digest ≡ (from_digest staged.digest).digest
  unfolding pin_of at_version signed_by issued_by fetched_from
  pin_of-digest = ground arith

  pin_of-rest :
      ((pin_of system staged).signer ≡ staged.release.signer)
      × ((pin_of system staged).issuer ≡ staged.release.issuer)
      × ((pin_of system staged).version ≡ some (effective_version staged.manifest))
  unfolding pin_of at_version signed_by issued_by fetched_from from_digest new_pin
  pin_of-rest = ground arith

  pin_of-hex :
      all is_byte staged.digest.root ≡ true
      → bare_hex (pin_of system staged).digest ≡ to_ascii_lowercase (hex staged.digest)
  unfolding from_digest new_pin bare_hex strip_prefix hex
  pin_of-hex bytes =
      rw (pin_of-digest, normalize_digest-hex (hex staged.digest) (to_hex-is_black _ bytes)) refl

  pin_of-Fits :
      all is_byte staged.digest.root ≡ true
      → (signer : Signer) → ((s : Text) → staged.release.signer ≡ some s → identity signer ≡ some s)
      → ((i : Text) → staged.release.issuer ≡ some i → issuer signer ≡ some i)
      → Fits (pin_of system staged) staged.manifest staged.digest signer
  unfolding eq_ignore_ascii_case
  pin_of-Fits bytes signer signed issued =
      let (s, i, v) = pin_of-rest in
      (
        rw (pin_of-hex bytes, to_ascii_lowercase_twice (hex staged.digest)) (text_eq_refl _),
        λ t e. signed t (sym s ∙ e),
        λ t e. issued t (sym i ∙ e),
        λ t e. ground (arith),
      )

  commit-pin :
      (disk : Disk) {entry : LockedPlugin}
      → (commit system staged disk).0 ≡ ok entry
      → entry ≡ pin_of system staged
  commit-pin disk {entry = entry} =
      commit-cases system staged disk (λ end. end.0 ≡ ok entry → entry ≡ pin_of system staged)
        (λ e r h. absurd (ground arith)) (λ had e r q h. absurd (ground arith))
        (λ had r q h. ground arith)

  -- The pin that a commit returns, put into the lockfile under the plugin's name, lets that very build
  -- load, signed by whoever the release names; and every other plugin is judged as before. The digest
  -- is made of bytes.
  pub commit-check :
      (disk : Disk) (lock : Lockfile) {entry : LockedPlugin}
      → (commit system staged disk).0 ≡ ok entry
      → all is_byte staged.digest.root ≡ true
      → ((signer : Signer)
          → ((s : Text) → staged.release.signer ≡ some s → identity signer ≡ some s)
          → ((i : Text) → staged.release.issuer ≡ some i → issuer signer ≡ some i)
          → check (pin lock staged.manifest.name entry) staged.manifest staged.digest signer
            ≡ Lock.ok tt)
        × ((m : Manifest) (d : DirectoryDigest) (signer : Signer)
            → m.name ≢ staged.manifest.name
            → check (pin lock staged.manifest.name entry) m d signer ≡ check lock m d signer)
  commit-check disk lock {entry = entry} h bytes =
      let same = commit-pin disk h in
      (
        λ signer signed issued.
            (check_iff (pin lock staged.manifest.name entry) staged.manifest staged.digest signer).1
              (
                pin_of system staged,
                found lock staged.manifest.name entry ∙ ap some same,
                pin_of-Fits bytes signer signed issued,
              ),
        λ m d signer other. check-pin_other lock staged.manifest.name entry m d signer other,
      )
