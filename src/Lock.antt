-- ===== src/Lock.antt =====
-- crates/stanchion-registry/src/lock.rs: the lockfile and its check. Reading and writing the TOML
-- file is left out: `accept` is what `Lockfile::parse` does with the document once read.
pub mod Pinning
use stanchion.Prelude.{
  ℕ, Bool, true, false, not, ◌&&◌, Option, none, some, List, [], ◌∷◌, ◌++◌, if◌then◌else◌, ltb,
  Text, Map, lookup, insert, codes, text_eq, trim, strip_prefix, to_ascii_lowercase,
}
use stanchion.Manifest.{Manifest, Version, effective_version}
use stanchion.Signature.{DirectoryDigest, hex, Signer, identity, issuer, show_signer, is_sha256_hex}

pub data LockError : Type 0 where
  unlocked : Text → LockError
  digest_mismatch signer_mismatch version_mismatch : Text → Text → Text → LockError
  malformed_version : ℕ → LockError
  malformed_digest : Text → Text → LockError

pub record LockedPlugin : Type 0 where
  pub digest : Text
  pub version : Option Version
  pub signer : Option Text
  pub issuer : Option Text
  pub source : Option Text

pub record Lockfile : Type 0 where
  pub version : ℕ
  pub plugins : Map LockedPlugin

abbrev pub lock_version : ℕ
lock_version = 1

abbrev pub sha256_prefix : Text
sha256_prefix = codes "sha256:"

unfoldable pub normalize_digest : Text → Text
normalize_digest digest =
    let trimmed = trim digest in
    sha256_prefix
    ++ to_ascii_lowercase
        (elim (strip_prefix sha256_prefix trimmed) [ some hex ↦ hex | none ↦ trimmed ])

unfoldable pub new_pin : Text → LockedPlugin
new_pin digest = record {
  digest = normalize_digest digest;
  version = none;
  signer = none;
  issuer = none;
  source = none;
}

unfoldable pub from_digest : DirectoryDigest → LockedPlugin
unfolding new_pin
from_digest digest = new_pin (sha256_prefix ++ hex digest)

unfoldable pub signed_by : LockedPlugin → Text → LockedPlugin
signed_by pin identity = record pin { signer = some identity }

unfoldable pub issued_by : LockedPlugin → Text → LockedPlugin
issued_by pin issuer = record pin { issuer = some issuer }

unfoldable pub at_version : LockedPlugin → Version → LockedPlugin
at_version pin version = record pin { version = some version }

unfoldable pub fetched_from : LockedPlugin → Text → LockedPlugin
fetched_from pin source = record pin { source = some source }

-- `LockedPlugin::hex`, on the recorded digest
unfoldable pub bare_hex : Text → Text
bare_hex digest = elim (strip_prefix sha256_prefix digest) [ some hex ↦ hex | none ↦ digest ]

unfoldable pub empty_lock : Lockfile
empty_lock = record { version = lock_version; plugins = [] }

pub data Result {ℓ} (A : Type ℓ) : Type ℓ where
  ok : A → Result A
  err : LockError → Result A

infixl 5 ◌>>=◌
abbrev pub ◌>>=◌ {ℓ κ} : {A : Type ℓ} {B : Type κ} → Result A → (A → Result B) → Result B
err e >>= f = err e
ok a >>= f = f a

infixl 5 ◌>>◌
abbrev pub ◌>>◌ {ℓ} : {B : Type ℓ} → Result (Unit {0}) → Result B → Result B
ok u >> next = next
err e >> next = err e

-- the loop of `Lockfile::parse`: each digest is normalised, and must be SHA-256
unfoldable pub accept_plugins : Map LockedPlugin → Result (Map LockedPlugin)
accept_plugins [] = ok []
accept_plugins ((name, entry) ∷ plugins) =
    let digest = normalize_digest entry.digest in
    let later = accept_plugins plugins in
    let read : Result (Map LockedPlugin) = elim later [
      | ok ps ↦ ok ((name, record entry { digest = digest }) ∷ ps)
      | err e ↦ err e
    ] in
    if is_sha256_hex (bare_hex digest) then read else err (malformed_digest name digest)

unfoldable pub accept : Lockfile → Result Lockfile
unfolding accept_plugins
accept lock =
    if ltb lock_version lock.version
    then err (malformed_version lock.version)
    else elim (accept_plugins lock.plugins) [
      | ok ps ↦ ok (record lock { plugins = ps })
      | err e ↦ err e
    ]

unfoldable pub pin : Lockfile → Text → LockedPlugin → Lockfile
pin lock name entry = record lock { plugins = insert name entry lock.plugins }

unfoldable pub get : Lockfile → Text → Option LockedPlugin
get lock name = lookup name lock.plugins

unfoldable pub eq_ignore_ascii_case : Text → Text → Bool
eq_ignore_ascii_case a b = text_eq (to_ascii_lowercase a) (to_ascii_lowercase b)

-- a field of the pin against what was found; a pin that names nothing asks nothing
unfoldable pub same_if_pinned : Option Text → Option Text → Bool
same_if_pinned none found = true
same_if_pinned (some expected) (some found) = text_eq found expected
same_if_pinned (some expected) none = false

abbrev or_empty : Option Text → Text
or_empty none = []
or_empty (some t) = t

abbrev or_no_issuer : Option Text → Text
or_no_issuer none = codes "no issuer"
or_no_issuer (some t) = t

-- `Lockfile::check`, once the entry is found
unfoldable pub check_entry : LockedPlugin → Manifest → DirectoryDigest → Signer → Result (Unit {0})
unfolding same_if_pinned
check_entry entry manifest digest signer =
    if not (eq_ignore_ascii_case (bare_hex entry.digest) (hex digest))
    then err (digest_mismatch manifest.name entry.digest (sha256_prefix ++ hex digest))
    else if not (same_if_pinned entry.signer (identity signer))
    then err (signer_mismatch manifest.name (or_empty entry.signer) (show_signer signer))
    else if not (same_if_pinned entry.issuer (issuer signer))
    then err (signer_mismatch manifest.name (or_empty entry.issuer) (or_no_issuer (issuer signer)))
    else if not (same_if_pinned entry.version (some (effective_version manifest)))
    then err (version_mismatch manifest.name (or_empty entry.version) (effective_version manifest))
    else ok tt

unfoldable pub check : Lockfile → Manifest → DirectoryDigest → Signer → Result (Unit {0})
unfolding check_entry
check lock manifest digest signer = elim (lookup manifest.name lock.plugins) [
  | none ↦ err (unlocked manifest.name)
  | some entry ↦ check_entry entry manifest digest signer
]
