-- ===== src/Signature.antt =====
-- crates/stanchion-abi/src/signature.rs: directory digests, signers and revocations. SHA-256 is a
-- parameter, from the bytes of a file to its hash.
pub mod Preimage
pub mod Revoking
use stanchion.Prelude.{
  ℕ, zero, suc, ◌+◌, ◌-◌, ◌*◌, ◌/◌, ◌%◌, Bool, true, false, not, ◌&&◌, ◌||◌, Option, none, some,
  List, [], ◌∷◌, ◌++◌, ◌==◌, leb, ltb, if◌then◌else◌, any, all, length, is_empty, is_some, Text,
  Map, lookup, insert, contains_key, codes, text_eq, trim, strip_prefix, to_ascii_lowercase,
  is_ascii_hexdigit,
}

abbrev pub Bytes : Type 0
Bytes = List ℕ

abbrev pub excluded : List Text
excluded = codes "plugin.sig" ∷ codes "plugin.sigstore.json" ∷ []

pub data Signer : Type 0 where
  unsigned : Signer
  verified : Text → Option Text → Signer

unfoldable pub identity : Signer → Option Text
identity unsigned = none
identity (verified i _) = some i

unfoldable pub issuer : Signer → Option Text
issuer unsigned = none
issuer (verified _ i) = i

unfoldable pub is_verified : Signer → Bool
is_verified unsigned = false
is_verified (verified _ _) = true

-- `Display for Signer`
unfoldable pub show_signer : Signer → Text
show_signer unsigned = codes "unsigned"
show_signer (verified i (some j)) = i ++ (codes " (via " ++ (j ++ codes ")"))
show_signer (verified i none) = i

pub data VerifyError : Type 0 where
  missing : VerifyError
  invalid untrusted io : Text → VerifyError

-- `str::as_bytes`
unfoldable pub utf8_char : ℕ → Bytes
utf8_char c =
    if ltb c 0x80
    then c ∷ []
    else if ltb c 0x800
    then (0xc0 + c / 64) ∷ (0x80 + c % 64) ∷ []
    else if ltb c 0x10000
    then (0xe0 + c / 4096) ∷ (0x80 + c / 64 % 64) ∷ (0x80 + c % 64) ∷ []
    else (0xf0 + c / 262144) ∷ (0x80 + c / 4096 % 64) ∷ (0x80 + c / 64 % 64) ∷ (0x80 + c % 64) ∷ []

unfoldable pub utf8 : Text → Bytes
unfolding utf8_char
utf8 [] = []
utf8 (c ∷ s) = utf8_char c ++ utf8 s

pub record DirectoryDigest : Type 0 where
  pub root : Bytes
  pub preimage : Bytes
  pub files : Map Bytes

-- the sorted file hashes, laid out for signing
unfoldable pub preimage_of : Map Bytes → Bytes
preimage_of [] = []
preimage_of ((relative, hash) ∷ files) = utf8 relative ++ (0 ∷ (hash ++ (0 ∷ preimage_of files)))

module _ (sha256 : Bytes → Bytes) where
  -- the loop of `compute` over the files that the walk found, with their contents
  unfoldable pub hash_files : List (Text × Bytes) → Map Bytes → Map Bytes
  hash_files [] files = files
  hash_files ((relative, contents) ∷ entries) files =
      hash_files entries
        (if any (text_eq relative) excluded then files else insert relative (sha256 contents) files)

  unfoldable pub compute : List (Text × Bytes) → DirectoryDigest
  unfolding hash_files preimage_of utf8
  compute entries =
      let files = hash_files entries [] in
      record { root = sha256 (preimage_of files); preimage = preimage_of files; files = files }

  unfoldable pub matches : DirectoryDigest → Text → Bytes → Bool
  matches digest relative contents = elim (lookup relative digest.files) [
    | some expected ↦ text_eq expected (sha256 contents)
    | none ↦ false
  ]

unfoldable pub covers : DirectoryDigest → Text → Bool
covers digest relative = contains_key relative digest.files

-- `char::from_digit(d, 16)`, of a digit below 16
unfoldable pub hex_digit : ℕ → ℕ
hex_digit d = if ltb d 10 then b'0' + d else b'a' + (d - 10)

unfoldable pub to_hex : Bytes → Text
unfolding hex_digit
to_hex [] = []
to_hex (b ∷ bs) = hex_digit (b / 16) ∷ hex_digit (b % 16) ∷ to_hex bs

unfoldable pub hex : DirectoryDigest → Text
hex digest = to_hex digest.root

pub record Revocation : Type 0 where
  pub digest : Option Text
  pub identity : Option Text
  pub reason : Option Text

unfoldable pub describe : Revocation → Text → Text
describe entry what = elim entry.reason [
  | some reason ↦ what ++ (codes " is revoked: " ++ reason)
  | none ↦ what ++ codes " is revoked"
]

abbrev pub Revocations : Type 0
Revocations = List Revocation

unfoldable pub deny_digest : Revocations → Text → Text → Revocations
deny_digest list digest reason =
    list ++ record { digest = some digest; identity = none; reason = some reason } ∷ []

unfoldable pub deny_identity : Revocations → Text → Text → Revocations
deny_identity list identity reason =
    list ++ record { digest = none; identity = some identity; reason = some reason } ∷ []

-- `normalize_digest`: bare lowercase hex
unfoldable pub normalize_digest : Text → Text
normalize_digest digest =
    let trimmed = trim digest in
    to_ascii_lowercase
      (elim (strip_prefix (codes "sha256:") trimmed) [ some bare ↦ bare | none ↦ trimmed ])

abbrev pub is_sha256_hex : Text → Bool
is_sha256_hex digest = length digest == 64 && all is_ascii_hexdigit digest

abbrev digest_is_sound : Option Text → Bool
digest_is_sound none = true
digest_is_sound (some digest) = is_sha256_hex (normalize_digest digest)

-- the checks of `Revocations::load`, entry by entry: `none` where the list is accepted, else the
-- position of the first entry that is refused, from 1
unfoldable pub first_bad : ℕ → Revocations → Option ℕ
first_bad position [] = none
first_bad position (entry ∷ list) =
    let rest = first_bad (suc position) list in
    if not (is_some entry.digest) && not (is_some entry.identity)
    then some position
    else if not (digest_is_sound entry.digest)
    then some position
    else rest

unfoldable pub needs_digest : Revocations → Bool
needs_digest list = any (λ e. is_some e.digest) list

abbrev same_digest : Option Text → Option Text → Bool
same_digest (some revoked) (some actual) =
    text_eq (normalize_digest revoked) (normalize_digest actual)
same_digest (some _) none = false
same_digest none _ = false

abbrev same_identity : Option Text → Option Text → Bool
same_identity (some revoked) (some actual) = text_eq revoked actual
same_identity (some _) none = false
same_identity none _ = false

abbrev signer_text : Option Text → Text
signer_text (some actual) = codes "signer `" ++ (actual ++ codes "`")
signer_text none = []

-- the loop of `Revocations::check`, on the plugin's hex digest and identity
check_each : Revocations → Option Text → Option Text → Option Text
check_each [] hex who = none
check_each (entry ∷ list) hex who =
    let rest = check_each list hex who in
    if same_digest entry.digest hex
    then some (describe entry (codes "this build"))
    else if same_identity entry.identity who
    then some (describe entry (signer_text who))
    else rest

abbrev pub hex_of : Option DirectoryDigest → Option Text
hex_of none = none
hex_of (some digest) = some (hex digest)

unfoldable pub check : Revocations → Option DirectoryDigest → Signer → Option Text
unfolding check_each
check list digest signer = check_each list (hex_of digest) (identity signer)
