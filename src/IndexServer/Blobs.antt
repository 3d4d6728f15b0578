-- ===== src/IndexServer/Blobs.antt =====
-- Which files a request for a package can reach.
use stanchion.Prelude.{
  ℕ, true, ◌≡◌, refl, inl, inr, Option, [], ◌∷◌, ◌++◌, arith, Bool-cases, Option-cases, Outcome,
  Text, codes, length, all, strip_prefix, to_ascii_lowercase, is_ascii_hexdigit,
}
use stanchion.Signature.{Bytes, is_sha256_hex}
use stanchion.IndexServer.{OpenError, blob_path, open_blob}

length-to_ascii_lowercase : (s : Text) → length (to_ascii_lowercase s) ≡ length s
unfolding to_ascii_lowercase
length-to_ascii_lowercase [] = refl
length-to_ascii_lowercase (c ∷ s) = omega (arith, length-to_ascii_lowercase s)

all-to_ascii_lowercase :
    (s : Text)
    → all is_ascii_hexdigit s ≡ true
    → all is_ascii_hexdigit (to_ascii_lowercase s) ≡ true
unfolding to_ascii_lowercase is_ascii_hexdigit
all-to_ascii_lowercase [] h = refl
all-to_ascii_lowercase (c ∷ s) h = ground (arith, all-to_ascii_lowercase s (ground arith))

lowercase-sha256 : (s : Text) → is_sha256_hex s ≡ true → is_sha256_hex (to_ascii_lowercase s) ≡ true
lowercase-sha256 s h =
    ground (arith, length-to_ascii_lowercase s, all-to_ascii_lowercase s (ground arith))

-- A package is read from no file but one of 64 hex digits in the directory of packages: two file
-- systems that agree on those give the same answer, whatever digest is asked for.
pub open_blob-confined :
    (one two : Text → Outcome OpenError (Bytes × Option ℕ)) (digest : Text)
    → ((name : Text)
        → is_sha256_hex name ≡ true
        → one (codes "blobs/sha256/" ++ name) ≡ two (codes "blobs/sha256/" ++ name))
    → open_blob one digest ≡ open_blob two digest
unfolding open_blob blob_path strip_prefix
open_blob-confined one two digest agree =
    elim (Option-cases (strip_prefix (codes "sha256:") digest)) [
      | inl e ↦ rw e refl
      | inr (hex, e) ↦ elim (Bool-cases (is_sha256_hex hex)) [
        | inr f ↦ rw (e, f) refl
        | inl f ↦ rw (e, f, agree (to_ascii_lowercase hex) (lowercase-sha256 hex f)) refl
      ]
    ]
