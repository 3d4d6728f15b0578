-- ===== src/Tests/IndexTests.antt =====
-- An index with three releases of one plugin, of which the newest is withdrawn.
use stanchion.Prelude.{
  is_ascii_hexdigit, strip_prefix, text_eq, is_ascii_alphanumeric, ℕ, ◌≡◌, ◌≢◌, refl, Bool, true,
  false, Option, none, some, [], ◌∷◌, arith, Text, codes, text_cmp, text_cmp-flip, text_cmp_trans,
  eq_of_text_cmp, gt, leb,
}
use stanchion.Manifest.{is_valid_name}
use stanchion.Signature.{is_sha256_hex}
use stanchion.Registry.{Outcome, ok}
use stanchion.Index.{
  IndexError, required, Release, PluginReleases, Semver, index_schema, release_hex, check_at,
  resolve,
}
use stanchion.Index.Choosing.{resolve-IsBest, IsBest, IsRead}

-- the order of the texts, which is semver's on versions of one digit each
abbrev semver : Semver
semver = record { cmp = text_cmp; matches = λ requirement version. true }

abbrev release : Text → Bool → Release
release version yanked = record {
  version = version;
  digest = codes "sha256:9f86d081884c7d659a2feaa0c55ad015a3bf4f1b2b0b822cd15d6c15b0f00a08";
  source = none;
  signer = none;
  issuer = none;
  capabilities = [];
  yanked = yanked;
  yanked_reason = none;
}

abbrev document : PluginReleases
document = record {
  schema = 1;
  name = codes "weather";
  updated = none;
  expires = some (codes "later");
  releases =
      release (codes "1.0.0") false
      ∷ release (codes "1.2.0") false
      ∷ release (codes "1.3.0") true
      ∷ [];
}

abbrev parse_time : Text → Option ℕ
parse_time t = some 100

abbrev parse_json : Text → Outcome Text PluginReleases
parse_json raw = ok document

abbrev read : Text → Outcome IndexError Text
read path = ok []

text_cmp_chain : (a b c : Text) → text_cmp a b ≢ gt → text_cmp b c ≢ gt → text_cmp a c ≢ gt
text_cmp_chain a b c h k =
    ground (arith, text_cmp_trans a b c, eq_of_text_cmp a b, eq_of_text_cmp b c)

resolved :
    resolve semver parse_time parse_json read required 99 (codes "weather") (codes "*")
    ≡ ok (release (codes "1.2.0") false)
unfolding resolve is_valid_name is_ascii_alphanumeric text_eq release_hex strip_prefix
    is_ascii_hexdigit text_cmp
resolved = refl

resolve-IsBest_example :
    (is_valid_name (codes "weather") ≡ true)
    × (is_sha256_hex (release_hex (release (codes "1.2.0") false)) ≡ true)
    × (d : PluginReleases) × IsRead semver parse_time parse_json read (codes "weather") d
    × (d.name ≡ codes "weather")
    × (leb d.schema index_schema ≡ true)
    × (check_at parse_time required d.expires (codes "weather") 99 ≡ ok tt)
    × IsBest semver d (codes "*") (release (codes "1.2.0") false)
resolve-IsBest_example =
    resolve-IsBest semver text_cmp-flip text_cmp_chain parse_time parse_json read required 99
      (codes "weather") (codes "*") resolved
