-- ===== src/Index.antt =====
-- crates/stanchion-dist/src/index.rs: the documents of a plugin index, and the choice of a release.
-- semver's order and matching, the parser of timestamps, the JSON parser and the file system are
-- parameters. A message of an error is left out where it only renders what the error is about.
pub mod Choosing
use stanchion.Prelude.{
  ℕ, Bool, true, false, not, ◌&&◌, Option, none, some, List, [], ◌∷◌, ◌++◌, lt, eq, gt, Ordering,
  ltb, if◌then◌else◌, any, keep, Text, text_eq, codes, strip_prefix,
}
use stanchion.Manifest.{Version, VersionReq, is_valid_name}
use stanchion.Signature.{is_sha256_hex}
use stanchion.Lock.{LockedPlugin, new_pin, at_version, signed_by, issued_by, fetched_from}
use stanchion.Registry.{Outcome, ok, err, ◌>>=◌, ◌>>◌, map_err}

abbrev pub index_schema : ℕ
index_schema = 1

pub data IndexError : Type 0 where
  unknown_plugin : Text → IndexError
  no_match : Text → VersionReq → IndexError
  malformed : Text → IndexError
  stale : Text → Text → IndexError
  transport : Text → IndexError

pub data Freshness : Type 0 where
  required lenient ignored : Freshness

pub record Release : Type 0 where
  pub version : Version
  pub digest : Text
  pub source : Option Text
  pub signer : Option Text
  pub issuer : Option Text
  pub capabilities : List Text
  pub yanked : Bool
  pub yanked_reason : Option Text

pub record PluginReleases : Type 0 where
  pub schema : ℕ
  pub name : Text
  pub updated : Option Text
  pub expires : Option Text
  pub releases : List Release

pub record Catalog : Type 0 where
  pub schema : ℕ
  pub name : Option Text
  pub updated : Option Text
  pub expires : Option Text
  pub plugins : List Text

abbrev pub catalog_path : Text
catalog_path = codes "v1/index.json"

-- `Release::hex`
unfoldable pub release_hex : Release → Text
release_hex release = elim (strip_prefix (codes "sha256:") release.digest) [
  | some hex ↦ hex
  | none ↦ release.digest
]

unfoldable pub validate_release : Release → Outcome IndexError (Unit {0})
validate_release release =
    if is_sha256_hex (release_hex release) then ok tt else err (malformed release.digest)

unfoldable pub find_version : Version → List Release → Option Release
find_version version [] = none
find_version version (release ∷ releases) =
    if text_eq release.version version then some release else find_version version releases

unfoldable pub exact : PluginReleases → Version → Option Release
unfolding find_version
exact document version = find_version version document.releases

abbrev pub with_field :
    Option Text → (LockedPlugin → Text → LockedPlugin) → LockedPlugin → LockedPlugin
with_field none build pin = pin
with_field (some t) build pin = build pin t

unfoldable pub to_pin : Release → LockedPlugin
to_pin release = with_field release.source fetched_from (
    with_field release.issuer issued_by
      (with_field release.signer signed_by (at_version (new_pin release.digest) release.version)))

unfoldable pub validate_plugin_name : Text → Outcome IndexError Text
validate_plugin_name name = if is_valid_name name then ok name else err (malformed name)

unfoldable pub releases_path : Text → Text
releases_path name = codes "v1/plugins/" ++ (name ++ codes ".json")

-- `Freshness::check_at`, on the `expires` of the document
module _ (parse_time : Text → Option ℕ) where
  unfoldable pub check_deadline : Text → Text → ℕ → Outcome IndexError (Unit {0})
  check_deadline what expires now = elim (parse_time expires) [
    | none ↦ err (malformed what)
    | some deadline ↦ (if ltb deadline now then err (stale what expires) else ok tt)
  ]

  unfoldable pub check_at : Freshness → Option Text → Text → ℕ → Outcome IndexError (Unit {0})
  unfolding check_deadline
  check_at ignored expires what now = ok tt
  check_at required none what now = err (malformed what)
  check_at lenient none what now = ok tt
  check_at required (some expires) what now = check_deadline what expires now
  check_at lenient (some expires) what now = check_deadline what expires now

-- semver: the order of versions, and what a requirement accepts
pub record Semver : Type 0 where
  pub cmp : Version → Version → Ordering
  pub matches : VersionReq → Version → Bool

abbrev is_same : Ordering → Bool
is_same eq = true
is_same lt = false
is_same gt = false

module _ (semver : Semver) where
  abbrev pub is_eligible : VersionReq → Release → Bool
  is_eligible requirement release = not release.yanked && semver.matches requirement release.version

  -- `Iterator::max_by` keeps the later of two that compare equal
  abbrev pub newer : Release → Release → Release
  newer left right = elim (semver.cmp left.version right.version) [
    | gt ↦ left
    | lt ↦ right
    | eq ↦ right
  ]

  unfoldable pub newest_from : Release → List Release → Release
  newest_from best [] = best
  newest_from best (release ∷ releases) = newest_from (newer best release) releases

  unfoldable pub newest : List Release → Option Release
  unfolding newest_from
  newest [] = none
  newest (release ∷ releases) = some (newest_from release releases)

  unfoldable pub best_match : PluginReleases → VersionReq → Option Release
  unfolding newest
  best_match document requirement = newest (keep (is_eligible requirement) document.releases)

  -- the loop of `PluginReleases::validate`, with the versions seen before
  unfoldable pub validate_each : List Version → List Release → Outcome IndexError (Unit {0})
  unfolding validate_release
  validate_each seen [] = ok tt
  validate_each seen (release ∷ releases) =
      let rest = validate_each (release.version ∷ seen) releases in
      if any (λ v. is_same (semver.cmp v release.version)) seen
      then err (malformed release.version)
      else (validate_release release >> rest)

  unfoldable pub validate_releases : PluginReleases → Text → Outcome IndexError (Unit {0})
  unfolding validate_each
  validate_releases document expected_name =
      if ltb index_schema document.schema
      then err (malformed document.name)
      else if not (text_eq document.name expected_name)
      then err (malformed document.name)
      else validate_each [] document.releases

  -- `DirectoryIndex::releases`, and `PluginIndex::resolve` on it
  module _ (parse_time : Text → Option ℕ) (parse_json : Text → Outcome Text PluginReleases)
      (read : Text → Outcome IndexError Text) where
    unfoldable pub parse_releases : Text → Text → Outcome IndexError PluginReleases
    unfolding validate_releases
    parse_releases raw name = elim (parse_json raw) [
      | err message ↦ err (malformed message)
      | ok document ↦ validate_releases document name >> ok document
    ]

    unfoldable pub releases_of : Freshness → ℕ → Text → Outcome IndexError PluginReleases
    unfolding parse_releases check_at validate_plugin_name
    releases_of freshness now name = do
      valid ← validate_plugin_name name
      raw ← read (releases_path valid)
      document ← parse_releases raw valid
      check_at parse_time freshness document.expires valid now
      ok document

    unfoldable pub resolve : Freshness → ℕ → Text → VersionReq → Outcome IndexError Release
    unfolding releases_of best_match
    resolve freshness now name requirement = do
      document ← releases_of freshness now name
      elim (best_match document requirement) [
        | some release ↦ ok release
        | none ↦ err (no_match name requirement)
      ]

-- `DirectoryIndex::catalog`
unfoldable pub catalog_of :
    (Text → Option ℕ)
    → (Text → Outcome Text Catalog)
    → (Text → Outcome IndexError Text)
    → Freshness
    → ℕ
    → Outcome IndexError Catalog
unfolding check_at
catalog_of parse_time parse_json read freshness now = do
  raw ← read catalog_path
  catalog ← map_err malformed (parse_json raw)
  check_at parse_time freshness catalog.expires (codes "the catalog") now
  ok catalog
