-- ===== src/IndexServer.antt =====
-- crates/stanchion-index/src/server.rs and source.rs: the answers of an index server. An instant is a
-- number of nanoseconds since 1970. JSON, the format of timestamps, SHA-256 and the opening of files
-- are parameters; what a framework makes of a `Served` is left out.
pub mod Answers
pub mod Blobs
pub mod Conditional
pub mod Discretion
pub mod Repeating
pub mod Revalidation
pub mod Windows
use stanchion.Prelude.{
  ℕ, ◌+◌, ◌-◌, ◌*◌, ◌/◌, ◌%◌, Bool, true, false, not, ◌&&◌, ◌||◌, Option, none, some, List, [], ◌∷◌,
  ◌++◌, ltb, leb, ◌==◌, if◌then◌else◌, length, any, Outcome, ok, err, Text, codes, text_eq, trim,
  split, strip_prefix, to_ascii_lowercase,
}
use mathlib.Core.List.{reverse}
use stanchion.Signature.{Bytes, to_hex, is_sha256_hex}
use stanchion.Package.{take}
use stanchion.Index.{
  IndexError, unknown_plugin, no_match, malformed, stale, transport, PluginReleases, Catalog,
  index_schema, catalog_path, releases_path, validate_plugin_name,
}

abbrev pub second : ℕ
second = 1000000000

-- the last instant that the `time` crate has, at the end of the year 9999
abbrev pub max_instant : ℕ
max_instant = 253402300799999999999

abbrev pub default_ttl : ℕ
default_ttl = 3600 * second

-- `IndexServer::ttl`
unfoldable pub clamp_ttl : ℕ → ℕ
clamp_ttl ttl =
    if ltb ttl (60 * second)
    then 60 * second
    else if ltb (86400 * second) ttl
    then 86400 * second
    else ttl

pub data Method : Type 0 where
  get_method head_method : Method
  other_method : Text → Method

-- a reader is the bytes that it gives
pub data Body : Type 0 where
  bytes reader : Bytes → Body

pub data CacheControl : Type 0 where
  no_store immutable : CacheControl
  max_age : ℕ → CacheControl

pub record Served : Type 0 where
  pub status : ℕ
  pub content_type : Text
  pub cache_control : CacheControl
  pub etag : Option Text
  pub content_length : Option ℕ
  pub body : Body

pub record Blob : Type 0 where
  pub reader : Bytes
  pub len : Option ℕ

pub data Document : Type 0 where
  of_catalog : Catalog → Document
  of_releases : PluginReleases → Document

pub record IndexSource : Type 0 where
  pub releases : Text → Outcome IndexError PluginReleases
  pub catalog : Outcome IndexError Catalog
  pub blob : Text → Outcome IndexError Blob

-- serde_json, the `time` crate's formatter, and SHA-256
pub record Rendering : Type 0 where
  pub render : Document → Option Bytes
  pub render_error : Text → Bytes
  pub format : ℕ → Text
  pub sha256 : Bytes → Bytes

abbrev json_type : Text
json_type = codes "application/json"

abbrev package_media_type : Text
package_media_type = codes "application/vnd.stanchion.plugin.v1.tar+gzip"

-- whole seconds, at least one
unfoldable pub ttl_seconds : ℕ → ℕ
ttl_seconds ttl = if ltb (ttl / second) 1 then 1 else ttl / second

unfoldable pub window_start : ℕ → ℕ → ℕ
window_start ttl now = now / second / ttl_seconds ttl * ttl_seconds ttl * second

-- the `saturating_add` of `window`
unfoldable pub window_end : ℕ → ℕ → ℕ
window_end ttl now =
    if ltb max_instant (window_start ttl now + ttl) then max_instant else window_start ttl now + ttl

unfoldable pub remaining : ℕ → ℕ → ℕ
remaining ttl now = ttl_seconds ttl - now / second % ttl_seconds ttl

-- `trim_start_matches("W/")`
unfoldable pub strip_weak : Text → Text
strip_weak [] = []
strip_weak (c ∷ []) = c ∷ []
strip_weak (c ∷ d ∷ t) =
    let rest = strip_weak t in if c == b'W' && d == b'/' then rest else c ∷ d ∷ t

unfoldable pub lists_tag : Text → Text → Bool
unfolding strip_weak
lists_tag etag candidates =
    text_eq candidates (codes "*")
    || any (λ candidate. text_eq (strip_weak (trim candidate)) etag) (split b',' candidates)

abbrev is_success : ℕ → Bool
is_success status = leb 200 status && ltb status 300

abbrev not_modified : Served → Served
not_modified served = record served { status = 304; content_length = none; body = bytes [] }

unfoldable pub apply_conditional : Served → Option Text → Served
unfolding lists_tag
apply_conditional served none = served
apply_conditional served (some candidates) = elim served.etag [
  | none ↦ served
  | some etag ↦
      if is_success served.status && lists_tag etag candidates then not_modified served else served
]

-- `v1/plugins/<name>.json` to `<name>`
unfoldable pub strip_suffix : Text → Text → Option Text
strip_suffix suffix text = elim (strip_prefix (reverse suffix) (reverse text)) [
  | none ↦ none
  | some rest ↦ some (reverse rest)
]

unfoldable pub plugin_of : Text → Option Text
unfolding strip_suffix releases_path
plugin_of route = elim (strip_suffix (codes ".json") (releases_path [])) [
  | none ↦ none
  | some prefix ↦ elim (strip_prefix prefix route) [
    | none ↦ none
    | some rest ↦ strip_suffix (codes ".json") rest
  ]
]

unfoldable pub trim_slashes : Text → Text
trim_slashes [] = []
trim_slashes (c ∷ path) = let rest = trim_slashes path in if c == b'/' then rest else c ∷ path

abbrev pub blobs_prefix : Text
blobs_prefix = codes "v1/blobs/"

module _ (rendering : Rendering) where
  unfoldable pub etag_of : Bytes → Text
  unfolding to_hex take
  etag_of body = b'"' ∷ (to_hex (take 8 (rendering.sha256 body)) ++ b'"' ∷ [])

  unfoldable pub error : ℕ → Text → Served
  error status message =
      let body = rendering.render_error message in
      record {
        status = status;
        content_type = json_type;
        cache_control = no_store;
        etag = none;
        content_length = some (length body);
        body = bytes body;
      }

  -- what a client is told of a source's failure
  unfoldable pub error_for : IndexError → Served
  unfolding error
  error_for (unknown_plugin name) =
      error 404 (codes "the index has no plugin `" ++ (name ++ codes "`"))
  error_for (malformed _) = error 400 (codes "the index document is malformed")
  error_for (no_match _ _) = error 500 (codes "internal index error")
  error_for (stale _ _) = error 500 (codes "internal index error")
  error_for (transport _) = error 500 (codes "internal index error")

  unfoldable pub document : ℕ → Document → ℕ → Served
  unfolding error etag_of remaining
  document ttl content now = elim (rendering.render content) [
    | none ↦ error 500 (codes "could not render")
    | some body ↦ record {
      status = 200;
      content_type = json_type;
      cache_control = max_age (remaining ttl now);
      etag = some (etag_of body);
      content_length = some (length body);
      body = bytes body;
    }
  ]

  -- what a source gives, dated anew
  unfoldable pub dated_catalog : ℕ → ℕ → Catalog → Document
  dated_catalog ttl now catalog = of_catalog (record catalog {
    schema = index_schema;
    updated = some (rendering.format (window_start ttl now));
    expires = some (rendering.format (window_end ttl now));
  })

  unfoldable pub dated_releases : ℕ → ℕ → PluginReleases → Document
  dated_releases ttl now releases = of_releases (record releases {
    schema = index_schema;
    updated = some (rendering.format (window_start ttl now));
    expires = some (rendering.format (window_end ttl now));
  })

  module _ (source : IndexSource) (ttl : ℕ) where
    unfoldable pub serve_catalog : ℕ → Served
    serve_catalog now = elim source.catalog [
      | err e ↦ error_for e
      | ok catalog ↦ document ttl (dated_catalog ttl now catalog) now
    ]

    unfoldable pub serve_releases : Text → ℕ → Served
    serve_releases name now = elim (validate_plugin_name name) [
      | err _ ↦ error 400 (codes "not a usable plugin name")
      | ok valid ↦ elim (source.releases valid) [
        | err e ↦ error_for e
        | ok releases ↦ document ttl (dated_releases ttl now releases) now
      ]
    ]

    unfoldable pub serve_blob : Text → Served
    serve_blob digest = elim (source.blob digest) [
      | err e ↦ error_for e
      | ok blob ↦ record {
        status = 200;
        content_type = package_media_type;
        cache_control = immutable;
        etag = some (b'"' ∷ (digest ++ b'"' ∷ []));
        content_length = blob.len;
        body = reader blob.reader;
      }
    ]

    unfoldable pub answer : Text → ℕ → Served
    answer route now =
        if text_eq route catalog_path
        then serve_catalog now
        else elim (strip_prefix blobs_prefix route) [
          | some digest ↦ serve_blob digest
          | none ↦ elim (plugin_of route) [
            | some name ↦ serve_releases name now
            | none ↦ error 404 (codes "no such index route")
          ]
        ]

    unfoldable pub serve_at : Method → Text → Option Text → ℕ → Served
    serve_at get_method path if_none_match now =
        apply_conditional (answer (trim_slashes path) now) if_none_match
    serve_at head_method path if_none_match now =
        record (apply_conditional (answer (trim_slashes path) now) if_none_match) {
          body = bytes [];
        }
    serve_at (other_method _) path if_none_match now = error 405 (codes "only GET and HEAD")

-- `DirectorySource`: a path below its base
unfoldable pub blob_path : Text → Option Text
blob_path digest = elim (strip_prefix (codes "sha256:") digest) [
  | none ↦ none
  | some hex ↦
      if is_sha256_hex hex then some (codes "blobs/sha256/" ++ to_ascii_lowercase hex) else none
]

pub data OpenError : Type 0 where
  absent : OpenError
  unreadable : Text → OpenError

unfoldable pub open_blob :
    (Text → Outcome OpenError (Bytes × Option ℕ)) → Text → Outcome IndexError Blob
unfolding blob_path
open_blob open_file digest = elim (blob_path digest) [
  | none ↦ err (malformed digest)
  | some path ↦ elim (open_file path) [
    | ok (contents, len) ↦ ok (record { reader = contents; len = len })
    | err absent ↦ err (unknown_plugin digest)
    | err (unreadable reason) ↦ err (transport reason)
  ]
]
