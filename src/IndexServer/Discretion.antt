-- ===== src/IndexServer/Discretion.antt =====
-- What a client learns of a source's failures.
use stanchion.Prelude.{
  ℕ, ◌≡◌, refl, ap, inl, inr, Option, [], Bool-cases, Option-cases, Outcome-cases, map_err, Text,
  text_eq, strip_prefix,
}
use stanchion.Index.{
  IndexError, unknown_plugin, no_match, malformed, stale, transport, catalog_path,
  validate_plugin_name,
}
use stanchion.IndexServer.{
  Method, get_method, head_method, other_method, bytes, IndexSource, Rendering, error_for,
  apply_conditional, plugin_of, trim_slashes, blobs_prefix, serve_catalog, serve_releases,
  serve_blob, answer, serve_at,
}

-- A failure without its detail: the name that was asked for is not one.
abbrev pub hide : IndexError → IndexError
hide (unknown_plugin name) = unknown_plugin name
hide (malformed _) = malformed []
hide (no_match _ _) = transport []
hide (stale _ _) = transport []
hide (transport _) = transport []

-- The source with the detail of its failures taken away.
abbrev pub discreet : IndexSource → IndexSource
discreet source = record {
  releases = λ name. map_err hide (source.releases name);
  catalog = map_err hide source.catalog;
  blob = λ digest. map_err hide (source.blob digest);
}

module _ (rendering : Rendering) where
  error_for-hide : (e : IndexError) → error_for rendering (hide e) ≡ error_for rendering e
  unfolding error_for
  error_for-hide (unknown_plugin name) = refl
  error_for-hide (malformed _) = refl
  error_for-hide (no_match _ _) = refl
  error_for-hide (stale _ _) = refl
  error_for-hide (transport _) = refl

  module _ (source : IndexSource) (ttl now : ℕ) where
    serve_catalog-discreet :
        serve_catalog rendering (discreet source) ttl now ≡ serve_catalog rendering source ttl now
    unfolding serve_catalog
    serve_catalog-discreet = elim (Outcome-cases source.catalog) [
      | inl (catalog, e) ↦ rw (e, serve_catalog) refl
      | inr (x, e) ↦ rw (e, serve_catalog) (error_for-hide x)
    ]

    serve_blob-discreet :
        (digest : Text)
        → serve_blob rendering (discreet source) ttl digest ≡ serve_blob rendering source ttl digest
    unfolding serve_blob
    serve_blob-discreet digest = elim (Outcome-cases (source.blob digest)) [
      | inl (blob, e) ↦ rw (e, serve_blob) refl
      | inr (x, e) ↦ rw (e, serve_blob) (error_for-hide x)
    ]

    serve_releases-discreet :
        (name : Text)
        → serve_releases rendering (discreet source) ttl name now
          ≡ serve_releases rendering source ttl name now
    unfolding serve_releases
    serve_releases-discreet name = elim (Outcome-cases (validate_plugin_name name)) [
      | inr (x, e) ↦ rw (e, serve_releases) refl
      | inl (valid, e) ↦ elim (Outcome-cases (source.releases valid)) [
        | inl (releases, f) ↦ rw (e, f, serve_releases) refl
        | inr (x, f) ↦ rw (e, f, serve_releases) (error_for-hide x)
      ]
    ]

    answer-discreet :
        (route : Text)
        → answer rendering (discreet source) ttl route now ≡ answer rendering source ttl route now
    unfolding answer
    answer-discreet route = elim (Bool-cases (text_eq route catalog_path)) [
      | inl e ↦ rw (e, answer) serve_catalog-discreet
      | inr e ↦ elim (Option-cases (strip_prefix blobs_prefix route)) [
        | inr (digest, f) ↦ rw (e, f, answer) (serve_blob-discreet digest)
        | inl f ↦ elim (Option-cases (plugin_of route)) [
          | inl g ↦ rw (e, f, g, answer) refl
          | inr (name, g) ↦ rw (e, f, g, answer) (serve_releases-discreet name)
        ]
      ]
    ]

    -- Whatever is asked, by whatever method, the answer tells nothing of a failure of the source but
    -- its kind, and the name that the source does not know: it is the same where every other detail
    -- of the source's failures is taken away.
    pub serve_at-discreet :
        (method : Method) (path : Text) (if_none_match : Option Text)
        → serve_at rendering (discreet source) ttl method path if_none_match now
          ≡ serve_at rendering source ttl method path if_none_match now
    unfolding serve_at
    serve_at-discreet get_method path if_none_match =
        ap (λ s. apply_conditional s if_none_match) (answer-discreet (trim_slashes path))
    serve_at-discreet head_method path if_none_match =
        ap (λ s. record (apply_conditional s if_none_match) { body = bytes [] })
          (answer-discreet (trim_slashes path))
    serve_at-discreet (other_method _) path if_none_match = refl
