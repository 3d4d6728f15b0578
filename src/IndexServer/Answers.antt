-- ===== src/IndexServer/Answers.antt =====
-- What an answer is: a document dated by the window, a package, or a failure.
use stanchion.Prelude.{
  ℕ, ◌≤◌, false, ◌≡◌, refl, ◌⊎◌, inl, inr, Option, none, some, arith, Bool-cases, Option-cases,
  Outcome-cases, Text, codes, text_eq, strip_prefix,
}
use stanchion.Index.{
  IndexError, unknown_plugin, no_match, malformed, stale, transport, catalog_path,
  validate_plugin_name,
}
use stanchion.IndexServer.{
  max_age, no_store, Served, Document, of_catalog, of_releases, IndexSource, Rendering, window_end,
  plugin_of, blobs_prefix, error, error_for, document, dated_catalog, dated_releases, serve_catalog,
  serve_releases, serve_blob, answer,
}

abbrev pub expires_of : Document → Option Text
expires_of (of_catalog catalog) = catalog.expires
expires_of (of_releases releases) = releases.expires

module _ (rendering : Rendering) where
  -- A document that says it expires at the end of the window.
  abbrev pub IsDated : ℕ → ℕ → Document → Type 0
  IsDated ttl now content = expires_of content ≡ some (rendering.format (window_end ttl now))

  -- An answer that nobody may keep.
  abbrev pub IsFailure : Served → Type 0
  IsFailure served =
      (served.cache_control ≡ no_store) × (served.etag ≡ none) × (400 ≤ served.status)

  error_for-IsFailure : (e : IndexError) → IsFailure (error_for rendering e)
  unfolding error_for
  error_for-IsFailure (unknown_plugin name) = (refl, refl, omega arith)
  error_for-IsFailure (malformed m) = (refl, refl, omega arith)
  error_for-IsFailure (no_match n r) = (refl, refl, omega arith)
  error_for-IsFailure (stale w e) = (refl, refl, omega arith)
  error_for-IsFailure (transport m) = (refl, refl, omega arith)

  error-IsFailure :
      (status : ℕ) (message : Text) → 400 ≤ status → IsFailure (error rendering status message)
  unfolding error
  error-IsFailure status message h = (refl, refl, h)

  abbrev pub IsDocument : ℕ → ℕ → Served → Type 0
  IsDocument ttl now served =
      (content : Document) × (served ≡ document rendering ttl content now) × IsDated ttl now content

  abbrev IsEither : ℕ → ℕ → Served → Type 0
  IsEither ttl now served = IsDocument ttl now served ⊎ IsFailure served

  module _ (source : IndexSource) (ttl now : ℕ) where
    serve_catalog-cases : IsEither ttl now (serve_catalog rendering source ttl now)
    unfolding serve_catalog dated_catalog
    serve_catalog-cases = elim (Outcome-cases source.catalog) [
      | inl (catalog, e) ↦ rw e (inl (dated_catalog rendering ttl now catalog, refl, refl))
      | inr (x, e) ↦ rw e (inr (error_for-IsFailure x))
    ]

    serve_releases-cases :
        (name : Text) → IsEither ttl now (serve_releases rendering source ttl name now)
    unfolding serve_releases dated_releases
    serve_releases-cases name = elim (Outcome-cases (validate_plugin_name name)) [
      | inr (x, e) ↦
          rw (e, serve_releases)
            (inr (error-IsFailure 400 (codes "not a usable plugin name") (omega arith)))
      | inl (valid, e) ↦ elim (Outcome-cases (source.releases valid)) [
        | inl (releases, f) ↦
            rw (e, f, serve_releases) (inl (dated_releases rendering ttl now releases, refl, refl))
        | inr (x, f) ↦ rw (e, f, serve_releases) (inr (error_for-IsFailure x))
      ]
    ]

    pub answer-cases :
        (route : Text)
        → IsEither ttl now (answer rendering source ttl route now)
          ⊎ ((digest : Text) × (text_eq route catalog_path ≡ false)
              × (strip_prefix blobs_prefix route ≡ some digest))
    unfolding answer
    answer-cases route = elim (Bool-cases (text_eq route catalog_path)) [
      | inl e ↦ inl (rw e serve_catalog-cases)
      | inr e ↦ elim (Option-cases (strip_prefix blobs_prefix route)) [
        | inr (digest, f) ↦ inr (digest, e, f)
        | inl f ↦ elim (Option-cases (plugin_of route)) [
          | inl g ↦
              inl (
                rw (e, f, g)
                  (inr (error-IsFailure 404 (codes "no such index route") (omega arith))))
          | inr (name, g) ↦ inl (rw (e, f, g) (serve_releases-cases name))
        ]
      ]
    ]

    -- A package's route never gives a document.
    pub blob-not_aged :
        (route digest : Text) {age : ℕ}
        → text_eq route catalog_path ≡ false
        → strip_prefix blobs_prefix route ≡ some digest
        → (answer rendering source ttl route now).cache_control ≡ max_age age
        → ⊥
    unfolding answer serve_blob
    blob-not_aged route digest e f h = elim (Outcome-cases (source.blob digest)) [
      | inl (blob, g) ↦ absurd (ground arith)
      | inr (x, g) ↦ absurd (ground (arith, error_for-IsFailure x))
    ]
