-- ===== src/IndexServer/Repeating.antt =====
-- Within a window the server gives the same answer again, or says that it would.
use stanchion.Prelude.{
  ℕ, ◌≡◌, refl, sym, ◌∙◌, inl, inr, none, some, [], arith, Bool-cases, Option-cases, Outcome-cases,
  Text, strip_prefix, text_eq, text_eq_refl,
}
use stanchion.Signature.{Bytes}
use stanchion.Index.{Catalog, PluginReleases, catalog_path, validate_plugin_name}
use stanchion.IndexServer.{
  get_method, bytes, max_age, Served, Document, IndexSource, Rendering, apply_conditional,
  plugin_of, trim_slashes, blobs_prefix, etag_of, document, dated_catalog, dated_releases,
  serve_catalog, serve_releases, answer, serve_at,
}
use stanchion.IndexServer.Windows.{IsSameWindow, window_end_same}
use stanchion.IndexServer.Conditional.{lists_tag-etag_of, aged-document}

-- The same status, tag and body.
abbrev pub IsLike : Served → Served → Type 0
IsLike one two = (one.status ≡ two.status) × (one.etag ≡ two.etag) × (one.body ≡ two.body)

same : (one : Served) → IsLike one one
same one = (refl, refl, refl)

module _ (rendering : Rendering) where
  apply_conditional-kept :
      (served : Served) (body : Bytes)
      → served.status ≡ 200
      → served.etag ≡ some (etag_of rendering body)
      → ((apply_conditional served (some (etag_of rendering body))).status ≡ 304)
        × ((apply_conditional served (some (etag_of rendering body))).body ≡ bytes [])
  unfolding apply_conditional
  apply_conditional-kept served body h e =
      let listed =
        lists_tag-etag_of rendering (etag_of rendering body) body
        ∙ text_eq_refl (etag_of rendering body) in
      (ground arith, ground arith)

module _ (rendering : Rendering) (ttl now later : ℕ) (window : IsSameWindow ttl now later) where
  dated_catalog-same :
      (catalog : Catalog)
      → dated_catalog rendering ttl later catalog ≡ dated_catalog rendering ttl now catalog
  unfolding dated_catalog
  dated_catalog-same catalog = rw (window, window_end_same ttl now later window)

  dated_releases-same :
      (releases : PluginReleases)
      → dated_releases rendering ttl later releases ≡ dated_releases rendering ttl now releases
  unfolding dated_releases
  dated_releases-same releases = rw (window, window_end_same ttl now later window)

  document-same :
      (content : Document)
      → IsLike (document rendering ttl content later) (document rendering ttl content now)
  unfolding document
  document-same content = elim (Option-cases (rendering.render content)) [
    | inl e ↦ rw (e, document) (refl, refl, refl)
    | inr (body, e) ↦ rw (e, document) (refl, refl, refl)
  ]

  module _ (source : IndexSource) where
    serve_catalog-same :
        IsLike (serve_catalog rendering source ttl later) (serve_catalog rendering source ttl now)
    unfolding serve_catalog
    serve_catalog-same = elim (Outcome-cases source.catalog) [
      | inl (catalog, e) ↦
          rw (e, serve_catalog, dated_catalog-same catalog)
            (document-same (dated_catalog rendering ttl now catalog))
      | inr (x, e) ↦ rw (e, serve_catalog) (refl, refl, refl)
    ]

    serve_releases-same :
        (name : Text)
        → IsLike
            (serve_releases rendering source ttl name later)
            (serve_releases rendering source ttl name now)
    unfolding serve_releases
    serve_releases-same name = elim (Outcome-cases (validate_plugin_name name)) [
      | inr (x, e) ↦ rw (e, serve_releases) (refl, refl, refl)
      | inl (valid, e) ↦ elim (Outcome-cases (source.releases valid)) [
        | inl (releases, f) ↦
            rw (e, f, serve_releases, dated_releases-same releases)
              (document-same (dated_releases rendering ttl now releases))
        | inr (x, f) ↦ rw (e, f, serve_releases) (refl, refl, refl)
      ]
    ]

    answer-same :
        (route : Text)
        → IsLike (answer rendering source ttl route later) (answer rendering source ttl route now)
    unfolding answer
    answer-same route = elim (Bool-cases (text_eq route catalog_path)) [
      | inl e ↦ rw (e, answer) serve_catalog-same
      | inr e ↦ elim (Option-cases (strip_prefix blobs_prefix route)) [
        | inr (digest, f) ↦ rw (e, f, answer) (refl, refl, refl)
        | inl f ↦ elim (Option-cases (plugin_of route)) [
          | inl g ↦ rw (e, f, g, answer) (refl, refl, refl)
          | inr (name, g) ↦ rw (e, f, g, answer) (serve_releases-same name)
        ]
      ]
    ]

    -- A client that asks again within the window, with the tag of the document that it was given, is
    -- told to keep it and is sent no body; one that asks without a tag is given the same document.
    pub serve_at_again :
        (path : Text) {age : ℕ} {tag : Text}
        → (serve_at rendering source ttl get_method path none now).cache_control ≡ max_age age
        → (serve_at rendering source ttl get_method path none now).etag ≡ some tag
        → ((serve_at rendering source ttl get_method path (some tag) later).status ≡ 304)
          × ((serve_at rendering source ttl get_method path (some tag) later).body ≡ bytes [])
          × IsLike
              (serve_at rendering source ttl get_method path none later)
              (serve_at rendering source ttl get_method path none now)
    unfolding serve_at apply_conditional
    serve_at_again path {tag = tag} h t =
        let route = trim_slashes path in
        let (content, body, dated, r, status, b, etag, aged) =
          aged-document rendering source ttl route now h in
        let (one, two, three) = answer-same route in
        let told =
          apply_conditional-kept rendering (answer rendering source ttl route later) body
            (one ∙ status) (two ∙ etag) in
        let own : etag_of rendering body ≡ tag = cc in
        (rw (sym own) told.0, rw (sym own) told.1, (one, two, three))
