-- ===== src/IndexServer/Revalidation.antt =====
-- When a client that asks again is told to keep what it has.
use stanchion.Prelude.{
  ◌⊎◌, Bool-cases, ℕ, ◌≤◌, true, false, ◌≡◌, ◌≢◌, sym, ap, ◌∙◌, inl, inr, Option, none, some, arith,
  Option-cases, ok, Text, strip_prefix, text_eq, text_eq_iff,
}
use stanchion.Signature.{Bytes}
use stanchion.Index.{Freshness, check_at, catalog_path}
use stanchion.IndexServer.{
  max_instant, get_method, bytes, max_age, Served, Document, IndexSource, Rendering, lists_tag,
  apply_conditional, trim_slashes, blobs_prefix, etag_of, answer, serve_at,
}
use stanchion.IndexServer.Windows.{IsTtl, window_end-now}
use stanchion.IndexServer.Answers.{expires_of, IsDated, answer-cases, blob-not_aged}
use stanchion.IndexServer.Conditional.{
  lists_tag-etag_of, document-cases, aged-document, IsInverse, dated-fresh,
}

-- An answer that turns into a 304 is a success with a tag that the client lists.
apply_conditional-listed :
    (served : Served) (candidates : Text)
    → (apply_conditional served (some candidates)).status ≡ 304
    → (served.status ≢ 304)
    → (tag : Text) × (served.etag ≡ some tag) × (lists_tag tag candidates ≡ true)
unfolding apply_conditional
apply_conditional-listed served candidates h k = elim (Option-cases served.etag) [
  | inl e ↦ absurd (ground arith)
  | inr (tag, e) ↦ (tag, e, ground arith)
]

module _ (rendering : Rendering) where
  -- A body tells when its document expires, as JSON does.
  abbrev pub IsReadable : Type 0
  IsReadable =
      (one two : Document) (body : Bytes)
      → rendering.render one ≡ some body
      → rendering.render two ≡ some body
      → expires_of one ≡ expires_of two

  module _ (source : IndexSource) (ttl : ℕ) (route : Text) (now : ℕ) where
    aged-etag_of :
        {age : ℕ} {body : Bytes} {tag : Text}
        → (answer rendering source ttl route now).cache_control ≡ max_age age
        → (answer rendering source ttl route now).body ≡ bytes body
        → (answer rendering source ttl route now).etag ≡ some tag
        → tag ≡ etag_of rendering body
    aged-etag_of h b t =
        let (content, other, dated, r, status, o, etag, aged) =
          aged-document rendering source ttl route now h in
        let same = sym o ∙ b in let tagged = sym etag ∙ t in cc

    -- Where a client that sends the tag of what it has is told to keep it, the server would have
    -- answered with a document that has that tag.
    listed-document :
        (body : Bytes)
        → ((digest : Text)
            → text_eq route catalog_path ≡ false
            → strip_prefix blobs_prefix route ≡ some digest
            → ⊥)
        → (apply_conditional
            (answer rendering source ttl route now)
            (some (etag_of rendering body))).status
          ≡ 304
        → (content : Document) × (other : Bytes) × IsDated rendering ttl now content
          × (rendering.render content ≡ some other)
          × ((answer rendering source ttl route now).body ≡ bytes other)
          × (etag_of rendering other ≡ etag_of rendering body)
    listed-document body no_blob k =
        let served = answer rendering source ttl route now in
        let listed = apply_conditional-listed served (etag_of rendering body) k in
        elim (answer-cases rendering source ttl now route) [
          | inr (digest, e, f) ↦ absurd (no_blob digest e f)
          | inl (inr (f, g, high)) ↦
              let (tag, e, _) = listed (λ q. omega (arith, high, q)) in absurd (ground arith)
          | inl (inl (content, e, dated)) ↦
              let status = ap (λ s. s.status) e in
              let etag = ap (λ s. s.etag) e in
              elim (document-cases rendering ttl content now) [
                | inr (f, g, high) ↦
                    let (tag, q, _) = listed (λ q. omega (arith, high, status, q)) in
                    absurd (ground arith)
                | inl (other, r, done, o, tagged, aged) ↦
                    let (tag, q, l) = listed (λ q. omega (arith, done, status, q)) in
                    let same : etag_of rendering other ≡ tag = cc in
                    let agree = lists_tag-etag_of rendering tag body in
                    (
                      content,
                      other,
                      dated,
                      r,
                      ap (λ s. s.body) e ∙ o,
                      ground (arith, text_eq_iff (etag_of rendering body) tag),
                    )
              ]
        ]

  module _ (parse_time : Text → Option ℕ) (inverse : IsInverse rendering parse_time) (ttl : ℕ)
      (lifetime : IsTtl ttl) where
    -- A client that has a document and is told to keep it, on the strength of its tag alone, has one
    -- that is still fresh when it asks, whatever the source holds by then, or the server has by then
    -- another body for it with the very same tag. A body tells when its document expires, the
    -- server's lifetime is at least a minute, and no instant is beyond the last one there is.
    pub serve_at-not_modified :
        (source later_source : IndexSource) (path : Text) (now later : ℕ) {age : ℕ} {body : Bytes}
        {tag : Text}
        → (serve_at rendering source ttl get_method path none now).cache_control ≡ max_age age
        → (serve_at rendering source ttl get_method path none now).body ≡ bytes body
        → (serve_at rendering source ttl get_method path none now).etag ≡ some tag
        → IsReadable
        → later ≤ max_instant
        → (serve_at rendering later_source ttl get_method path (some tag) later).status ≡ 304
        → (content : Document) → rendering.render content ≡ some body
        → (freshness : Freshness) (what : Text)
        → (check_at parse_time freshness (expires_of content) what later ≡ ok tt)
          ⊎ ((other : Bytes) × ((serve_at rendering later_source ttl get_method path none
                  later).body
                ≡ bytes other)
              × (other ≢ body)
              × (etag_of rendering other ≡ etag_of rendering body))
    unfolding serve_at apply_conditional
    serve_at-not_modified source later_source path now later {body = body} {tag = tag} h b t read l
          k content r freshness what =
        let route = trim_slashes path in
        let own : tag ≡ etag_of rendering body = aged-etag_of source ttl route now h b t in
        let (then, body', dated, r', served, same) =
          listed-document later_source ttl route later body
            (λ digest e f. blob-not_aged rendering source ttl now route digest e f h)
            (rw own at k) in
        elim (Bool-cases (text_eq body' body)) [
          | inr e ↦ inr (body', served, λ q. absurd (ground (arith, text_eq_iff body' body)), same)
          | inl e ↦
              let equal = (text_eq_iff body' body).0 e in
              let expires = read then content body (r' ∙ ap some equal) r in
              inl (
                dated-fresh rendering parse_time inverse ttl lifetime later content
                  (sym expires ∙ dated) freshness what later (window_end-now ttl later lifetime l))
        ]
