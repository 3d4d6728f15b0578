-- ===== src/IndexServer/Conditional.antt =====
-- Conditional requests: when a client may keep what it holds.
use mathlib.Core.List.{reverse, reverse-append, reverse-reverse}
use stanchion.Prelude.{
  ℕ, ◌+◌, ◌*◌, ◌≤◌, ◌<◌, Bool, true, false, not, ◌≡◌, refl, sym, ap, ◌∙◌, subst, ◌⊎◌, inl, inr,
  Option, none, some, [], ◌∷◌, ◌++◌, arith, ◌==◌, Option-cases, ok, Text, codes, text_eq, all,
  all-append, split-whole, trim, trim_start, is_whitespace,
}
use stanchion.Signature.{Bytes, to_hex, hex_digit}
use stanchion.Package.{take}
use stanchion.Index.{Freshness, ignored, required, lenient, check_at}
use stanchion.IndexServer.{
  second, max_instant, get_method, bytes, max_age, Document, IndexSource, Rendering, window_end,
  remaining, strip_weak, lists_tag, apply_conditional, trim_slashes, etag_of, document, answer,
  serve_at,
}
use stanchion.IndexServer.Answers.{expires_of, IsDated, IsFailure, answer-cases, blob-not_aged}
use stanchion.IndexServer.Windows.{IsTtl, remaining-pos, window_end-ge, window_end_bounds}

abbrev no_comma : ℕ → Bool
no_comma c = not (c == b',')

hex_digit-no_comma : (d : ℕ) → no_comma (hex_digit d) ≡ true
unfolding hex_digit
hex_digit-no_comma d = ground arith

to_hex-no_comma : (b : Bytes) → all no_comma (to_hex b) ≡ true
unfolding to_hex
to_hex-no_comma [] = refl
to_hex-no_comma (b ∷ bs) = ground (arith, to_hex-no_comma bs)

-- A quoted text has nothing to trim.
quoted : Text → Text
quoted s = b'"' ∷ (s ++ b'"' ∷ [])

reverse-quoted : (s : Text) → reverse (quoted s) ≡ quoted (reverse s)
unfolding quoted
reverse-quoted s =
    reverse-append (b'"' ∷ s) (b'"' ∷ []) ∙ ap (λ t. b'"' ∷ t) (reverse-append (b'"' ∷ []) s)

trim_start-quoted : (s : Text) → trim_start (quoted s) ≡ quoted s
unfolding trim_start quoted is_whitespace
trim_start-quoted s = refl

trim-quoted : (s : Text) → trim (quoted s) ≡ quoted s
unfolding trim
trim-quoted s =
    ap (λ t. reverse (trim_start (reverse t))) (trim_start-quoted s)
    ∙ ap (λ t. reverse (trim_start t)) (reverse-quoted s)
    ∙ ap reverse (trim_start-quoted (reverse s))
    ∙ ap reverse (sym (reverse-quoted s))
    ∙ reverse-reverse (quoted s)

strip_weak-quoted : (s : Text) → strip_weak (quoted s) ≡ quoted s
unfolding strip_weak quoted
strip_weak-quoted [] = refl
strip_weak-quoted (c ∷ s) = refl

quoted-no_comma : (s : Text) → all no_comma s ≡ true → all no_comma (quoted s) ≡ true
unfolding quoted
quoted-no_comma s h = ground (arith, all-append no_comma s (b'"' ∷ []))

quoted-star : (s : Text) → text_eq (quoted s) (codes "*") ≡ false
unfolding quoted text_eq
quoted-star s = refl

-- A client that sends one tag lists exactly that tag.
lists_tag-quoted :
    (s tag : Text) → all no_comma s ≡ true → lists_tag tag (quoted s) ≡ text_eq (quoted s) tag
unfolding lists_tag
lists_tag-quoted s tag h =
    rw
      (
        quoted-star s,
        split-whole (quoted s) (quoted-no_comma s h),
        trim-quoted s,
        strip_weak-quoted s,
      )
      (ground arith)

module _ (rendering : Rendering) where
  pub lists_tag-etag_of :
      (tag : Text) (body : Bytes)
      → lists_tag tag (etag_of rendering body) ≡ text_eq (etag_of rendering body) tag
  unfolding etag_of quoted
  lists_tag-etag_of tag body =
      lists_tag-quoted (to_hex (take 8 (rendering.sha256 body))) tag
        (to_hex-no_comma (take 8 (rendering.sha256 body)))

  -- A document that is given for some time is rendered, tagged and kept for the rest of the window.
  module _ (ttl : ℕ) (content : Document) (now : ℕ) where
    pub document-cases :
        ((body : Bytes) × (rendering.render content ≡ some body)
          × ((document rendering ttl content now).status ≡ 200)
          × ((document rendering ttl content now).body ≡ bytes body)
          × ((document rendering ttl content now).etag ≡ some (etag_of rendering body))
          × ((document rendering ttl content now).cache_control ≡ max_age (remaining ttl now)))
        ⊎ IsFailure rendering (document rendering ttl content now)
    unfolding document
    document-cases = elim (Option-cases (rendering.render content)) [
      | inl e ↦ inr (rw (e, document) (refl, refl, omega arith))
      | inr (body, e) ↦
          inl (body, e, rw (e, document), rw (e, document), rw (e, document), rw (e, document))
    ]

  -- An answer that may be kept for some seconds is a document.
  pub aged-document :
      (source : IndexSource) (ttl : ℕ) (route : Text) (now : ℕ) {age : ℕ}
      → (answer rendering source ttl route now).cache_control ≡ max_age age
      → (content : Document) × (body : Bytes) × IsDated rendering ttl now content
        × (rendering.render content ≡ some body)
        × ((answer rendering source ttl route now).status ≡ 200)
        × ((answer rendering source ttl route now).body ≡ bytes body)
        × ((answer rendering source ttl route now).etag ≡ some (etag_of rendering body))
        × (remaining ttl now ≡ age)
  aged-document source ttl route now {age = age} h =
      elim (answer-cases rendering source ttl now route) [
        | inr (digest, e, f) ↦ absurd (blob-not_aged rendering source ttl now route digest e f h)
        | inl (inr (f, g, k)) ↦ absurd (ground arith)
        | inl (inl (content, e, dated)) ↦ elim (document-cases ttl content now) [
          | inr (f, g, k) ↦ absurd (ground arith)
          | inl (body, r, status, b, tag, aged) ↦
              let kept = sym (ap (λ s. s.cache_control) e ∙ aged) ∙ h in
              (
                content,
                body,
                dated,
                r,
                ap (λ s. s.status) e ∙ status,
                ap (λ s. s.body) e ∙ b,
                ap (λ s. s.etag) e ∙ tag,
                ground arith,
              )
        ]
      ]

-- The parser of timestamps reads what the formatter writes.
abbrev pub IsInverse : Rendering → (Text → Option ℕ) → Type 0
IsInverse rendering parse_time =
    (instant : ℕ) → instant ≤ max_instant → parse_time (rendering.format instant) ≡ some instant

window_end-le : (ttl now : ℕ) → window_end ttl now ≤ max_instant
unfolding window_end
window_end-le ttl now = ground arith

check_at-fresh :
    (parse_time : Text → Option ℕ) (freshness : Freshness) (expires what : Text) (now : ℕ)
    {deadline : ℕ}
    → parse_time expires ≡ some deadline
    → now ≤ deadline
    → check_at parse_time freshness (some expires) what now ≡ ok tt
unfolding check_at
check_at-fresh parse_time ignored expires what now e h = refl
check_at-fresh parse_time required expires what now e h = ground arith
check_at-fresh parse_time lenient expires what now e h = ground arith

module _ (rendering : Rendering) (parse_time : Text → Option ℕ)
    (inverse : IsInverse rendering parse_time) (ttl : ℕ) (lifetime : IsTtl ttl) where
  pub dated-fresh :
      (now : ℕ) (content : Document)
      → IsDated rendering ttl now content
      → (freshness : Freshness) (what : Text) (later : ℕ) → later ≤ window_end ttl now
      → check_at parse_time freshness (expires_of content) what later ≡ ok tt
  dated-fresh now content dated freshness what later h = rw dated (
      check_at-fresh parse_time freshness _ what later
        (inverse (window_end ttl now) (window_end-le ttl now)) h)

  -- A document that is given to be kept for some seconds names the instant at which it expires, which
  -- is less than a second from when those seconds have passed, or the last instant there is where
  -- that comes first. Until less than a second before those seconds have passed, every client takes
  -- the document for fresh. The server's lifetime is at least a minute, and no instant is beyond the
  -- last one there is.
  pub serve_at-fresh :
      (source : IndexSource) (path : Text) (now : ℕ) {age : ℕ}
      → (serve_at rendering source ttl get_method path none now).cache_control ≡ max_age age
      → (content : Document) × (body : Bytes) × (expires : Text) × (deadline : ℕ)
        × (rendering.render content ≡ some body)
        × ((serve_at rendering source ttl get_method path none now).body ≡ bytes body)
        × ((serve_at rendering source ttl get_method path none now).status ≡ 200)
        × (0 < age)
        × (expires_of content ≡ some expires)
        × (parse_time expires ≡ some deadline)
        × (deadline < now + age * second + second)
        × ((deadline ≡ max_instant) ⊎ (now + age * second < deadline + second))
        × ((freshness : Freshness) (what : Text) (later : ℕ)
            → later ≤ max_instant
            → later + second ≤ now + age * second
            → check_at parse_time freshness (expires_of content) what later ≡ ok tt)
  unfolding serve_at apply_conditional
  serve_at-fresh source path now h =
      let (content, body, dated, r, status, b, tag, same) =
        aged-document rendering source ttl (trim_slashes path) now h in
      let (upper, lower) = window_end_bounds ttl now lifetime in
      (
        content,
        body,
        rendering.format (window_end ttl now),
        window_end ttl now,
        r,
        b,
        status,
        subst (λ n. 0 < n) same (remaining-pos ttl now),
        dated,
        inverse (window_end ttl now) (window_end-le ttl now),
        subst (λ n. window_end ttl now < now + n * second + second) same upper,
        elim lower [
          | inl e ↦ inl e
          | inr e ↦ inr (subst (λ n. now + n * second < window_end ttl now + second) same e)
        ],
        λ freshness what later l k. dated-fresh now content dated freshness what later (
            window_end-ge ttl now later lifetime
              (subst (λ n. later + second ≤ now + n * second) (sym same) k) l),
      )
