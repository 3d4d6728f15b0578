-- ===== src/Index/Choosing.antt =====
-- Which release a requirement resolves to.
use stanchion.Prelude.{
  ℕ, ◌≡◌, ◌≢◌, refl, sym, ap, ◌∙◌, true, false, Option, none, some, List, [], ◌∷◌, gt, flip, arith,
  Text, text_eq_iff, In, here, there, In-keep, keep-In, keep, leb, ◌⊎◌, inl, inr, >>=-eq-ok,
}
use stanchion.Manifest.{Version, VersionReq, is_valid_name}
use stanchion.Signature.{is_sha256_hex}
use stanchion.Registry.{Outcome, ok, err, ◌>>◌}
use stanchion.Index.{
  IndexError, Freshness, Release, PluginReleases, Semver, index_schema, release_hex,
  validate_release, validate_plugin_name, releases_path, check_at, is_eligible, newer, newest_from,
  newest, best_match, validate_each, validate_releases, parse_releases, releases_of, resolve,
  malformed,
}

newer-cases : (semver : Semver) (l r : Release) → (newer semver l r ≡ l) ⊎ (newer semver l r ≡ r)
newer-cases semver l r = ground arith

newest_from-In :
    (semver : Semver) (best : Release) (rs : List Release)
    → In (newest_from semver best rs) (best ∷ rs)
unfolding newest_from
newest_from-In semver best [] = here refl
newest_from-In semver best (r ∷ rs) = elim (newest_from-In semver (newer semver best r) rs) [
  | here e ↦ elim (newer-cases semver best r) [
    | inl f ↦ here (e ∙ f)
    | inr f ↦ there (here (e ∙ f))
  ]
  | there i ↦ there (there i)
]

validate_each-In :
    (semver : Semver) (seen : List Version) (rs : List Release) {r : Release}
    → validate_each semver seen rs ≡ ok tt
    → In r rs
    → is_sha256_hex (release_hex r) ≡ true
unfolding validate_each validate_release
validate_each-In semver seen [] h i = elim i [ ]
validate_each-In semver seen (o ∷ rs) h (here e) = rw e (ground arith)
validate_each-In semver seen (o ∷ rs) {r = r} h (there i) =
    validate_each-In semver (o.version ∷ seen) rs {r = r} (ground arith) i

validate_releases-ok :
    (semver : Semver) (d : PluginReleases) (name : Text)
    → validate_releases semver d name ≡ ok tt
    → (leb d.schema index_schema ≡ true)
      × (d.name ≡ name)
      × ((r : Release) → In r d.releases → is_sha256_hex (release_hex r) ≡ true)
unfolding validate_releases
validate_releases-ok semver d name h = (
  ground arith,
  ground (arith, text_eq_iff d.name name),
  λ r i. validate_each-In semver [] d.releases (ground arith) i,
)

newest-cases : (semver : Semver) (rs : List Release) → newest semver rs ≡ none → rs ≡ []
unfolding newest
newest-cases semver [] h = refl
newest-cases semver (r ∷ rs) h = cc

validate_plugin_name-ok :
    (name : Text) {n : Text}
    → validate_plugin_name name ≡ ok n
    → (is_valid_name name ≡ true) × (n ≡ name)
unfolding validate_plugin_name
validate_plugin_name-ok name h = (ground arith, ground arith)

document_same :
    (o : Outcome IndexError PluginReleases) {d e : PluginReleases} → o ≡ ok d → o ≡ ok e → d ≡ e
document_same o h k = ground arith

checked_document :
    (semver : Semver) (name : Text) (parsed : Outcome Text PluginReleases) {d : PluginReleases}
    → elim parsed [
      | err message ↦ err (malformed message)
      | ok document ↦ validate_releases semver document name >> ok document
    ]
      ≡ ok d
    → (parsed ≡ ok d) × (validate_releases semver d name ≡ ok tt)
checked_document semver name (err message) h = cc
checked_document semver name (ok document) h =
    let (_, e, same) = >>=-eq-ok (validate_releases semver document name) _ h in
    rw (document_same (ok document) same refl) (refl, e)

module _ (semver : Semver) (parse_time : Text → Option ℕ)
    (parse_json : Text → Outcome Text PluginReleases) (read : Text → Outcome IndexError Text) where
  parse_releases-ok :
      (raw name : Text) {d : PluginReleases}
      → parse_releases semver parse_time parse_json read raw name ≡ ok d
      → (parse_json raw ≡ ok d) × (validate_releases semver d name ≡ ok tt)
  unfolding parse_releases
  parse_releases-ok raw name h = checked_document semver name (parse_json raw) h

  -- The document is the one that is read from the index under the plugin's name.
  abbrev pub IsRead : Text → PluginReleases → Type 0
  IsRead name d = (raw : Text) × (read (releases_path name) ≡ ok raw) × (parse_json raw ≡ ok d)

  -- What `releases_of` gives was read from the index and has been checked.
  pub releases_of-ok :
      (freshness : Freshness) (now : ℕ) (name : Text) {d : PluginReleases}
      → releases_of semver parse_time parse_json read freshness now name ≡ ok d
      → (is_valid_name name ≡ true)
        × IsRead name d
        × (validate_releases semver d name ≡ ok tt)
        × (check_at parse_time freshness d.expires name now ≡ ok tt)
  unfolding releases_of
  releases_of-ok freshness now name {d = d} h =
      let (n, e2, h2) = >>=-eq-ok (validate_plugin_name name) _ h in
      let (raw, e3, h3) = >>=-eq-ok (read (releases_path n)) _ h2 in
      let (d', e4, h4) = >>=-eq-ok (parse_releases semver parse_time parse_json read raw n) _ h3 in
      let (u, e5, h5) = >>=-eq-ok (check_at parse_time freshness d'.expires n now) _ h4 in
      let (valid, same) = validate_plugin_name-ok name e2 in
      let (parsed, checked) = parse_releases-ok raw n e4 in
      let e : d' ≡ d = document_same (ok d') refl h5 in
      rw (sym e) (
        valid,
        (raw, sym (ap (λ x. read (releases_path x)) same) ∙ e3, parsed),
        sym (ap (validate_releases semver d') same) ∙ checked,
        sym (ap (λ x. check_at parse_time freshness d'.expires x now) same) ∙ e5,
      )

chosen :
    (o : Option Release) (e : IndexError) {r : Release}
    → elim o [ some release ↦ ok release | none ↦ err e ] ≡ ok r
    → o ≡ some r
chosen none e h = cc
chosen (some release) e h = ground arith

-- The release is offered, is not withdrawn and satisfies the requirement, and no other such release
-- of the document is newer.
abbrev pub IsBest : Semver → PluginReleases → VersionReq → Release → Type 0
IsBest semver d requirement r =
    In r d.releases
    × (r.yanked ≡ false)
    × (semver.matches requirement r.version ≡ true)
    × ((o : Release)
        → In o d.releases
        → o.yanked ≡ false
        → semver.matches requirement o.version ≡ true
        → semver.cmp o.version r.version ≢ gt)

module _ (semver : Semver) (cmp_flip : (a b : Version) → semver.cmp b a ≡ flip (semver.cmp a b))
    (cmp_trans : (a b c : Version)
      → semver.cmp a b ≢ gt
      → semver.cmp b c ≢ gt
      → semver.cmp a c ≢ gt) where
  newer_left : (l r : Release) → semver.cmp l.version (newer semver l r).version ≢ gt
  newer_left l r = ground (arith, cmp_flip l.version l.version, cmp_flip l.version r.version)

  newer_right : (l r : Release) → semver.cmp r.version (newer semver l r).version ≢ gt
  newer_right l r = ground (arith, cmp_flip r.version r.version, cmp_flip l.version r.version)

  newest_from-top :
      (best : Release) (rs : List Release) (o : Release)
      → In o (best ∷ rs)
      → semver.cmp o.version (newest_from semver best rs).version ≢ gt
  unfolding newest_from
  newest_from-top best [] o (here e) = rw e (ground (arith, cmp_flip best.version best.version))
  newest_from-top best [] o (there i) = elim i [ ]
  newest_from-top best (r ∷ rs) o (here e) = rw e (
      cmp_trans _ _ _ (newer_left best r)
        (newest_from-top (newer semver best r) rs (newer semver best r) (here refl)))
  newest_from-top best (r ∷ rs) o (there (here e)) = rw e (
      cmp_trans _ _ _ (newer_right best r)
        (newest_from-top (newer semver best r) rs (newer semver best r) (here refl)))
  newest_from-top best (r ∷ rs) o (there (there i)) =
      newest_from-top (newer semver best r) rs o (there i)

  newest-top :
      (rs : List Release) {r : Release}
      → newest semver rs ≡ some r
      → In r rs × ((o : Release) → In o rs → semver.cmp o.version r.version ≢ gt)
  unfolding newest
  newest-top [] h = cc
  newest-top (best ∷ rs) {r = r} h =
      let e : newest_from semver best rs ≡ r = cc in
      rw (sym e) (newest_from-In semver best rs, λ o i. newest_from-top best rs o i)

  best_match-IsBest :
      (d : PluginReleases) (requirement : VersionReq) {r : Release}
      → best_match semver d requirement ≡ some r
      → IsBest semver d requirement r
  unfolding best_match
  best_match-IsBest d requirement h =
      let p = is_eligible semver requirement in
      let (i, top) = newest-top (keep p d.releases) h in
      let (j, e) = In-keep p d.releases i in
      (j, ground (arith), ground (arith), λ o k y q. top o (keep-In p d.releases k (ground arith)))

  -- A requirement resolves only for a usable plugin name, and to a release with a SHA-256 digest, out
  -- of the document that the index holds under that name, which bears the name, is of a schema this
  -- client knows and is fresh as demanded: to one that is not withdrawn, satisfies the requirement,
  -- and that no other such release of the document is newer than. The order of versions is assumed
  -- to be antisymmetric and transitive.
  pub resolve-IsBest :
      (parse_time : Text → Option ℕ) (parse_json : Text → Outcome Text PluginReleases)
      (read : Text → Outcome IndexError Text) (freshness : Freshness) (now : ℕ) (name : Text)
      (requirement : VersionReq) {r : Release}
      → resolve semver parse_time parse_json read freshness now name requirement ≡ ok r
      → (is_valid_name name ≡ true)
        × (is_sha256_hex (release_hex r) ≡ true)
        × (d : PluginReleases) × IsRead semver parse_time parse_json read name d
        × (d.name ≡ name)
        × (leb d.schema index_schema ≡ true)
        × (check_at parse_time freshness d.expires name now ≡ ok tt)
        × IsBest semver d requirement r
  unfolding resolve
  resolve-IsBest parse_time parse_json read freshness now name requirement {r = r} h =
      let (d, e, h1) =
        >>=-eq-ok (releases_of semver parse_time parse_json read freshness now name) _ h in
      let (valid, was_read, checked, fresh) =
        releases_of-ok semver parse_time parse_json read freshness now name e in
      let (schema, same, digests) = validate_releases-ok semver d name checked in
      let best = best_match-IsBest d requirement (chosen (best_match semver d requirement) _ h1) in
      (valid, digests r best.0, d, was_read, same, schema, fresh, best)
