-- ===== src/Signature/Revoking.antt =====
-- What a revocation list refuses.
use stanchion.Prelude.{
  ◌≡◌, ◌↔◌, ◌≢◌, ◌⊎◌, ap, ◌∙◌, subst, inl, inr, refl, Bool, true, false, ◌||◌, Bool-cases, In, here,
  there, is_some, Option, none, some, [], ◌∷◌, arith, Text, text_eq_iff, any, any-In, any-append,
  Option-cases,
}
use stanchion.Signature.{
  Signer, identity, DirectoryDigest, hex, Revocation, Revocations, normalize_digest, same_digest,
  same_identity, check_each, check, hex_of, needs_digest, deny_digest, deny_identity,
}

-- The entry names this build or this signer.
abbrev pub names : Option Text → Option Text → Revocation → Bool
names hex who entry = same_digest entry.digest hex || same_identity entry.identity who

check_each-any :
    (list : Revocations) (hex who : Option Text)
    → (check_each list hex who ≡ none) ↔ (any (names hex who) list ≡ false)
unfolding check_each
check_each-any [] hex who = (λ _. refl, λ _. refl)
check_each-any (e ∷ list) hex who =
    let (f, g) = check_each-any list hex who in (ground (arith, f), ground (arith, g))

-- A plugin is let through exactly when no entry of the list names its build, compared after
-- normalisation, or its verified identity.
pub check-any_iff :
    (list : Revocations) (digest : Option DirectoryDigest) (signer : Signer)
    → (check list digest signer ≡ none)
      ↔ (any (names (hex_of digest) (identity signer)) list ≡ false)
unfolding check
check-any_iff list digest signer = check_each-any list (hex_of digest) (identity signer)

-- The entry names the build, by the same digest after normalisation, or the verified identity of
-- its signer.
abbrev pub Names : Revocation → Option DirectoryDigest → Signer → Type 0
Names entry digest signer =
    ((denied : Text) × (d : DirectoryDigest) × (entry.digest ≡ some denied)
      × (digest ≡ some d)
      × (normalize_digest denied ≡ normalize_digest (hex d)))
    ⊎ ((who : Text) × (entry.identity ≡ some who) × (identity signer ≡ some who))

module _ (digest : Option DirectoryDigest) (signer : Signer) where
  names-Names :
      (e : Revocation) → names (hex_of digest) (identity signer) e ≡ true → Names e digest signer
  names-Names e h = elim (Bool-cases (same_digest e.digest (hex_of digest))) [
    | inl f ↦ elim (Option-cases e.digest) [
      | inl g ↦ absurd (ground arith)
      | inr (denied, g) ↦ elim (Option-cases digest) [
        | inl k ↦ absurd (ground arith)
        | inr (d, k) ↦ inl (
          denied,
          d,
          g,
          k,
          (text_eq_iff (normalize_digest denied) (normalize_digest (hex d))).0 (ground arith),
        )
      ]
    ]
    | inr f ↦ elim (Option-cases e.identity) [
      | inl g ↦ absurd (ground arith)
      | inr (who, g) ↦ elim (Option-cases (identity signer)) [
        | inl k ↦ absurd (ground arith)
        | inr (actual, k) ↦
            let same = (text_eq_iff who actual).0 (ground arith) in inr (who, g, rw same k)
      ]
    ]
  ]

  Names-names :
      (e : Revocation) → Names e digest signer → names (hex_of digest) (identity signer) e ≡ true
  Names-names e (inl (denied, d, f, g, h)) =
      ground (arith, text_eq_iff (normalize_digest denied) (normalize_digest (hex d)))
  Names-names e (inr (who, f, g)) = ground (arith, text_eq_iff who who)

  -- Where the list has a reason, an entry of it names the build or the signer.
  pub check-Names :
      (list : Revocations) {reason : Text}
      → check list digest signer ≡ some reason
      → (e : Revocation) × In e list × Names e digest signer
  unfolding check check_each
  check-Names [] h = absurd (ground arith)
  check-Names (e ∷ list) {reason} h =
      elim (Bool-cases (names (hex_of digest) (identity signer) e)) [
        | inl f ↦ (e, here refl, names-Names e f)
        | inr f ↦
            let (x, i, n) = check-Names list {reason = reason} (ground arith) in (x, there i, n)
      ]

  -- Where it has none, no entry does.
  pub check-not_Names :
      (list : Revocations)
      → check list digest signer ≡ none
      → (e : Revocation) → In e list
      → ¬ Names e digest signer
  unfolding check check_each
  check-not_Names [] h e i n = elim i [ ]
  check-not_Names (x ∷ list) h e (here q) n =
      let m = Names-names x (subst (λ (y : Revocation). Names y digest signer) q n) in
      absurd (ground arith)
  check-not_Names (x ∷ list) h e (there i) n = check-not_Names list (ground arith) e i n

-- An entry of the list names a build.
pub needs_digest-In :
    (list : Revocations)
    → needs_digest list ≡ true
    → (e : Revocation) × In e list × (is_some e.digest ≡ true)
unfolding needs_digest
needs_digest-In list h = any-In (λ (e : Revocation). is_some e.digest) list h

pub needs_digest-none :
    (list : Revocations)
    → needs_digest list ≡ false
    → (e : Revocation) → In e list
    → e.digest ≡ none
unfolding needs_digest
needs_digest-none [] h e i = elim i [ ]
needs_digest-none (x ∷ list) h e (here q) = elim (Option-cases x.digest) [
  | inl f ↦ ap (λ (y : Revocation). y.digest) q ∙ f
  | inr (d, f) ↦ absurd (ground arith)
]
needs_digest-none (x ∷ list) h e (there i) = needs_digest-none list (ground arith) e i

-- Denying an identity refuses every build that it signed, and lets nothing through that was
-- refused before.
pub check-deny_identity :
    (list : Revocations) (who reason : Text) (digest : Option DirectoryDigest) (signer : Signer)
    → (check (deny_identity list who reason) digest signer ≡ none)
      ↔ ((check list digest signer ≡ none) × (identity signer ≢ some who))
unfolding deny_identity
check-deny_identity list who reason digest signer =
    let now = check-any_iff (deny_identity list who reason) digest signer in
    let before = check-any_iff list digest signer in
    let p = names (hex_of digest) (identity signer) in
    let entry : Revocation = record { digest = none; identity = some who; reason = some reason } in
    let split = any-append p list (entry ∷ []) in
    elim (Option-cases (identity signer)) [
      | inl e ↦ (ground (arith, now.0, before.1, split), ground (arith, now.1, before.0, split))
      | inr (actual, e) ↦ (
        ground (arith, now.0, before.1, split, text_eq_iff who actual),
        ground (arith, now.1, before.0, split, text_eq_iff who actual),
      )
    ]

-- Denying a digest refuses every build whose digest is the same after normalisation, and lets
-- nothing through that was refused before.
pub check-deny_digest :
    (list : Revocations) (denied reason : Text) (digest : DirectoryDigest) (signer : Signer)
    → (check (deny_digest list denied reason) (some digest) signer ≡ none) ↔ (
        (check list (some digest) signer ≡ none)
        × (normalize_digest denied ≢ normalize_digest (hex digest)))
unfolding deny_digest
check-deny_digest list denied reason digest signer =
    let now = check-any_iff (deny_digest list denied reason) (some digest) signer in
    let before = check-any_iff list (some digest) signer in
    let p = names (some (hex digest)) (identity signer) in
    let entry : Revocation = record {
      digest = some denied;
      identity = none;
      reason = some reason;
    } in
    let split = any-append p list (entry ∷ []) in
    let same = text_eq_iff (normalize_digest denied) (normalize_digest (hex digest)) in
    (ground (arith, now.0, before.1, split, same), ground (arith, now.1, before.0, split, same))
