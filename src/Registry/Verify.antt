-- ===== src/Registry/Verify.antt =====
-- What a plugin has passed once it is verified.
use stanchion.Prelude.{
  text_eq_iff, ap, ◌∙◌, Outcome-cases, ◌≡◌, In, refl, subst, true, false, List, [], ◌∷◌, Bool-cases,
  is_empty, inl, inr, Option, none, some, arith, Option-cases, is_some, Text, lookup,
}
use stanchion.Manifest.{Manifest}
use stanchion.Signature.{
  Bytes, Signer, unsigned, verified, VerifyError, missing, invalid, untrusted, io, DirectoryDigest,
  covers, matches, Revocation, Revocations,
}
use stanchion.Signature
use stanchion.Signature.Revoking.{Names, check-not_Names}
use stanchion.Lock.{Lockfile, LockError, LockedPlugin}
use stanchion.Lock
use stanchion.Lock.Pinning.{Fits}
use stanchion.Lock.Pinning
use stanchion.Registry.{
  Registry, Host, Outcome, ok, err, find_signer, judge, check_revoked, check_locked, digest_if,
  verify_plugin, wants_digest, compute, slash_path, bind_entry, bind_if_digest,
}

-- No entry of the list, if there is one, names the build or its signer.
abbrev pub NotRevoked : Option Revocations → Option DirectoryDigest → Signer → Type 0
NotRevoked none digest signer = Unit {0}
NotRevoked (some list) digest signer = (e : Revocation) → In e list → ¬ Names e digest signer

-- The lockfile, if there is one, pins this very build.
abbrev pub IsPinned : Option Lockfile → Manifest → Option DirectoryDigest → Signer → Type 0
IsPinned none m digest signer = Unit {0}
IsPinned (some lock) m none signer = ⊥
IsPinned (some lock) m (some digest) signer =
    (entry : LockedPlugin) × (lookup m.name lock.plugins ≡ some entry) × Fits entry m digest signer

check_revoked-ok :
    (list : Option Revocations) (digest : Option DirectoryDigest) (signer : Signer)
    → check_revoked list digest signer ≡ ok tt
    → NotRevoked list digest signer
unfolding check_revoked
check_revoked-ok none digest signer h = tt
check_revoked-ok (some list) digest signer h = check-not_Names digest signer list (ground arith)

check_locked-ok :
    (lock : Option Lockfile) (m : Manifest) (digest : Option DirectoryDigest) (signer : Signer)
    → (is_some lock ≡ true → is_some digest ≡ true)
    → check_locked lock m digest signer ≡ ok tt
    → IsPinned lock m digest signer
unfolding check_locked
check_locked-ok none m digest signer p h = tt
check_locked-ok (some lock) m none signer p h = absurd (ground (arith, p refl))
check_locked-ok (some lock) m (some digest) signer p h =
    (Lock.Pinning.check_iff lock m digest signer).0
      (elim (Lock.Pinning.Result-cases (Lock.check lock m digest signer)) [
        | inl (u, e) ↦ e
        | inr (x, e) ↦ absurd (ground arith)
      ])

-- A signature was demanded and the host's verifier accepted it for this build.
abbrev pub IsSigned : Registry → Option DirectoryDigest → Text → Signer → Type 0
IsSigned r digest dir signer =
    (verify : DirectoryDigest → Text → Outcome VerifyError Signer) × (d : DirectoryDigest)
    × (r.verifier ≡ some verify)
    × (digest ≡ some d)
    × (verify d dir ≡ ok signer)

judge-ok :
    (o : Outcome VerifyError Signer) {signer : Signer} → judge true o ≡ ok signer → o ≡ ok signer
unfolding judge
judge-ok (ok s) h = ground arith
judge-ok (err missing) h = absurd (ground arith)
judge-ok (err (untrusted m)) h = absurd (ground arith)
judge-ok (err (io m)) h = absurd (ground arith)
judge-ok (err (invalid m)) h = absurd (ground arith)

find_signer-IsSigned :
    (r : Registry) (digest : Option DirectoryDigest) (dir : Text) {signer : Signer}
    → r.require_signatures ≡ true
    → find_signer r digest dir ≡ ok signer
    → IsSigned r digest dir signer
unfolding find_signer
find_signer-IsSigned r none dir required h = absurd (ground arith)
find_signer-IsSigned r (some d) dir required h = elim (Option-cases r.verifier) [
  | inl e ↦ absurd (ground arith)
  | inr (verify, e) ↦ (verify, d, e, refl, judge-ok (verify d dir) (ground arith))
]

-- The digest, if there is one, lists the entry file with the hash of these very bytes.
abbrev pub IsBound : (Bytes → Bytes) → Manifest → Option DirectoryDigest → Bytes → Type 0
IsBound sha256 m none contents = Unit {0}
IsBound sha256 m (some digest) contents =
    lookup (slash_path m.entry) digest.files ≡ some (sha256 contents)

pub bind_if_digest-IsBound :
    (sha256 : Bytes → Bytes) (m : Manifest) (digest : Option DirectoryDigest) (contents : Bytes)
    → bind_if_digest sha256 m digest contents ≡ ok tt
    → IsBound sha256 m digest contents
unfolding bind_entry matches
bind_if_digest-IsBound sha256 m none contents h = tt
bind_if_digest-IsBound sha256 m (some digest) contents h =
    elim (Option-cases (lookup (slash_path m.entry) digest.files)) [
      | inl e ↦ absurd (ground arith)
      | inr (expected, e) ↦
          let same = (text_eq_iff expected (sha256 contents)).0 (ground arith) in e ∙ ap some same
    ]

-- The registry has no verifier and no lockfile, and revokes nothing.
abbrev pub NeedsNoDigest : Registry → Type 0
NeedsNoDigest r =
    (r.verifier ≡ none)
    × (r.lockfile ≡ none)
    × ((list : Revocations) → r.revocations ≡ some list → list ≡ [])

-- The digest is that of the files that the directory holds now; there is none only where nothing needs one.
abbrev pub IsDigestOf :
    {W : Type 0} → Host W → Registry → W → Text → Option DirectoryDigest → Type 0
IsDigestOf host r w dir none = NeedsNoDigest r
IsDigestOf host r w dir (some digest) =
    (files : List (Text × Bytes)) × (host.walk w dir ≡ ok files)
    × (digest ≡ Signature.compute host.sha256 files)

is_empty-eq {ℓ} : {A : Type ℓ} (xs : List A) → is_empty xs ≡ true → xs ≡ []
unfolding is_empty
is_empty-eq [] h = refl
is_empty-eq (x ∷ xs) h = absurd (ground arith)

module _ {W : Type 0} (host : Host W) (r : Registry) (w : W) (m : Manifest) where
  compute-IsDigestOf :
      {d : DirectoryDigest} → compute host w m.dir ≡ ok d → IsDigestOf host r w m.dir (some d)
  unfolding compute
  compute-IsDigestOf h = elim (Outcome-cases (host.walk w m.dir)) [
    | inl (files, e) ↦ (files, e, ground arith)
    | inr (x, e) ↦ absurd (ground arith)
  ]

  needs_none : wants_digest r ≡ false → NeedsNoDigest r
  unfolding is_empty
  needs_none h = elim (Option-cases r.verifier) [
    | inr (v, e) ↦ absurd (ground arith)
    | inl e ↦ elim (Option-cases r.lockfile) [
      | inr (l, f) ↦ absurd (ground arith)
      | inl f ↦ (
        e,
        f,
        λ list g. elim (Bool-cases (is_empty list)) [
          | inl k ↦ is_empty-eq list k
          | inr k ↦ absurd (ground arith)
        ],
      )
    ]
  ]

  digest_if-IsDigestOf :
      {digest : Option DirectoryDigest}
      → digest_if host (wants_digest r) w m.dir ≡ ok digest
      → IsDigestOf host r w m.dir digest
  unfolding digest_if
  digest_if-IsDigestOf {digest} h = elim (Bool-cases (wants_digest r)) [
    | inr e ↦
        let same : none ≡ digest = ground arith in
        subst (IsDigestOf host r w m.dir) same (needs_none e)
    | inl e ↦ elim (Outcome-cases (compute host w m.dir)) [
      | inl (d, f) ↦
          let same : some d ≡ digest = ground arith in
          subst (IsDigestOf host r w m.dir) same (compute-IsDigestOf f)
      | inr (x, f) ↦ absurd (ground arith)
    ]
  ]

  digest_if-locked :
      (digest : Option DirectoryDigest)
      → digest_if host (wants_digest r) w m.dir ≡ ok digest
      → is_some r.lockfile ≡ true
      → is_some digest ≡ true
  unfolding digest_if
  digest_if-locked digest h locked = elim (Outcome-cases (compute host w m.dir)) [
    | inl (d, e) ↦ ground arith
    | inr (x, e) ↦ ground arith
  ]

  -- The digest that verification gives is that of the files in the plugin's directory, and there is
  -- none only where no verifier, lockfile or revocation needs it. For that digest, a plugin that
  -- passes verification is not on the revocation list, is the build that the lockfile pins if there
  -- is one, and, where signatures are required, carries one that the host's verifier accepted.
  pub verify_plugin-ok :
      {signer : Signer} {digest : Option DirectoryDigest}
      → verify_plugin host r w m ≡ ok (signer, digest)
      → IsDigestOf host r w m.dir digest
        × NotRevoked r.revocations digest signer
        × IsPinned r.lockfile m digest signer
        × (r.require_signatures ≡ true → IsSigned r digest m.dir signer)
  unfolding verify_plugin
  verify_plugin-ok {signer} {digest} h =
      elim (Outcome-cases (digest_if host (wants_digest r) w m.dir)) [
        | inl (d, e) ↦ elim (Outcome-cases (find_signer r d m.dir)) [
          | inl (s, f) ↦ elim (Outcome-cases (check_revoked r.revocations d s)) [
            | inl (u, g) ↦ elim (Outcome-cases (check_locked r.lockfile m d s)) [
              | inl (v, k) ↦
                  let same : d ≡ digest = ground arith in
                  let who : s ≡ signer = ground arith in
                  rw (← same, ← who)
                    (
                      digest_if-IsDigestOf e,
                      check_revoked-ok r.revocations d s g,
                      check_locked-ok r.lockfile m d s (digest_if-locked d e) k,
                      λ required. find_signer-IsSigned r d m.dir required f,
                    )
              | inr (x, k) ↦ absurd (ground arith)
            ]
            | inr (x, g) ↦ absurd (ground arith)
          ]
          | inr (x, f) ↦ absurd (ground arith)
        ]
        | inr (x, e) ↦ absurd (ground arith)
      ]
