-- ===== src/Registry/Operations/Refusal.antt =====
-- Why a revocation list refuses a loaded plugin, and when it does not.
use stanchion.Prelude.{
  ◌≡◌, refl, true, ◌⊎◌, inl, inr, Option, none, some, List, arith, is_some, Text, In, Bool-cases,
  Option-cases, Outcome-cases,
}
use stanchion.Signature.{Bytes, DirectoryDigest, Revocation, Revocations, needs_digest}
use stanchion.Signature
use stanchion.Signature.Revoking.{
  Names, check-Names, check-not_Names, needs_digest-In, needs_digest-none,
}
use stanchion.Registry.{FailureReason, io_failed, revoked, compute, ok, err, LoadedPlugin, Host}
use stanchion.Registry.Operations.{digest_for, refusal}

module _ {W : Type 0} (host : Host W) where
  -- The digest to judge the plugin by: the one it was verified with, else that of its files as they
  -- are now; none at all where no entry of the list has one.
  abbrev pub IsJudgedBy : Revocations → W → LoadedPlugin → Option DirectoryDigest → Type 0
  IsJudgedBy list w plugin none =
      (plugin.digest ≡ none) × ((e : Revocation) → In e list → e.digest ≡ none)
  IsJudgedBy list w plugin (some d) =
      (plugin.digest ≡ some d)
      ⊎ ((files : List (Text × Bytes)) × (plugin.digest ≡ none)
          × (host.walk w plugin.manifest.dir ≡ ok files)
          × (d ≡ Signature.compute host.sha256 files))

  -- An entry has a digest, the plugin has none, and its files cannot be read.
  abbrev pub IsUnreadable : Revocations → W → LoadedPlugin → Type 0
  IsUnreadable list w plugin =
      (e : Revocation) × (message : Text) × In e list
      × (is_some e.digest ≡ true)
      × (plugin.digest ≡ none)
      × (host.walk w plugin.manifest.dir ≡ err message)

  -- An entry names the plugin's build or its signer, or this cannot be told.
  abbrev pub IsRefused : Revocations → W → LoadedPlugin → Type 0
  IsRefused list w plugin =
      IsUnreadable list w plugin
      ⊎ ((digest : Option DirectoryDigest) × (e : Revocation) × IsJudgedBy list w plugin digest
          × In e list
          × Names e digest plugin.signer)

  -- No entry names the plugin's build or its signer.
  abbrev pub IsAllowed : Revocations → W → LoadedPlugin → Type 0
  IsAllowed list w plugin =
      (digest : Option DirectoryDigest) × IsJudgedBy list w plugin digest
      × ((e : Revocation) → In e list → ¬ Names e digest plugin.signer)

  digest_for-cases :
      (list : Revocations) (w : W) (plugin : LoadedPlugin)
      → ((digest : Option DirectoryDigest) × (digest_for host (needs_digest list) w plugin
            ≡ ok digest)
          × IsJudgedBy list w plugin digest)
        ⊎ ((reason : FailureReason) × (digest_for host (needs_digest list) w plugin ≡ err reason)
            × IsUnreadable list w plugin)
  unfolding digest_for compute
  digest_for-cases list w plugin = elim (Option-cases plugin.digest) [
    | inr (d, e) ↦ inl (some d, rw e, inl e)
    | inl e ↦ elim (Bool-cases (needs_digest list)) [
      | inr f ↦ inl (none, rw (e, f), (e, needs_digest-none list f))
      | inl f ↦ elim (Outcome-cases (host.walk w plugin.manifest.dir)) [
        | inl (files, g) ↦
            inl (some (Signature.compute host.sha256 files), rw (e, f, g), inr (files, e, g, refl))
        | inr (message, g) ↦
            let (x, i, k) = needs_digest-In list f in
            inr (io_failed message, rw (e, f, g), (x, message, i, k, e, g))
      ]
    ]
  ]

  pub refusal-cases :
      (list : Revocations) (w : W) (plugin : LoadedPlugin)
      → ((reason : FailureReason) × (refusal host list w plugin ≡ some reason)
          × IsRefused list w plugin)
        ⊎ ((refusal host list w plugin ≡ none) × IsAllowed list w plugin)
  unfolding refusal
  refusal-cases list w plugin = elim (digest_for-cases list w plugin) [
    | inr (reason, e, u) ↦ inl (reason, ground arith, inl u)
    | inl (digest, e, j) ↦ elim (Option-cases (Signature.check list digest plugin.signer)) [
      | inl f ↦ inr (ground arith, (digest, j, check-not_Names digest plugin.signer list f))
      | inr (reason, f) ↦
          let (x, i, n) = check-Names digest plugin.signer list f in
          inl (revoked reason, ground arith, inr (digest, x, j, i, n))
    ]
  ]
