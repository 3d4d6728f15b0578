-- ===== src/Lock/Pinning.antt =====
-- What a lockfile lets load.
use stanchion.Prelude.{
  ◌≡◌, ◌↔◌, ◌⊎◌, inl, inr, refl, ap, true, Option, none, some, [], ◌∷◌, arith, In, here, there,
  Text, Map, lookup, text_eq_iff, Bool-cases, Option-cases, leb, ltb,
}
use stanchion.Manifest.{Manifest, effective_version}
use stanchion.Signature.{DirectoryDigest, hex, Signer, identity, issuer, is_sha256_hex}
use stanchion.Lock.{
  LockError, LockedPlugin, Lockfile, Result, ok, err, bare_hex, eq_ignore_ascii_case,
  same_if_pinned, check_entry, check, normalize_digest, accept_plugins, accept, lock_version,
}

pub Result-cases {ℓ} :
    {A : Type ℓ} (r : Result A) → ((a : A) × (r ≡ ok a)) ⊎ ((e : LockError) × (r ≡ err e))
Result-cases (ok a) = inl (a, refl)
Result-cases (err e) = inr (e, refl)

-- The entry fits the build: the same digest, and each of signer, issuer and version that it names.
abbrev pub Fits : LockedPlugin → Manifest → DirectoryDigest → Signer → Type 0
Fits entry manifest digest signer =
    (eq_ignore_ascii_case (bare_hex entry.digest) (hex digest) ≡ true)
    × ((s : Text) → entry.signer ≡ some s → identity signer ≡ some s)
    × ((i : Text) → entry.issuer ≡ some i → issuer signer ≡ some i)
    × ((v : Text) → entry.version ≡ some v → effective_version manifest ≡ v)

same_if_pinned_iff :
    (pinned found : Option Text)
    → (same_if_pinned pinned found ≡ true) ↔ ((t : Text) → pinned ≡ some t → found ≡ some t)
unfolding same_if_pinned
same_if_pinned_iff none found = (λ h t e. cc, λ f. refl)
same_if_pinned_iff (some p) (some f) =
    (λ h t e. ground (arith, text_eq_iff f p), λ g. ground (arith, text_eq_iff f p, g p refl))
same_if_pinned_iff (some p) none = (λ h. cc, λ g. ground (arith, g p refl))

check_entry_iff :
    (entry : LockedPlugin) (m : Manifest) (d : DirectoryDigest) (s : Signer)
    → (check_entry entry m d s ≡ ok tt) ↔ Fits entry m d s
unfolding check_entry
check_entry_iff entry m d s =
    let (a, b) = same_if_pinned_iff entry.signer (identity s) in
    let (f, g) = same_if_pinned_iff entry.issuer (issuer s) in
    let (p, q) = same_if_pinned_iff entry.version (some (effective_version m)) in
    (
      λ h. (
        ground arith,
        a (ground arith),
        f (ground arith),
        λ v e. ground (arith, p (ground arith) v e),
      ),
      λ k.
          let signer = b k.1 in
          let issuer = g k.2 in let version = q (λ v e. ap some (k.3 v e)) in ground arith,
    )

-- A build passes exactly when the lockfile has an entry under its name, the digests agree up to
-- the case of their digits, and whatever the entry pins of signer, issuer and version agrees too.
pub check_iff :
    (lock : Lockfile) (m : Manifest) (d : DirectoryDigest) (s : Signer)
    → (check lock m d s ≡ ok tt)
      ↔ ((entry : LockedPlugin) × (lookup m.name lock.plugins ≡ some entry) × Fits entry m d s)
unfolding check
check_iff lock m d s = elim (Option-cases (lookup m.name lock.plugins)) [
  | inl e ↦ (λ h. absurd (ground arith), λ (entry, f, fits). absurd (ground arith))
  | inr (entry, e) ↦
      let (a, b) = check_entry_iff entry m d s in
      (
        λ h. (entry, e, a (ground arith)),
        λ (other, f, fits). let k = (check_entry_iff other m d s).1 fits in ground arith,
      )
]

accept_plugins-sha256 :
    (plugins : Map LockedPlugin) {read : Map LockedPlugin} {name : Text} {entry : LockedPlugin}
    → accept_plugins plugins ≡ ok read
    → In (name, entry) read
    → is_sha256_hex (bare_hex entry.digest) ≡ true
unfolding accept_plugins
accept_plugins-sha256 [] {read} h i = let e : [] ≡ read = ground arith in elim (rw (← e) at i) [ ]
accept_plugins-sha256 ((n, e) ∷ plugins) {read} h i =
    elim (Bool-cases (is_sha256_hex (bare_hex (normalize_digest e.digest)))) [
      | inl good ↦ elim (Result-cases (accept_plugins plugins)) [
        | inl (later, l) ↦
            let head : LockedPlugin = record e { digest = normalize_digest e.digest } in
            let split : (n, head) ∷ later ≡ read = ground arith in
            elim (rw (← split) at i) [
              | here same ↦ rw (ap (λ (t : Text × LockedPlugin). t.1.digest) same) good
              | there j ↦ accept_plugins-sha256 plugins l j
            ]
        | inr (x, l) ↦ absurd (ground arith)
      ]
      | inr bad ↦ absurd (ground arith)
    ]

-- A lockfile that is accepted pins a SHA-256 digest, 64 hex digits, for every plugin, and is of a
-- format version that this build understands.
pub accept-sha256 :
    (lock : Lockfile) {read : Lockfile}
    → accept lock ≡ ok read
    → (leb read.version lock_version ≡ true)
      × ((name : Text) (entry : LockedPlugin)
          → In (name, entry) read.plugins
          → is_sha256_hex (bare_hex entry.digest) ≡ true)
unfolding accept
accept-sha256 lock {read} h = elim (Result-cases (accept_plugins lock.plugins)) [
  | inl (later, l) ↦ elim (Bool-cases (ltb lock_version lock.version)) [
    | inl new ↦ absurd (ground arith)
    | inr old ↦ (
      ground arith,
      λ name entry i.
          let e : read.plugins ≡ later = ground arith in
          accept_plugins-sha256 lock.plugins l (rw e at i),
    )
  ]
  | inr (x, l) ↦ absurd (ground arith)
]
