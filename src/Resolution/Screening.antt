-- ===== src/Resolution/Screening.antt =====
-- Which manifests are left for Kahn's loop, and what their edges are.
use stanchion.Prelude.{
  ◌≡◌, ◌≢◌, refl, sym, ap, ◌∙◌, Bool, true, false, ◌||◌, List, [], ◌∷◌, arith, In, here, there,
  Text, Map, text_eq_iff, text_eq_refl, lookup, lookup-insert, insert, contains_key, ◌⊎◌, inl, inr,
}
use stanchion.Manifest.{Manifest, Version, VersionReq, DependencySpec, effective_version}
use stanchion.Registry.{FailureReason, dependency_cycle, LoadFailure, Outcome, ok, err}
use stanchion.Resolution.{elem, collect_versions, check_each, screen}
use stanchion.Resolution.Start.{names, HasDistinctNames, names-In}
use stanchion.Resolution.Arranging.{failure_names}

collect_versions-lookup :
    (d : Text) (ms : List Manifest) (versions : Map Version)
    → contains_key d (collect_versions ms versions) ≡ (elem d (names ms) || contains_key d versions)
unfolding collect_versions contains_key
collect_versions-lookup d [] versions = refl
collect_versions-lookup d (m ∷ ms) versions = ground (
  arith,
  collect_versions-lookup d ms (insert m.name (effective_version m) versions),
  lookup-insert d m.name (effective_version m) versions,
)

pub contains_key-collect_versions :
    (d : Text) (ms : List Manifest) → contains_key d (collect_versions ms []) ≡ elem d (names ms)
unfolding contains_key lookup
contains_key-collect_versions d ms = ground (arith, collect_versions-lookup d ms [])

module _ (req_matches : VersionReq → Version → Bool) (versions : Map Version) where
  Outcome-cases :
      (m : Manifest)
      → (check_each req_matches m.dependencies versions ≡ ok tt)
        ⊎ ((e : FailureReason) × (check_each req_matches m.dependencies versions ≡ err e))
  Outcome-cases m = split (check_each req_matches m.dependencies versions)
    where
      split :
          (o : Outcome FailureReason (Unit {0})) → (o ≡ ok tt) ⊎ ((e : FailureReason) × (o ≡ err e))
      split (ok _) = inl refl
      split (err e) = inr (e, refl)

  pub screen-In :
      (m : Manifest) (ms : List Manifest)
      → In m ms
      → In m (screen req_matches ms versions).0
        ⊎ (elem m.name (failure_names (screen req_matches ms versions).1) ≡ true)
  unfolding screen
  screen-In m [] i = elim i [ ]
  screen-In m (n ∷ ms) i = elim (Outcome-cases n) [
    | inl e ↦
        rw (e, screen)
          (elim i [
            | here q ↦ inl (here q)
            | there j ↦ elim (screen-In m ms j) [ inl k ↦ inl (there k) | inr h ↦ inr h ]
          ])
    | inr (r, e) ↦
        rw (e, screen)
          (elim i [
            | here q ↦ inr (ground (arith, text_eq_refl n.name, ap (λ (x : Manifest). x.name) q))
            | there j ↦ elim (screen-In m ms j) [ inl k ↦ inl k | inr h ↦ inr (ground arith) ]
          ])
  ]

  pub In-screen :
      (m : Manifest) (ms : List Manifest) → In m (screen req_matches ms versions).0 → In m ms
  unfolding screen
  In-screen m [] i = i
  In-screen m (n ∷ ms) i = elim (Outcome-cases n) [
    | inl e ↦ elim (rw (e, screen) at i) [ here q ↦ here q | there j ↦ there (In-screen m ms j) ]
    | inr (r, e) ↦ there (In-screen m ms (rw (e, screen) at i))
  ]

  -- The names of the plugins that pass and of those that fail are names of the list.
  screen-names :
      (x : Text) (ms : List Manifest)
      → elem x (names ms) ≡ false
      → (elem x (names (screen req_matches ms versions).0) ≡ false)
        × (elem x (failure_names (screen req_matches ms versions).1) ≡ false)
  unfolding screen
  screen-names x [] h = (refl, refl)
  screen-names x (n ∷ ms) h = elim (Outcome-cases n) [
    | inl e ↦ rw (e, screen) (ground (arith, screen-names x ms))
    | inr (r, e) ↦ rw (e, screen) (ground (arith, screen-names x ms))
  ]

  pub screen-HasDistinctNames :
      (ms : List Manifest)
      → HasDistinctNames ms
      → HasDistinctNames (screen req_matches ms versions).0
  unfolding screen
  screen-HasDistinctNames [] d = tt
  screen-HasDistinctNames (n ∷ ms) (d, ds) = elim (Outcome-cases n) [
    | inl e ↦ rw (e, screen) ((screen-names n.name ms d).0, screen-HasDistinctNames ms ds)
    | inr (r, e) ↦ rw (e, screen) (screen-HasDistinctNames ms ds)
  ]

  -- A plugin that passes has no failure under its name.
  pub screen-apart :
      (m : Manifest) (ms : List Manifest)
      → HasDistinctNames ms
      → In m (screen req_matches ms versions).0
      → elem m.name (failure_names (screen req_matches ms versions).1) ≡ false
  unfolding screen
  screen-apart m [] d i = elim i [ ]
  screen-apart m (n ∷ ms) (d, ds) i = elim (Outcome-cases n) [
    | inl e ↦
        rw (e, screen)
          (elim (rw (e, screen) at i) [
            | here q ↦
                ap
                  (λ (x : Manifest). elem x.name (failure_names (screen req_matches ms versions).1))
                  q
                ∙ (screen-names n.name ms d).1
            | there j ↦ screen-apart m ms ds j
          ])
    | inr (r, e) ↦
        let j = rw (e, screen) at i in
        rw (e, screen)
          (ground (
            arith,
            screen-apart m ms ds j,
            names-In m ms (In-screen m ms j),
            text_eq_iff m.name n.name,
          ))
  ]

  check_each-reason :
      (ds : Map DependencySpec) (c : List Text)
      → check_each req_matches ds versions ≢ err (dependency_cycle c)
  unfolding check_each
  check_each-reason [] c = λ h. cc
  check_each-reason ((k, spec) ∷ ds) c = λ h. ground (arith, check_each-reason ds c)

  -- A requirement that is not met is not reported as a cycle.
  pub screen-reason :
      (f : LoadFailure) (c : List Text) (ms : List Manifest)
      → In f (screen req_matches ms versions).1
      → f.reason ≢ dependency_cycle c
  unfolding screen
  screen-reason f c [] i = elim i [ ]
  screen-reason f c (n ∷ ms) i = elim (Outcome-cases n) [
    | inl e ↦ screen-reason f c ms (rw (e, screen) at i)
    | inr (r, e) ↦ elim (rw (e, screen) at i) [
      | here q ↦ λ h.
          check_each-reason n.dependencies c
            (e ∙ ap err (ap (λ (x : LoadFailure). x.reason) (sym q) ∙ h))
      | there j ↦ screen-reason f c ms j
    ]
  ]
