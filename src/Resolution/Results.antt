-- ===== src/Resolution/Results.antt =====
-- What the resolution of a whole plugin root gives.
use stanchion.Prelude.{
  ◌≡◌, sym, ap, ◌∙◌, subst, Bool, true, false, not, ◌&&◌, ◌||◌, some, List, [], ◌∷◌, ◌++◌, arith,
  any-append, keys, In, In-keep, keep-In, In-append_split, Text, Map, text_eq, lookup, contains_key,
  ◌⊎◌, inl, inr, Bool-cases,
}
use mathlib.Core.List.{map-append}
use stanchion.Manifest.{Manifest, Version, VersionReq}
use stanchion.Registry.{dependency_cycle, LoadFailure}
use stanchion.Resolution.{
  elem, collect_versions, screen, edges_of, by_name, take_in_order, sort_by_name, order_of, arrange,
  resolve_order,
}
use stanchion.Resolution.Loop.{after, elem-after}
use stanchion.Resolution.Start.{
  names, HasDistinctNames, elem-names, names-In, order_of-total, order_of-Follows,
}
use stanchion.Resolution.Arranging.{
  missing-witness, failure_names, In-report_cycle, In-take_in_order,
}
use stanchion.Resolution.Precedence.{InOrder, take_in_order-InOrder}
use stanchion.Resolution.Leftovers.{
  left_out, index_of, elem-left_out, index_of-In, In-index_of, by_name-key, taken-In, cycled-In,
}
use stanchion.Resolution.Screening.{
  contains_key-collect_versions, screen-In, In-screen, screen-HasDistinctNames, screen-apart,
  screen-reason,
}

-- A dependency is loaded before, or is the name of no plugin, or of one that failed.
abbrev pub IsSettled : List Manifest → List LoadFailure → List Text → Text → Type 0
IsSettled manifests failures taken d =
    (elem d taken ≡ true)
    ⊎ ((elem d (names manifests) ≡ false) ⊎ (elem d (failure_names failures) ≡ true))

-- Every plugin of the list finds its dependencies settled.
abbrev pub IsWired : List Manifest → List LoadFailure → List Text → List Manifest → Type 0
IsWired manifests failures taken [] = Unit {0}
IsWired manifests failures taken (m ∷ ms) =
    ((d : Text) → In d (keys m.dependencies) → IsSettled manifests failures taken d)
    × IsWired manifests failures (m.name ∷ taken) ms

module _ (req_matches : VersionReq → Version → Bool) (manifests : List Manifest) where
  abbrev versions : Map Version
  versions = collect_versions manifests []

  abbrev refused : List LoadFailure
  refused = (screen req_matches manifests versions).1

  abbrev pending : List Manifest
  pending = (screen req_matches manifests versions).0

  abbrev edges : Manifest → List Text
  edges = edges_of versions refused

  abbrev outcome : List Text → List Manifest × List LoadFailure
  outcome order = ((arrange pending order).0, refused ++ (arrange pending order).1)

  resolve_order-eq :
      {result : List Manifest × List LoadFailure}
      → resolve_order req_matches manifests ≡ some result
      → (order : List Text) × (order_of edges pending ≡ some order) × (outcome order ≡ result)
  unfolding resolve_order
  resolve_order-eq h = let (order, e) = order_of-total edges pending in (order, e, ground arith)

  known : (m : Manifest) (d : Text) → In m pending → In d (edges m) → elem d (names pending) ≡ true
  known m d i j =
      let (k, p) =
        In-keep (λ name. contains_key name versions && not (elem name (failure_names refused)))
          (keys m.dependencies) j in
      let (n, i', q) =
        elem-names d manifests (ground (arith, contains_key-collect_versions d manifests)) in
      elim (screen-In req_matches versions n manifests i') [
        | inl s ↦ ap (λ x. elem x (names pending)) (sym q) ∙ names-In n pending s
        | inr s ↦ absurd (ground (arith, ap (λ x. elem x (failure_names refused)) q))
      ]

  edges-IsSettled :
      (m : Manifest) (taken : List Text) (d : Text)
      → ((x : Text) → In x (edges m) → elem x taken ≡ true)
      → In d (keys m.dependencies)
      → IsSettled manifests refused taken d
  edges-IsSettled m taken d f i = elim (Bool-cases (contains_key d versions)) [
    | inr e ↦ inr (inl (sym (contains_key-collect_versions d manifests) ∙ e))
    | inl e ↦ elim (Bool-cases (elem d (failure_names refused))) [
      | inl q ↦ inr (inr q)
      | inr q ↦ inl (
          f d (
            keep-In (λ name. contains_key name versions && not (elem name (failure_names refused)))
              (keys m.dependencies) i (ground arith)))
    ]
  ]

  InOrder-IsWired :
      (more : List LoadFailure) (taken : List Text) (ms : List Manifest)
      → InOrder edges pending taken ms
      → IsWired manifests (refused ++ more) taken ms
  InOrder-IsWired more taken [] o = tt
  InOrder-IsWired more taken (m ∷ ms) (f, o) = (
    λ d i. elim (edges-IsSettled m taken d f i) [
      | inl e ↦ inl e
      | inr s ↦ inr (elim s [
        | inl e ↦ inl e
        | inr e ↦ inr (
            rw (map-append (λ (x : LoadFailure). x.name) refused more)
              (ground (arith, any-append (text_eq d) (failure_names refused) (failure_names more))))
      ])
    ],
    InOrder-IsWired more (m.name ∷ taken) ms o,
  )

  loaded-InOrder :
      (order : List Text)
      → HasDistinctNames manifests
      → order_of edges pending ≡ some order
      → InOrder edges pending [] (take_in_order order (index_of pending order))
  loaded-InOrder order distinct e =
      let d = screen-HasDistinctNames req_matches versions manifests distinct in
      take_in_order-InOrder edges pending known [] [] order (index_of pending order) (record {
        follows = λ m i. (order_of-Follows edges m pending order e d i).0;
        held = λ k m h. In-index_of k m pending order h;
        passed = λ x p h. cc;
        spent = λ x p h l.
            let (m, i, q) = elem-names x pending p in
            absurd (
              ground (
                arith,
                index_of-In m pending order d i,
                ap (λ y. elem y order) q,
                ap (λ y. lookup y (index_of pending order)) q,
              ));
      })

  -- In the order that is loaded, every plugin stands after each of its dependencies, but for one
  -- that no plugin bears the name of, or that is itself reported as failed. The plugins have
  -- different names.
  pub resolve_order-IsWired :
      {loaded : List Manifest} {failures : List LoadFailure}
      → HasDistinctNames manifests
      → resolve_order req_matches manifests ≡ some (loaded, failures)
      → IsWired manifests failures [] loaded
  unfolding arrange
  resolve_order-IsWired distinct h =
      let (order, e, same) = resolve_order-eq h in
      subst (λ (r : List Manifest × List LoadFailure). IsWired manifests r.1 [] r.0) same
        (InOrder-IsWired (arrange pending order).1 [] _ (loaded-InOrder order distinct e))

  -- Resolution always comes to an end with a result.
  pub resolve_order-total :
      (result : List Manifest × List LoadFailure) × (resolve_order req_matches manifests
        ≡ some result)
  unfolding resolve_order
  resolve_order-total =
      let (order, e) = order_of-total edges pending in
      (((arrange pending order).0, refused ++ (arrange pending order).1), ground arith)

  failed-append :
      (x : Text) (more : List LoadFailure)
      → elem x (failure_names (refused ++ more))
        ≡ (elem x (failure_names refused) || elem x (failure_names more))
  failed-append x more =
      ap (elem x) (map-append (λ (f : LoadFailure). f.name) refused more)
      ∙ any-append (text_eq x) (failure_names refused) (failure_names more)

  outcome-pending :
      (m : Manifest) (order : List Text)
      → HasDistinctNames manifests
      → In m pending
      → elem m.name (names (outcome order).0) ≡ not (elem m.name (failure_names (outcome order).1))
  unfolding arrange
  outcome-pending m order distinct i =
      let d = screen-HasDistinctNames req_matches versions manifests distinct in
      ground (
        arith,
        taken-In m pending order d i,
        cycled-In m pending order d i,
        screen-apart req_matches versions m manifests distinct i,
        failed-append m.name (arrange pending order).1,
      )

  outcome-refused :
      (x : Text) (order : List Text)
      → HasDistinctNames manifests
      → elem x (failure_names refused) ≡ true
      → elem x (names (outcome order).0) ≡ false
  unfolding arrange
  outcome-refused x order distinct r = elim (Bool-cases (elem x (names (outcome order).0))) [
    | inr q ↦ q
    | inl q ↦
        let (n, j, same) = elem-names x (outcome order).0 q in
        let (k, l, h) = In-take_in_order n order (index_of pending order) j in
        let i = (In-index_of k n pending order l).1 in
        absurd (
          ground (
            arith,
            screen-apart req_matches versions n manifests distinct i,
            ap (λ y. elem y (failure_names refused)) same,
          ))
  ]

  outcome-elem :
      (m : Manifest) (order : List Text)
      → HasDistinctNames manifests
      → In m manifests
      → elem m.name (names (outcome order).0) ≡ not (elem m.name (failure_names (outcome order).1))
  outcome-elem m order distinct i = elim (screen-In req_matches versions m manifests i) [
    | inl j ↦ outcome-pending m order distinct j
    | inr r ↦ ground (
      arith,
      outcome-refused m.name order distinct r,
      failed-append m.name (arrange pending order).1,
    )
  ]

  -- Every plugin either is loaded or has a failure under its name, and never both. The plugins
  -- have different names.
  pub resolve_order-elem :
      {loaded : List Manifest} {failures : List LoadFailure} (m : Manifest)
      → HasDistinctNames manifests
      → resolve_order req_matches manifests ≡ some (loaded, failures)
      → In m manifests
      → elem m.name (names loaded) ≡ not (elem m.name (failure_names failures))
  resolve_order-elem m distinct h i =
      let (order, e, same) = resolve_order-eq h in
      subst
        (λ (r : List Manifest × List LoadFailure).
          elem m.name (names r.0) ≡ not (elem m.name (failure_names r.1)))
        same (outcome-elem m order distinct i)

  left_out-missing :
      (m : Manifest) (order : List Text)
      → HasDistinctNames manifests
      → order_of edges pending ≡ some order
      → In m pending
      → elem m.name (left_out pending order) ≡ true
      → (d : Text) × In d (keys m.dependencies) × (elem d (left_out pending order) ≡ true)
  left_out-missing m order distinct e i out =
      let d = screen-HasDistinctNames req_matches versions manifests distinct in
      let stuck = (order_of-Follows edges m pending order e d i).1 in
      let (x, j, q) =
        missing-witness (after [] order) (edges m)
          (λ z. ground (arith, stuck z, elem-left_out m.name pending order)) in
      (
        x,
        (In-keep (λ name. contains_key name versions && not (elem name (failure_names refused)))
            (keys m.dependencies) j).0,
        ground (arith, elem-left_out x pending order, elem-after x [] order, known m x i j),
      )

  -- A plugin that is reported for a cycle depends on another one, or on itself, in that report. The
  -- plugins have different names.
  pub resolve_order-cycle :
      {loaded : List Manifest} {failures : List LoadFailure} (f : LoadFailure) (c : List Text)
      → HasDistinctNames manifests
      → resolve_order req_matches manifests ≡ some (loaded, failures)
      → In f failures
      → f.reason ≡ dependency_cycle c
      → (m : Manifest) × In m manifests
        × (m.name ≡ f.name)
        × (d : Text) × In d (keys m.dependencies)
        × (elem d c ≡ true)
  unfolding arrange
  resolve_order-cycle f c distinct h i r =
      let (order, e, same) = resolve_order-eq h in
      let cycle = left_out pending order in
      elim (In-append_split refused
        (subst (λ (x : List Manifest × List LoadFailure). In f x.1) (sym same) i)) [
          | inl j ↦ absurd (screen-reason req_matches versions f c manifests j r)
          | inr j ↦
              let (k, m, is, l, out) =
                In-report_cycle cycle f cycle (by_name (sort_by_name pending) []) j in
              let (named, p) = by_name-key k m pending l in
              let (d, dep, q) =
                left_out-missing m order distinct e p (ap (λ x. elem x cycle) named ∙ out) in
              let reason : cycle ≡ c = ground (arith, ap (λ (x : LoadFailure). x.reason) is) in
              (
                m,
                In-screen req_matches versions m manifests p,
                ap (λ (x : LoadFailure). x.name) (sym is),
                d,
                dep,
                ap (elem d) (sym reason) ∙ q,
              )
        ]
