-- ===== src/Resolution.antt =====
-- crates/stanchion-registry/src/manifest.rs: `check_dependencies` and `resolve_order`. Whether a
-- version meets a requirement is semver's part, a parameter. A hash map is read by its keys alone,
-- so it is a `Map` here.
pub mod Counting
pub mod Loop
pub mod Start
pub mod Arranging
pub mod Precedence
pub mod Screening
pub mod Leftovers
pub mod Results
use stanchion.Prelude.{
  ℕ, zero, suc, ◌+◌, ◌-◌, Bool, true, false, not, ◌&&◌, Option, none, some, List, [], ◌∷◌, ◌++◌,
  map, ◌==◌, lt, eq, gt, if◌then◌else◌, length, any, keep, Text, Map, text_eq, text_cmp, lookup,
  insert, contains_key, keys, is_some,
}
use stanchion.Manifest.{
  Manifest, Version, VersionReq, DependencySpec, requirement, is_optional, effective_version,
}
use stanchion.Registry.{
  FailureReason, incompatible_dependency, missing_dependency, dependency_cycle, LoadFailure,
  Outcome, ok, err,
}

-- membership in a list or in a hash set of names
abbrev pub elem : Text → List Text → Bool
elem name names = any (text_eq name) names

-- `HashMap::remove`
unfoldable pub remove_key {ℓ} : {V : Type ℓ} → Text → Map V → Map V
remove_key k [] = []
remove_key k ((j, v) ∷ m) =
    let rest = remove_key k m in if text_eq k j then rest else ((j, v) ∷ rest)

-- `unwrap_or_default`
abbrev pub or_empty : Option (List Text) → List Text
or_empty none = []
or_empty (some names) = names

unfoldable pub collect_versions : List Manifest → Map Version → Map Version
collect_versions [] versions = versions
collect_versions (m ∷ manifests) versions =
    collect_versions manifests (insert m.name (effective_version m) versions)

abbrev pub failure_of : Manifest → FailureReason → LoadFailure
failure_of m reason = record { name = m.name; dir = m.dir; reason = reason }

-- the sort by name is stable
unfoldable pub insert_manifest : Manifest → List Manifest → List Manifest
insert_manifest m [] = m ∷ []
insert_manifest m (n ∷ ms) = elim (text_cmp n.name m.name) [
  | lt ↦ n ∷ insert_manifest m ms
  | eq ↦ m ∷ n ∷ ms
  | gt ↦ m ∷ n ∷ ms
]

unfoldable pub sort_by_name : List Manifest → List Manifest
unfolding insert_manifest
sort_by_name [] = []
sort_by_name (m ∷ ms) = insert_manifest m (sort_by_name ms)

-- `dependents.entry(dep).or_default().push(name)`, for each dependency
unfoldable pub add_dependents : Text → List Text → Map (List Text) → Map (List Text)
add_dependents name [] dependents = dependents
add_dependents name (dep ∷ deps) dependents =
    add_dependents name deps (insert dep (or_empty (lookup dep dependents) ++ name ∷ []) dependents)

-- the loop over the dependents of a plugin that was just taken
unfoldable pub release : List Text → Map ℕ → List Text → Map ℕ × List Text
release [] indegree ready = (indegree, ready)
release (dependent ∷ dependents) indegree ready = elim (lookup dependent indegree) [
  | none ↦ release dependents indegree ready
  | some count ↦
      release dependents (insert dependent (count - 1) indegree)
        (if count - 1 == 0 then ready ++ dependent ∷ [] else ready)
]

-- Kahn's loop, on fuel: `none` where the fuel runs out
unfoldable pub kahn : ℕ → List Text → Map ℕ → Map (List Text) → Option (List Text)
unfolding release remove_key
kahn fuel [] indegree dependents = some []
kahn zero (name ∷ ready) indegree dependents = none
kahn (suc fuel) (name ∷ ready) indegree dependents =
    let next = release (or_empty (lookup name dependents)) indegree ready in
    elim (kahn fuel next.1 next.0 (remove_key name dependents)) [
      | none ↦ none
      | some order ↦ some (name ∷ order)
    ]

-- the sum of the lengths of the lists
unfoldable pub total : Map (List Text) → ℕ
total [] = 0
total ((k, names) ∷ m) = length names + total m

unfoldable pub by_name : List Manifest → Map Manifest → Map Manifest
by_name [] index = index
by_name (m ∷ manifests) index = by_name manifests (insert m.name m index)

-- the plugins of a cycle, taken out of the index and reported
unfoldable pub report_cycle : List Text → List Text → Map Manifest → Map Manifest × List LoadFailure
unfolding remove_key
report_cycle cycle [] index = (index, [])
report_cycle cycle (name ∷ names) index = elim (lookup name index) [
  | none ↦ report_cycle cycle names index
  | some m ↦
      let later = report_cycle cycle names (remove_key name index) in
      (later.0, failure_of m (dependency_cycle cycle) ∷ later.1)
]

-- `order.into_iter().filter_map(|name| by_name.remove(&name))`
unfoldable pub take_in_order : List Text → Map Manifest → List Manifest
unfolding remove_key
take_in_order [] index = []
take_in_order (name ∷ order) index = elim (lookup name index) [
  | none ↦ take_in_order order index
  | some m ↦ m ∷ take_in_order order (remove_key name index)
]

abbrev pub is_ready : Map ℕ → Manifest → Bool
is_ready indegree m = elim (lookup m.name indegree) [ none ↦ true | some count ↦ count == 0 ]

-- from the order to the result
unfoldable pub arrange : List Manifest → List Text → List Manifest × List LoadFailure
unfolding by_name report_cycle take_in_order sort_by_name
arrange pending order =
    let sorted = sort_by_name pending in
    let cycle = keep (λ name. not (elem name order)) (map (λ (m : Manifest). m.name) sorted) in
    let reported = report_cycle cycle cycle (by_name sorted []) in
    (take_in_order order reported.0, reported.1)

module _ (edges : Manifest → List Text) where
  unfoldable pub indegrees : List Manifest → Map ℕ → Map ℕ
  indegrees [] indegree = indegree
  indegrees (m ∷ pending) indegree = indegrees pending (insert m.name (length (edges m)) indegree)

  unfoldable pub all_dependents : List Manifest → Map (List Text) → Map (List Text)
  unfolding add_dependents
  all_dependents [] dependents = dependents
  all_dependents (m ∷ pending) dependents =
      all_dependents pending (add_dependents m.name (edges m) dependents)

  -- from the ready plugins to the end of the loop, with fuel for one round for each plugin that is
  -- ready and for each edge
  unfoldable pub order_of : List Manifest → Option (List Text)
  unfolding kahn indegrees all_dependents total sort_by_name
  order_of pending =
      let indegree = indegrees pending [] in
      let dependents = all_dependents pending [] in
      let ready =
        map (λ (m : Manifest). m.name) (keep (is_ready indegree) (sort_by_name pending)) in
      kahn (length ready + total dependents) ready indegree dependents

-- an absent optional dependency contributes no edge
abbrev pub edges_of : Map Version → List LoadFailure → Manifest → List Text
edges_of versions failures m =
    keep
      (λ name.
        contains_key name versions && not (elem name (map (λ (f : LoadFailure). f.name) failures)))
      (keys m.dependencies)

module _ (req_matches : VersionReq → Version → Bool) where
  -- the loop of `check_dependencies`
  unfoldable pub check_each : Map DependencySpec → Map Version → Outcome FailureReason (Unit {0})
  check_each [] versions = ok tt
  check_each ((name, spec) ∷ dependencies) versions =
      let rest = check_each dependencies versions in
      elim (lookup name versions) [
        | some found ↦
            (if req_matches (requirement spec) found
              then rest
              else err (incompatible_dependency name (requirement spec) found))
        | none ↦ (if is_optional spec then rest else err (missing_dependency name))
      ]

  -- the manifests whose requirements are met, and the failures of the others
  unfoldable pub screen : List Manifest → Map Version → List Manifest × List LoadFailure
  unfolding check_each
  screen [] versions = ([], [])
  screen (m ∷ manifests) versions =
      let rest = screen manifests versions in
      elim (check_each m.dependencies versions) [
        | ok _ ↦ (m ∷ rest.0, rest.1)
        | err reason ↦ (rest.0, failure_of m reason ∷ rest.1)
      ]

  unfoldable pub resolve_order : List Manifest → Option (List Manifest × List LoadFailure)
  unfolding collect_versions screen order_of arrange
  resolve_order manifests =
      let versions = collect_versions manifests [] in
      let screened = screen manifests versions in
      let edges = edges_of versions screened.1 in
      elim (order_of edges screened.0) [
        | none ↦ none
        | some order ↦
            let arranged = arrange screened.0 order in some (arranged.0, screened.1 ++ arranged.1)
      ]
