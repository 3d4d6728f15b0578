-- ===== src/Tests/ResolutionTests.antt =====
-- A plugin root with a chain of dependencies, a cycle of two and a plugin that depends on the cycle.
use stanchion.Prelude.{
  contains_key, text_eq, text_cmp, insert, lookup, ◌≡◌, refl, Bool, true, not, none, some, List, [],
  ◌∷◌, ◌++◌, map, Text, codes, In, here, there, keys,
}
use stanchion.Value.{empty}
use stanchion.Manifest.{Manifest, lua, requirement_only}
use stanchion.Registry.{LoadFailure, dependency_cycle}
use stanchion.Resolution.{elem, failure_of, resolve_order}
use stanchion.Resolution.Start.{names, HasDistinctNames}
use stanchion.Resolution.Arranging.{failure_names}
use stanchion.Resolution.Results.{
  IsWired, resolve_order-IsWired, resolve_order-total, resolve_order-elem, resolve_order-cycle,
}

abbrev plugin : Text → List Text → Manifest
plugin name deps = record {
  name = name;
  version = none;
  plugin_type = lua;
  entry = codes "init.lua";
  dependencies = map (λ d. (d, requirement_only (codes "*"))) deps;
  capabilities = [];
  rocks = [];
  config = empty;
  budget = none;
  dir = codes "/p/" ++ name;
}

abbrev app : Manifest
app = plugin (codes "app") (codes "core" ∷ [])

abbrev core : Manifest
core = plugin (codes "core") []

abbrev ping : Manifest
ping = plugin (codes "ping") (codes "pong" ∷ [])

abbrev pong : Manifest
pong = plugin (codes "pong") (codes "ping" ∷ [])

abbrev tail : Manifest
tail = plugin (codes "tail") (codes "ping" ∷ [])

abbrev root : List Manifest
root = app ∷ core ∷ ping ∷ pong ∷ tail ∷ []

abbrev any_version : Text → Text → Bool
any_version requirement version = true

abbrev cycle : List Text
cycle = codes "ping" ∷ codes "pong" ∷ codes "tail" ∷ []

abbrev reports : List LoadFailure
reports =
    failure_of ping (dependency_cycle cycle)
    ∷ failure_of pong (dependency_cycle cycle)
    ∷ failure_of tail (dependency_cycle cycle)
    ∷ []

-- `tail` is on no cycle, and is reported with the two that are
root_resolved : resolve_order any_version root ≡ some (core ∷ app ∷ [], reports)
unfolding resolve_order lookup insert text_cmp text_eq contains_key
root_resolved = refl

root-HasDistinctNames : HasDistinctNames root
unfolding text_eq
root-HasDistinctNames = (refl, (refl, (refl, (refl, (refl, tt)))))

-- of two plugins with one name, one is neither loaded nor reported
twins_resolved :
    resolve_order any_version (core ∷ record core { dir = codes "/p/other" } ∷ [])
    ≡ some (record core { dir = codes "/p/other" } ∷ [], [])
unfolding resolve_order text_cmp lookup insert text_eq
twins_resolved = refl

resolve_order-IsWired_example : IsWired root reports [] (core ∷ app ∷ [])
resolve_order-IsWired_example =
    resolve_order-IsWired any_version root root-HasDistinctNames root_resolved

resolve_order-total_example :
    (result : List Manifest × List LoadFailure) × (resolve_order any_version root ≡ some result)
resolve_order-total_example = resolve_order-total any_version root

resolve_order-elem_example :
    elem (codes "app") (names (core ∷ app ∷ [])) ≡ not (elem (codes "app") (failure_names reports))
resolve_order-elem_example =
    resolve_order-elem any_version root app root-HasDistinctNames root_resolved (here refl)

resolve_order-cycle_example :
    (m : Manifest) × In m root
    × (m.name ≡ codes "tail")
    × (d : Text) × In d (keys m.dependencies)
    × (elem d cycle ≡ true)
resolve_order-cycle_example =
    resolve_order-cycle any_version root (failure_of tail (dependency_cycle cycle)) cycle
      root-HasDistinctNames root_resolved (there (there (here refl))) refl
