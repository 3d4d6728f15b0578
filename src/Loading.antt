-- ===== src/Loading.antt =====
-- crates/stanchion-registry/src/lib.rs: `load_dir` and what it calls, `verify_rocks` and
-- `prepare_rocks`, with `discover` of crates/stanchion-registry/src/manifest.rs and `GroupOutcome`
-- of crates/stanchion-abi/src/load.rs. What loading needs of the world beside `Host` is the record
-- `Loader`.
pub mod Directory
pub mod Checking
pub mod Installing
pub mod Absorbing
pub mod Results
pub mod Provenance
pub mod Lookup
use stanchion.Prelude.{
  ℕ, Ordering, lt, eq, gt, Bool, true, false, not, ◌&&◌, ◌||◌, Option, none, some, List, [], ◌∷◌,
  ◌++◌, map, if◌then◌else◌, length, any, is_empty, Text, Map, text_eq, text_cmp, lookup, insert,
  contains_key, codes, ends_with,
}
use stanchion.Manifest.{
  Manifest, PluginType, lua, wasm, Version, VersionReq, DependencySpec, is_optional,
}
use stanchion.Registry.{
  FailureReason, already_registered, dependency_failed, io_failed, runtime, no_backend,
  no_rocks_tree, missing_rock, incompatible_rock, rocks_failed, unknown_outcome, no_outcome,
  LoadFailure, RegistryError, backend, io_error, rocks_error, Outcome, ok, err, ◌>>=◌, ◌>>◌,
  map_err, Instance, LoadedPlugin, LoadItem, LoadContext, load_context, Host, Registry, same_type,
  has_runtime, verify_plugin, read_manifest, bind_if_digest,
}
use stanchion.Resolution.{elem, failure_of, resolve_order}
use stanchion.Rocks.Version.{RockVersion}
use stanchion.Rocks.Requirement.{Requirement, parse_requirement, matches}
use stanchion.Rocks.Requirement
use stanchion.Rocks.Command.{RocksConfig, RockPaths}
use stanchion.Rocks.Command

pub data GroupOutcome : Type 0 where
  loaded : Text → Instance → List Text → GroupOutcome
  failed : Text → Text → Text → GroupOutcome

pub record Loader (W : Type 0) : Type 0 where
  -- the names of a directory's entries, each of which may fail to be read
  pub read_dir : W → Text → Outcome Text (List (Outcome Text Text))
  pub is_file : W → Text → Bool
  pub load_group : W → PluginType → List LoadItem → LoadContext → W × List GroupOutcome
  -- the `luarocks` command: from its arguments to its standard output
  pub process : W → Text → List Text → Requirement.Result Text
  -- the same command where it changes the tree
  pub install : W → Text → List Text → W × Requirement.Result Text
  -- semver's part
  pub req_matches : VersionReq → Version → Bool

pub record LoadReport : Type 0 where
  pub loaded_names : List Text
  pub failures : List LoadFailure

-- `Path::join` with a plain name
unfoldable pub join : Text → Text → Text
join dir name =
    if is_empty dir
    then name
    else if ends_with (codes "/") dir
    then dir ++ name
    else dir ++ (b'/' ∷ name)

insert_text : Text → List Text → List Text
insert_text x [] = x ∷ []
insert_text x (y ∷ ys) = elim (text_cmp y x) [
  | lt ↦ y ∷ insert_text x ys
  | eq ↦ x ∷ y ∷ ys
  | gt ↦ x ∷ y ∷ ys
]

-- paths below one directory are ordered by their last part
unfoldable pub sort_texts : List Text → List Text
unfolding insert_text
sort_texts [] = []
sort_texts (x ∷ xs) = insert_text x (sort_texts xs)

-- the loop of `verify_rocks`
unfoldable pub check_rocks : Map RockVersion → Map Text → Outcome FailureReason (Unit {0})
check_rocks installed [] = ok tt
check_rocks installed ((name, raw) ∷ rocks) =
    let rest = check_rocks installed rocks in
    elim (parse_requirement raw) [
      | Requirement.Result.err e ↦ err (rocks_failed e)
      | Requirement.Result.ok requirement ↦ elim (lookup name installed) [
        | none ↦ err (missing_rock name requirement)
        | some found ↦
            (if matches requirement found
              then rest
              else err (incompatible_rock name requirement found))
      ]
    ]

unfoldable pub verify_rocks : Manifest → Option (Map RockVersion) → Outcome FailureReason (Unit {0})
unfolding check_rocks
verify_rocks manifest installed = if is_empty manifest.rocks then ok tt else elim installed [
  | none ↦ err no_rocks_tree
  | some listing ↦ check_rocks listing manifest.rocks
]

-- the names that have failed so far, and their failures
pub record Progress : Type 0 where
  pub failed_names : List Text
  pub failures : List LoadFailure

abbrev pub record_as : Text → Text → FailureReason → Progress → Progress
record_as name dir reason p = record {
  failed_names = name ∷ p.failed_names;
  failures = p.failures ++ (record { name = name; dir = dir; reason = reason }) ∷ [];
}

abbrev pub record_failure : Manifest → FailureReason → Progress → Progress
record_failure manifest reason p = record_as manifest.name manifest.dir reason p

-- the first required dependency that has failed
unfoldable pub unmet : List Text → Map DependencySpec → Option Text
unmet failed_names [] = none
unmet failed_names ((name, spec) ∷ dependencies) =
    let rest = unmet failed_names dependencies in
    if not (is_optional spec) && elem name failed_names then some name else rest

abbrev pub Group : Type 0
Group = PluginType × List LoadItem

unfoldable pub add_item : LoadItem → List Group → List Group
add_item item [] = (item.manifest.plugin_type, item ∷ []) ∷ []
add_item item ((ty, members) ∷ groups) =
    let rest = add_item item groups in
    if same_type ty item.manifest.plugin_type
    then ((ty, members ++ item ∷ []) ∷ groups)
    else ((ty, members) ∷ rest)

unfoldable pub group_by_type : List LoadItem → List Group → List Group
unfolding add_item
group_by_type [] groups = groups
group_by_type (item ∷ ready) groups = group_by_type ready (add_item item groups)

-- the order of the types' names, which is stable
abbrev pub before : PluginType → PluginType → Bool
before lua wasm = true
before lua lua = false
before wasm ty = false

unfoldable pub insert_group : Group → List Group → List Group
insert_group g [] = g ∷ []
insert_group g (h ∷ groups) =
    let rest = insert_group g groups in if before h.0 g.0 then (h ∷ rest) else (g ∷ h ∷ groups)

unfoldable pub sort_groups : List Group → List Group
unfolding insert_group
sort_groups [] = []
sort_groups (g ∷ groups) = insert_group g (sort_groups groups)

unfoldable pub items_by_name : List LoadItem → Map LoadItem → Map LoadItem
items_by_name [] items = items
items_by_name (item ∷ members) items = items_by_name members (insert item.manifest.name item items)

-- the state of `load_dir` once it hands plugins to the runtimes
pub record Loading : Type 0 where
  pub registry : Registry
  pub progress : Progress
  pub names : List Text

abbrev pub loaded_plugin : LoadItem → Instance → List Text → LoadedPlugin
loaded_plugin item handle granted = record {
  manifest = item.manifest;
  instance_of = handle;
  granted = granted;
  signer = item.signer;
  digest = item.digest;
}

abbrev pub add_plugin : Text → LoadedPlugin → Registry → Registry
add_plugin name plugin r = record r {
  index = insert name (length r.plugins) r.index;
  plugins = r.plugins ++ plugin ∷ [];
}

unfoldable pub absorb : Map LoadItem → GroupOutcome → Loading → Loading
absorb items (failed name dir reason) s = record s {
  progress = record_as name dir (runtime reason) s.progress;
}
absorb items (loaded name handle granted) s = elim (lookup name items) [
  | none ↦ record s { progress = record_as name [] unknown_outcome s.progress }
  | some item ↦ record s {
    registry = add_plugin name (loaded_plugin item handle granted) s.registry;
    names = s.names ++ name ∷ [];
  }
]

unfoldable pub absorb_all : Map LoadItem → List GroupOutcome → Loading → Loading
unfolding absorb
absorb_all items [] s = s
absorb_all items (outcome ∷ outcomes) s = absorb_all items outcomes (absorb items outcome s)

-- a group for whose type there is no runtime
unfoldable pub refuse_group : List LoadItem → Loading → Loading
refuse_group [] s = s
refuse_group (item ∷ members) s = refuse_group members (record s {
  progress = record_failure item.manifest (no_backend item.manifest.plugin_type) s.progress;
})

-- the last loop of `load_dir`: a plugin that no outcome was reported for
unfoldable pub account_one : LoadItem → Loading → Loading
account_one item s =
    if elem item.manifest.name s.progress.failed_names
      || contains_key item.manifest.name s.registry.index
    then s
    else record s {
      progress =
          record_failure item.manifest
            (elim (unmet s.progress.failed_names item.manifest.dependencies) [
              | some dep ↦ dependency_failed dep
              | none ↦ no_outcome
            ])
            s.progress;
    }

unfoldable pub account : List LoadItem → Loading → Loading
unfolding account_one
account [] s = s
account (item ∷ ready) s = account ready (account_one item s)

unfoldable pub check_setup : Registry → Outcome RegistryError (Unit {0})
check_setup r = elim r.setup_error [ some message ↦ err (backend message) | none ↦ ok tt ]

abbrev pub rocks_result : {A : Type 0} → Requirement.Result A → Outcome RegistryError A
rocks_result (Requirement.Result.ok a) = ok a
rocks_result (Requirement.Result.err e) = err (rocks_error e)
