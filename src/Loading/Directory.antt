-- ===== src/Loading/Directory.antt =====
-- `discover`, `prepare_rocks` and `load_dir` over a host and a loader.
use stanchion.Prelude.{
  true, false, Option, none, some, List, [], ◌∷◌, ◌++◌, map, if◌then◌else◌, Text, Map, contains_key,
  codes,
}
use stanchion.Manifest.{Manifest}
use stanchion.Registry.{
  FailureReason, already_registered, dependency_failed, io_failed, LoadFailure, RegistryError,
  io_error, Outcome, ok, err, ◌>>=◌, ◌>>◌, map_err, LoadItem, load_context, Host, Registry,
  has_runtime, verify_plugin, read_manifest, bind_if_digest,
}
use stanchion.Resolution.{resolve_order}
use stanchion.Rocks.Version.{RockVersion}
use stanchion.Rocks.Command.{RocksConfig, RockPaths}
use stanchion.Rocks.Command
use stanchion.Loading.{
  Loader, LoadReport, Progress, Loading, join, sort_texts, verify_rocks, record_failure, unmet,
  Group, group_by_type, sort_groups, items_by_name, absorb_all, refuse_group, account, check_setup,
  rocks_result,
}

module _ {W : Type 0} (host : Host W) (loader : Loader W) where
  -- `fs::read_dir`, up to the first entry that cannot be read; of the entries, the directories with
  -- a manifest
  unfoldable pub plugin_dirs : W → Text → List (Outcome Text Text) → Outcome Text (List Text)
  unfolding join
  plugin_dirs w root [] = ok []
  plugin_dirs w root (err e ∷ entries) = err e
  plugin_dirs w root (ok name ∷ entries) = do
    rest ← plugin_dirs w root entries
    ok (
        if loader.is_file w (join (join root name) (codes "plugin.toml"))
        then (name ∷ rest)
        else rest)

  -- the loop of `discover` over the directories
  unfoldable pub read_each : W → Text → List Text → List Manifest × List LoadFailure
  unfolding join
  read_each w root [] = ([], [])
  read_each w root (name ∷ dirs) =
      let rest = read_each w root dirs in
      elim (read_manifest host w (join root name)) [
        | ok manifest ↦ (manifest ∷ rest.0, rest.1)
        | err reason ↦
            (rest.0, (record { name = name; dir = join root name; reason = reason }) ∷ rest.1)
      ]

  unfoldable pub discover : W → Text → Outcome RegistryError (List Manifest × List LoadFailure)
  unfolding plugin_dirs read_each sort_texts
  discover w root = map_err (io_error root) (do
    entries ← loader.read_dir w root
    dirs ← plugin_dirs w root entries
    ok (read_each w root (sort_texts dirs)))

  -- the paths are asked for once
  unfoldable pub paths_for : Registry → W → RocksConfig → Outcome RegistryError RockPaths
  paths_for r w config = elim r.rock_paths [
    | some paths ↦ ok paths
    | none ↦ rocks_result (Command.paths (loader.process w) config)
  ]

  -- the paths are kept where the list then fails
  unfoldable pub prepare_rocks :
      Registry → W → Registry × Outcome RegistryError (Option (Map RockVersion))
  unfolding paths_for
  prepare_rocks r w = elim r.rocks [
    | none ↦ (r, ok none)
    | some config ↦ elim (paths_for r w config) [
      | err e ↦ (r, err e)
      | ok paths ↦ (
        record r { rock_paths = some paths },
        (do
          listing ← rocks_result (Command.installed (loader.process w) config)
          ok (some listing)),
      )
    ]
  ]

  -- the checks of one plugin, up to the item that is ready for a runtime
  unfoldable pub check_one :
      Registry
      → W
      → Option (Map RockVersion)
      → List Text
      → Manifest
      → Outcome FailureReason LoadItem
  unfolding unmet verify_rocks
  check_one r w installed failed_names m =
      if contains_key m.name r.index
      then err (already_registered m.name)
      else elim (unmet failed_names m.dependencies) [
        | some dep ↦ err (dependency_failed dep)
        | none ↦ do
          verify_rocks m installed
          verified ← verify_plugin host r w m
          entry_bytes ← map_err io_failed (host.read_file w m.dir m.entry)
          bind_if_digest host.sha256 m verified.1 entry_bytes
          ok (record {
            manifest = m;
            signer = verified.0;
            digest = verified.1;
            entry_bytes = entry_bytes;
          })
      ]

  unfoldable pub check_all :
      Registry → W → Option (Map RockVersion) → Progress → List Manifest → Progress × List LoadItem
  unfolding check_one
  check_all r w installed p [] = (p, [])
  check_all r w installed p (m ∷ ordered) = elim (check_one r w installed p.failed_names m) [
    | err reason ↦ check_all r w installed (record_failure m reason p) ordered
    | ok item ↦ let rest = check_all r w installed p ordered in (rest.0, item ∷ rest.1)
  ]

  unfoldable pub load_groups : List Group → Loading → W → Loading × W
  unfolding absorb_all refuse_group items_by_name load_context
  load_groups [] s w = (s, w)
  load_groups ((ty, members) ∷ groups) s w = elim (has_runtime s.registry ty) [
    | false ↦ load_groups groups (refuse_group members s) w
    | true ↦
        let answer = loader.load_group w ty members (load_context s.registry) in
        load_groups groups (absorb_all (items_by_name members []) answer.1 s) answer.0
  ]

  -- from the load order to the end
  unfoldable pub load_ordered :
      Registry
      → W
      → Option (Map RockVersion)
      → List LoadFailure
      → List Manifest
      → LoadReport × (Registry × W)
  unfolding check_all load_groups group_by_type sort_groups account
  load_ordered r w installed failures ordered =
      let checked =
        check_all r w installed
          (record {
            failed_names = map (λ (f : LoadFailure). f.name) failures;
            failures = failures;
          })
          ordered in
      let start : Loading = record { registry = r; progress = checked.0; names = [] } in
      let after = load_groups (sort_groups (group_by_type checked.1 [])) start w in
      let end = account checked.1 after.0 in
      (
        record { loaded_names = end.names; failures = end.progress.failures },
        (end.registry, after.1),
      )

  -- `none` where the fuel of `resolve_order` runs out
  unfoldable pub load_dir :
      Registry → W → Text → Option (Outcome RegistryError LoadReport × (Registry × W))
  unfolding check_setup discover prepare_rocks load_ordered
  load_dir r w root = elim (check_setup r >> discover w root) [
    | err e ↦ some (err e, (r, w))
    | ok (manifests, unread) ↦ elim (resolve_order loader.req_matches manifests) [
      | none ↦ none
      | some (ordered, unordered) ↦
          let prepared = prepare_rocks r w in
          elim prepared.1 [
            | err e ↦ some (err e, (prepared.0, w))
            | ok installed ↦
                let result = load_ordered prepared.0 w installed (unread ++ unordered) ordered in
                some (ok result.0, result.1)
          ]
    ]
  ]
