-- ===== src/Tests/LoadingTests.antt =====
-- A root with two plugins, a broken directory and a file, loaded into a registry that holds a third.
use stanchion.Rocks.Version.{
  version_cmp, part_cmp, parse_version, next_compatible, cmp_specified, cmp_parts,
}
use stanchion.Prelude.{
  trim_start, to_ascii_lowercase, strip_prefix, starts_with, split_once, parse_u64, is_whitespace,
  is_digit, trim, ◌+◌, insert, lookup, split, is_ascii_alphanumeric, text_cmp, ends_with, is_empty,
  ℕ, ◌≡◌, refl, ◌⊎◌, ◌++◌, true, false, none, some, [], ◌∷◌, Text, codes, text_eq, if◌then◌else◌,
  contains_key, In, here, there,
}
use stanchion.Value.{empty}
use stanchion.Manifest.{
  validate_name, validate_entry_path, later_components, is_name_byte, first_components, component,
  check_suffix, components, is_valid_name, validate, Manifest, lua,
}
use stanchion.Signature.{unsigned}
use stanchion.Capability.{deny}
use stanchion.Registry.{
  check_rock_requirements, find_signer, digest_if, verify_plugin, read_manifest, Outcome,
  FailureReason, Host, Registry, LoadedPlugin, LoadFailure, unparsed_manifest, runtime, ok, err,
  panicked, get,
}
use stanchion.Registry.Operations.Index.{name_of}
use stanchion.Rocks.Requirement
use stanchion.Resolution.{resolve_order, elem}
use stanchion.Resolution.Start.{HasDistinctNames}
use stanchion.Resolution.Arranging.{failure_names}
use stanchion.Loading.{sort_texts, join, Loader, LoadReport, loaded, failed}
use stanchion.Rocks.Command.{
  install_args, installed, validate_rock_version, validate_bare_argument, run, row, lines,
  is_bare_char, collect, add_version, add_row, validate_rock_name, new_config,
}
use stanchion.Loading.Installing.{
  wanted_rocks, settle_rocks, settle_rock, install_one, add_rocks, InstallReport, install_rocks,
  IsReported, install_rocks-IsReported,
}
use stanchion.Loading.Directory.{read_each, plugin_dirs, discover, load_dir}
use stanchion.Loading.Results.{load_dir-IsSettled}
use stanchion.Loading.Provenance.{load_dir-IsVetted, IsVetted}
use stanchion.Loading.Lookup.{load_dir-get}

abbrev manifest : Text → Manifest
manifest name = record {
  name = name;
  version = none;
  plugin_type = lua;
  entry = codes "a.lua";
  dependencies = [];
  capabilities = [];
  rocks = [];
  config = empty;
  budget = none;
  dir = codes "/p/" ++ name;
}

abbrev parse : Text → Outcome FailureReason Manifest
parse dir =
    if text_eq dir (codes "/p/a")
    then ok (manifest (codes "a"))
    else if text_eq dir (codes "/p/b")
    then ok (manifest (codes "b"))
    else err (unparsed_manifest dir)

-- the hash of the toy host is the contents themselves
abbrev host : Host ℕ
host = record {
  parse_manifest = λ w dir. parse dir;
  walk = λ w dir. ok ((codes "a.lua", 1 ∷ []) ∷ []);
  read_file = λ w dir entry. ok (1 ∷ []);
  sha256 = λ bytes. bytes;
  reload_plugin = λ w item context. (w, ok (7, []));
  unload = λ w ty name. w;
  call = λ w handle method args. (w, panicked []);
  revoke_capability = λ w handle capability. (w, true);
}

-- the runtime loads `a` and reports that `b` failed
abbrev loader : Loader ℕ
loader = record {
  read_dir =
      λ w dir. ok (ok (codes "x") ∷ ok (codes "b") ∷ ok (codes "notes") ∷ ok (codes "a") ∷ []);
  is_file = λ w path. if text_eq path (codes "/p/notes/plugin.toml") then false else true;
  load_group = λ w ty items context.
      (3, loaded (codes "a") 4 [] ∷ failed (codes "b") (codes "/p/b") (codes "boom") ∷ []);
  process = λ w binary args. Requirement.Result.ok [];
  install = λ w binary args. (w + 1, Requirement.Result.ok []);
  req_matches = λ required version. true;
}

abbrev old : LoadedPlugin
old = record {
  manifest = manifest (codes "old");
  instance_of = 0;
  granted = [];
  signer = unsigned;
  digest = none;
}

abbrev registry : Registry
registry = record {
  runtimes = lua ∷ [];
  host_setup = record { providers = []; ambient = [] };
  setup_error = none;
  policy = λ request. deny [];
  constructor = codes "new";
  rocks = none;
  rock_paths = none;
  plugins = old ∷ [];
  index = (codes "old", 0) ∷ [];
  verifier = none;
  require_signatures = false;
  revocations = none;
  lockfile = none;
}

abbrev new : LoadedPlugin
new = record {
  manifest = manifest (codes "a");
  instance_of = 4;
  granted = [];
  signer = unsigned;
  digest = none;
}

abbrev broken : LoadFailure
broken = record { name = codes "x"; dir = codes "/p/x"; reason = unparsed_manifest (codes "/p/x") }

abbrev report : LoadReport
report = record {
  loaded_names = codes "a" ∷ [];
  failures =
      broken
      ∷ (record { name = codes "b"; dir = codes "/p/b"; reason = runtime (codes "boom") })
      ∷ [];
}

abbrev after : Registry
after = record registry { plugins = old ∷ new ∷ []; index = (codes "a", 1) ∷ (codes "old", 0) ∷ [] }

root_found :
    discover host loader 0 (codes "/p")
    ≡ ok (manifest (codes "a") ∷ manifest (codes "b") ∷ [], broken ∷ [])
unfolding discover text_eq is_empty ends_with text_cmp read_manifest validate is_valid_name
    is_ascii_alphanumeric components split
root_found = refl

root_loaded : load_dir host loader registry 0 (codes "/p") ≡ some (ok report, (after, 3))
unfolding load_dir resolve_order text_eq is_empty ends_with text_cmp read_manifest validate
    is_valid_name is_ascii_alphanumeric components split lookup insert contains_key verify_plugin
    digest_if find_signer
root_loaded = refl

found-HasDistinctNames : HasDistinctNames (manifest (codes "a") ∷ manifest (codes "b") ∷ [])
unfolding text_eq
found-HasDistinctNames = (refl, (refl, tt))

load_dir-IsSettled_example :
    ((m : Manifest)
      → In m (manifest (codes "a") ∷ manifest (codes "b") ∷ [])
      → (contains_key m.name after.index ≡ true)
        ⊎ (elem m.name (failure_names report.failures) ≡ true))
    × ((f : LoadFailure) → In f (broken ∷ []) → In f report.failures)
load_dir-IsSettled_example =
    load_dir-IsSettled host loader registry 0 (codes "/p") root_found found-HasDistinctNames
      root_loaded

load_dir-IsVetted_example : In new (old ∷ []) ⊎ IsVetted host loader registry 0 new
load_dir-IsVetted_example =
    load_dir-IsVetted host loader registry 0 (codes "/p") new root_loaded (there (here refl))

load_dir-get_example :
    ((x : Text) (p : LoadedPlugin) → get registry x ≡ some p → get after x ≡ some p)
    × ((x : Text)
        → elem x report.loaded_names ≡ true
        → (p : LoadedPlugin) × (get after x ≡ some p) × (name_of p ≡ x))
load_dir-get_example = load_dir-get host loader registry 0 (codes "/p") root_loaded

-- a root of one plugin with a rock that is not installed yet
abbrev rocky : Manifest
rocky = record (manifest (codes "a")) { rocks = (codes "lpeg", codes "1.0") ∷ [] }

abbrev rocky_host : Host ℕ
rocky_host = record host { parse_manifest = λ w dir. ok rocky }

abbrev rocky_loader : Loader ℕ
rocky_loader = record loader { read_dir = λ w dir. ok (ok (codes "a") ∷ []) }

abbrev rocky_registry : Registry
rocky_registry = record registry { rocks = some (new_config (codes "/tree")) }

abbrev rocks_report : InstallReport
rocks_report = record { installed = codes "lpeg" ∷ []; satisfied = []; failures = [] }

rocky_found : discover rocky_host rocky_loader 0 (codes "/p") ≡ ok (rocky ∷ [], [])
unfolding discover text_eq is_empty ends_with read_manifest validate is_valid_name
    is_ascii_alphanumeric components split Requirement.parse_requirement trim
    Requirement.split_operator validate_rock_name plugin_dirs read_each add_rocks install_one
    settle_rock settle_rocks wanted_rocks join sort_texts check_suffix component first_components
    is_name_byte later_components validate_entry_path validate_name is_digit is_whitespace parse_u64
    split_once starts_with strip_prefix to_ascii_lowercase trim_start text_cmp
    check_rock_requirements add_row add_version collect is_bare_char lines row run
    validate_bare_argument validate_rock_version Requirement.constraint_matches Requirement.matches
    Requirement.operator_matches Requirement.parse_pieces Requirement.pinned_version cmp_parts
    cmp_specified next_compatible parse_version part_cmp version_cmp
rocky_found = refl

rocky_installed :
    (install_rocks rocky_host rocky_loader rocky_registry 0 (codes "/p")).0 ≡ ok rocks_report
unfolding install_rocks installed text_eq is_empty ends_with read_manifest validate is_valid_name
    is_ascii_alphanumeric components split Requirement.parse_requirement trim
    Requirement.split_operator insert lookup install_args validate_rock_name discover plugin_dirs
    read_each add_rocks install_one settle_rock settle_rocks wanted_rocks join sort_texts
    check_suffix component first_components is_name_byte later_components validate_entry_path
    validate_name is_digit is_whitespace parse_u64 split_once starts_with strip_prefix
    to_ascii_lowercase trim_start text_cmp check_rock_requirements add_row add_version collect
    is_bare_char lines row run validate_bare_argument validate_rock_version
    Requirement.constraint_matches Requirement.matches Requirement.operator_matches
    Requirement.parse_pieces Requirement.pinned_version cmp_parts cmp_specified next_compatible
    parse_version part_cmp version_cmp
rocky_installed = refl

install_rocks-IsReported_example : IsReported (codes "lpeg") rocks_report
install_rocks-IsReported_example =
    install_rocks-IsReported rocky_host rocky_loader rocky_registry 0 (codes "/p") rocky
      (codes "lpeg") rocky_found rocky_installed (here refl) (here refl)
