-- ===== src/Tests/RegistryTests.antt =====
-- A registry with two plugins, over a host that holds one world and counts the calls in it.
use stanchion.Prelude.{
  ◌⊎◌, text_cmp, trim_start, trim, to_ascii_lowercase, strip_prefix, starts_with, is_whitespace,
  is_digit, contains_key, ends_with, split, is_ascii_alphanumeric, ℕ, zero, suc, ◌+◌, ◌≡◌, refl,
  true, none, some, List, [], ◌∷◌, ◌++◌, Text, codes, lookup, if◌then◌else◌, text_eq, is_empty,
  insert,
}
use stanchion.Value.{nil, empty}
use stanchion.Manifest.{
  validate_name, validate_entry_path, later_components, is_name_byte, effective_version, component,
  check_suffix, components, is_valid_name, validate, Manifest, lua,
}
use stanchion.Signature.{
  Bytes, Signer, unsigned, verified, VerifyError, DirectoryDigest, Revocations, deny_identity,
}
use stanchion.Signature
use stanchion.Lock.{same_if_pinned, eq_ignore_ascii_case, check_entry, check, bare_hex}
use stanchion.Capability.{deny}
use stanchion.Registry.{
  rebuild, load_context, slash_path, judge, check_revoked, check_locked, bind_entry, read_manifest,
  find_signer, compute, digest_if, unknown_plugin, ok, err, LoadedPlugin, LoadItem, Instance, value,
  panicked, Host, Registry, get, verify_plugin,
}
use stanchion.Registry.Verify.{verify_plugin-ok, IsDigestOf, NotRevoked, IsPinned, IsSigned}
use stanchion.Registry.Operations.{
  remove_each, drop_plugin, locate, replace, locate, finish, prepare, refusal, remove, reload,
  reloaded, apply_revocations, dispatch,
}
use stanchion.Registry.Operations.Index.{IsIndexed}
use stanchion.Registry.Operations.Removal.{remove-get, apply_revocations-get}
use stanchion.Registry.Operations.Refusal.{IsRefused, IsAllowed}
use stanchion.Registry.Operations.Reloading.{reload-err, reload-ok, IsPrepared}

abbrev manifest : Text → Manifest
manifest name = record {
  name = name;
  version = some (codes "1.0.0");
  plugin_type = lua;
  entry = codes "init.lua";
  dependencies = [];
  capabilities = [];
  rocks = [];
  config = empty;
  budget = none;
  dir = codes "/p/" ++ name;
}

abbrev acme : Signer
acme = verified (codes "acme") none

abbrev loaded : Text → Instance → Signer → LoadedPlugin
loaded name handle signer = record {
  manifest = manifest name;
  instance_of = handle;
  granted = codes "log" ∷ [];
  signer = signer;
  digest = none;
}

abbrev alpha : LoadedPlugin
alpha = loaded (codes "alpha") 0 acme

abbrev beta : LoadedPlugin
beta = loaded (codes "beta") 1 unsigned

abbrev source : Bytes
source = codes "return {}"

-- the hash of the toy host is the contents themselves
abbrev host : Host ℕ
host = record {
  parse_manifest = λ w dir. ok (manifest (codes "alpha"));
  walk = λ w dir. ok ((codes "init.lua", source) ∷ (codes "plugin.sig", []) ∷ []);
  read_file = λ w dir entry. ok source;
  sha256 = λ bytes. bytes;
  reload_plugin = λ w item context. (w, ok (7, []));
  unload = λ w ty name. w + 1;
  call = λ w handle method args.
      (w + 1, elim handle [ zero ↦ panicked (codes "boom") | suc _ ↦ value nil ]);
  revoke_capability = λ w handle capability. (w, true);
}

abbrev registry : Registry
registry = record {
  runtimes = lua ∷ [];
  host_setup = record { providers = []; ambient = [] };
  setup_error = none;
  policy = λ request. deny [];
  constructor = codes "new";
  rocks = none;
  rock_paths = none;
  plugins = alpha ∷ beta ∷ [];
  index = (codes "alpha", 0) ∷ (codes "beta", 1) ∷ [];
  verifier = some (λ digest dir. ok acme);
  require_signatures = true;
  revocations = none;
  lockfile = none;
}

registry-IsIndexed : IsIndexed registry
unfolding lookup text_eq
registry-IsIndexed = record { distinct = (refl, (refl, tt)); indexed = λ name. refl }

abbrev alpha_digest : DirectoryDigest
alpha_digest =
    Signature.compute (λ bytes. bytes) ((codes "init.lua", source) ∷ (codes "plugin.sig", []) ∷ [])

alpha_verified : verify_plugin host registry 0 alpha.manifest ≡ ok (acme, some alpha_digest)
unfolding verify_plugin digest_if compute find_signer
alpha_verified = refl

verify_plugin-ok_example :
    IsDigestOf host registry 0 alpha.manifest.dir (some alpha_digest)
    × NotRevoked registry.revocations (some alpha_digest) acme
    × IsPinned registry.lockfile alpha.manifest (some alpha_digest) acme
    × (registry.require_signatures ≡ true
        → IsSigned registry (some alpha_digest) alpha.manifest.dir acme)
verify_plugin-ok_example = verify_plugin-ok host registry 0 alpha.manifest alpha_verified

remove-get_example :
    get (remove host registry 0 (codes "alpha")).1.0 (codes "beta")
    ≡ (if text_eq (codes "beta") (codes "alpha") then none else get registry (codes "beta"))
remove-get_example = remove-get host registry 0 (codes "alpha") (codes "beta") registry-IsIndexed

alpha_found : get registry (codes "alpha") ≡ some alpha
unfolding get lookup text_eq
alpha_found = refl

abbrev leaked : Revocations
leaked = record { digest = none; identity = some (codes "acme"); reason = none } ∷ []

apply_revocations-get_example :
    IsIndexed (apply_revocations host registry 0 leaked).1.0
    × ((apply_revocations host registry 0 leaked).1.0.revocations ≡ some leaked)
    × (((get (apply_revocations host registry 0 leaked).1.0 (codes "alpha") ≡ none)
          × IsRefused host leaked 0 alpha)
        ⊎ ((get (apply_revocations host registry 0 leaked).1.0 (codes "alpha") ≡ some alpha)
            × IsAllowed host leaked 0 alpha))
apply_revocations-get_example =
    apply_revocations-get host registry 0 leaked (codes "alpha") registry-IsIndexed alpha_found

alpha_gone : get (apply_revocations host registry 0 leaked).1.0 (codes "alpha") ≡ none
unfolding apply_revocations remove_each remove drop_plugin locate get lookup rebuild insert
    Signature.check is_empty refusal Signature.needs_digest Signature.identity text_eq
alpha_gone = refl

gamma_unknown : (reload host registry 0 (codes "gamma")).0 ≡ err (unknown_plugin (codes "gamma"))
unfolding reload lookup text_eq
gamma_unknown = refl

reload-err_example : (reload host registry 0 (codes "gamma")).1.0 ≡ registry
reload-err_example = reload-err host registry 0 (codes "gamma") gamma_unknown

alpha_reloaded : (reload host registry 0 (codes "alpha")).0 ≡ ok tt
unfolding reload lookup text_eq prepare read_manifest validate is_valid_name is_ascii_alphanumeric
    components split ends_with verify_plugin digest_if compute find_signer bind_entry
    Signature.covers contains_key bare_hex check check_entry eq_ignore_ascii_case same_if_pinned
    check_suffix component effective_version is_name_byte later_components validate_entry_path
    validate_name insert is_digit is_empty is_whitespace starts_with strip_prefix to_ascii_lowercase
    trim trim_start text_cmp finish locate replace check_locked check_revoked judge slash_path
    Signature.check Signature.compute Signature.describe Signature.hash_files Signature.hex
    Signature.hex_digit Signature.identity Signature.issuer Signature.matches
    Signature.normalize_digest Signature.preimage_of Signature.show_signer Signature.to_hex
    Signature.utf8 Signature.utf8_char
alpha_reloaded = refl

reload-ok_example :
    (item : LoadItem) × (bound : Instance × List Text) × IsPrepared host registry 0
      (codes "alpha")
      item
    × ((host.reload_plugin 0 item (load_context registry)).1 ≡ ok bound)
    × IsIndexed (reload host registry 0 (codes "alpha")).1.0
    × ((other : Text)
        → get (reload host registry 0 (codes "alpha")).1.0 other ≡ (
            if text_eq other (codes "alpha")
            then some (reloaded host item bound)
            else get registry other))
reload-ok_example = reload-ok host registry 0 (codes "alpha") registry-IsIndexed alpha_reloaded

dispatch_run : dispatch host registry 0 (codes "tick") [] ≡ (
  record { plugin = codes "alpha"; result = err (codes "boom") }
      ∷ record { plugin = codes "beta"; result = ok nil }
      ∷ [],
  2,
)
unfolding dispatch
dispatch_run = refl
