-- ===== src/Tests/SecurityTests.antt =====
-- Names, capabilities, signatures and lockfiles on concrete inputs.
use stanchion.Prelude.{
  is_ascii_hexdigit, trim, strip_prefix, to_ascii_lowercase, is_ascii_alphanumeric, ◌≡◌, ◌↔◌, refl,
  true, false, none, some, [], ◌∷◌, In, here, there, inl, Text, Map, codes, lookup, text_eq,
  is_some, split, ends_with,
}
use stanchion.Value.{
  map, done, text, boolean, array, table, stop, element, Table, empty, entry, value_to_toml,
  toml_to_value, ok,
}
use stanchion.Value.RoundTrip.{value_to_toml-toml_to_value}
use stanchion.Manifest.{effective_version, Manifest, lua, fine, validate, is_valid_name, components}
use stanchion.Capability.{
  CapabilityRequest, Decision, grant, grant_with, deny, Policy, Provider, Approval, HostSetup,
  provider, Refusal, approve_capabilities, split_optional, allow_list, not_granted, rules_decide,
  allow_with, request_of, denied,
}
use stanchion.Capability
use stanchion.Capability.Granting.{
  Grants, approve_capabilities-IsGranted, approve_capabilities_required,
}
use stanchion.Signature.{
  Signer, unsigned, verified, DirectoryDigest, Revocations, identity, hex, hex_of, normalize_digest,
  deny_digest, deny_identity, preimage_of, Bytes, is_sha256_hex,
}
use stanchion.Signature
use stanchion.Signature.Preimage.{preimage_of-injective}
use stanchion.Lock.{Lockfile, LockedPlugin, accept, bare_hex, lock_version}
use stanchion.Lock
use stanchion.Lock.Pinning.{check_iff, Fits}

abbrev network_params : Table
network_params = entry (codes "hosts") (array (element (text (codes "acme.com")) stop)) empty

abbrev log_params : Table
log_params = entry (codes "optional") (boolean true) empty

abbrev weather : Manifest
weather = record {
  name = codes "weather";
  version = some (codes "1.2.0");
  plugin_type = lua;
  entry = codes "./src/init.lua";
  dependencies = [];
  capabilities = (codes "log", log_params) ∷ (codes "network", network_params) ∷ [];
  rocks = [];
  config = empty;
  budget = none;
  dir = codes "/plugins/weather";
}

value_to_toml-toml_to_value_example :
    value_to_toml (toml_to_value (table network_params)) ≡ ok (table network_params)
value_to_toml-toml_to_value_example = value_to_toml-toml_to_value (table network_params) refl

weather_is_fine : validate weather ≡ fine
unfolding validate is_valid_name components split ends_with is_ascii_alphanumeric text_eq
weather_is_fine = refl

weather_name : is_valid_name (codes "weather") ≡ true
unfolding is_valid_name is_ascii_alphanumeric text_eq
weather_name = refl

abbrev answers : Provider
answers call = inl call.grant

abbrev setup : HostSetup
setup = record { providers = (codes "network", answers) ∷ []; ambient = [] }

-- grants what is asked for, but with no host
abbrev narrow : Policy
narrow request = grant_with (map done)

abbrev approval : Approval
approval = record {
  name = codes "network";
  grant = record { plugin = codes "weather"; name = codes "network"; params = map done };
}

weather_approved :
    approve_capabilities weather (codes "unsigned") setup narrow ≡ Capability.ok (approval ∷ [])
unfolding approve_capabilities provider lookup text_eq split_optional
weather_approved = refl

weather_refused :
    approve_capabilities weather (codes "unsigned") setup (allow_list [])
    ≡ Capability.err (denied (codes "network") (not_granted (codes "network")))
unfolding approve_capabilities allow_list provider lookup text_eq split_optional
weather_refused = refl

approve_capabilities-IsGranted_example :
    (declared : Table) × In (codes "network", declared) weather.capabilities
    × (is_some (provider setup (codes "network")) ≡ true)
    × Grants narrow (request_of weather (codes "unsigned") (codes "network") declared) (map done)
    × (codes "weather" ≡ weather.name)
    × (codes "network" ≡ approval.name)
approve_capabilities-IsGranted_example =
    approve_capabilities-IsGranted weather (codes "unsigned") setup narrow approval weather_approved
      (here refl)

network_required : (split_optional network_params).1 ≡ false
unfolding split_optional text_eq
network_required = refl

approve_capabilities_required_example :
    (a : Approval) × In a (approval ∷ []) × (a.name ≡ codes "network")
approve_capabilities_required_example =
    approve_capabilities_required weather (codes "unsigned") setup narrow
      {declared = network_params} weather_approved (there (here refl)) network_required

abbrev asks : CapabilityRequest
asks = request_of weather (codes "unsigned") (codes "network") network_params

abbrev hash : Bytes
hash =
    1 ∷ 2 ∷ 3 ∷ 4 ∷ 5 ∷ 6 ∷ 7 ∷ 8 ∷ 9 ∷ 10 ∷ 11 ∷ 12 ∷ 13 ∷ 14 ∷ 15 ∷ 16 ∷ 17 ∷ 18 ∷ 19 ∷ 20 ∷ 21
    ∷ 22 ∷ 23 ∷ 24 ∷ 25 ∷ 26 ∷ 27 ∷ 28 ∷ 29 ∷ 30 ∷ 31 ∷ 32 ∷ []

abbrev digest : DirectoryDigest
digest = record { root = hash; preimage = []; files = [] }

abbrev acme : Signer
acme = verified (codes "acme") none

preimage_of-injective_example :
    ◌≡◌ {A = Map Bytes} ((codes "init.lua", hash) ∷ []) ((codes "init.lua", hash) ∷ [])
preimage_of-injective_example =
    preimage_of-injective ((codes "init.lua", hash) ∷ []) ((codes "init.lua", hash) ∷ [])
      (refl, refl, tt) (refl, refl, tt) refl

abbrev pinned_digest : Text
pinned_digest = codes "sha256:0102030405060708090A0b0c0d0e0f101112131415161718191a1b1c1d1e1f20"

abbrev pin : LockedPlugin
pin = record {
  digest = pinned_digest;
  version = some (codes "1.2.0");
  signer = some (codes "acme");
  issuer = none;
  source = none;
}

abbrev lock : Lockfile
lock = record { version = 1; plugins = (codes "weather", pin) ∷ [] }

check_iff_example : (Lock.check lock weather digest acme ≡ Lock.ok tt) ↔ (
    (entry : LockedPlugin) × (lookup weather.name lock.plugins ≡ some entry)
    × Fits entry weather digest acme)
check_iff_example = check_iff lock weather digest acme

lock_passes : Lock.check lock weather digest acme ≡ Lock.ok tt
unfolding Lock.check lookup text_eq Lock.eq_ignore_ascii_case to_ascii_lowercase bare_hex
    strip_prefix hex Signature.to_hex identity effective_version
lock_passes = refl

abbrev read_lock : Lockfile
read_lock = record {
  version = 1;
  plugins =
      (
        codes "weather",
        record pin {
          digest = codes "sha256:0102030405060708090a0b0c0d0e0f101112131415161718191a1b1c1d1e1f20";
        },
      )
      ∷ [];
}

lock_accepted : accept lock ≡ Lock.ok read_lock
unfolding accept bare_hex strip_prefix Lock.normalize_digest to_ascii_lowercase trim
    is_ascii_hexdigit
lock_accepted = refl
