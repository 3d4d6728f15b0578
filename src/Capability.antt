-- ===== src/Capability.antt =====
-- crates/stanchion-abi/src/callback.rs: what a plugin asks for, what the host offers, and what a
-- policy grants. A provider is a function from a call to its answer.
pub mod Granting
pub mod Policies
use stanchion.Prelude.{
  ℕ, Bool, true, false, not, ◌&&◌, ◌||◌, ◌⊎◌, inl, inr, Option, none, some, List, [], ◌∷◌, ◌++◌,
  if◌then◌else◌, any, is_some, Text, Map, lookup, insert, keys, codes, text_eq,
}
use stanchion.Value.{
  Value, map, Toml, text, integer, decimal, boolean, datetime, array, table, Table, empty, entry,
  table_to_map,
}
use stanchion.Manifest.{Manifest}

pub record CapabilityRequest : Type 0 where
  pub plugin : Text
  pub capability : Text
  pub params : Value
  pub optional : Bool
  pub signer : Text

pub data Decision : Type 0 where
  grant : Decision
  grant_with : Value → Decision
  deny : Text → Decision

abbrev pub Policy : Type 0
Policy = CapabilityRequest → Decision

abbrev pub not_granted : Text → Text
not_granted name = codes "`" ++ name ++ codes "` is not granted by policy"

unfoldable pub allow_list : List Text → Policy
allow_list allowed request =
    if any (λ name. text_eq name request.capability) allowed
    then grant
    else deny (not_granted request.capability)

-- `Rules`, a map from a capability to its rule
unfoldable pub deny_all : Map Policy
deny_all = []

unfoldable pub allow_with : Map Policy → Text → Policy → Map Policy
allow_with rules name rule = insert name rule rules

unfoldable pub allow : Map Policy → Text → Map Policy
unfolding allow_with
allow rules name = allow_with rules name (λ _. grant)

unfoldable pub rules_decide : Map Policy → Policy
rules_decide rules request = elim (lookup request.capability rules) [
  | some rule ↦ rule request
  | none ↦ deny (not_granted request.capability)
]

pub record Grant : Type 0 where
  pub plugin : Text
  pub name : Text
  pub params : Value

pub record CapabilityCall : Type 0 where
  pub plugin : Text
  pub capability : Text
  pub grant : Value
  pub args : List Value

pub record Approval : Type 0 where
  pub name : Text
  pub grant : Grant

-- `invoke`: an answer, or a refusal that the plugin sees
abbrev pub Provider : Type 0
Provider = CapabilityCall → Value ⊎ Text

pub record HostSetup : Type 0 where
  pub providers : Map Provider
  pub ambient : List (Text × Value)

unfoldable pub offer : HostSetup → Text → Provider → HostSetup
offer setup name provider = record setup { providers = insert name provider setup.providers }

unfoldable pub add_ambient : HostSetup → Text → Value → HostSetup
add_ambient setup label value = record setup { ambient = setup.ambient ++ (label, value) ∷ [] }

unfoldable pub provider : HostSetup → Text → Option Provider
provider setup name = lookup name setup.providers

unfoldable pub offered : HostSetup → List Text
offered setup = keys setup.providers

-- `Table::remove`, which also gives what stood there
unfoldable pub get_entry : Text → Table → Option Toml
get_entry k empty = none
get_entry k (entry j t es) = if text_eq k j then some t else get_entry k es

unfoldable pub remove_entry : Text → Table → Table
remove_entry k empty = empty
remove_entry k (entry j t es) =
    let rest = remove_entry k es in if text_eq k j then es else entry j t rest

-- `and_then(as_bool).unwrap_or(false)`
abbrev flag_of : Option Toml → Bool
flag_of none = false
flag_of (some (boolean b)) = b
flag_of (some (text _)) = false
flag_of (some (integer _)) = false
flag_of (some (decimal _)) = false
flag_of (some (datetime _)) = false
flag_of (some (array _)) = false
flag_of (some (table _)) = false

unfoldable pub split_optional : Table → Value × Bool
unfolding get_entry remove_entry
split_optional declared = (
  table_to_map (remove_entry (codes "optional") declared),
  flag_of (get_entry (codes "optional") declared),
)

-- why a plugin is refused
pub data Refusal : Type 0 where
  not_offered not_table : Text → Refusal
  denied : Text → Text → Refusal

pub data Result {ℓ} (A : Type ℓ) : Type ℓ where
  ok : A → Result A
  err : Refusal → Result A

abbrev is_map : Value → Bool
is_map (map _) = true
is_map _ = false

pub data Answer : Type 0 where
  approve : Value → Answer
  skip : Answer
  refuse : Refusal → Answer

-- the body of the loop, from a policy's decision on
unfoldable pub settle : CapabilityRequest → Decision → Answer
settle request grant = approve request.params
settle request (grant_with params) =
    if is_map params then approve params else refuse (not_table request.capability)
settle request (deny reason) =
    if request.optional then skip else refuse (denied request.capability reason)

unfoldable pub decide : HostSetup → Policy → CapabilityRequest → Answer
unfolding settle
decide setup policy request = elim (provider setup request.capability) [
  | none ↦ (if request.optional then skip else refuse (not_offered request.capability))
  | some _ ↦ settle request (policy request)
]

abbrev pub request_of : Manifest → Text → Text → Table → CapabilityRequest
request_of manifest signer name declared =
    let cut = split_optional declared in
    record {
      plugin = manifest.name;
      capability = name;
      params = cut.0;
      optional = cut.1;
      signer = signer;
    }

unfoldable pub approve_each :
    Manifest → Text → HostSetup → Policy → Map Table → Result (List Approval)
unfolding decide
approve_each manifest signer setup policy [] = ok []
approve_each manifest signer setup policy ((name, declared) ∷ rest) =
    let later = approve_each manifest signer setup policy rest in
    elim (decide setup policy (request_of manifest signer name declared)) [
      | approve params ↦ elim later [
        | ok approved ↦ ok (
            record {
              name = name;
              grant = record { plugin = manifest.name; name = name; params = params };
            }
            ∷ approved)
        | err e ↦ err e
      ]
      | skip ↦ later
      | refuse e ↦ err e
    ]

unfoldable pub approve_capabilities : Manifest → Text → HostSetup → Policy → Result (List Approval)
unfolding approve_each
approve_capabilities manifest signer setup policy =
    approve_each manifest signer setup policy manifest.capabilities
