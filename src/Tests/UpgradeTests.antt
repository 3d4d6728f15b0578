-- ===== src/Tests/UpgradeTests.antt =====
-- An upgrade that asks for fewer hosts, and the review of it.
use stanchion.Capability.{split_optional}
use stanchion.Prelude.{
  is_empty, insert, text_eq, ℕ, ◌≡◌, ◌↔◌, refl, Bool, true, false, none, some, List, [], ◌∷◌, ◌==◌,
  Text, codes, text_cmp, lookup, contains_key, is_some, Ordering,
}
use stanchion.Value.{
  table_to_map, Value, str, list, map, end, item, Fields, done, field, text, array, stop, element,
  Table, empty, entry,
}
use stanchion.Manifest.{Manifest, lua, Version, effective_version}
use stanchion.Upgrade.{
  no_changes, with_signers, value_eq, between, widens, narrows, get_field, change_widens,
}
use stanchion.Upgrade.Narrowing.{narrows-map, IsPart}
use stanchion.Upgrade.Widening.{between-widens_iff, IsHeld}

abbrev hosts : List Text → Table
hosts [] = entry (codes "hosts") (array stop) empty
hosts (a ∷ []) = entry (codes "hosts") (array (element (text a) stop)) empty
hosts (a ∷ b ∷ _) = entry (codes "hosts") (array (element (text a) (element (text b) stop))) empty

abbrev fetcher : Text → List Text → Manifest
fetcher version names = record {
  name = codes "fetcher";
  version = some version;
  plugin_type = lua;
  entry = codes "init.lua";
  dependencies = [];
  capabilities = (codes "network", hosts names) ∷ [];
  rocks = [];
  config = empty;
  budget = none;
  dir = codes "/p/fetcher";
}

abbrev api : Text
api = codes "api"

abbrev cdn : Text
cdn = codes "cdn"

abbrev installed : Manifest
installed = fetcher (codes "1.0.0") (api ∷ cdn ∷ [])

abbrev shrunk : Manifest
shrunk = fetcher (codes "1.1.0") (cdn ∷ [])

abbrev grown : Manifest
grown = fetcher (codes "1.1.0") (cdn ∷ codes "any" ∷ [])

abbrev same_bits : ℕ → ℕ → Bool
same_bits a b = a == b

-- one digit each: the order of the texts is that of the versions here
abbrev version_le : Version → Version → Bool
version_le a b = elim (text_cmp a b) [ Ordering.gt ↦ false | _ ↦ true ]

shrunk_is_quiet : widens (between same_bits version_le installed shrunk) ≡ false
unfolding widens between text_cmp effective_version text_eq insert lookup value_eq split_optional
    table_to_map change_widens get_field
shrunk_is_quiet = refl

grown-widens : widens (between same_bits version_le installed grown) ≡ true
unfolding widens between text_cmp effective_version text_eq insert lookup value_eq split_optional
    table_to_map change_widens get_field
grown-widens = refl

-- a rock that was pinned and may now be of any version
abbrev rocked : Text → Manifest
rocked requirement = record (fetcher (codes "1.1.0") []) {
  rocks = (codes "lpeg", requirement) ∷ [];
}

loosened :
    no_changes (
      with_signers
        (between same_bits (λ a b. false) (rocked (codes "1.0")) (rocked (codes "*")))
        (codes "acme")
        (codes "acme"))
    ≡ true
unfolding no_changes with_signers between is_empty text_eq insert text_cmp lookup value_eq
    split_optional table_to_map
loosened = refl

between-widens_iff_example : (widens (between same_bits version_le installed shrunk) ≡ false) ↔ (
    (version_le (effective_version shrunk) (effective_version installed) ≡ false)
    × (installed.entry ≡ shrunk.entry)
    × ((name : Text)
        → IsHeld same_bits (lookup name installed.capabilities) (lookup name shrunk.capabilities))
    × ((name : Text)
        → contains_key name shrunk.dependencies ≡ true
        → contains_key name installed.dependencies ≡ true)
    × ((name : Text)
        → contains_key name shrunk.rocks ≡ true
        → contains_key name installed.rocks ≡ true))
between-widens_iff_example = between-widens_iff same_bits version_le installed shrunk

abbrev before : Fields
before = field (codes "hosts") (list (item (str api) (item (str cdn) end))) done

abbrev after : Fields
after = field (codes "hosts") (list (item (str cdn) end)) done

after-narrows : narrows same_bits (map before) (map after) ≡ true
unfolding narrows get_field text_eq value_eq
after-narrows = refl

narrows-map_example :
    ((key : Text) (new : Value)
      → get_field key after ≡ some new
      → (old : Value) × (get_field key before ≡ some old) × IsPart same_bits old new)
    × ((key : Text) → is_some (get_field key before) ≡ true → is_some (get_field key after) ≡ true)
narrows-map_example = narrows-map same_bits before after after-narrows
