-- ===== src/Upgrade.antt =====
-- crates/stanchion-registry/src/upgrade.rs: the review of an upgrade. Two things are parameters: the
-- equality of floats, and semver's order. Parameters of a capability stand in a change as values;
-- the code renders them there for a reader.
pub mod Narrowing
pub mod Widening
use stanchion.Prelude.{
  ℕ, Bool, true, false, not, ◌&&◌, ◌||◌, Option, none, some, List, [], ◌∷◌, ◌++◌, ◌==◌,
  if◌then◌else◌, any, keep, Text, Map, text_eq, lookup, insert, keys, is_some, is_empty,
}
use stanchion.Value.{
  ℤ, pos, negsuc, Value, nil, bool, int, float, str, list, map, function, Items, end, item, Fields,
  done, field, Table,
}
use stanchion.Manifest.{
  Manifest, Version, VersionReq, DependencySpec, requirement, effective_version,
}
use stanchion.Capability.{split_optional}

pub data Change : Type 0 where
  capability_added capability_removed : Text → Change
  capability_params : Text → Value → Value → Bool → Change
  capability_optionality : Text → Bool → Bool → Change
  dependency_added : Text → VersionReq → Change
  dependency_removed : Text → Change
  rock_added : Text → Text → Change
  rock_removed : Text → Change
  entry_changed signer_changed : Text → Text → Change
  not_newer : Version → Version → Change

-- `Change::widens`
unfoldable pub change_widens : Change → Bool
change_widens (capability_added _) = true
change_widens (dependency_added _ _) = true
change_widens (rock_added _ _) = true
change_widens (entry_changed _ _) = true
change_widens (signer_changed _ _) = true
change_widens (not_newer _ _) = true
change_widens (capability_params _ _ _ narrowed) = not narrowed
change_widens (capability_removed _) = false
change_widens (dependency_removed _) = false
change_widens (rock_removed _) = false
change_widens (capability_optionality _ _ _) = false

pub record UpgradeReview : Type 0 where
  pub name : Text
  pub from : Version
  pub to : Version
  pub changes : List Change

-- `BTreeSet<&String>` of the keys of two maps
abbrev pub NameSet : Type 0
NameSet = Map (Unit {0})

unfoldable pub collect_names : List Text → NameSet
collect_names [] = []
collect_names (name ∷ names) = insert name tt (collect_names names)

unfoldable pub get_field : Text → Fields → Option Value
get_field k done = none
get_field k (field j v fs) = if text_eq k j then some v else get_field k fs

abbrev int_eq : ℤ → ℤ → Bool
int_eq (pos a) (pos b) = a == b
int_eq (negsuc a) (negsuc b) = a == b
int_eq _ _ = false

abbrev bool_eq : Bool → Bool → Bool
bool_eq true b = b
bool_eq false b = not b

unfoldable pub dependency_changes :
    Text → Option DependencySpec → Option DependencySpec → List Change
dependency_changes name none (some spec) = dependency_added name (requirement spec) ∷ []
dependency_changes name (some _) none = dependency_removed name ∷ []
dependency_changes name _ _ = []

unfoldable pub rock_changes : Text → Option Text → Option Text → List Change
rock_changes name none (some requirement) = rock_added name requirement ∷ []
rock_changes name (some _) none = rock_removed name ∷ []
rock_changes name _ _ = []

-- one loop of `between`: what `change` says of each name, in order
unfoldable pub diff_each {ℓ} :
    {V : Type ℓ}
    → (Text → Option V → Option V → List Change)
    → Map V
    → Map V
    → NameSet
    → List Change
diff_each change installed candidate [] = []
diff_each change installed candidate ((name, _) ∷ names) =
    change name (lookup name installed) (lookup name candidate)
    ++ diff_each change installed candidate names

unfoldable pub diff {ℓ} :
    {V : Type ℓ} → (Text → Option V → Option V → List Change) → Map V → Map V → List Change
unfolding diff_each collect_names
diff change installed candidate =
    diff_each change installed candidate (collect_names (keys installed ++ keys candidate))

-- `before.keys().all(|key| after.contains_key(key))`
unfoldable pub keys_kept : Fields → Fields → Bool
keys_kept done after = true
keys_kept (field key _ before) after = is_some (get_field key after) && keys_kept before after

module _ (float_eq : ℕ → ℕ → Bool) where
  -- `PartialEq for Value`
  unfoldable mutual
    pub value_eq : Value → Value → Bool
    value_eq nil nil = true
    value_eq (bool a) (bool b) = bool_eq a b
    value_eq (int a) (int b) = int_eq a b
    value_eq (float a) (float b) = float_eq a b
    value_eq (str a) (str b) = text_eq a b
    value_eq (list a) (list b) = items_eq a b
    value_eq (map a) (map b) = fields_eq a b
    value_eq function function = true
    value_eq _ _ = false

    pub items_eq : Items → Items → Bool
    items_eq end end = true
    items_eq (item a us) (item b vs) = value_eq a b && items_eq us vs
    items_eq _ _ = false

    pub fields_eq : Fields → Fields → Bool
    fields_eq done done = true
    fields_eq (field j a us) (field k b vs) = text_eq j k && (value_eq a b && fields_eq us vs)
    fields_eq _ _ = false

  -- `old.contains(item)`
  unfoldable pub contains : Items → Value → Bool
  contains end v = false
  contains (item u us) v = value_eq u v || contains us v

  -- `new.iter().all(|item| old.contains(item))`
  unfoldable pub all_contained : Items → Items → Bool
  unfolding contains
  all_contained old end = true
  all_contained old (item v new) = contains old v && all_contained old new

  -- one key of both tables
  unfoldable pub narrows_value : Value → Value → Bool
  unfolding all_contained
  narrows_value (list old) (list new) = value_eq (list old) (list new) || all_contained old new
  narrows_value old new = value_eq old new

  unfoldable pub narrows_fields : Fields → Fields → Bool
  unfolding narrows_value
  narrows_fields before done = true
  narrows_fields before (field key new after) =
      let rest = narrows_fields before after in
      elim (get_field key before) [ none ↦ false | some old ↦ narrows_value old new && rest ]

  unfoldable pub narrows : Value → Value → Bool
  unfolding narrows_fields keys_kept
  narrows (map before) (map after) = narrows_fields before after && keys_kept before after
  narrows before after = value_eq before after

  -- the arm of `diff_capabilities` for a capability of both manifests
  unfoldable pub both_changes : Text → Value × Bool → Value × Bool → List Change
  unfolding narrows
  both_changes name (before, before_optional) (after, after_optional) =
      (if value_eq before after
        then []
        else capability_params name before after (narrows before after) ∷ [])
      ++ (if bool_eq before_optional after_optional
          then []
          else capability_optionality name before_optional after_optional ∷ [])

  unfoldable pub capability_changes : Text → Option Table → Option Table → List Change
  unfolding both_changes
  capability_changes name none (some _) = capability_added name ∷ []
  capability_changes name (some _) none = capability_removed name ∷ []
  capability_changes name (some before) (some after) =
      both_changes name (split_optional before) (split_optional after)
  capability_changes name none none = []

  module _ (version_le : Version → Version → Bool) where
    unfoldable pub between : Manifest → Manifest → UpgradeReview
    unfolding diff capability_changes dependency_changes rock_changes
    between installed candidate =
        let from = effective_version installed in
        let to = effective_version candidate in
        record {
          name = installed.name;
          from = from;
          to = to;
          changes =
              (if version_le to from then not_newer from to ∷ [] else [])
              ++ ((if text_eq installed.entry candidate.entry
                    then []
                    else entry_changed installed.entry candidate.entry ∷ [])
                  ++ (diff capability_changes installed.capabilities candidate.capabilities
                      ++ (diff dependency_changes installed.dependencies candidate.dependencies
                          ++ diff rock_changes installed.rocks candidate.rocks)));
        }

unfoldable pub with_signers : UpgradeReview → Text → Text → UpgradeReview
with_signers review before after =
    if text_eq before after
    then review
    else record review { changes = review.changes ++ signer_changed before after ∷ [] }

unfoldable pub no_changes : UpgradeReview → Bool
no_changes review = is_empty review.changes

unfoldable pub widens : UpgradeReview → Bool
widens review = any change_widens review.changes

unfoldable pub concerns : UpgradeReview → List Change
concerns review = keep change_widens review.changes
