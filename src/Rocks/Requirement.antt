-- ===== src/Rocks/Requirement.antt =====
-- `Operator`, `Constraint`, `Requirement` and `split_operator` of crates/stanchion-abi/src/rocks.rs.
pub mod Compatible
pub mod Written
pub mod Parsing
use stanchion.Prelude.{
  ℕ, Ordering, lt, eq, gt, Bool, true, false, not, ◌&&◌, ◌||◌, Option, none, some, List, [], ◌∷◌,
  ◌++◌, if◌then◌else◌, all, Text, codes, text_eq, trim, is_empty, split, strip_prefix,
}
use stanchion.Rocks.Version.{
  RockVersion, parse_version, version_cmp, cmp_specified, next_compatible, part_cmp, cmp_parts,
}

pub data Operator : Type 0 where
  equal not_equal less less_equal greater greater_equal compatible : Operator

pub record Constraint : Type 0 where
  pub operator : Operator
  pub version : RockVersion

abbrev pub is_lt : Ordering → Bool
is_lt lt = true
is_lt eq = false
is_lt gt = false

abbrev pub is_eq : Ordering → Bool
is_eq lt = false
is_eq eq = true
is_eq gt = false

abbrev pub is_gt : Ordering → Bool
is_gt lt = false
is_gt eq = false
is_gt gt = true

-- `Constraint::matches`, on the operator and the version
unfoldable pub operator_matches : Operator → RockVersion → RockVersion → Bool
operator_matches equal v candidate = is_eq (cmp_specified candidate v)
operator_matches not_equal v candidate = not (is_eq (cmp_specified candidate v))
operator_matches less v candidate = is_lt (version_cmp candidate v)
operator_matches less_equal v candidate = not (is_gt (version_cmp candidate v))
operator_matches greater v candidate = is_gt (version_cmp candidate v)
operator_matches greater_equal v candidate = not (is_lt (version_cmp candidate v))
operator_matches compatible v candidate =
    not (is_lt (version_cmp candidate v)) && is_lt (version_cmp candidate (next_compatible v))

unfoldable pub constraint_matches : RockVersion → Constraint → Bool
unfolding operator_matches
constraint_matches candidate c = operator_matches c.operator c.version candidate

pub record Requirement : Type 0 where
  pub raw : Text
  pub constraints : List Constraint

-- `RocksError`, without the rendered messages
pub data RocksError : Type 0 where
  spawn : RocksError
  command : Text → RocksError
  bad_requirement : Text → Text → RocksError
  invalid_name : Text → RocksError

pub data Result {ℓ} (A : Type ℓ) : Type ℓ where
  ok : A → Result A
  err : RocksError → Result A

abbrev pub operators : List (Text × Operator)
operators =
    (codes ">=", greater_equal)
    ∷ (codes "<=", less_equal)
    ∷ (codes "==", equal)
    ∷ (codes "~=", not_equal)
    ∷ (codes "~>", compatible)
    ∷ (codes "=", equal)
    ∷ (codes ">", greater)
    ∷ (codes "<", less)
    ∷ []

first_operator : List (Text × Operator) → Text → Operator × Text
first_operator [] piece = (equal, piece)
first_operator ((token, operator) ∷ rest) piece = elim (strip_prefix token piece) [
  | some s ↦ (operator, s)
  | none ↦ first_operator rest piece
]

unfoldable pub split_operator : Text → Operator × Text
unfolding first_operator
split_operator = first_operator operators

abbrev pub constraint_of : Text → Constraint
constraint_of piece =
    let cut = split_operator piece in
    record { operator = cut.0; version = parse_version (trim cut.1) }

-- the loop of `Requirement::parse` over the pieces between commas
unfoldable pub parse_pieces : Text → List Text → Result (List Constraint)
parse_pieces raw [] = ok []
parse_pieces raw (piece ∷ rest) =
    let piece = trim piece in
    let later = parse_pieces raw rest in
    let read : Result (List Constraint) = elim later [
      | ok cs ↦ ok (constraint_of piece ∷ cs)
      | err e ↦ err e
    ] in
    if is_empty piece
    then later
    else if is_empty (trim (split_operator piece).1)
    then err (bad_requirement raw piece)
    else read

unfoldable pub parse_requirement : Text → Result Requirement
unfolding parse_pieces
parse_requirement raw =
    let trimmed = trim raw in
    if is_empty trimmed || text_eq trimmed (codes "*")
    then ok (record { raw = trimmed; constraints = [] })
    else elim (parse_pieces raw (split b',' trimmed)) [
      | ok cs ↦ ok (record { raw = trimmed; constraints = cs })
      | err e ↦ err e
    ]

-- `Requirement::matches`
unfoldable pub matches : Requirement → RockVersion → Bool
unfolding constraint_matches
matches r candidate = all (constraint_matches candidate) r.constraints

unfoldable pub is_any : Requirement → Bool
is_any r = is_empty r.constraints

-- `Requirement::pinned_version`
pinned : List Constraint → Option Text
pinned [] = none
pinned (only ∷ []) = pinned_by only.operator
  where
    pinned_by : Operator → Option Text
    pinned_by equal = some only.version.raw
    pinned_by _ = none
pinned (_ ∷ _ ∷ _) = none

unfoldable pub pinned_version : Requirement → Option Text
unfolding pinned
pinned_version r = pinned r.constraints
