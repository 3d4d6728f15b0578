-- ===== src/Tests/RocksTests.antt =====
-- crates/stanchion-abi/src/rocks.rs on the inputs of its own tests, and the theorems at such inputs.
use stanchion.Prelude.{
  ◌++◌, is_whitespace, is_ascii_alphanumeric, split_once, ℕ, ◌≡◌, ◌≢◌, ◌↔◌, ◌⊎◌, refl, true, lt, eq,
  gt, Option, none, some, List, [], ◌∷◌, arith, In, here, Text, codes, lookup, is_empty, text_eq,
  text_cmp, trim, split, parse_u64, strip_prefix, ends_with, to_ascii_lowercase, length, insert,
}
use stanchion.Rocks.Version.{
  RockVersion, Part, number, word, parse_version, version_cmp, next_compatible, cmp_parts,
}
use stanchion.Rocks.Requirement.{
  Requirement, ok, err, bad_requirement, parse_requirement, operator_matches, compatible,
  split_operator, constraint_of, pinned_version,
}
use stanchion.Rocks.Requirement.Compatible.{compatible_iff}
use stanchion.Rocks.Requirement.Written.{
  Clause, bound, version, ge, lt_sign, written, further, as_requirement, all_denoted,
}
use stanchion.Rocks.Requirement.Parsing.{parse_requirement-written}
use stanchion.Rocks.Command.{
  validate_rock_version, install_args, collect, row, validate_rock_name, validate_bare_argument,
}
use stanchion.Rocks.Command.Safety.{install_args-IsBare, IsBare, IsRockFile}
use stanchion.Rocks.Command.Installed.{rows}

abbrev v : List Part → Option ℕ → RockVersion
v parts revision = record { raw = []; parts = parts; revision = revision }

abbrev v1_2 : RockVersion
v1_2 = v (number 1 ∷ number 2 ∷ []) none

abbrev v1_2_5 : RockVersion
v1_2_5 = v (number 1 ∷ number 2 ∷ number 5 ∷ []) (some 1)

abbrev v1_3_beta : RockVersion
v1_3_beta = v (number 1 ∷ number 3 ∷ word (codes "beta") ∷ []) none

parse_version_run :
    parse_version (codes " 2.11-1 ")
    ≡ record { raw = codes "2.11-1"; parts = number 2 ∷ number 11 ∷ []; revision = some 1 }
unfolding parse_version trim split split_once is_empty parse_u64
parse_version_run = refl

orders :
    (version_cmp (parse_version (codes "1.10")) (parse_version (codes "1.9")) ≡ gt)
    × (version_cmp (parse_version (codes "1.2-2")) (parse_version (codes "1.2-1")) ≡ gt)
    × (version_cmp (parse_version (codes "1.0")) (parse_version (codes "1.0beta")) ≡ gt)
    × (version_cmp (parse_version (codes "1")) (parse_version (codes "1.0")) ≡ eq)
unfolding parse_version version_cmp text_cmp split split_once trim is_empty parse_u64
orders = (refl, refl, refl, refl)

-- `~> 1.2` accepts a text component behind the next number: the theorem's premise is needed.
compatible_text : operator_matches compatible v1_2 v1_3_beta ≡ true
unfolding operator_matches version_cmp next_compatible
compatible_text = refl

v1_2-lt : version_cmp v1_2 v1_2_5 ≡ lt
unfolding version_cmp
v1_2-lt = refl

beta-gt : version_cmp v1_2_5 v1_3_beta ≡ lt
unfolding version_cmp
beta-gt = refl

compatible_iff_example : (operator_matches compatible v1_2 v1_2_5 ≡ true) ↔ (
    (version_cmp v1_2_5 v1_2 ≢ lt) × (cmp_parts v1_2_5.parts v1_2.parts (length v1_2.parts) 0 ≡ eq))
compatible_iff_example = compatible_iff v1_2 v1_2_5 refl (omega arith)

abbrev further_bounds : List (Text × Clause)
further_bounds = (codes " ", bound lt_sign [] (codes "2")) ∷ ([], version (codes "1.5-1")) ∷ []

parse_requirement-written_example :
    parse_requirement (written (bound ge (codes " ") (codes "1.0")) ++ further further_bounds)
    ≡ as_requirement (codes ">= 1.0, <2,1.5-1") (
        all_denoted
          (codes ">= 1.0, <2,1.5-1")
          (([], bound ge (codes " ") (codes "1.0")) ∷ further_bounds))
unfolding is_whitespace is_empty is_ascii_alphanumeric
parse_requirement-written_example =
    parse_requirement-written (bound ge (codes " ") (codes "1.0")) further_bounds refl refl

refused_requirement :
    parse_requirement (codes ">= 1.0, <") ≡ err (bad_requirement (codes ">= 1.0, <") (codes "<"))
unfolding parse_requirement split_operator trim split is_empty text_eq strip_prefix
refused_requirement = refl

abbrev pinned_lpeg : Requirement
pinned_lpeg = record { raw = codes "1.0-1"; constraints = constraint_of (codes "1.0-1") ∷ [] }

lpeg_args :
    install_args (codes "lpeg") pinned_lpeg
    ≡ ok (codes "install" ∷ codes "--" ∷ codes "lpeg" ∷ codes "1.0-1" ∷ [])
unfolding install_args validate_rock_name ends_with to_ascii_lowercase pinned_version split_operator
    parse_version trim validate_bare_argument is_ascii_alphanumeric validate_rock_version
lpeg_args = refl

install_args-IsBare_example :
    IsBare (codes "lpeg")
    × (¬ IsRockFile (codes "lpeg"))
    × ((codes "install" ∷ codes "--" ∷ codes "lpeg" ∷ codes "1.0-1" ∷ []
          ≡ codes "install" ∷ codes "--" ∷ codes "lpeg" ∷ [])
        ⊎ ((version : Text) × (codes "install" ∷ codes "--" ∷ codes "lpeg" ∷ codes "1.0-1" ∷ []
              ≡ codes "install" ∷ codes "--" ∷ codes "lpeg" ∷ version ∷ [])
            × IsBare version
            × (pinned_version pinned_lpeg ≡ some version)))
install_args-IsBare_example = install_args-IsBare (codes "lpeg") pinned_lpeg lpeg_args

abbrev listing : List Text
listing = codes "lpeg\t1.0-1" ∷ codes "no tab" ∷ codes "lpeg\t1.1-1" ∷ []

abbrev lpeg1_0 : RockVersion
lpeg1_0 = record { raw = codes "1.0-1"; parts = number 1 ∷ number 0 ∷ []; revision = some 1 }

abbrev lpeg1_1 : RockVersion
lpeg1_1 = record { raw = codes "1.1-1"; parts = number 1 ∷ number 1 ∷ []; revision = some 1 }

listed_rows : In (codes "lpeg", lpeg1_0) (rows listing)
unfolding row split parse_version trim split_once is_empty parse_u64
listed_rows = here refl

highest : lookup (codes "lpeg") (collect listing []) ≡ some lpeg1_1
unfolding collect split parse_version trim lookup insert version_cmp text_cmp text_eq split_once
    is_empty parse_u64
highest = refl
