-- ===== src/Rocks/Version.antt =====
-- `Part` and `RockVersion` of crates/stanchion-abi/src/rocks.rs.
pub mod Order
use stanchion.Prelude.{
  ℕ, zero, suc, ◌+◌, compare, Ordering, lt, eq, gt, Bool, true, false, not, Option, none, some,
  List, [], ◌∷◌, ◌++◌, map, ◌==◌, ltb, if◌then◌else◌, length, get_elem?, keep, Text, text_cmp, trim,
  is_empty, split, split_once, parse_u64, u64_max,
}

pub data Part : Type 0 where
  number : ℕ → Part
  word : Text → Part

-- `Ord for Part`
unfoldable pub part_cmp : Part → Part → Ordering
part_cmp (number a) (number b) = compare a b
part_cmp (word a) (word b) = text_cmp a b
part_cmp (number _) (word _) = gt
part_cmp (word _) (number _) = lt

pub record RockVersion : Type 0 where
  pub raw : Text
  pub parts : List Part
  pub revision : Option ℕ

-- one component of `RockVersion::parse`
parse_part : Text → Part
parse_part component = elim (parse_u64 component) [ some n ↦ number n | none ↦ word component ]

abbrev split_revision : Text → Text × Option ℕ
split_revision raw = elim (split_once b'-' raw) [
  | some (version, revision) ↦ (version, parse_u64 revision)
  | none ↦ (raw, none)
]

unfoldable pub parse_version : Text → RockVersion
unfolding parse_part
parse_version text =
    let raw = trim text in
    let cut = split_revision raw in
    record {
      raw = raw;
      parts = map parse_part (keep (λ c. not (is_empty c)) (split b'.' cut.0));
      revision = cut.1;
    }

-- `RockVersion::part`: a missing component reads as zero
abbrev pub part_or_zero : Option Part → Part
part_or_zero none = number 0
part_or_zero (some p) = p

abbrev pub part : List Part → ℕ → Part
part parts index = part_or_zero (get_elem? parts index)

-- the loop of both comparisons, with `rounds` indices left
unfoldable pub cmp_parts : List Part → List Part → ℕ → ℕ → Ordering
cmp_parts a b zero index = eq
cmp_parts a b (suc rounds) index = elim (part_cmp (part a index) (part b index)) [
  | lt ↦ lt
  | eq ↦ cmp_parts a b rounds (suc index)
  | gt ↦ gt
]

abbrev pub then_with : Ordering → Ordering → Ordering
then_with eq second = second
then_with lt second = lt
then_with gt second = gt

abbrev cmp_revision : Option ℕ → Option ℕ → Ordering
cmp_revision _ none = eq
cmp_revision none (some _) = lt
cmp_revision (some a) (some b) = compare a b

unfoldable pub cmp_specified : RockVersion → RockVersion → Ordering
unfolding part_cmp cmp_parts
cmp_specified v other =
    then_with (cmp_parts v.parts other.parts (length other.parts) 0)
      (cmp_revision v.revision other.revision)

abbrev pub unwrap_or_zero : Option ℕ → ℕ
unwrap_or_zero none = 0
unwrap_or_zero (some n) = n

abbrev pub max : ℕ → ℕ → ℕ
max a b = if ltb a b then b else a

-- `Ord for RockVersion`
unfoldable pub version_cmp : RockVersion → RockVersion → Ordering
unfolding part_cmp cmp_parts
version_cmp v other =
    then_with (cmp_parts v.parts other.parts (max (length v.parts) (length other.parts)) 0)
      (compare (unwrap_or_zero v.revision) (unwrap_or_zero other.revision))

-- `saturating_add(1)`, and the text that sorts just above
abbrev pub bump : Part → Part
bump (number n) = number (if n == u64_max then n else n + 1)
bump (word t) = word (t ++ (0x7f ∷ []))

abbrev pub bump_last : List Part → List Part
bump_last [] = []
bump_last (p ∷ []) = bump p ∷ []
bump_last (p ∷ q ∷ ps) = p ∷ bump_last (q ∷ ps)

unfoldable pub next_compatible : RockVersion → RockVersion
next_compatible v = record { raw = []; parts = bump_last v.parts; revision = none }
