-- ===== src/Rocks/Requirement/Written.antt =====
-- Requirements as they are written: operators, versions, blanks and commas.
use stanchion.Prelude.{
  ℕ, ◌≡◌, refl, Bool, true, false, not, ◌&&◌, ◌||◌, List, [], ◌∷◌, ◌++◌, arith, ◌==◌, all, Text,
  codes, is_empty, is_ascii_alphanumeric, is_digit, is_whitespace, strip_prefix, no_comma, is_blank,
  starts_tight, ends_tight, ends_tight-append, starts_tight-append, all-append,
}
use stanchion.Rocks.Version.{parse_version}
use stanchion.Rocks.Requirement.{
  Constraint, Operator, equal, not_equal, less, less_equal, greater, greater_equal, compatible,
  Result, ok, err, bad_requirement, split_operator, first_operator, Requirement,
}

-- The operators as they are written: two spell equality.
pub data Token : Type 0 where
  ge le eq_eq ne compat eq_sign gt_sign lt_sign : Token

abbrev pub text_of : Token → Text
text_of ge = codes ">="
text_of le = codes "<="
text_of eq_eq = codes "=="
text_of ne = codes "~="
text_of compat = codes "~>"
text_of eq_sign = codes "="
text_of gt_sign = codes ">"
text_of lt_sign = codes "<"

abbrev pub meaning : Token → Operator
meaning ge = greater_equal
meaning le = less_equal
meaning eq_eq = equal
meaning ne = not_equal
meaning compat = compatible
meaning eq_sign = equal
meaning gt_sign = greater
meaning lt_sign = less

-- A part of a requirement: a version, an operator with blanks and a version, or an operator alone.
pub data Clause : Type 0 where
  version : Text → Clause
  bound : Token → Text → Text → Clause
  alone : Token → Clause

abbrev pub written : Clause → Text
written (version v) = v
written (bound token blanks v) = text_of token ++ (blanks ++ v)
written (alone token) = text_of token

-- further parts, each behind a comma and blanks
abbrev pub further : List (Text × Clause) → Text
further [] = []
further ((blanks, c) ∷ cs) = b',' ∷ (blanks ++ (written c ++ further cs))

abbrev pub is_version_char : ℕ → Bool
is_version_char c = is_ascii_alphanumeric c || (c == b'.' || (c == b'-' || c == b'_'))

abbrev pub is_version : Text → Bool
is_version v = not (is_empty v) && all is_version_char v

abbrev pub is_gap : Text → Bool
is_gap blanks = is_blank blanks && no_comma blanks

abbrev pub is_clause : Clause → Bool
is_clause (version v) = is_version v
is_clause (bound token blanks v) = is_gap blanks && is_version v
is_clause (alone token) = true

abbrev pub are_clauses : List (Text × Clause) → Bool
are_clauses [] = true
are_clauses ((blanks, c) ∷ cs) = (is_gap blanks && is_clause c) && are_clauses cs

-- What the parts mean: a constraint each, up to the first operator that stands alone.
abbrev pub constrained : Operator → Text → Constraint
constrained operator v = record { operator = operator; version = parse_version v }

abbrev pub add : Constraint → Result (List Constraint) → Result (List Constraint)
add c (ok cs) = ok (c ∷ cs)
add c (err e) = err e

abbrev pub denoted : Text → Clause → Result (List Constraint) → Result (List Constraint)
denoted raw (version v) later = add (constrained equal v) later
denoted raw (bound token blanks v) later = add (constrained (meaning token) v) later
denoted raw (alone token) later = err (bad_requirement raw (text_of token))

abbrev pub all_denoted : Text → List (Text × Clause) → Result (List Constraint)
all_denoted raw [] = ok []
all_denoted raw ((blanks, c) ∷ cs) = denoted raw c (all_denoted raw cs)

abbrev pub as_requirement : Text → Result (List Constraint) → Result Requirement
as_requirement raw (ok cs) = ok (record { raw = raw; constraints = cs })
as_requirement raw (err e) = err e

-- What a version's first character is not.
pub version_char :
    (c : ℕ)
    → is_version_char c ≡ true
    → (is_whitespace c ≡ false)
      × ((c == b',') ≡ false)
      × ((c == b'*') ≡ false)
      × ((b'=' == c) ≡ false)
      × ((b'<' == c) ≡ false)
      × ((b'>' == c) ≡ false)
      × ((b'~' == c) ≡ false)
unfolding is_whitespace is_ascii_alphanumeric is_digit
version_char c h = (
  ground arith,
  ground arith,
  ground arith,
  ground arith,
  ground arith,
  ground arith,
  ground arith,
)

version-no_comma : (v : Text) → all is_version_char v ≡ true → no_comma v ≡ true
version-no_comma [] h = refl
version-no_comma (c ∷ v) h =
    let first = version_char c (ground arith) in ground (arith, version-no_comma v (ground arith))

pub version-starts : (v : Text) → is_version v ≡ true → starts_tight v ≡ true
unfolding is_empty
version-starts [] h = absurd (ground arith)
version-starts (c ∷ v) h = let first = version_char c (ground arith) in ground arith

pub version-ends : (v : Text) → is_version v ≡ true → ends_tight v ≡ true
unfolding is_empty ends_tight
version-ends [] h = absurd (ground arith)
version-ends (c ∷ []) h = let first = version_char c (ground arith) in ground arith
version-ends (c ∷ d ∷ v) h = version-ends (d ∷ v) (ground arith)

-- Behind an operator there comes no `=`.
abbrev is_apart : Text → Bool
is_apart [] = true
is_apart (c ∷ t) = not (b'=' == c)

pub version-is_apart :
    (blanks v : Text) → is_blank blanks ≡ true → is_version v ≡ true → is_apart (blanks ++ v) ≡ true
unfolding is_empty is_whitespace
version-is_apart [] [] h k = absurd (ground arith)
version-is_apart [] (c ∷ v) h k = let first = version_char c (ground arith) in ground arith
version-is_apart (c ∷ blanks) v h k = ground arith

pub split_operator-text_of :
    (token : Token) (t : Text)
    → is_apart t ≡ true
    → split_operator (text_of token ++ t) ≡ (meaning token, t)
unfolding split_operator first_operator strip_prefix
split_operator-text_of ge t h = refl
split_operator-text_of le t h = refl
split_operator-text_of eq_eq t h = refl
split_operator-text_of ne t h = refl
split_operator-text_of compat t h = refl
split_operator-text_of eq_sign [] h = refl
split_operator-text_of eq_sign (c ∷ t) h = ground arith
split_operator-text_of gt_sign [] h = refl
split_operator-text_of gt_sign (c ∷ t) h = ground arith
split_operator-text_of lt_sign [] h = refl
split_operator-text_of lt_sign (c ∷ t) h = ground arith

pub split_operator-version : (v : Text) → is_version v ≡ true → split_operator v ≡ (equal, v)
unfolding is_empty split_operator first_operator strip_prefix
split_operator-version [] h = absurd (ground arith)
split_operator-version (c ∷ v) h = let first = version_char c (ground arith) in ground arith

text_of-tight :
    (token : Token)
    → (starts_tight (text_of token) ≡ true)
      × (ends_tight (text_of token) ≡ true)
      × (no_comma (text_of token) ≡ true)
      × (is_empty (text_of token) ≡ false)
unfolding is_whitespace ends_tight is_empty
text_of-tight ge = (refl, refl, refl, refl)
text_of-tight le = (refl, refl, refl, refl)
text_of-tight eq_eq = (refl, refl, refl, refl)
text_of-tight ne = (refl, refl, refl, refl)
text_of-tight compat = (refl, refl, refl, refl)
text_of-tight eq_sign = (refl, refl, refl, refl)
text_of-tight gt_sign = (refl, refl, refl, refl)
text_of-tight lt_sign = (refl, refl, refl, refl)

-- A part begins and ends with no blank, and has no comma.
pub record IsTight (t : Text) : Type 0 where
  pub starts : starts_tight t ≡ true
  pub ends : ends_tight t ≡ true
  pub whole : no_comma t ≡ true

pub no_comma-append :
    (s t : Text) → no_comma s ≡ true → no_comma t ≡ true → no_comma (s ++ t) ≡ true
no_comma-append s t h k = ground (arith, all-append (λ c. not (c == b',')) s t)

pub written-IsTight : (c : Clause) → is_clause c ≡ true → IsTight (written c)
written-IsTight (version v) h = record {
  starts = version-starts v h;
  ends = version-ends v h;
  whole = version-no_comma v (ground arith);
}
written-IsTight (bound token blanks v) h =
    let own = text_of-tight token in
    record {
      starts = starts_tight-append (text_of token) (blanks ++ v) own.0;
      ends =
          ends_tight-append (text_of token) (blanks ++ v)
            (ends_tight-append blanks v (version-ends v (ground arith)));
      whole =
          no_comma-append (text_of token) (blanks ++ v) own.2
            (no_comma-append blanks v (ground arith) (version-no_comma v (ground arith)));
    }
written-IsTight (alone token) h =
    let own = text_of-tight token in record { starts = own.0; ends = own.1; whole = own.2 }
