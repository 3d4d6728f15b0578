-- ===== src/Rocks/Requirement/Parsing.antt =====
-- `Requirement::parse` on requirements written out of operators and versions.
use mathlib.Core.List.{append_assoc, append-nil}
use stanchion.Prelude.{
  if◌then◌else◌, ◌≡◌, refl, sym, ap, ◌∙◌, true, false, List, [], ◌∷◌, ◌++◌, arith, Text, codes,
  text_eq, trim, is_empty, split, is_blank, starts_tight, ends_tight, split-whole, split-comma,
  ends_tight-append, starts_tight-append, trim-tight, trim-blank,
}
use stanchion.Rocks.Version.{RockVersion}
use stanchion.Rocks.Requirement.{
  Constraint, Operator, equal, Result, err, bad_requirement, constraint_of, split_operator,
  parse_pieces, parse_requirement, Requirement, matches, is_any,
}
use stanchion.Rocks.Requirement.Written.{
  Token, ge, le, eq_eq, ne, compat, eq_sign, gt_sign, lt_sign, text_of, meaning, Clause, version,
  bound, alone, written, further, is_gap, is_clause, are_clauses, constrained, add, denoted,
  all_denoted, as_requirement, version_char, version-starts, version-ends, version-is_apart,
  split_operator-text_of, split_operator-version, no_comma-append, written-IsTight,
}

tight-not_empty : (t : Text) → starts_tight t ≡ true → is_empty t ≡ false
unfolding is_empty
tight-not_empty [] h = absurd (ground arith)
tight-not_empty (c ∷ t) h = refl

-- One piece of a requirement, by what is left of it once trimmed.
parse_pieces-piece :
    (raw piece w : Text) (rest : List Text)
    → trim piece ≡ w
    → is_empty w ≡ false
    → parse_pieces raw (piece ∷ rest) ≡ (
        if is_empty (trim (split_operator w).1)
        then err (bad_requirement raw w)
        else add (constraint_of w) (parse_pieces raw rest))
unfolding parse_pieces
parse_pieces-piece raw piece w rest e f = ground arith

constraint_of-read :
    (w t v : Text) (operator : Operator)
    → split_operator w ≡ (operator, t)
    → trim t ≡ v
    → constraint_of w ≡ constrained operator v
constraint_of-read w t v operator e f = ground arith

split_operator-alone : (token : Token) → split_operator (text_of token) ≡ (meaning token, [])
split_operator-alone ge = split_operator-text_of ge [] refl
split_operator-alone le = split_operator-text_of le [] refl
split_operator-alone eq_eq = split_operator-text_of eq_eq [] refl
split_operator-alone ne = split_operator-text_of ne [] refl
split_operator-alone compat = split_operator-text_of compat [] refl
split_operator-alone eq_sign = split_operator-text_of eq_sign [] refl
split_operator-alone gt_sign = split_operator-text_of gt_sign [] refl
split_operator-alone lt_sign = split_operator-text_of lt_sign [] refl

missing_version :
    (raw : Text) (token : Token) (later : Result (List Constraint))
    → (if is_empty (trim (split_operator (text_of token)).1)
        then err (bad_requirement raw (text_of token))
        else add (constraint_of (text_of token)) later)
      ≡ err (bad_requirement raw (text_of token))
unfolding trim is_empty
missing_version raw token later = ground (arith, split_operator-alone token)

module _ (raw : Text) (rest : List Text) where
  parse_pieces-bound :
      (piece w t v : Text) (operator : Operator)
      → trim piece ≡ w
      → is_empty w ≡ false
      → split_operator w ≡ (operator, t)
      → trim t ≡ v
      → is_empty v ≡ false
      → parse_pieces raw (piece ∷ rest) ≡ add (constrained operator v) (parse_pieces raw rest)
  parse_pieces-bound piece w t v operator e f g h k =
      let whole : (if is_empty (trim (split_operator w).1)
            then err (bad_requirement raw w)
            else add (constraint_of w) (parse_pieces raw rest))
          ≡ add (constraint_of w) (parse_pieces raw rest) =
        ground arith in
      parse_pieces-piece raw piece w rest e f
      ∙ whole
      ∙ ap (λ c. add c (parse_pieces raw rest)) (constraint_of-read w t v operator g h)

  parse_pieces-written :
      (blanks : Text) (c : Clause)
      → is_blank blanks ≡ true
      → is_clause c ≡ true
      → parse_pieces raw ((blanks ++ written c) ∷ rest) ≡ denoted raw c (parse_pieces raw rest)
  parse_pieces-written blanks (version v) b h =
      let tight = written-IsTight (version v) h in
      let filled = tight-not_empty v tight.starts in
      parse_pieces-bound (blanks ++ v) v v v equal (trim-blank blanks v b tight.starts tight.ends)
        filled (split_operator-version v h) (trim-tight v tight.starts tight.ends) filled
  parse_pieces-written blanks (bound token gap v) b h =
      let tight = written-IsTight (bound token gap v) h in
      let w = text_of token ++ (gap ++ v) in
      let starts = version-starts v (ground arith) in
      parse_pieces-bound (blanks ++ w) w (gap ++ v) v (meaning token)
        (trim-blank blanks w b tight.starts tight.ends) (tight-not_empty w tight.starts)
        (split_operator-text_of token (gap ++ v)
          (version-is_apart gap v (ground arith) (ground arith)))
        (trim-blank gap v (ground arith) starts (version-ends v (ground arith)))
        (tight-not_empty v starts)
  parse_pieces-written blanks (alone token) b h =
      let tight = written-IsTight (alone token) h in
      let w = text_of token in
      parse_pieces-piece raw (blanks ++ w) w rest (trim-blank blanks w b tight.starts tight.ends)
        (tight-not_empty w tight.starts)
      ∙ missing_version raw token (parse_pieces raw rest)

-- The text begins and ends with no blank.
starts-first :
    (c : Clause) (cs : List (Text × Clause))
    → is_clause c ≡ true
    → starts_tight (written c ++ further cs) ≡ true
starts-first c cs h = starts_tight-append (written c) (further cs) (written-IsTight c h).starts

ends-last :
    (c : Clause) (cs : List (Text × Clause))
    → is_clause c ≡ true
    → are_clauses cs ≡ true
    → ends_tight (written c ++ further cs) ≡ true
ends-last c [] h k = ap ends_tight (append-nil (written c)) ∙ (written-IsTight c h).ends
ends-last c ((blanks, d) ∷ cs) h k = ends_tight-append (written c) _ (
    ends_tight-append (b',' ∷ []) (blanks ++ (written d ++ further cs)) (
      ends_tight-append blanks (written d ++ further cs)
        (ends-last d cs (ground arith) (ground arith))))

parse_pieces-further :
    (raw blanks : Text) (c : Clause) (cs : List (Text × Clause))
    → is_gap blanks ≡ true
    → is_clause c ≡ true
    → are_clauses cs ≡ true
    → parse_pieces raw (split b',' (blanks ++ (written c ++ further cs)))
      ≡ denoted raw c (all_denoted raw cs)
unfolding parse_pieces
parse_pieces-further raw blanks c [] b h k =
    let piece = blanks ++ written c in
    let whole = no_comma-append blanks (written c) (ground arith) (written-IsTight c h).whole in
    ap (λ t. parse_pieces raw (split b',' (blanks ++ t))) (append-nil (written c))
    ∙ ap (parse_pieces raw) (split-whole piece whole)
    ∙ parse_pieces-written raw [] blanks c (ground arith) h
parse_pieces-further raw blanks c ((gap, d) ∷ cs) b h k =
    let piece = blanks ++ written c in
    let more = gap ++ (written d ++ further cs) in
    let whole = no_comma-append blanks (written c) (ground arith) (written-IsTight c h).whole in
    ap (λ t. parse_pieces raw (split b',' t)) (sym (append_assoc blanks (written c) (b',' ∷ more)))
    ∙ ap (parse_pieces raw) (split-comma piece more whole)
    ∙ parse_pieces-written raw (split b',' more) blanks c (ground arith) h
    ∙ ap (denoted raw c)
        (parse_pieces-further raw gap d cs (ground arith) (ground arith) (ground arith))

not_star :
    (c : Clause) (t : Text) → is_clause c ≡ true → text_eq (written c ++ t) (codes "*") ≡ false
unfolding text_eq is_empty
not_star (version []) t h = absurd (ground arith)
not_star (version (c ∷ v)) t h = let first = version_char c (ground arith) in ground arith
not_star (bound ge blanks v) t h = refl
not_star (bound le blanks v) t h = refl
not_star (bound eq_eq blanks v) t h = refl
not_star (bound ne blanks v) t h = refl
not_star (bound compat blanks v) t h = refl
not_star (bound eq_sign blanks v) t h = refl
not_star (bound gt_sign blanks v) t h = refl
not_star (bound lt_sign blanks v) t h = refl
not_star (alone ge) t h = refl
not_star (alone le) t h = refl
not_star (alone eq_eq) t h = refl
not_star (alone ne) t h = refl
not_star (alone compat) t h = refl
not_star (alone eq_sign) t h = refl
not_star (alone gt_sign) t h = refl
not_star (alone lt_sign) t h = refl

parse_requirement-tight :
    (raw : Text)
    → starts_tight raw ≡ true
    → ends_tight raw ≡ true
    → text_eq raw (codes "*") ≡ false
    → parse_requirement raw ≡ as_requirement raw (parse_pieces raw (split b',' raw))
unfolding parse_requirement
parse_requirement-tight raw h k star =
    let same = trim-tight raw h k in let filled = tight-not_empty raw h in ground arith

-- A requirement that is written out of parts, with commas and blanks between them, is read as one
-- constraint for each part, in order: with the operator of the part, equality where it has none,
-- and with its version. It is refused when some part is an operator alone, and the first such part
-- is named. A version is made of ASCII letters and digits, `.`, `-` and `_`.
pub parse_requirement-written :
    (c : Clause) (cs : List (Text × Clause))
    → is_clause c ≡ true
    → are_clauses cs ≡ true
    → parse_requirement (written c ++ further cs)
      ≡ as_requirement
          (written c ++ further cs)
          (all_denoted (written c ++ further cs) (([], c) ∷ cs))
parse_requirement-written c cs h k =
    let raw = written c ++ further cs in
    parse_requirement-tight raw (starts-first c cs h) (ends-last c cs h k)
      (not_star c (further cs) h)
    ∙ ap (as_requirement raw) (parse_pieces-further raw [] c cs refl h k)

-- A requirement with no constraint accepts every version.
pub matches_any : (r : Requirement) (v : RockVersion) → is_any r ≡ true → matches r v ≡ true
unfolding matches is_any is_empty
matches_any r v h = ground arith
