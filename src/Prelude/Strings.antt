-- ===== src/Prelude/Strings.antt =====
-- The `str` methods that the program calls, over code points.
use Prim.Native.Nat.{ℕ, ◌+◌, ◌-◌, ◌*◌}
use mathlib.Core.Bool.{Bool, true, false, ◌&&◌, ◌||◌}
use mathlib.Core.List.{List, [], ◌∷◌, reverse}
use mathlib.Core.Option.{Option, none, some}
use stanchion.Prelude.Tests.{leb, ◌==◌, if◌then◌else◌}
use stanchion.Prelude.Texts.{Text}

abbrev within : ℕ → ℕ → ℕ → Bool
within lo hi c = leb lo c && leb c hi

-- `char::is_whitespace`: the Unicode property White_Space
unfoldable pub is_whitespace : ℕ → Bool
is_whitespace c =
    within 9 13 c
    || c == 0x20
    || c == 0x85
    || c == 0xa0
    || c == 0x1680
    || within 0x2000 0x200a c
    || c == 0x2028
    || c == 0x2029
    || c == 0x202f
    || c == 0x205f
    || c == 0x3000

unfoldable pub trim_start : Text → Text
trim_start [] = []
trim_start (c ∷ s) = if is_whitespace c then trim_start s else c ∷ s

unfoldable pub trim : Text → Text
unfolding trim_start is_whitespace
trim s = reverse (trim_start (reverse (trim_start s)))

unfoldable pub is_empty {ℓ} : {A : Type ℓ} → List A → Bool
is_empty [] = true
is_empty (_ ∷ _) = false

unfoldable pub is_digit : ℕ → Bool
is_digit c = within b'0' b'9' c

unfoldable pub is_ascii_alphanumeric : ℕ → Bool
unfolding is_digit
is_ascii_alphanumeric c = is_digit c || within b'a' b'z' c || within b'A' b'Z' c

unfoldable pub is_ascii_hexdigit : ℕ → Bool
unfolding is_digit
is_ascii_hexdigit c = is_digit c || within b'a' b'f' c || within b'A' b'F' c

unfoldable pub to_ascii_lowercase : Text → Text
to_ascii_lowercase [] = []
to_ascii_lowercase (c ∷ s) = (if within b'A' b'Z' c then c + 32 else c) ∷ to_ascii_lowercase s

unfoldable pub strip_prefix : Text → Text → Option Text
strip_prefix [] s = some s
strip_prefix (p ∷ ps) [] = none
strip_prefix (p ∷ ps) (c ∷ s) = if p == c then strip_prefix ps s else none

unfoldable pub starts_with : Text → Text → Bool
unfolding strip_prefix
starts_with p s = elim (strip_prefix p s) [ none ↦ false | some _ ↦ true ]

unfoldable pub ends_with : Text → Text → Bool
unfolding starts_with
ends_with p s = starts_with (reverse p) (reverse s)

abbrev extend_head : ℕ → List Text → List Text
extend_head c [] = (c ∷ []) ∷ []
extend_head c (p ∷ ps) = (c ∷ p) ∷ ps

-- `split(sep)`: never empty
unfoldable pub split : ℕ → Text → List Text
split sep [] = [] ∷ []
split sep (c ∷ s) = let rest = split sep s in if c == sep then [] ∷ rest else extend_head c rest

-- `split_once(sep)`
unfoldable pub split_once : ℕ → Text → Option (Text × Text)
split_once sep [] = none
split_once sep (c ∷ s) =
    let rest = split_once sep s in
    if c == sep then some ([], s) else elim rest [ none ↦ none | some (a, b) ↦ some (c ∷ a, b) ]

abbrev pub u64_max : ℕ
u64_max = 18446744073709551615

-- the digits, as `u64::from_str` reads them: none on another character or on overflow
digits_onto : ℕ → Text → Option ℕ
digits_onto acc [] = some acc
digits_onto acc (c ∷ s) =
    let acc' = acc * 10 + (c - b'0') in
    let rest = digits_onto acc' s in if is_digit c && leb acc' u64_max then rest else none

-- `str::parse::<u64>`: a leading `+` is accepted, an empty number is not
unfoldable pub parse_u64 : Text → Option ℕ
unfolding digits_onto is_digit
parse_u64 [] = none
parse_u64 (c ∷ []) = if c == b'+' then none else digits_onto 0 (c ∷ [])
parse_u64 (c ∷ d ∷ s) = if c == b'+' then digits_onto 0 (d ∷ s) else digits_onto 0 (c ∷ d ∷ s)
