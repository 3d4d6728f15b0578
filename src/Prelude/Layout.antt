-- ===== src/Prelude/Layout.antt =====
-- `trim` and `split` on texts laid out with blanks and commas.
use mathlib.Core.Bool.{Bool, true, false, not}
use mathlib.Core.List.{[], ◌∷◌, ◌++◌, reverse, reverse-append, reverse-reverse}
use mathlib.Core.Path.{◌≡◌, refl, ap, ◌∙◌}
use native.Mathlib.Omega.{arith}
use stanchion.Prelude.Lists.{all}
use stanchion.Prelude.Strings.{split, trim, trim_start, is_whitespace}
use stanchion.Prelude.Tests.{◌==◌}
use stanchion.Prelude.Texts.{Text}

abbrev pub no_comma : Text → Bool
no_comma t = all (λ c. not (c == b',')) t

abbrev pub is_blank : Text → Bool
is_blank t = all is_whitespace t

-- The text is not empty and does not begin with a blank.
abbrev pub starts_tight : Text → Bool
starts_tight [] = false
starts_tight (c ∷ t) = not (is_whitespace c)

-- The text is not empty and does not end with a blank.
unfoldable pub ends_tight : Text → Bool
ends_tight [] = false
ends_tight (c ∷ []) = not (is_whitespace c)
ends_tight (c ∷ d ∷ t) = ends_tight (d ∷ t)

pub split-whole : (s : Text) → no_comma s ≡ true → split b',' s ≡ s ∷ []
unfolding split
split-whole [] h = refl
split-whole (c ∷ s) h = ground (arith, split-whole s (ground arith))

pub split-comma : (s t : Text) → no_comma s ≡ true → split b',' (s ++ (b',' ∷ t)) ≡ s ∷ split b',' t
unfolding split
split-comma [] t h = refl
split-comma (c ∷ s) t h = ground (arith, split-comma s t (ground arith))

pub ends_tight-append : (s t : Text) → ends_tight t ≡ true → ends_tight (s ++ t) ≡ true
unfolding ends_tight
ends_tight-append [] t h = h
ends_tight-append (c ∷ []) [] h = absurd (ground arith)
ends_tight-append (c ∷ []) (d ∷ t) h = h
ends_tight-append (c ∷ d ∷ s) t h = ends_tight-append (d ∷ s) t h

pub starts_tight-append : (s t : Text) → starts_tight s ≡ true → starts_tight (s ++ t) ≡ true
starts_tight-append [] t h = absurd (ground arith)
starts_tight-append (c ∷ s) t h = h

trim_start-tight : (t : Text) → starts_tight t ≡ true → trim_start t ≡ t
unfolding trim_start
trim_start-tight [] h = refl
trim_start-tight (c ∷ t) h = ground arith

trim_start-blank : (b t : Text) → is_blank b ≡ true → trim_start (b ++ t) ≡ trim_start t
unfolding trim_start
trim_start-blank [] t h = refl
trim_start-blank (c ∷ b) t h = ground (arith, trim_start-blank b t (ground arith))

reverse-starts_tight : (t : Text) → ends_tight t ≡ true → starts_tight (reverse t) ≡ true
unfolding ends_tight
reverse-starts_tight [] h = absurd (ground arith)
reverse-starts_tight (c ∷ []) h = h
reverse-starts_tight (c ∷ d ∷ t) h =
    ap starts_tight (reverse-append (c ∷ []) (d ∷ t))
    ∙ starts_tight-append (reverse (d ∷ t)) (c ∷ []) (reverse-starts_tight (d ∷ t) h)

-- A text that begins and ends with no blank is left as it is,
pub trim-tight : (t : Text) → starts_tight t ≡ true → ends_tight t ≡ true → trim t ≡ t
unfolding trim
trim-tight t h k =
    ap (λ s. reverse (trim_start (reverse s))) (trim_start-tight t h)
    ∙ ap reverse (trim_start-tight (reverse t) (reverse-starts_tight t k))
    ∙ reverse-reverse t

-- and the blanks before one are taken away.
pub trim-blank :
    (b t : Text)
    → is_blank b ≡ true
    → starts_tight t ≡ true
    → ends_tight t ≡ true
    → trim (b ++ t) ≡ t
unfolding trim
trim-blank b t h k l =
    ap (λ s. reverse (trim_start (reverse s))) (trim_start-blank b t h) ∙ trim-tight t k l
