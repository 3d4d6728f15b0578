-- ===== src/Prelude/Texts.antt =====
-- Text as its code points: a Rust `String` with its equality, its order (that of the UTF-8 bytes is
-- that of the code points) and the `str`
-- methods that the program calls.
use Prim.Native.Nat.{ℕ, compare, Ordering}
use Prim.Native.Nat.Ordering.{lt, eq, gt}
use Prim.Native.Char.{code}
use Prim.Native.String.{String}
use mathlib.Core.Path.{◌≡◌, refl}
use mathlib.Core.Bool.{Bool, true, false, ◌&&◌}
use mathlib.Core.Logic.{◌↔◌}
use mathlib.Core.List.{List, [], ◌∷◌}
use native.Mathlib.Omega.{arith}
use stanchion.Prelude.Tests.{◌==◌}

abbrev pub Text : Type 0
Text = List ℕ

-- the code points of a literal
abbrev pub codes : String → Text
codes String.[] = []
codes (String.◌∷◌ c s) = code c ∷ codes s

unfoldable pub text_eq : Text → Text → Bool
text_eq [] [] = true
text_eq (x ∷ xs) (y ∷ ys) = x == y && text_eq xs ys
text_eq _ _ = false

pub text_eq_iff : (a b : Text) → (text_eq a b ≡ true) ↔ (a ≡ b)
unfolding text_eq
text_eq_iff (x ∷ a) (y ∷ b) = ground (arith, text_eq_iff a b)
text_eq_iff _ _ = ground arith

pub text_eq_refl : (a : Text) → text_eq a a ≡ true
text_eq_refl a = (text_eq_iff a a).1 refl

-- `str::cmp` and `Ord for String`
unfoldable pub text_cmp : Text → Text → Ordering
text_cmp [] [] = eq
text_cmp [] (y ∷ ys) = lt
text_cmp (x ∷ xs) [] = gt
text_cmp (x ∷ xs) (y ∷ ys) = elim (compare x y) [ lt ↦ lt | eq ↦ text_cmp xs ys | gt ↦ gt ]

pub text_cmp_refl : (a : Text) → text_cmp a a ≡ eq
unfolding text_cmp
text_cmp_refl [] = refl
text_cmp_refl (x ∷ a) = ground (arith, text_cmp_refl a)

pub eq_of_text_cmp : (a b : Text) → text_cmp a b ≡ eq → a ≡ b
unfolding text_cmp
eq_of_text_cmp (x ∷ a) (y ∷ b) h = ground (arith, eq_of_text_cmp a b)
eq_of_text_cmp [] [] h = refl
eq_of_text_cmp _ _ h = cc

abbrev pub flip : Ordering → Ordering
flip lt = gt
flip eq = eq
flip gt = lt

pub text_cmp-flip : (a b : Text) → text_cmp b a ≡ flip (text_cmp a b)
unfolding text_cmp
text_cmp-flip (x ∷ a) (y ∷ b) = ground (arith, text_cmp-flip a b)
text_cmp-flip [] [] = refl
text_cmp-flip [] (y ∷ b) = refl
text_cmp-flip (x ∷ a) [] = refl

pub text_cmp_trans : (a b c : Text) → text_cmp a b ≡ lt → text_cmp b c ≡ lt → text_cmp a c ≡ lt
unfolding text_cmp
text_cmp_trans (x ∷ a) (y ∷ b) (z ∷ c) h k = ground (arith, text_cmp_trans a b c)
text_cmp_trans [] (y ∷ b) (z ∷ c) h k = refl
text_cmp_trans [] [] c h k = cc
text_cmp_trans _ b [] h k = ground arith
text_cmp_trans (x ∷ a) [] (z ∷ c) h k = cc
