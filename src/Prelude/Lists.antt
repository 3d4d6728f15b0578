-- ===== src/Prelude/Lists.antt =====
-- Lists: lengths by native numbers, Boolean quantifiers and a predicate by recursion.
use Prim.Native.Nat.{ℕ, zero, suc, ◌+◌}
use mathlib.Core.Path.{◌≡◌, refl, sym, ap, ◌∙◌}
use mathlib.Core.Bool.{Bool, true, false, ◌&&◌, ◌||◌}
use mathlib.Core.List.{List, [], ◌∷◌, ◌++◌}
use mathlib.Core.Option.{Option, none, some}
use mathlib.Core.Logic.{◌⊎◌, inl, inr}
use native.Mathlib.Omega.{arith}
use stanchion.Prelude.Tests.{if◌then◌else◌, Bool-cases}

module _ {ℓ} {A : Type ℓ} where
  abbrev pub length : List A → ℕ
  length [] = 0
  length (x ∷ xs) = suc (length xs)

  abbrev pub get_elem? : List A → ℕ → Option A
  get_elem? [] i = none
  get_elem? (x ∷ xs) zero = some x
  get_elem? (x ∷ xs) (suc i) = get_elem? xs i

  -- A write out of bounds changes nothing.
  abbrev pub set : List A → ℕ → A → List A
  set [] i v = []
  set (x ∷ xs) zero v = v ∷ xs
  set (x ∷ xs) (suc i) v = x ∷ set xs i v

  abbrev pub remove_at : List A → ℕ → List A
  remove_at [] i = []
  remove_at (x ∷ xs) zero = xs
  remove_at (x ∷ xs) (suc i) = x ∷ remove_at xs i

  abbrev pub any : (A → Bool) → List A → Bool
  any p [] = false
  any p (x ∷ xs) = p x || any p xs

  abbrev pub all : (A → Bool) → List A → Bool
  all p [] = true
  all p (x ∷ xs) = p x && all p xs

  -- `iter().filter(p)`
  abbrev pub keep : (A → Bool) → List A → List A
  keep p [] = []
  keep p (x ∷ xs) = if p x then x ∷ keep p xs else keep p xs

  pub length-append : (xs ys : List A) → length (xs ++ ys) ≡ length xs + length ys
  length-append [] ys = omega arith
  length-append (x ∷ xs) ys = omega (arith, length-append xs ys)

-- `x` stands in the list, with the place kept.
pub data In {ℓ} {A : Type ℓ} (x : A) : List A → Type ℓ where
  here : {y : A} {xs : List A} → x ≡ y → In x (y ∷ xs)
  there : {y : A} {xs : List A} → In x xs → In x (y ∷ xs)

module _ {ℓ} {A : Type ℓ} where
  pub In-append_left : {x : A} {xs : List A} (ys : List A) → In x xs → In x (xs ++ ys)
  In-append_left ys (here e) = here e
  In-append_left ys (there i) = there (In-append_left ys i)

  pub In-append_right : {x : A} (xs : List A) {ys : List A} → In x ys → In x (xs ++ ys)
  In-append_right [] i = i
  In-append_right (y ∷ xs) i = there (In-append_right xs i)

  pub In-append_split : {x : A} (xs : List A) {ys : List A} → In x (xs ++ ys) → In x xs ⊎ In x ys
  In-append_split [] i = inr i
  In-append_split (y ∷ xs) (here e) = inl (here e)
  In-append_split (y ∷ xs) (there i) = elim (In-append_split xs i) [
    | inl j ↦ inl (there j)
    | inr j ↦ inr j
  ]

  pub all-In : (p : A → Bool) {x : A} {xs : List A} → all p xs ≡ true → In x xs → p x ≡ true
  all-In p {xs = []} h i = elim i [ ]
  all-In p {xs = y ∷ xs} h (here e) = ground (arith, ap p e)
  all-In p {xs = y ∷ xs} h (there i) = all-In p (ground arith) i

  pub any-In : (p : A → Bool) (xs : List A) → any p xs ≡ true → (x : A) × In x xs × (p x ≡ true)
  any-In p [] h = cc
  any-In p (x ∷ xs) h = elim (Bool-cases (p x)) [
    | inl e ↦ (x, here refl, e)
    | inr e ↦ let (y, i, q) = any-In p xs (ground arith) in (y, there i, q)
  ]

  pub any-append : (p : A → Bool) (xs ys : List A) → any p (xs ++ ys) ≡ (any p xs || any p ys)
  any-append p [] ys = refl
  any-append p (x ∷ xs) ys = ground (arith, any-append p xs ys)

  pub all-append : (p : A → Bool) (xs ys : List A) → all p (xs ++ ys) ≡ (all p xs && all p ys)
  all-append p [] ys = refl
  all-append p (x ∷ xs) ys = ground (arith, all-append p xs ys)

  pub In-keep : (p : A → Bool) {x : A} (xs : List A) → In x (keep p xs) → In x xs × (p x ≡ true)
  In-keep p [] i = elim i [ ]
  In-keep p (y ∷ xs) i = elim (Bool-cases (p y)) [
    | inl e ↦ elim (rw e at i) [
      | here q ↦ (here q, ap p q ∙ e)
      | there j ↦ let (k, q) = In-keep p xs j in (there k, q)
    ]
    | inr e ↦ let (k, q) = In-keep p xs (rw e at i) in (there k, q)
  ]

  pub keep-In : (p : A → Bool) {x : A} (xs : List A) → In x xs → p x ≡ true → In x (keep p xs)
  keep-In p [] i h = elim i [ ]
  keep-In p (y ∷ xs) (here e) h = rw (sym (ap p e) ∙ h) (here e)
  keep-In p (y ∷ xs) (there i) h = elim (Bool-cases (p y)) [
    | inl e ↦ rw e (there (keep-In p xs i h))
    | inr e ↦ rw e (keep-In p xs i h)
  ]
