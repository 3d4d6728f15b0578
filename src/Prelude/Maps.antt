-- ===== src/Prelude/Maps.antt =====
-- `BTreeMap<String, V>` as an association list in key order.
use Prim.Native.Nat.Ordering.{lt, eq, gt}
use mathlib.Core.Path.{◌≡◌, refl}
use mathlib.Core.Bool.{Bool}
use mathlib.Core.List.{List, [], ◌∷◌}
use mathlib.Core.Logic.{inl, inr}
use mathlib.Core.Option.{Option, none, some}
use native.Mathlib.Omega.{arith}
use stanchion.Prelude.Tests.{if◌then◌else◌, is_some, Bool-cases}
use stanchion.Prelude.Lists.{In, here, there}
use stanchion.Prelude.Texts.{Text, text_eq, text_eq_iff, text_cmp, text_cmp_refl, eq_of_text_cmp}

abbrev pub Map {ℓ} : Type ℓ → Type ℓ
Map V = List (Text × V)

module _ {ℓ} {V : Type ℓ} where
  unfoldable pub lookup : Text → Map V → Option V
  lookup k [] = none
  lookup k ((j, v) ∷ m) = if text_eq k j then some v else lookup k m

  unfoldable pub contains_key : Text → Map V → Bool
  contains_key k m = is_some (lookup k m)

  unfoldable pub insert : Text → V → Map V → Map V
  insert k v [] = (k, v) ∷ []
  insert k v ((j, w) ∷ m) = elim (text_cmp k j) [
    | lt ↦ (k, v) ∷ (j, w) ∷ m
    | eq ↦ (k, v) ∷ m
    | gt ↦ (j, w) ∷ insert k v m
  ]

  abbrev pub keys : Map V → List Text
  keys [] = []
  keys ((k, v) ∷ m) = k ∷ keys m

  pub lookup-insert :
      (j k : Text) (v : V) (m : Map V)
      → lookup j (insert k v m) ≡ (if text_eq j k then some v else lookup j m)
  unfolding lookup insert
  lookup-insert j k v [] = refl
  lookup-insert j k v ((i, w) ∷ m) = ground (
    arith,
    text_eq_iff j k,
    text_eq_iff j i,
    eq_of_text_cmp k i,
    text_cmp_refl k,
    lookup-insert j k v m,
  )

  pub In-lookup : (k : Text) {v : V} (m : Map V) → lookup k m ≡ some v → In (k, v) m
  unfolding lookup
  In-lookup k [] h = cc
  In-lookup k ((j, w) ∷ m) h = elim (Bool-cases (text_eq k j)) [
    | inl e ↦ here (ground (arith, text_eq_iff k j))
    | inr e ↦ there (In-lookup k m (ground arith))
  ]

  pub In-keys : (k : Text) {v : V} (m : Map V) → lookup k m ≡ some v → In k (keys m)
  unfolding lookup
  In-keys k [] h = cc
  In-keys k {v = v} ((j, w) ∷ m) h = elim (Bool-cases (text_eq k j)) [
    | inl e ↦ here (ground (arith, text_eq_iff k j))
    | inr e ↦ there (In-keys k {v = v} m (ground arith))
  ]
