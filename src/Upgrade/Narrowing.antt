-- ===== src/Upgrade/Narrowing.antt =====
-- What a review calls a narrowing.
use stanchion.Prelude.{
  ℕ, ◌≡◌, refl, ap, ◌∙◌, inl, inr, ◌⊎◌, Bool, true, some, arith, Text, text_eq, text_eq_iff,
  is_some, Bool-cases, Option-cases, and_parts,
}
use stanchion.Value.{Value, list, map, Items, end, item, Fields, done, field}
use stanchion.Upgrade.{
  get_field, value_eq, contains, all_contained, narrows_value, narrows_fields, keys_kept, narrows,
}

-- The value is an item of the list.
abbrev pub IsItem : Value → Items → Type 0
IsItem v end = ⊥
IsItem v (item u us) = (v ≡ u) ⊎ IsItem v us

module _ (float_eq : ℕ → ℕ → Bool) where
  -- The same value, or a list all of whose items are items of the old list.
  abbrev pub IsPart : Value → Value → Type 0
  IsPart old new =
      (value_eq float_eq old new ≡ true)
      ⊎ ((us : Items) × (vs : Items) × (old ≡ list us)
          × (new ≡ list vs)
          × ((v : Value) → IsItem v vs → contains float_eq us v ≡ true))

  all_contained-IsItem :
      (us vs : Items) (v : Value)
      → all_contained float_eq us vs ≡ true
      → IsItem v vs
      → contains float_eq us v ≡ true
  unfolding all_contained
  all_contained-IsItem us end v h i = elim i [ ]
  all_contained-IsItem us (item w vs) v h (inl e) =
      ap (contains float_eq us) e ∙ (and_parts _ _ h).0
  all_contained-IsItem us (item w vs) v h (inr i) =
      all_contained-IsItem us vs v (and_parts _ _ h).1 i

  lists-IsPart :
      (us vs : Items)
      → narrows_value float_eq (list us) (list vs) ≡ true
      → IsPart (list us) (list vs)
  unfolding narrows_value
  lists-IsPart us vs h = elim (Bool-cases (value_eq float_eq (list us) (list vs))) [
    | inl e ↦ inl e
    | inr e ↦ inr (us, vs, refl, refl, λ v. all_contained-IsItem us vs v (ground arith))
  ]

  narrows_value-IsPart : (old new : Value) → narrows_value float_eq old new ≡ true → IsPart old new
  unfolding narrows_value
  narrows_value-IsPart (list us) (list vs) h = lists-IsPart us vs h
  narrows_value-IsPart old new h = inl h

  narrows_fields-field :
      (b a : Fields) (k : Text) (v : Value)
      → narrows_fields float_eq b (field k v a) ≡ true
      → (old : Value) × (get_field k b ≡ some old)
        × (narrows_value float_eq old v ≡ true)
        × (narrows_fields float_eq b a ≡ true)
  unfolding narrows_fields
  narrows_fields-field b a k v h = elim (Option-cases (get_field k b)) [
    | inl e ↦ absurd (ground arith)
    | inr (old, e) ↦ (old, e, ground arith, ground arith)
  ]

  narrows_fields-get :
      (b a : Fields) (key : Text) {new : Value}
      → narrows_fields float_eq b a ≡ true
      → get_field key a ≡ some new
      → (old : Value) × (get_field key b ≡ some old) × IsPart old new
  unfolding narrows_fields get_field
  narrows_fields-get b done key h g = cc
  narrows_fields-get b (field k v a) key {new = new} h g =
      let (old, e, n, rest) = narrows_fields-field b a k v h in
      elim (Bool-cases (text_eq key k)) [
        | inl q ↦ (
          old,
          ap (λ x. get_field x b) ((text_eq_iff key k).0 q) ∙ e,
          narrows_value-IsPart old new (ground arith),
        )
        | inr q ↦ narrows_fields-get b a key {new = new} rest (ground arith)
      ]

  keys_kept-get :
      (b a : Fields) (key : Text)
      → keys_kept b a ≡ true
      → is_some (get_field key b) ≡ true
      → is_some (get_field key a) ≡ true
  unfolding keys_kept get_field
  keys_kept-get done a key h g = cc
  keys_kept-get (field k v b) a key h g = elim (Bool-cases (text_eq key k)) [
    | inl e ↦ ap (λ x. is_some (get_field x a)) ((text_eq_iff key k).0 e) ∙ (and_parts _ _ h).0
    | inr e ↦ keys_kept-get b a key (and_parts _ _ h).1 (rw e at g)
  ]

  -- Where the code calls one table of parameters narrower than another, every key of the new one
  -- is a key of the old one with the same value, or with a list that has only items of the old
  -- list; and no key of the old one is gone.
  pub narrows-map :
      (before after : Fields)
      → narrows float_eq (map before) (map after) ≡ true
      → ((key : Text) (new : Value)
          → get_field key after ≡ some new
          → (old : Value) × (get_field key before ≡ some old) × IsPart old new)
        × ((key : Text)
            → is_some (get_field key before) ≡ true
            → is_some (get_field key after) ≡ true)
  unfolding narrows
  narrows-map before after h =
      let (f, k) = and_parts _ _ h in
      (
        λ key new g. narrows_fields-get before after key f g,
        λ key g. keys_kept-get before after key k g,
      )
