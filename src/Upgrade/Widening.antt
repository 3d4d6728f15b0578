-- ===== src/Upgrade/Widening.antt =====
-- When a review widens: what an upgrade that can be applied unattended asks for.
use stanchion.Prelude.{
  ℕ, ◌≡◌, ◌↔◌, refl, ap, ◌∙◌, inl, inr, ◌⊎◌, Bool, true, false, Option, none, some, List, [], ◌∷◌,
  ◌++◌, arith, if◌then◌else◌, any, any-append, In, here, there, In-append_left, In-append_right,
  Text, Map, text_eq, text_eq_iff, lookup, lookup-insert, contains_key, keys, In-keys, is_some,
  Option-cases, Bool-cases,
}
use stanchion.Value.{Value, Table}
use stanchion.Manifest.{Manifest, Version, DependencySpec, effective_version}
use stanchion.Capability.{split_optional}
use stanchion.Upgrade.{
  entry_changed, not_newer, Change, change_widens, NameSet, collect_names, diff_each, diff,
  dependency_changes, rock_changes, value_eq, narrows, both_changes, capability_changes, between,
  widens,
}

collect_names-In :
    (name : Text) (names : List Text) → In name names → lookup name (collect_names names) ≡ some tt
unfolding collect_names
collect_names-In name [] i = elim i [ ]
collect_names-In name (n ∷ names) (here e) =
    ground (arith, lookup-insert name n tt (collect_names names), text_eq_iff name n)
collect_names-In name (n ∷ names) (there i) =
    ground (arith, lookup-insert name n tt (collect_names names), collect_names-In name names i)

-- nothing in the list widens
abbrev IsQuiet : List Change → Type 0
IsQuiet changes = any change_widens changes ≡ false

IsQuiet-append : (xs ys : List Change) → IsQuiet (xs ++ ys) ↔ (IsQuiet xs × IsQuiet ys)
IsQuiet-append xs ys = ground (arith, any-append change_widens xs ys)

module _ {ℓ} {V : Type ℓ} (change : Text → Option V → Option V → List Change) (i c : Map V) where
  diff_each-In :
      (names : NameSet) (name : Text) {u : Unit {0}}
      → IsQuiet (diff_each change i c names)
      → lookup name names ≡ some u
      → IsQuiet (change name (lookup name i) (lookup name c))
  unfolding diff_each lookup
  diff_each-In [] name q h = cc
  diff_each-In ((n, _) ∷ names) name q h =
      let (q1, q2) =
        (IsQuiet-append (change n (lookup n i) (lookup n c)) (diff_each change i c names)).0 q in
      elim (Bool-cases (text_eq name n)) [
        | inl e ↦
            let p = (text_eq_iff name n).0 e in
            ap (λ x. any change_widens (change x (lookup x i) (lookup x c))) p ∙ q1
        | inr e ↦ diff_each-In names name q2 (rw e at h)
      ]

  diff_each-IsQuiet :
      (names : NameSet)
      → ((name : Text) → IsQuiet (change name (lookup name i) (lookup name c)))
      → IsQuiet (diff_each change i c names)
  unfolding diff_each
  diff_each-IsQuiet [] f = refl
  diff_each-IsQuiet ((n, _) ∷ names) f =
      (IsQuiet-append (change n (lookup n i) (lookup n c)) (diff_each change i c names)).1
        (f n, diff_each-IsQuiet names f)

  diff_iff :
      ((name : Text) → change name none none ≡ [])
      → IsQuiet (diff change i c)
        ↔ ((name : Text) → IsQuiet (change name (lookup name i) (lookup name c)))
  unfolding diff
  diff_iff nothing = (
    λ q name. elim (Option-cases (lookup name i)) [
      | inr (v, e) ↦
          diff_each-In (collect_names (keys i ++ keys c)) name q
            (collect_names-In name (keys i ++ keys c) (In-append_left (keys c) (In-keys name i e)))
      | inl e ↦ elim (Option-cases (lookup name c)) [
        | inr (v, e') ↦ diff_each-In (collect_names (keys i ++ keys c)) name q (
            collect_names-In name (keys i ++ keys c) (In-append_right (keys i) (In-keys name c e')))
        | inl e' ↦ rw (e, e', nothing name)
      ]
    ],
    diff_each-IsQuiet (collect_names (keys i ++ keys c)),
  )

  diff_holds :
      (P : Option V → Option V → Type 0)
      → ((name : Text) → change name none none ≡ [])
      → ((name : Text) (a b : Option V) → IsQuiet (change name a b) ↔ P a b)
      → IsQuiet (diff change i c) ↔ ((name : Text) → P (lookup name i) (lookup name c))
  diff_holds P nothing holds =
      let (f, g) = diff_iff nothing in
      (
        λ q name. (holds name (lookup name i) (lookup name c)).0 (f q name),
        λ h. g (λ name. (holds name (lookup name i) (lookup name c)).1 (h name)),
      )

-- a change that widens and is reported under a test
IsQuiet-if :
    (b : Bool) (x : Change) (xs : List Change)
    → change_widens x ≡ true
    → IsQuiet ((if b then x ∷ [] else []) ++ xs) ↔ ((b ≡ false) × IsQuiet xs)
IsQuiet-if true x xs h = ground arith
IsQuiet-if false x xs h = ground arith

IsQuiet-unless :
    (b : Bool) (x : Change) (xs : List Change)
    → change_widens x ≡ true
    → IsQuiet ((if b then [] else x ∷ []) ++ xs) ↔ ((b ≡ true) × IsQuiet xs)
IsQuiet-unless true x xs h = ground arith
IsQuiet-unless false x xs h = ground arith

dependency_changes_iff :
    (name : Text) (a b : Option DependencySpec)
    → IsQuiet (dependency_changes name a b) ↔ (is_some b ≡ true → is_some a ≡ true)
unfolding dependency_changes change_widens
dependency_changes_iff name none none = ground arith
dependency_changes_iff name none (some b) = ground arith
dependency_changes_iff name (some a) none = ground arith
dependency_changes_iff name (some a) (some b) = ground arith

rock_changes_iff :
    (name : Text) (a b : Option Text)
    → IsQuiet (rock_changes name a b) ↔ (is_some b ≡ true → is_some a ≡ true)
unfolding rock_changes change_widens
rock_changes_iff name none none = ground arith
rock_changes_iff name none (some b) = ground arith
rock_changes_iff name (some a) none = ground arith
rock_changes_iff name (some a) (some b) = ground arith

module _ (float_eq : ℕ → ℕ → Bool) where
  -- Parameters that are the same, or that the code can tell to be narrower.
  abbrev pub IsNoWider : Value → Value → Type 0
  IsNoWider before after =
      (value_eq float_eq before after ≡ true) ⊎ (narrows float_eq before after ≡ true)

  -- What the upgrade asks for under one name was asked for before, with parameters no narrower.
  abbrev pub IsHeld : Option Table → Option Table → Type 0
  IsHeld before none = Unit {0}
  IsHeld none (some after) = ⊥
  IsHeld (some before) (some after) = IsNoWider (split_optional before).0 (split_optional after).0

  both_changes_iff :
      (name : Text) (p q : Value × Bool)
      → IsQuiet (both_changes float_eq name p q) ↔ IsNoWider p.0 q.0
  unfolding both_changes change_widens
  both_changes_iff name p q = ground arith

  capability_changes_iff :
      (name : Text) (a b : Option Table)
      → IsQuiet (capability_changes float_eq name a b) ↔ IsHeld a b
  unfolding capability_changes change_widens
  capability_changes_iff name none none = ground arith
  capability_changes_iff name none (some b) = ground arith
  capability_changes_iff name (some a) none = ground arith
  capability_changes_iff name (some a) (some b) =
      both_changes_iff name (split_optional a) (split_optional b)

  module _ (version_le : Version → Version → Bool) where
    -- A review raises no concern exactly when the upgrade is newer and has the same entry, every
    -- capability it asks for was asked for before, with the same parameters or with parameters that
    -- the code can tell to be narrower, and it has no dependency and no rock under a new name.
    pub between-widens_iff :
        (i c : Manifest)
        → (widens (between float_eq version_le i c) ≡ false) ↔ (
            (version_le (effective_version c) (effective_version i) ≡ false)
            × (i.entry ≡ c.entry)
            × ((name : Text) → IsHeld (lookup name i.capabilities) (lookup name c.capabilities))
            × ((name : Text)
                → contains_key name c.dependencies ≡ true
                → contains_key name i.dependencies ≡ true)
            × ((name : Text) → contains_key name c.rocks ≡ true → contains_key name i.rocks ≡ true))
    unfolding between widens contains_key change_widens capability_changes dependency_changes
        rock_changes
    between-widens_iff i c =
        let from = effective_version i in
        let to = effective_version c in
        let capabilities = diff (capability_changes float_eq) i.capabilities c.capabilities in
        let dependencies = diff dependency_changes i.dependencies c.dependencies in
        let rocks = diff rock_changes i.rocks c.rocks in
        let named = capabilities ++ (dependencies ++ rocks) in
        let entry = (if text_eq i.entry c.entry then [] else entry_changed i.entry c.entry ∷ []) in
        let (e1, e2) = text_eq_iff i.entry c.entry in
        let (v1, v2) = IsQuiet-if (version_le to from) (not_newer from to) (entry ++ named) refl in
        let (n1, n2) =
          IsQuiet-unless (text_eq i.entry c.entry) (entry_changed i.entry c.entry) named refl in
        let (a1, a2) = IsQuiet-append capabilities (dependencies ++ rocks) in
        let (b1, b2) = IsQuiet-append dependencies rocks in
        let (k1, k2) =
          diff_holds (capability_changes float_eq) i.capabilities c.capabilities IsHeld (λ _. refl)
            (capability_changes_iff) in
        let (d1, d2) =
          diff_holds dependency_changes i.dependencies c.dependencies _ (λ _. refl)
            dependency_changes_iff in
        let (r1, r2) = diff_holds rock_changes i.rocks c.rocks _ (λ _. refl) rock_changes_iff in
        (
          λ q.
              let (v, q1) = v1 q in
              let (e, q2) = n1 q1 in
              let (k, q3) = a1 q2 in let (d, r) = b1 q3 in (v, e1 e, k1 k, d1 d, r1 r),
          λ (v, e, k, d, r). v2 (v, n2 (e2 e, a2 (k2 k, b2 (d2 d, r2 r)))),
        )
