-- ===== src/Resolution/Precedence.antt =====
-- The manifests stand in the order of their dependencies.
use stanchion.Prelude.{
  ◌≡◌, sym, ap, ◌∙◌, subst, true, none, some, List, [], ◌∷◌, arith, In, Text, Map, text_eq,
  text_eq_iff, lookup, inl, inr, Bool-cases, Option-cases,
}
use stanchion.Manifest.{Manifest}
use stanchion.Resolution.{elem, remove_key, take_in_order}
use stanchion.Resolution.Counting.{missing, lookup-remove_key}
use stanchion.Resolution.Loop.{Follows}
use stanchion.Resolution.Start.{names}
use stanchion.Resolution.Arranging.{missing-In}

module _ (edges : Manifest → List Text) (pending : List Manifest) where
  -- Every plugin of the list stands after all that `edges` gives for it.
  abbrev pub InOrder : List Text → List Manifest → Type 0
  InOrder taken [] = Unit {0}
  InOrder taken (m ∷ ms) =
      ((d : Text) → In d (edges m) → elem d taken ≡ true) × InOrder (m.name ∷ taken) ms

  -- What is known while manifests are taken from the index: `seen` are the names passed, `taken`
  -- those of the manifests taken, `order` the names to come.
  pub record Takes (seen taken order : List Text) (index : Map Manifest) : Type 0 where
    pub follows : (m : Manifest) → In m pending → Follows m.name (edges m) seen order
    pub held : (k : Text) (m : Manifest) → lookup k index ≡ some m → (m.name ≡ k) × In m pending
    pub passed :
        (d : Text) → elem d (names pending) ≡ true → elem d seen ≡ true → elem d taken ≡ true
    pub spent :
        (d : Text)
        → elem d (names pending) ≡ true
        → elem d order ≡ true
        → lookup d index ≡ none
        → elem d taken ≡ true

  module _
      (known : (m : Manifest) (d : Text)
        → In m pending
        → In d (edges m)
        → elem d (names pending) ≡ true) where
    skip-Takes :
        (seen taken : List Text) (n : Text) (order : List Text) (index : Map Manifest)
        → lookup n index ≡ none
        → Takes seen taken (n ∷ order) index
        → Takes (n ∷ seen) taken order index
    skip-Takes seen taken n order index e t = record {
      follows = λ m i. (t.follows m i).1;
      held = t.held;
      passed = λ d p h. elim (Bool-cases (text_eq d n)) [
        | inl q ↦ t.spent d p (ground arith) (ap (λ x. lookup x index) ((text_eq_iff d n).0 q) ∙ e)
        | inr q ↦ t.passed d p (ground arith)
      ];
      spent = λ d p h l. t.spent d p (ground arith) l;
    }

    take-Takes :
        (seen taken : List Text) (n : Text) (order : List Text) (index : Map Manifest)
        → Takes seen taken (n ∷ order) index
        → Takes (n ∷ seen) (n ∷ taken) order (remove_key n index)
    take-Takes seen taken n order index t = record {
      follows = λ m i. (t.follows m i).1;
      held = λ k m h. t.held k m (ground (arith, lookup-remove_key k n index));
      passed = λ d p h. ground (arith, t.passed d p);
      spent = λ d p h l.
          ground
            (arith, t.spent d p, lookup-remove_key d n index, text_eq_iff d n, text_eq_iff n d);
    }

    pub take_in_order-InOrder :
        (seen taken order : List Text) (index : Map Manifest)
        → Takes seen taken order index
        → InOrder taken (take_in_order order index)
    unfolding take_in_order
    take_in_order-InOrder seen taken [] index t = tt
    take_in_order-InOrder seen taken (n ∷ order) index t = elim (Option-cases (lookup n index)) [
      | inl e ↦
          rw (e, take_in_order)
            (take_in_order-InOrder (n ∷ seen) taken order index
              (skip-Takes seen taken n order index e t))
      | inr (m, e) ↦
          let (q, i) = t.held n m e in
          let z : missing seen (edges m) ≡ 0 =
            (t.follows m i).0 (ground (arith, text_eq_iff m.name n)) in
          rw (e, take_in_order)
            (
              λ d j. t.passed d (known m d i j) (missing-In seen d (edges m) z j),
              subst (λ x. InOrder (x ∷ taken) (take_in_order order (remove_key n index))) (sym q)
                  (take_in_order-InOrder (n ∷ seen) (n ∷ taken) order (remove_key n index)
                    (take-Takes seen taken n order index t)),
            )
    ]
