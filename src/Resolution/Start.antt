-- ===== src/Resolution/Start.antt =====
-- The state in which Kahn's loop begins, for plugins with different names.
use stanchion.Prelude.{
  ℕ, ◌+◌, ◌≡◌, refl, sym, ap, ◌∙◌, subst, true, false, some, List, [], ◌∷◌, map, arith,
  if◌then◌else◌, keep, length, In, here, there, In-keep, keep-In, Text, Map, text_eq, text_eq_iff,
  text_eq_refl, lookup, lookup-insert, insert, ◌⊎◌, inl, inr, Bool-cases,
}
use stanchion.Manifest.{Manifest}
use stanchion.Resolution.{
  elem, or_empty, add_dependents, total, insert_manifest, sort_by_name, indegrees, all_dependents,
  is_ready, order_of,
}
use stanchion.Resolution.Counting.{occurrences, missing, missing-nil, add_dependents-occurrences}
use stanchion.Resolution.Loop.{Tracks, Owes, Follows, after, elem-after, kahn-total, kahn-Follows}

abbrev pub names : List Manifest → List Text
names ms = map (λ (m : Manifest). m.name) ms

abbrev pub HasDistinctNames : List Manifest → Type 0
HasDistinctNames [] = Unit {0}
HasDistinctNames (m ∷ ms) = (elem m.name (names ms) ≡ false) × HasDistinctNames ms

module _ {A : Type 0} (g : A → Text) where
  pub elem-map : (x : Text) (ys : List A) → elem x (map g ys) ≡ true → (y : A) × In y ys × (g y ≡ x)
  elem-map x [] h = cc
  elem-map x (y ∷ ys) h = elim (Bool-cases (text_eq x (g y))) [
    | inl e ↦ (y, here refl, sym ((text_eq_iff x (g y)).0 e))
    | inr e ↦ let (z, i, q) = elem-map x ys (ground arith) in (z, there i, q)
  ]

  pub map-In : (y : A) (ys : List A) → In y ys → elem (g y) (map g ys) ≡ true
  map-In y [] i = elim i [ ]
  map-In y (z ∷ ys) (here e) = rw e (ground (arith, text_eq_refl (g z)))
  map-In y (z ∷ ys) (there i) = ground (arith, map-In y ys i)

pub elem-names :
    (x : Text) (ms : List Manifest)
    → elem x (names ms) ≡ true
    → (m : Manifest) × In m ms × (m.name ≡ x)
elem-names x ms h = elem-map (λ (m : Manifest). m.name) x ms h

pub names-In : (m : Manifest) (ms : List Manifest) → In m ms → elem m.name (names ms) ≡ true
names-In m ms i = map-In (λ (m : Manifest). m.name) m ms i

insert_manifest-cases :
    (m n : Manifest) (ms : List Manifest)
    → (insert_manifest m (n ∷ ms) ≡ m ∷ n ∷ ms)
      ⊎ (insert_manifest m (n ∷ ms) ≡ n ∷ insert_manifest m ms)
unfolding insert_manifest
insert_manifest-cases m n ms = ground arith

insert_manifest-In :
    (x m : Manifest) (ms : List Manifest) → In x (m ∷ ms) → In x (insert_manifest m ms)
unfolding insert_manifest
insert_manifest-In x m [] i = i
insert_manifest-In x m (n ∷ ms) i = elim (insert_manifest-cases m n ms) [
  | inl e ↦ subst (In x) (sym e) i
  | inr e ↦ subst (In x) (sym e) (elim i [
    | here q ↦ there (insert_manifest-In x m ms (here q))
    | there j ↦ elim j [ here q ↦ here q | there k ↦ there (insert_manifest-In x m ms (there k)) ]
  ])
]

In-insert_manifest :
    (x m : Manifest) (ms : List Manifest) → In x (insert_manifest m ms) → In x (m ∷ ms)
unfolding insert_manifest
In-insert_manifest x m [] i = i
In-insert_manifest x m (n ∷ ms) i = elim (insert_manifest-cases m n ms) [
  | inl e ↦ subst (In x) e i
  | inr e ↦ elim (subst (In x) e i) [
    | here q ↦ there (here q)
    | there j ↦ elim (In-insert_manifest x m ms j) [ here q ↦ here q | there k ↦ there (there k) ]
  ]
]

pub sort_by_name-In : (x : Manifest) (ms : List Manifest) → In x ms → In x (sort_by_name ms)
unfolding sort_by_name
sort_by_name-In x [] i = i
sort_by_name-In x (m ∷ ms) (here e) = insert_manifest-In x m (sort_by_name ms) (here e)
sort_by_name-In x (m ∷ ms) (there i) =
    insert_manifest-In x m (sort_by_name ms) (there (sort_by_name-In x ms i))

pub In-sort_by_name : (x : Manifest) (ms : List Manifest) → In x (sort_by_name ms) → In x ms
unfolding sort_by_name
In-sort_by_name x [] i = i
In-sort_by_name x (m ∷ ms) i = elim (In-insert_manifest x m (sort_by_name ms) i) [
  | here e ↦ here e
  | there j ↦ there (In-sort_by_name x ms j)
]

is_ready-zero :
    (indegree : Map ℕ) (n m : Manifest) (c : ℕ)
    → n.name ≡ m.name
    → lookup m.name indegree ≡ some c
    → is_ready indegree n ≡ true
    → c ≡ 0
is_ready-zero indegree n m c q e r = ground (arith, ap (λ x. lookup x indegree) q)

zero-is_ready :
    (indegree : Map ℕ) (m : Manifest) → lookup m.name indegree ≡ some 0 → is_ready indegree m ≡ true
zero-is_ready indegree m e = ground arith

module _ (edges : Manifest → List Text) where
  indegrees-other :
      (x : Text) (ms : List Manifest) (indegree : Map ℕ)
      → elem x (names ms) ≡ false
      → lookup x (indegrees edges ms indegree) ≡ lookup x indegree
  unfolding indegrees
  indegrees-other x [] indegree h = refl
  indegrees-other x (m ∷ ms) indegree h = ground (
    arith,
    indegrees-other x ms (insert m.name (length (edges m)) indegree),
    lookup-insert x m.name (length (edges m)) indegree,
  )

  indegrees-In :
      (m : Manifest) (ms : List Manifest) (indegree : Map ℕ)
      → HasDistinctNames ms
      → In m ms
      → lookup m.name (indegrees edges ms indegree) ≡ some (length (edges m))
  unfolding indegrees
  indegrees-In m [] indegree d i = elim i [ ]
  indegrees-In m (n ∷ ms) indegree (d, ds) (here e) = rw e (
      indegrees-other n.name ms (insert n.name (length (edges n)) indegree) d
      ∙ ground
          (arith, lookup-insert n.name n.name (length (edges n)) indegree, text_eq_refl n.name))
  indegrees-In m (n ∷ ms) indegree (d, ds) (there i) =
      indegrees-In m ms (insert n.name (length (edges n)) indegree) ds i

  -- how often the plugins of the name depend on `d`
  abbrev weight : Text → Text → List Manifest → ℕ
  weight x d [] = 0
  weight x d (m ∷ ms) = (if text_eq x m.name then occurrences d (edges m) else 0) + weight x d ms

  all_dependents-weight :
      (x d : Text) (ms : List Manifest) (dependents : Map (List Text))
      → occurrences x (or_empty (lookup d (all_dependents edges ms dependents)))
        ≡ occurrences x (or_empty (lookup d dependents)) + weight x d ms
  unfolding all_dependents
  all_dependents-weight x d [] dependents = omega arith
  all_dependents-weight x d (m ∷ ms) dependents = ground (
    arith,
    all_dependents-weight x d ms (add_dependents m.name (edges m) dependents),
    add_dependents-occurrences x m.name d (edges m) dependents,
  )

  weight-other : (x d : Text) (ms : List Manifest) → elem x (names ms) ≡ false → weight x d ms ≡ 0
  weight-other x d [] h = refl
  weight-other x d (m ∷ ms) h = ground (arith, weight-other x d ms)

  weight-In :
      (m : Manifest) (d : Text) (ms : List Manifest)
      → HasDistinctNames ms
      → In m ms
      → weight m.name d ms ≡ occurrences d (edges m)
  weight-In m d [] q i = elim i [ ]
  weight-In m d (n ∷ ms) (q, qs) (here e) =
      ap (λ (x : Manifest). weight x.name d (n ∷ ms)) e
      ∙ ground (arith, text_eq_refl n.name, weight-other n.name d ms)
      ∙ sym (ap (λ x. occurrences d (edges x)) e)
  weight-In m d (n ∷ ms) (q, qs) (there i) =
      ground (arith, weight-In m d ms, names-In m ms i, text_eq_iff m.name n.name)

  -- The loop always comes to its end.
  pub order_of-total :
      (pending : List Manifest) → (order : List Text) × (order_of edges pending ≡ some order)
  unfolding order_of
  order_of-total pending =
      let ready = names (keep (is_ready (indegrees edges pending [])) (sort_by_name pending)) in
      kahn-total (length ready + total (all_dependents edges pending [])) ready
        (indegrees edges pending []) (all_dependents edges pending []) (omega arith)

  start-Tracks :
      (m : Manifest) (pending : List Manifest)
      → HasDistinctNames pending
      → In m pending
      → Tracks m.name
          (edges m)
          []
          []
          (indegrees edges pending [])
          (names (keep (is_ready (indegrees edges pending [])) (sort_by_name pending)))
  start-Tracks m pending d i =
      let indegree = indegrees edges pending [] in
      let sorted = sort_by_name pending in
      let e = indegrees-In m pending [] d i in
      record {
        counted = ground (arith, missing-nil (edges m));
        safe = λ h.
            let (n, j, q) = elem-names m.name (keep (is_ready indegree) sorted) h in
            let (k, r) = In-keep (is_ready indegree) sorted j in
            omega
              (arith, missing-nil (edges m), is_ready-zero indegree n m (length (edges m)) q e r);
        live = λ h.
            let z : length (edges m) ≡ 0 = omega (arith, missing-nil (edges m)) in
            let r = zero-is_ready indegree m (e ∙ ap some z) in
            let j = keep-In (is_ready indegree) sorted (sort_by_name-In m pending i) r in
            ground (arith, names-In m (keep (is_ready indegree) sorted) j);
      }

  start-Owes :
      (m : Manifest) (pending : List Manifest)
      → HasDistinctNames pending
      → In m pending
      → Owes m.name (edges m) [] (all_dependents edges pending [])
  unfolding lookup
  start-Owes m pending d i k =
      ground (arith, all_dependents-weight m.name k pending [], weight-In m k pending)

  -- For each plugin, the order that the loop gives has its dependencies before it, and leaves it
  -- out only if it leaves out one of them.
  pub order_of-Follows :
      (m : Manifest) (pending : List Manifest) (order : List Text)
      → order_of edges pending ≡ some order
      → HasDistinctNames pending
      → In m pending
      → Follows m.name (edges m) [] order
        × (missing (after [] order) (edges m) ≡ 0 → elem m.name order ≡ true)
  unfolding order_of
  order_of-Follows m pending order h d i =
      let ready = names (keep (is_ready (indegrees edges pending [])) (sort_by_name pending)) in
      let (f, g) =
        kahn-Follows m.name (edges m) (length ready + total (all_dependents edges pending [])) []
          ready (indegrees edges pending []) (all_dependents edges pending []) order h
          (start-Tracks m pending d i) (start-Owes m pending d i) in
      (f, λ z. ground (arith, g z, elem-after m.name [] order))
