-- ===== src/Resolution/Arranging.antt =====
-- From an order of names to the manifests in that order and the reports of a cycle.
use stanchion.Prelude.{
  ◌≡◌, ◌≢◌, refl, sym, ap, ◌∙◌, subst, true, false, ◌||◌, none, some, List, [], ◌∷◌, map, arith,
  if◌then◌else◌, In, here, there, Text, Map, text_eq, text_eq_iff, text_eq_refl, lookup,
  lookup-insert, insert, ◌⊎◌, inl, inr, Bool-cases, Option-cases,
}
use stanchion.Manifest.{Manifest}
use stanchion.Registry.{LoadFailure, dependency_cycle}
use stanchion.Resolution.{
  elem, remove_key, by_name, report_cycle, take_in_order, failure_of, insert_manifest, sort_by_name,
}
use stanchion.Resolution.Counting.{missing, lookup-remove_key}
use stanchion.Resolution.Start.{names, HasDistinctNames}

abbrev pub failure_names : List LoadFailure → List Text
failure_names fs = map (λ (f : LoadFailure). f.name) fs

pub missing-In :
    (seen : List Text) (d : Text) (xs : List Text)
    → missing seen xs ≡ 0
    → In d xs
    → elem d seen ≡ true
missing-In seen d [] h i = elim i [ ]
missing-In seen d (x ∷ xs) h (here e) = ap (λ y. elem y seen) e ∙ ground arith
missing-In seen d (x ∷ xs) h (there i) = missing-In seen d xs (ground arith) i

pub missing-witness :
    (seen xs : List Text) → missing seen xs ≢ 0 → (d : Text) × In d xs × (elem d seen ≡ false)
missing-witness seen [] h = absurd (h refl)
missing-witness seen (x ∷ xs) h = elim (Bool-cases (elem x seen)) [
  | inl e ↦ let (d, i, q) = missing-witness seen xs (ground arith) in (d, there i, q)
  | inr e ↦ (x, here refl, e)
]

elem-insert_manifest :
    (x : Text) (m : Manifest) (ms : List Manifest)
    → elem x (names (insert_manifest m ms)) ≡ (text_eq x m.name || elem x (names ms))
unfolding insert_manifest
elem-insert_manifest x m [] = refl
elem-insert_manifest x m (n ∷ ms) = ground (arith, elem-insert_manifest x m ms)

pub elem-sort_by_name :
    (x : Text) (ms : List Manifest) → elem x (names (sort_by_name ms)) ≡ elem x (names ms)
unfolding sort_by_name
elem-sort_by_name x [] = refl
elem-sort_by_name x (m ∷ ms) =
    ground (arith, elem-insert_manifest x m (sort_by_name ms), elem-sort_by_name x ms)

insert_manifest-HasDistinctNames :
    (m : Manifest) (ms : List Manifest)
    → HasDistinctNames (m ∷ ms)
    → HasDistinctNames (insert_manifest m ms)
unfolding insert_manifest
insert_manifest-HasDistinctNames m [] d = d
insert_manifest-HasDistinctNames m (n ∷ ms) d = ground (
  arith,
  insert_manifest-HasDistinctNames m ms,
  elem-insert_manifest n.name m ms,
  text_eq_iff m.name n.name,
  text_eq_iff n.name m.name,
)

pub sort_by_name-HasDistinctNames :
    (ms : List Manifest) → HasDistinctNames ms → HasDistinctNames (sort_by_name ms)
unfolding sort_by_name
sort_by_name-HasDistinctNames [] d = tt
sort_by_name-HasDistinctNames (m ∷ ms) (d, ds) =
    insert_manifest-HasDistinctNames m (sort_by_name ms)
      (elem-sort_by_name m.name ms ∙ d, sort_by_name-HasDistinctNames ms ds)

by_name-other :
    (k : Text) (ms : List Manifest) (index : Map Manifest)
    → elem k (names ms) ≡ false
    → lookup k (by_name ms index) ≡ lookup k index
unfolding by_name
by_name-other k [] index h = refl
by_name-other k (m ∷ ms) index h =
    ground (arith, by_name-other k ms (insert m.name m index), lookup-insert k m.name m index)

pub by_name-In :
    (m : Manifest) (ms : List Manifest) (index : Map Manifest)
    → HasDistinctNames ms
    → In m ms
    → lookup m.name (by_name ms index) ≡ some m
unfolding by_name
by_name-In m [] index d i = elim i [ ]
by_name-In m (n ∷ ms) index (d, ds) (here e) =
    subst (λ (x : Manifest). lookup x.name (by_name ms (insert n.name n index)) ≡ some x) (sym e)
      (by_name-other n.name ms (insert n.name n index) d
        ∙ ground (arith, lookup-insert n.name n.name n index, text_eq_refl n.name))
by_name-In m (n ∷ ms) index (d, ds) (there i) = by_name-In m ms (insert n.name n index) ds i

pub In-by_name :
    (k : Text) (m : Manifest) (ms : List Manifest) (index : Map Manifest)
    → lookup k (by_name ms index) ≡ some m
    → ((m.name ≡ k) × In m ms) ⊎ (lookup k index ≡ some m)
unfolding by_name
In-by_name k m [] index h = inr h
In-by_name k m (n ∷ ms) index h = elim (In-by_name k m ms (insert n.name n index) h) [
  | inl (e, i) ↦ inl (e, there i)
  | inr e ↦ elim (Bool-cases (text_eq k n.name)) [
    | inl q ↦
        let p : n ≡ m = ground (arith, lookup-insert k n.name n index) in
        inl (ap (λ (x : Manifest). x.name) (sym p) ∙ sym ((text_eq_iff k n.name).0 q), here (sym p))
    | inr q ↦ inr (ground (arith, lookup-insert k n.name n index))
  ]
]

lookup-same {ℓ} :
    {V : Type ℓ} (k n : Text) (index : Map V) → text_eq k n ≡ true → lookup k index ≡ lookup n index
lookup-same k n index h = ap (λ x. lookup x index) ((text_eq_iff k n).0 h)

pub report_cycle-lookup :
    (cycle : List Text) (k : Text) (ns : List Text) (index : Map Manifest)
    → lookup k (report_cycle cycle ns index).0 ≡ (if elem k ns then none else lookup k index)
unfolding report_cycle
report_cycle-lookup cycle k [] index = refl
report_cycle-lookup cycle k (n ∷ ns) index = elim (Option-cases (lookup n index)) [
  | inl e ↦
      rw (e, report_cycle)
        (ground (arith, report_cycle-lookup cycle k ns index, lookup-same k n index))
  | inr (m, e) ↦
      rw (e, report_cycle)
        (ground (
          arith,
          report_cycle-lookup cycle k ns (remove_key n index),
          lookup-remove_key k n index,
          text_eq_iff k n,
          text_eq_iff n k,
        ))
]

-- Each name of the cycle that is in the index is reported, and nothing else is.
pub report_cycle-In :
    (cycle : List Text) (k : Text) (m : Manifest) (ns : List Text) (index : Map Manifest)
    → lookup k index ≡ some m
    → elem k ns ≡ true
    → In (failure_of m (dependency_cycle cycle)) (report_cycle cycle ns index).1
unfolding report_cycle
report_cycle-In cycle k m [] index h i = cc
report_cycle-In cycle k m (n ∷ ns) index h i = elim (Option-cases (lookup n index)) [
  | inl e ↦
      rw (e, report_cycle)
        (report_cycle-In cycle k m ns index h (ground (arith, lookup-same k n index)))
  | inr (m', e) ↦
      rw (e, report_cycle)
        (elim (Bool-cases (text_eq k n)) [
          | inl q ↦
              let same : m ≡ m' = ground (arith, lookup-same k n index) in
              here (ap (λ x. failure_of x (dependency_cycle cycle)) same)
          | inr q ↦ there (
              report_cycle-In cycle k m ns (remove_key n index)
                (ground (arith, lookup-remove_key k n index, text_eq_iff k n, text_eq_iff n k))
                (ground arith))
        ])
]

pub In-report_cycle :
    (cycle : List Text) (f : LoadFailure) (ns : List Text) (index : Map Manifest)
    → In f (report_cycle cycle ns index).1
    → (k : Text) × (m : Manifest) × (f ≡ failure_of m (dependency_cycle cycle))
      × (lookup k index ≡ some m)
      × (elem k ns ≡ true)
unfolding report_cycle
In-report_cycle cycle f [] index i = elim i [ ]
In-report_cycle cycle f (n ∷ ns) index i = elim (Option-cases (lookup n index)) [
  | inl e ↦
      let (k, m, q, l, h) = In-report_cycle cycle f ns index (rw (e, report_cycle) at i) in
      (k, m, q, l, ground arith)
  | inr (m', e) ↦ elim (rw (e, report_cycle) at i) [
    | here q ↦ (n, m', q, e, ground (arith, text_eq_refl n))
    | there j ↦
        let (k, m, q, l, h) = In-report_cycle cycle f ns (remove_key n index) j in
        (k, m, q, ground (arith, lookup-remove_key k n index), ground arith)
  ]
]

pub take_in_order-In :
    (k : Text) (m : Manifest) (order : List Text) (index : Map Manifest)
    → lookup k index ≡ some m
    → elem k order ≡ true
    → In m (take_in_order order index)
unfolding take_in_order
take_in_order-In k m [] index h i = cc
take_in_order-In k m (n ∷ order) index h i = elim (Option-cases (lookup n index)) [
  | inl e ↦
      rw (e, take_in_order)
        (take_in_order-In k m order index h (ground (arith, lookup-same k n index)))
  | inr (m', e) ↦
      rw (e, take_in_order)
        (elim (Bool-cases (text_eq k n)) [
          | inl q ↦ here (ground (arith, lookup-same k n index))
          | inr q ↦ there (
              take_in_order-In k m order (remove_key n index)
                (ground (arith, lookup-remove_key k n index, text_eq_iff k n, text_eq_iff n k))
                (ground arith))
        ])
]

pub In-take_in_order :
    (m : Manifest) (order : List Text) (index : Map Manifest)
    → In m (take_in_order order index)
    → (k : Text) × (lookup k index ≡ some m) × (elem k order ≡ true)
unfolding take_in_order
In-take_in_order m [] index i = elim i [ ]
In-take_in_order m (n ∷ order) index i = elim (Option-cases (lookup n index)) [
  | inl e ↦
      let (k, l, h) = In-take_in_order m order index (rw (e, take_in_order) at i) in
      (k, l, ground arith)
  | inr (m', e) ↦ elim (rw (e, take_in_order) at i) [
    | here q ↦ (n, e ∙ ap some (sym q), ground (arith, text_eq_refl n))
    | there j ↦
        let (k, l, h) = In-take_in_order m order (remove_key n index) j in
        (k, ground (arith, lookup-remove_key k n index), ground arith)
  ]
]
