-- ===== src/Resolution/Leftovers.antt =====
-- The plugins that the order leaves out, and those that it gives.
use stanchion.Prelude.{
  ◌≡◌, sym, ap, ◌∙◌, Bool, true, not, ◌&&◌, none, some, List, [], ◌∷◌, arith, if◌then◌else◌, keep,
  In, Text, Map, text_eq, text_eq_iff, lookup, inl, inr, Bool-cases,
}
use stanchion.Manifest.{Manifest}
use stanchion.Registry.{LoadFailure}
use stanchion.Resolution.{elem, by_name, report_cycle, take_in_order, sort_by_name, arrange}
use stanchion.Resolution.Start.{
  names, HasDistinctNames, elem-map, map-In, elem-names, names-In, sort_by_name-In, In-sort_by_name,
}
use stanchion.Resolution.Arranging.{
  failure_names, elem-sort_by_name, sort_by_name-HasDistinctNames, by_name-In, In-by_name,
  report_cycle-lookup, report_cycle-In, In-report_cycle, take_in_order-In, In-take_in_order,
}

-- the names that the order leaves out
abbrev pub left_out : List Manifest → List Text → List Text
left_out pending order = keep (λ name. not (elem name order)) (names (sort_by_name pending))

-- the index once the cycle is reported
abbrev pub index_of : List Manifest → List Text → Map Manifest
index_of pending order =
    (report_cycle (left_out pending order) (left_out pending order)
      (by_name (sort_by_name pending) [])).0

pub elem-keep :
    (p : Text → Bool) (x : Text) (xs : List Text) → elem x (keep p xs) ≡ (p x && elem x xs)
elem-keep p x [] = ground arith
elem-keep p x (y ∷ ys) =
    ground (arith, elem-keep p x ys, λ (h : text_eq x y ≡ true). ap p ((text_eq_iff x y).0 h))

pub elem-left_out :
    (x : Text) (pending : List Manifest) (order : List Text)
    → elem x (left_out pending order) ≡ (not (elem x order) && elem x (names pending))
elem-left_out x pending order = ground (
  arith,
  elem-keep (λ name. not (elem name order)) x (names (sort_by_name pending)),
  elem-sort_by_name x pending,
)

pub index_of-In :
    (m : Manifest) (pending : List Manifest) (order : List Text)
    → HasDistinctNames pending
    → In m pending
    → lookup m.name (index_of pending order) ≡ (if elem m.name order then some m else none)
index_of-In m pending order d i = ground (
  arith,
  report_cycle-lookup (left_out pending order) m.name (left_out pending order)
      (by_name (sort_by_name pending) []),
  elem-left_out m.name pending order,
  names-In m pending i,
  by_name-In m (sort_by_name pending) [] (sort_by_name-HasDistinctNames pending d)
      (sort_by_name-In m pending i),
)

pub In-index_of :
    (k : Text) (m : Manifest) (pending : List Manifest) (order : List Text)
    → lookup k (index_of pending order) ≡ some m
    → (m.name ≡ k) × In m pending
unfolding lookup
In-index_of k m pending order h =
    elim (In-by_name k m (sort_by_name pending) [] (
      ground (
        arith,
        report_cycle-lookup (left_out pending order) k (left_out pending order)
            (by_name (sort_by_name pending) []),
      ))) [ inl (e, i) ↦ (e, In-sort_by_name m pending i) | inr e ↦ absurd (ground arith) ]

pub by_name-key :
    (k : Text) (m : Manifest) (pending : List Manifest)
    → lookup k (by_name (sort_by_name pending) []) ≡ some m
    → (m.name ≡ k) × In m pending
unfolding lookup
by_name-key k m pending h = elim (In-by_name k m (sort_by_name pending) [] h) [
  | inl (e, i) ↦ (e, In-sort_by_name m pending i)
  | inr e ↦ absurd (ground arith)
]

pub taken-In :
    (m : Manifest) (pending : List Manifest) (order : List Text)
    → HasDistinctNames pending
    → In m pending
    → elem m.name (names (take_in_order order (index_of pending order))) ≡ elem m.name order
taken-In m pending order d i =
    let index = index_of pending order in
    elim (Bool-cases (elem m.name order)) [
      | inl e ↦
          let l : lookup m.name index ≡ some m = ground (arith, index_of-In m pending order d i) in
          names-In m (take_in_order order index) (take_in_order-In m.name m order index l e) ∙ sym e
      | inr e ↦ elim (Bool-cases (elem m.name (names (take_in_order order index)))) [
        | inr q ↦ q ∙ sym e
        | inl q ↦
            let (n, j, same) = elem-names m.name (take_in_order order index) q in
            let (k, l, h) = In-take_in_order n order index j in
            absurd (
              ground
                (arith, ap (λ x. elem x order) (sym (In-index_of k n pending order l).0 ∙ same)))
      ]
    ]

pub cycled-In :
    (m : Manifest) (pending : List Manifest) (order : List Text)
    → HasDistinctNames pending
    → In m pending
    → elem m.name (failure_names (arrange pending order).1) ≡ not (elem m.name order)
unfolding arrange
cycled-In m pending order d i =
    let cycle = left_out pending order in
    let index = by_name (sort_by_name pending) [] in
    let left = elem-left_out m.name pending order in
    elim (Bool-cases (elem m.name order)) [
      | inr e ↦
          let l =
            by_name-In m (sort_by_name pending) [] (sort_by_name-HasDistinctNames pending d)
              (sort_by_name-In m pending i) in
          let j =
            report_cycle-In cycle m.name m cycle index l (ground (arith, names-In m pending i)) in
          map-In (λ (f : LoadFailure). f.name) _ (report_cycle cycle cycle index).1 j ∙ ground arith
      | inl e ↦ elim (Bool-cases (elem m.name (failure_names (report_cycle cycle cycle index).1))) [
        | inr q ↦ q ∙ ground arith
        | inl q ↦
            let (f, j, same) =
              elem-map (λ (f : LoadFailure). f.name) m.name (report_cycle cycle cycle index).1 q in
            let (k, n, is, l, h) = In-report_cycle cycle f cycle index j in
            let named = by_name-key k n pending l in
            absurd (
              ground (
                arith,
                ap (λ x. elem x cycle)
                    (sym named.0 ∙ sym (ap (λ (x : LoadFailure). x.name) is) ∙ same),
              ))
      ]
    ]
