-- ===== src/Rocks/Command/Installed.antt =====
-- `RocksConfig::installed` reports the highest version of each listed rock.
use stanchion.Prelude.{
  gt, ◌≡◌, ◌≢◌, ap, sym, ◌⊎◌, inl, inr, Option, none, some, List, [], ◌∷◌, arith, Text, Map, lookup,
  lookup-insert, text_eq, text_eq_iff, text_eq_refl, split, In, here, there, Option-cases,
  Bool-cases,
}
use stanchion.Rocks.Version.{RockVersion, version_cmp}
use stanchion.Rocks.Version.Order.{version_cmp-flip, version_cmp_chain}
use stanchion.Rocks.Requirement.{is_gt}
use stanchion.Rocks.Command.{row, add_version, add_row, collect}

-- The rocks of a listing, a name and a version for each line that has both.
abbrev pub push_row :
    Option (Text × RockVersion) → List (Text × RockVersion) → List (Text × RockVersion)
push_row none rest = rest
push_row (some r) rest = r ∷ rest

abbrev pub rows : List Text → List (Text × RockVersion)
rows [] = []
rows (line ∷ rest) = push_row (row (split b'\t' line)) (rows rest)

-- The map has a version of `name` that is at least `v`.
abbrev pub Reaches : Text → RockVersion → Map RockVersion → Type 0
Reaches name v m = (w : RockVersion) × (lookup name m ≡ some w) × (version_cmp v w ≢ gt)

version_cmp-ne-gt_refl : (v : RockVersion) → version_cmp v v ≢ gt
version_cmp-ne-gt_refl v = ground (arith, version_cmp-flip v v)

add_version_self :
    (n : Text) (v : RockVersion) (m : Map RockVersion) → Reaches n v (add_version n v m)
unfolding add_version
add_version_self n v m = elim (Option-cases (lookup n m)) [
  | inl e ↦ (v, ground (arith, lookup-insert n n v m, text_eq_refl n), version_cmp-ne-gt_refl v)
  | inr (w, e) ↦ elim (Bool-cases (is_gt (version_cmp v w))) [
    | inl g ↦ (v, ground (arith, lookup-insert n n v m, text_eq_refl n), version_cmp-ne-gt_refl v)
    | inr l ↦ (w, ground arith, ground arith)
  ]
]

add_version-keeps :
    (n k : Text) (v u : RockVersion) (m : Map RockVersion)
    → Reaches n u m
    → Reaches n u (add_version k v m)
unfolding add_version
add_version-keeps n k v u m (w, e, l) = elim (Bool-cases (text_eq n k)) [
  | inl same ↦ elim (Bool-cases (is_gt (version_cmp v w))) [
    | inl g ↦ (
      v,
      ground (arith, lookup-insert n k v m, text_eq_iff n k),
      ground (arith, version_cmp-flip v w, version_cmp_chain u w v),
    )
    | inr stay ↦ (w, ground (arith, text_eq_iff n k), l)
  ]
  | inr other ↦ (w, ground (arith, lookup-insert n k v m), l)
]

add_row-keeps :
    (r : Option (Text × RockVersion)) (n : Text) (u : RockVersion) (m : Map RockVersion)
    → Reaches n u m
    → Reaches n u (add_row r m)
unfolding add_row
add_row-keeps none n u m h = h
add_row-keeps (some (k, v)) n u m h = add_version-keeps n k v u m h

collect-keeps :
    (ls : List Text) (n : Text) (u : RockVersion) (m : Map RockVersion)
    → Reaches n u m
    → Reaches n u (collect ls m)
unfolding collect
collect-keeps [] n u m h = h
collect-keeps (l ∷ ls) n u m h =
    collect-keeps ls n u (add_row (row (split b'\t' l)) m)
      (add_row-keeps (row (split b'\t' l)) n u m h)

-- Of the rows of one line and of the lines after it.
push_row-split :
    (r : Option (Text × RockVersion)) {x : Text × RockVersion} {rest : List (Text × RockVersion)}
    → In x (push_row r rest)
    → (r ≡ some x) ⊎ In x rest
push_row-split none i = inr i
push_row-split (some y) (here e) = inl (ap some (sym e))
push_row-split (some y) (there i) = inr i

push_row-rest :
    (r : Option (Text × RockVersion)) {x : Text × RockVersion} {rest : List (Text × RockVersion)}
    → In x rest
    → In x (push_row r rest)
push_row-rest none i = i
push_row-rest (some y) i = there i

push_row-head :
    (r : Option (Text × RockVersion)) {x : Text × RockVersion} (rest : List (Text × RockVersion))
    → r ≡ some x
    → In x (push_row r rest)
push_row-head none rest h = absurd (ground arith)
push_row-head (some y) rest h = here (ground arith)

add_row_self :
    (r : Option (Text × RockVersion)) (n : Text) (v : RockVersion) (m : Map RockVersion)
    → r ≡ some (n, v)
    → Reaches n v (add_row r m)
unfolding add_row
add_row_self r n v m e = rw e (add_version_self n v m)

-- Every version listed for a rock is at most the one that is reported.
pub collect-Reaches :
    (ls : List Text) (n : Text) (v : RockVersion) (m : Map RockVersion)
    → In (n, v) (rows ls)
    → Reaches n v (collect ls m)
unfolding collect
collect-Reaches [] n v m i = elim i [ ]
collect-Reaches (l ∷ ls) n v m i =
    let r = row (split b'\t' l) in
    elim (push_row-split r i) [
      | inl e ↦ collect-keeps ls n v (add_row r m) (add_row_self r n v m e)
      | inr j ↦ collect-Reaches ls n v (add_row r m) j
    ]

add_row-old :
    (r : Option (Text × RockVersion)) (n : Text) {w : RockVersion} (m : Map RockVersion)
    → lookup n (add_row r m) ≡ some w
    → (r ≡ some (n, w)) ⊎ (lookup n m ≡ some w)
unfolding add_row add_version
add_row-old none n m h = inr h
add_row-old (some (k, v)) n m h = ground (arith, lookup-insert n k v m, text_eq_iff n k)

-- What is reported for a rock was listed, or was there before.
pub collect-In :
    (ls : List Text) (n : Text) {w : RockVersion} (m : Map RockVersion)
    → lookup n (collect ls m) ≡ some w
    → In (n, w) (rows ls) ⊎ (lookup n m ≡ some w)
unfolding collect
collect-In [] n m h = inr h
collect-In (l ∷ ls) n m h =
    let r = row (split b'\t' l) in
    elim (collect-In ls n (add_row r m) h) [
      | inl i ↦ inl (push_row-rest r i)
      | inr e ↦ elim (add_row-old r n m e) [
        | inl f ↦ inl (push_row-head r (rows ls) f)
        | inr g ↦ inr g
      ]
    ]
