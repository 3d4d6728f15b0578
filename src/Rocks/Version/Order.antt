-- ===== src/Rocks/Version/Order.antt =====
-- The order of rock versions is a total preorder, and what it does not tell apart.
use stanchion.Prelude.{
  ℕ, zero, suc, ◌+◌, ◌≤◌, ◌≡◌, ◌≢◌, refl, compare, Ordering, lt, eq, gt, List, [], ◌∷◌, arith,
  length, flip, text_cmp-flip, text_cmp_refl, eq_of_text_cmp, text_cmp_trans,
}
use stanchion.Rocks.Version.{
  Part, number, word, part_cmp, RockVersion, part, cmp_parts, then_with, max, unwrap_or_zero,
  version_cmp,
}

pub part_cmp-flip : (p q : Part) → part_cmp q p ≡ flip (part_cmp p q)
unfolding part_cmp
part_cmp-flip (number a) (number b) = ground arith
part_cmp-flip (word a) (word b) = text_cmp-flip a b
part_cmp-flip (number a) (word b) = refl
part_cmp-flip (word a) (number b) = refl

pub eq_of_part_cmp : (p q : Part) → part_cmp p q ≡ eq → p ≡ q
unfolding part_cmp
eq_of_part_cmp (number a) (number b) h = ground arith
eq_of_part_cmp (word a) (word b) h = ground (arith, eq_of_text_cmp a b)
eq_of_part_cmp (number a) (word b) h = cc
eq_of_part_cmp (word a) (number b) h = cc

pub part_cmp_refl : (p : Part) → part_cmp p p ≡ eq
unfolding part_cmp
part_cmp_refl (number a) = ground arith
part_cmp_refl (word a) = text_cmp_refl a

part_cmp_trans : (p q r : Part) → part_cmp p q ≡ lt → part_cmp q r ≡ lt → part_cmp p r ≡ lt
unfolding part_cmp
part_cmp_trans (number a) (number b) (number c) h k = ground arith
part_cmp_trans (word a) (word b) (word c) h k = text_cmp_trans a b c h k
part_cmp_trans (word a) q (number c) h k = refl
part_cmp_trans (number a) (word b) r h k = cc
part_cmp_trans (number a) (number b) (word c) h k = cc
part_cmp_trans (word a) (number b) (word c) h k = cc

cmp_parts-flip :
    (a b : List Part) (rounds index : ℕ)
    → cmp_parts b a rounds index ≡ flip (cmp_parts a b rounds index)
unfolding cmp_parts
cmp_parts-flip a b zero index = refl
cmp_parts-flip a b (suc n) index =
    ground (arith, part_cmp-flip (part a index) (part b index), cmp_parts-flip a b n (suc index))

-- Chaining of two comparisons: what `x ? y` and `y ? z` say of `x ? z`.
abbrev Chains : Ordering → Ordering → Ordering → Type 0
Chains o p r = o ≢ gt → p ≢ gt → r ≡ then_with o p

part_cmp_chain : (p q r : Part) → Chains (part_cmp p q) (part_cmp q r) (part_cmp p r)
part_cmp_chain p q r h k =
    ground (arith, eq_of_part_cmp p q, eq_of_part_cmp q r, part_cmp_trans p q r)

cmp_parts_chain :
    (a b c : List Part) (n index : ℕ)
    → Chains (cmp_parts a b n index) (cmp_parts b c n index) (cmp_parts a c n index)
unfolding cmp_parts
cmp_parts_chain a b c zero index h k = refl
cmp_parts_chain a b c (suc n) index h k = ground (
  arith,
  part_cmp_chain (part a index) (part b index) (part c index),
  cmp_parts_chain a b c n (suc index),
  eq_of_part_cmp (part a index) (part b index),
  eq_of_part_cmp (part b index) (part c index),
)

pub part_beyond : (a : List Part) (index : ℕ) → length a ≤ index → part a index ≡ number 0
part_beyond [] index h = refl
part_beyond (p ∷ a) zero h = absurd (omega arith)
part_beyond (p ∷ a) (suc index) h = part_beyond a index (omega arith)

cmp_parts_beyond :
    (a b : List Part) (n index : ℕ)
    → length a ≤ index
    → length b ≤ index
    → cmp_parts a b n index ≡ eq
unfolding cmp_parts part_cmp
cmp_parts_beyond a b zero index h k = refl
cmp_parts_beyond a b (suc n) index h k = ground (
  arith,
  part_beyond a index h,
  part_beyond b index k,
  cmp_parts_beyond a b n (suc index) (omega arith) (omega arith),
)

-- More rounds than there are components change nothing.
pub cmp_parts_more :
    (a b : List Part) (m n index : ℕ)
    → length a ≤ m + index
    → length b ≤ m + index
    → m ≤ n
    → cmp_parts a b n index ≡ cmp_parts a b m index
unfolding cmp_parts
cmp_parts_more a b zero n index h k l = cmp_parts_beyond a b n index (omega arith) (omega arith)
cmp_parts_more a b (suc m) zero index h k l = absurd (omega arith)
cmp_parts_more a b (suc m) (suc n) index h k l =
    ground (arith, cmp_parts_more a b m n (suc index) (omega arith) (omega arith) (omega arith))

-- The comparison over any number of rounds that reaches past both versions.
abbrev pub cmp_wide : RockVersion → RockVersion → ℕ → Ordering
cmp_wide v w n =
    then_with (cmp_parts v.parts w.parts n 0)
      (compare (unwrap_or_zero v.revision) (unwrap_or_zero w.revision))

pub version_cmp-wide :
    (v w : RockVersion) (n : ℕ)
    → length v.parts ≤ n
    → length w.parts ≤ n
    → version_cmp v w ≡ cmp_wide v w n
unfolding version_cmp
version_cmp-wide v w n h k =
    let m = max (length v.parts) (length w.parts) in
    let e = cmp_parts_more v.parts w.parts m n 0 (ground arith) (ground arith) (ground arith) in
    ground (arith, e)

-- Comparing the other way round gives the flipped answer, so any two versions are comparable.
pub version_cmp-flip : (v w : RockVersion) → version_cmp w v ≡ flip (version_cmp v w)
version_cmp-flip v w =
    let n = length v.parts + length w.parts in
    ground (
      arith,
      version_cmp-wide v w n (omega arith) (omega arith),
      version_cmp-wide w v n (omega arith) (omega arith),
      cmp_parts-flip v.parts w.parts n 0,
    )

-- `v ≤ w ≤ x` gives `v ≤ x`, strictly where one of the two steps is strict.
pub version_cmp_chain :
    (v w x : RockVersion)
    → version_cmp v w ≢ gt
    → version_cmp w x ≢ gt
    → version_cmp v x ≡ then_with (version_cmp v w) (version_cmp w x)
version_cmp_chain v w x h k =
    let n = length v.parts + length w.parts + length x.parts in
    ground (
      arith,
      version_cmp-wide v w n (omega arith) (omega arith),
      version_cmp-wide w x n (omega arith) (omega arith),
      version_cmp-wide v x n (omega arith) (omega arith),
      cmp_parts_chain v.parts w.parts x.parts n 0,
    )
