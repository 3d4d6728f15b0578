-- ===== src/Rocks/Requirement/Compatible.antt =====
-- What `~>` accepts, component by component.
use stanchion.Prelude.{
  ℕ, zero, suc, ◌+◌, ◌<◌, ◌≤◌, ◌≡◌, ◌≢◌, ◌↔◌, refl, lt, eq, Bool, true, false, List, [], ◌∷◌, arith,
  length, all, u64_max,
}
use stanchion.Rocks.Version.Order.{version_cmp-wide, part_beyond}
use stanchion.Rocks.Version.{
  Part, number, word, part_cmp, RockVersion, part, cmp_parts, bump_last, next_compatible,
  version_cmp,
}
use stanchion.Rocks.Requirement.{compatible, operator_matches}

abbrev is_number : Part → Bool
is_number (number _) = true
is_number (word _) = false

-- No component of the version is text.
abbrev pub IsNumeric : List Part → Type 0
IsNumeric ps = all is_number ps ≡ true

-- The last component is a number that can still be counted up.
abbrev pub HasNext : List Part → Type 0
HasNext [] = ⊥
HasNext (number n ∷ []) = n < u64_max
HasNext (word _ ∷ []) = ⊥
HasNext (_ ∷ q ∷ ps) = HasNext (q ∷ ps)

length-bump_last : (ps : List Part) → length (bump_last ps) ≡ length ps
length-bump_last [] = refl
length-bump_last (p ∷ []) = refl
length-bump_last (p ∷ q ∷ ps) = omega (arith, length-bump_last (q ∷ ps))

part-bump_last_before :
    (ps : List Part) (i : ℕ) → suc i < length ps → part (bump_last ps) i ≡ part ps i
part-bump_last_before [] i h = absurd (omega arith)
part-bump_last_before (p ∷ []) i h = absurd (omega arith)
part-bump_last_before (p ∷ q ∷ ps) zero h = refl
part-bump_last_before (p ∷ q ∷ ps) (suc i) h = part-bump_last_before (q ∷ ps) i (omega arith)

part-bump_last_at :
    (ps : List Part) (i : ℕ)
    → HasNext ps
    → suc i ≡ length ps
    → (n : ℕ) × (part ps i ≡ number n) × (part (bump_last ps) i ≡ number (n + 1))
part-bump_last_at [] i h e = absurd h
part-bump_last_at (number n ∷ []) zero h e = (n, refl, ground arith)
part-bump_last_at (number n ∷ []) (suc i) h e = absurd (omega arith)
part-bump_last_at (word t ∷ []) i h e = absurd h
part-bump_last_at (p ∷ q ∷ ps) zero h e = absurd (omega arith)
part-bump_last_at (number _ ∷ q ∷ ps) (suc i) h e = part-bump_last_at (q ∷ ps) i h (omega arith)
part-bump_last_at (word _ ∷ q ∷ ps) (suc i) h e = part-bump_last_at (q ∷ ps) i h (omega arith)

part-IsNumeric : (ps : List Part) (i : ℕ) → IsNumeric ps → (n : ℕ) × (part ps i ≡ number n)
part-IsNumeric [] i h = (0, refl)
part-IsNumeric (number n ∷ ps) zero h = (n, refl)
part-IsNumeric (number n ∷ ps) (suc i) h = part-IsNumeric ps i h
part-IsNumeric (word t ∷ ps) i h = cc

-- A numeric version never sorts below zeros.
cmp_parts-ne-lt :
    (c ps : List Part) (rounds i : ℕ) → IsNumeric c → length ps ≤ i → cmp_parts c ps rounds i ≢ lt
unfolding cmp_parts part_cmp
cmp_parts-ne-lt c ps zero i h k = ground arith
cmp_parts-ne-lt c ps (suc rounds) i h k =
    let (n, e) = part-IsNumeric c i h in
    ground (arith, e, part_beyond ps i k, cmp_parts-ne-lt c ps rounds (suc i) h (omega arith))

module _ (c ps : List Part) (numeric : IsNumeric c) (next : HasNext ps) where
  -- with `k` components of `ps` left
  agrees :
      (n k i : ℕ)
      → k + i ≡ length ps
      → 0 < k
      → k ≤ n
      → cmp_parts c ps n i ≢ lt
      → cmp_parts c (bump_last ps) n i ≡ lt
      → cmp_parts c ps k i ≡ eq
  unfolding cmp_parts part_cmp
  agrees zero k i e pos le low high = absurd (omega arith)
  agrees (suc n) zero i e pos le low high = absurd (omega arith)
  agrees (suc n) (suc zero) i e pos le low high =
      let (m, f) = part-IsNumeric c i numeric in
      let (x, g, h) = part-bump_last_at ps i next (omega arith) in
      let tail =
        cmp_parts-ne-lt c (bump_last ps) n (suc i) numeric (omega (arith, length-bump_last ps)) in
      ground (arith, f, g, h, tail)
  agrees (suc n) (suc (suc k)) i e pos le low high = ground (
    arith,
    part-bump_last_before ps i (omega arith),
    agrees n (suc k) (suc i) (omega arith) (omega arith) (omega arith),
  )

  stays_below :
      (n k i : ℕ)
      → k + i ≡ length ps
      → 0 < k
      → k ≤ n
      → cmp_parts c ps k i ≡ eq
      → cmp_parts c (bump_last ps) n i ≡ lt
  unfolding cmp_parts part_cmp
  stays_below zero k i e pos le h = absurd (omega arith)
  stays_below (suc n) zero i e pos le h = absurd (omega arith)
  stays_below (suc n) (suc zero) i e pos le h =
      let (m, f) = part-IsNumeric c i numeric in
      let (x, g, b) = part-bump_last_at ps i next (omega arith) in ground (arith, f, g, b)
  stays_below (suc n) (suc (suc k)) i e pos le h = ground (
    arith,
    part-bump_last_before ps i (omega arith),
    stays_below n (suc k) (suc i) (omega arith) (omega arith) (omega arith),
  )

HasNext-pos : (ps : List Part) → HasNext ps → 0 < length ps
HasNext-pos [] h = absurd h
HasNext-pos (p ∷ ps) h = omega arith

-- `~> v` accepts a numeric version exactly when it is at least `v` and has every component that
-- `v` spells out, provided that the last of these is a number that can be counted up.
pub compatible_iff :
    (v c : RockVersion)
    → IsNumeric c.parts
    → HasNext v.parts
    → (operator_matches compatible v c ≡ true)
      ↔ ((version_cmp c v ≢ lt) × (cmp_parts c.parts v.parts (length v.parts) 0 ≡ eq))
unfolding operator_matches next_compatible
compatible_iff v c numeric next =
    let n = length c.parts + length v.parts in
    let k = length v.parts in
    let pos = HasNext-pos v.parts next in
    let low = version_cmp-wide c v n (omega arith) (omega arith) in
    let high =
      version_cmp-wide c (next_compatible v) n (omega arith)
        (omega (arith, length-bump_last v.parts)) in
    let up = agrees c.parts v.parts numeric next n k 0 (omega arith) pos (omega arith) in
    let down = stays_below c.parts v.parts numeric next n k 0 (omega arith) pos (omega arith) in
    (ground (arith, low, high, up), ground (arith, low, high, down))
