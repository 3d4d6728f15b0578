-- ===== src/Limits/Narrowing.antt =====
-- A manifest lowers the host's ceilings and never raises them.
use stanchion.Prelude.{ℕ, ◌≤◌, Option, none, some, arith}
use stanchion.Manifest.{Budget}
use stanchion.Limits.{ResourceLimits, lower, narrow_memory, narrowed_by}

-- The first ceiling lets no more through than the second; an absent ceiling lets everything.
abbrev pub IsWithin : Option ℕ → Option ℕ → Type 0
IsWithin a none = Unit {0}
IsWithin none (some bound) = ⊥
IsWithin (some n) (some bound) = n ≤ bound

IsWithin-refl : (a : Option ℕ) → IsWithin a a
IsWithin-refl none = tt
IsWithin-refl (some n) = omega arith

IsWithin-lower : (a : Option ℕ) (n : ℕ) → IsWithin (some (lower a n)) a × (lower a n ≤ n)
IsWithin-lower none n = (tt, omega arith)
IsWithin-lower (some m) n = (ground arith, ground arith)

IsWithin-narrow_memory :
    (a b : Option ℕ) → IsWithin (narrow_memory a b) a × IsWithin (narrow_memory a b) b
IsWithin-narrow_memory a none = (IsWithin-refl a, tt)
IsWithin-narrow_memory a (some n) = IsWithin-lower a n

-- What a manifest's budget leaves is within both of the host's ceilings and within the budget's
-- own.
pub IsWithin-narrowed_by :
    (host : ResourceLimits) (budget : Budget)
    → IsWithin (narrowed_by host (some budget)).memory_bytes host.memory_bytes
      × IsWithin (narrowed_by host (some budget)).memory_bytes budget.memory_bytes
      × IsWithin (narrowed_by host (some budget)).max_instructions host.max_instructions
      × IsWithin (narrowed_by host (some budget)).max_instructions (some budget.max_instructions)
unfolding narrowed_by
IsWithin-narrowed_by host budget =
    let (a, b) = IsWithin-narrow_memory host.memory_bytes budget.memory_bytes in
    let (c, d) = IsWithin-lower host.max_instructions budget.max_instructions in (a, b, c, d)
