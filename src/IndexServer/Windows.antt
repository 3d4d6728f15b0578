-- ===== src/IndexServer/Windows.antt =====
-- The windows that the server divides time into, and how long what it serves stays fresh.
use native.Mathlib.Nat.{mod-add-div', mod-lt, div-mul-le_self}
use stanchion.Prelude.{◌⊎◌, inl, inr, Bool-cases, ltb, ℕ, ◌+◌, ◌*◌, ◌/◌, ◌≤◌, ◌<◌, ◌≡◌, arith}
use stanchion.IndexServer.{
  second, max_instant, clamp_ttl, ttl_seconds, window_start, window_end, remaining,
}

-- A lifetime that the server can be configured with.
abbrev pub IsTtl : ℕ → Type 0
IsTtl ttl = 60 * second ≤ ttl

pub clamp_ttl-IsTtl : (ttl : ℕ) → IsTtl (clamp_ttl ttl)
unfolding clamp_ttl
clamp_ttl-IsTtl ttl = ground arith

ttl_seconds-le : (ttl : ℕ) → IsTtl ttl → (0 < ttl_seconds ttl) × (ttl_seconds ttl * second ≤ ttl)
unfolding ttl_seconds
ttl_seconds-le ttl h = ground arith

ttl_seconds_bounds :
    (ttl : ℕ)
    → IsTtl ttl
    → (ttl_seconds ttl * second ≤ ttl) × (ttl < ttl_seconds ttl * second + second)
unfolding ttl_seconds
ttl_seconds_bounds ttl h = ground arith

ttl_seconds-pos : (ttl : ℕ) → 0 < ttl_seconds ttl
unfolding ttl_seconds
ttl_seconds-pos ttl = ground arith

-- The seconds that are left end the window.
remaining-ends :
    (ttl now : ℕ)
    → now / second + remaining ttl now
      ≡ now / second / ttl_seconds ttl * ttl_seconds ttl + ttl_seconds ttl
unfolding remaining
remaining-ends ttl now =
    let t = ttl_seconds ttl in
    omega (arith, mod-add-div' (now / second) t, mod-lt (now / second) (ttl_seconds-pos ttl))

pub remaining-pos : (ttl now : ℕ) → 0 < remaining ttl now
unfolding remaining
remaining-pos ttl now =
    let t = ttl_seconds ttl in omega (arith, mod-lt (now / second) (ttl_seconds-pos ttl))

window-bounds :
    (ttl now : ℕ)
    → IsTtl ttl
    → (now / second + remaining ttl now) * second ≤ window_start ttl now + ttl
unfolding window_start
window-bounds ttl now h = omega (arith, remaining-ends ttl now, (ttl_seconds-le ttl h).1)

pub window_start-le : (ttl now : ℕ) → window_start ttl now ≤ now
unfolding window_start
window_start-le ttl now = let t = ttl_seconds ttl in omega (arith, div-mul-le_self (now / second) t)

-- An instant that comes more than a second before the seconds left have passed is in the window.
pub window_end-ge :
    (ttl now later : ℕ)
    → IsTtl ttl
    → later + second ≤ now + remaining ttl now * second
    → later ≤ max_instant
    → later ≤ window_end ttl now
unfolding window_end
window_end-ge ttl now later h k l = let bound = window-bounds ttl now h in ground (arith)

-- So is every instant of the window itself.
pub window_end-now : (ttl now : ℕ) → IsTtl ttl → now ≤ max_instant → now ≤ window_end ttl now
unfolding window_end
window_end-now ttl now h l =
    let bound = window-bounds ttl now h in let left = remaining-pos ttl now in ground (arith)

-- The window ends less than a second after the seconds left have passed, and, but for the last
-- instant there is, less than a second before.
pub window_end_bounds :
    (ttl now : ℕ)
    → IsTtl ttl
    → (window_end ttl now < now + remaining ttl now * second + second)
      × ((window_end ttl now ≡ max_instant)
          ⊎ (now + remaining ttl now * second < window_end ttl now + second))
unfolding window_end window_start
window_end_bounds ttl now h =
    let ends = remaining-ends ttl now in
    let whole = ttl_seconds_bounds ttl h in
    (
      ground arith,
      elim (Bool-cases (ltb max_instant (window_start ttl now + ttl))) [
        | inl e ↦ inl (ground arith)
        | inr e ↦ inr (ground arith)
      ],
    )

-- Two instants of one window.
abbrev pub IsSameWindow : ℕ → ℕ → ℕ → Type 0
IsSameWindow ttl now later = window_start ttl now ≡ window_start ttl later

pub window_end_same :
    (ttl now later : ℕ) → IsSameWindow ttl now later → window_end ttl now ≡ window_end ttl later
unfolding window_end
window_end_same ttl now later h = rw h
