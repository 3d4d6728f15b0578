-- ===== src/Guard.antt =====
-- crates/stanchion-ffi/src/guard.rs: `CallGuard`, and `enter` of crates/stanchion-ffi/src/host.rs,
-- which takes the instance's lock right after it. What one thread does is a tree of calls: a call on
-- an instance runs providers, which call instances in their turn before it comes back.
pub mod Reentry
use stanchion.Prelude.{
  ℕ, Bool, true, false, Option, none, some, List, [], ◌∷◌, ◌++◌, ◌==◌, if◌then◌else◌, any,
}

-- the calls that a body makes one after the other: `call id body next`
pub data Calls : Type 0 where
  done : Calls
  call : ℕ → Calls → Calls → Calls

pub data Ending : Type 0 where
  came_back reentrant : ℕ → Ending

-- the id that no instance has
abbrev pub none_active : ℕ
none_active = 0

-- `CallGuard::enter`, on the id that the thread is inside: the previous id, and the new one
unfoldable pub enter : ℕ → ℕ → Option (ℕ × ℕ)
enter active id = if active == id then none else some (active, id)

-- `drop`
abbrev pub leave : ℕ → ℕ → ℕ
leave previous active = previous

-- the locks that the thread holds
abbrev pub is_locked : ℕ → List ℕ → Bool
is_locked id held = any (λ h. h == id) held

-- what the calls answer, in the order in which they end, and the id that the thread is inside after
-- them; `none` where the thread waits for a lock that it holds itself
unfoldable pub run : Calls → ℕ → List ℕ → Option (List Ending × ℕ)
unfolding enter
run done active held = some ([], active)
run (call id body next) active held = elim (enter active id) [
  | none ↦ elim (run next active held) [
    | none ↦ none
    | some (answers, end) ↦ some (reentrant id ∷ answers, end)
  ]
  | some (previous, inside) ↦ elim (is_locked id held) [
    | true ↦ none
    | false ↦ elim (run body inside (id ∷ held)) [
      | none ↦ none
      | some (inner, last) ↦ elim (run next (leave previous last) held) [
        | none ↦ none
        | some (answers, end) ↦ some (inner ++ came_back id ∷ answers, end)
      ]
    ]
  ]
]
