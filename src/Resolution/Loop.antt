-- ===== src/Resolution/Loop.antt =====
-- Kahn's loop, from the side of one plugin: its name, and the names of its dependencies.
use stanchion.Prelude.{
  ℕ, zero, suc, ◌+◌, ◌-◌, ◌≤◌, ◌≡◌, refl, true, ◌||◌, none, some, List, [], ◌∷◌, ◌++◌, ◌==◌, arith,
  if◌then◌else◌, any-append, length, length-append, Text, Map, text_eq, text_eq_iff, lookup,
  lookup-insert, insert, inl, inr, Option-cases,
}
use stanchion.Resolution.{elem, or_empty, remove_key, total, release, kahn}
use stanchion.Resolution.Counting.{
  occurrences, missing, missing-cons, missing-cons_seen, lookup-remove_key, total-remove_key,
  text_eq_sym,
}

-- how many dependents the loop has yet to see
length-release :
    (xs : List Text) (indegree : Map ℕ) (ready : List Text)
    → length (release xs indegree ready).1 ≤ length ready + length xs
unfolding release
length-release [] indegree ready = omega arith
length-release (x ∷ xs) indegree ready = elim (Option-cases (lookup x indegree)) [
  | inl e ↦ rw (e, release) (omega (arith, length-release xs indegree ready))
  | inr (c, e) ↦ ground (
    arith,
    length-release xs (insert x (c - 1) indegree) (ready ++ x ∷ []),
    length-release xs (insert x (c - 1) indegree) ready,
    length-append ready (x ∷ []),
  )
]

-- With fuel for every ready plugin and every edge left, the loop comes to its end.
pub kahn-total :
    (fuel : ℕ) (ready : List Text) (indegree : Map ℕ) (dependents : Map (List Text))
    → length ready + total dependents ≤ fuel
    → (order : List Text) × (kahn fuel ready indegree dependents ≡ some order)
unfolding kahn
kahn-total zero [] indegree dependents h = ([], refl)
kahn-total (suc fuel) [] indegree dependents h = ([], refl)
kahn-total zero (name ∷ ready) indegree dependents h = absurd (omega arith)
kahn-total (suc fuel) (name ∷ ready) indegree dependents h =
    let freed = or_empty (lookup name dependents) in
    let next = release freed indegree ready in
    let (order, e) =
      kahn-total fuel next.1 next.0 (remove_key name dependents)
        (omega (arith, length-release freed indegree ready, total-remove_key name dependents)) in
    (name ∷ order, rw (e, kahn))

-- the names seen once a whole order is taken
abbrev pub after : List Text → List Text → List Text
after seen [] = seen
after seen (n ∷ order) = after (n ∷ seen) order

pub elem-after :
    (x : Text) (seen order : List Text) → elem x (after seen order) ≡ (elem x seen || elem x order)
elem-after x seen [] = ground arith
elem-after x seen (n ∷ order) = ground (arith, elem-after x (n ∷ seen) order)

kahn-cons :
    (fuel : ℕ) (n : Text) (ready : List Text) (indegree : Map ℕ) (dependents : Map (List Text))
    (order : List Text)
    → kahn (suc fuel) (n ∷ ready) indegree dependents ≡ some order
    → (rest : List Text) × (order ≡ n ∷ rest)
      × (kahn fuel
            (release (or_empty (lookup n dependents)) indegree ready).1
            (release (or_empty (lookup n dependents)) indegree ready).0
            (remove_key n dependents)
          ≡ some rest)
unfolding kahn
kahn-cons fuel n ready indegree dependents order h =
    elim (Option-cases (
      kahn fuel (release (or_empty (lookup n dependents)) indegree ready).1
        (release (or_empty (lookup n dependents)) indegree ready).0 (remove_key n dependents))) [
          | inl e ↦ absurd (ground arith)
          | inr (rest, e) ↦ (rest, ground arith, e)
        ]

module _ (name : Text) (deps : List Text) where
  -- What the loop knows of the plugin, with `seen` taken and `rest` still to be worked off for the
  -- plugin taken last: its count is that of its missing dependencies, it is ready only with none
  -- missing, and with none missing it is ready or taken.
  pub record Tracks (seen rest : List Text) (indegree : Map ℕ) (ready : List Text) : Type 0 where
    pub counted : lookup name indegree ≡ some (missing seen deps + occurrences name rest)
    pub safe : elem name ready ≡ true → missing seen deps + occurrences name rest ≡ 0
    pub live :
        missing seen deps + occurrences name rest ≡ 0 → (elem name ready || elem name seen) ≡ true

  -- The dependents that are left over name the plugin once for each dependency not yet taken.
  abbrev pub Owes : List Text → Map (List Text) → Type 0
  Owes seen dependents =
      (d : Text)
      → occurrences name (or_empty (lookup d dependents))
        ≡ (if elem d seen then 0 else occurrences d deps)

  miss-Tracks :
      (seen : List Text) (x : Text) (rest : List Text) (indegree : Map ℕ) (ready : List Text)
      → lookup x indegree ≡ none
      → Tracks seen (x ∷ rest) indegree ready
      → Tracks seen rest indegree ready
  miss-Tracks seen x rest indegree ready e t = record {
    counted = ground (arith, text_eq_iff name x);
    safe = λ h. ground (arith, text_eq_iff name x);
    live = λ h. ground (arith, text_eq_iff name x);
  }

  step-Tracks :
      (seen : List Text) (x : Text) (rest : List Text) (indegree : Map ℕ) (ready : List Text)
      (c : ℕ)
      → lookup x indegree ≡ some c
      → Tracks seen (x ∷ rest) indegree ready
      → Tracks seen rest (insert x (c - 1) indegree) (if c - 1 == 0 then ready ++ x ∷ [] else ready)
  step-Tracks seen x rest indegree ready c e t = record {
    counted = ground (arith, text_eq_iff name x, lookup-insert name x (c - 1) indegree);
    safe = λ h. ground (arith, text_eq_iff name x, any-append (text_eq name) ready (x ∷ []));
    live = λ h. ground (arith, text_eq_iff name x, any-append (text_eq name) ready (x ∷ []));
  }

  release-Tracks :
      (seen rest : List Text) (indegree : Map ℕ) (ready : List Text)
      → Tracks seen rest indegree ready
      → Tracks seen [] (release rest indegree ready).0 (release rest indegree ready).1
  unfolding release
  release-Tracks seen [] indegree ready t = t
  release-Tracks seen (x ∷ rest) indegree ready t = elim (Option-cases (lookup x indegree)) [
    | inl e ↦
        rw (e, release)
          (release-Tracks seen rest indegree ready (miss-Tracks seen x rest indegree ready e t))
    | inr (c, e) ↦
        rw (e, release)
          (release-Tracks seen rest (insert x (c - 1) indegree)
            (if c - 1 == 0 then ready ++ x ∷ [] else ready)
            (step-Tracks seen x rest indegree ready c e t))
  ]

  take-Tracks :
      (seen : List Text) (n : Text) (ready : List Text) (indegree : Map ℕ)
      (dependents : Map (List Text))
      → Tracks seen [] indegree (n ∷ ready)
      → Owes seen dependents
      → Tracks (n ∷ seen) (or_empty (lookup n dependents)) indegree ready
  take-Tracks seen n ready indegree dependents t owes = record {
    counted = ground (arith, owes n, missing-cons seen n deps, missing-cons_seen seen n deps);
    safe = λ h. ground (arith, owes n, missing-cons seen n deps, missing-cons_seen seen n deps);
    live = λ h. ground (arith, owes n, missing-cons seen n deps, missing-cons_seen seen n deps);
  }

  take-Owes :
      (seen : List Text) (n : Text) (dependents : Map (List Text))
      → Owes seen dependents
      → Owes (n ∷ seen) (remove_key n dependents)
  take-Owes seen n dependents owes d =
      ground (arith, lookup-remove_key d n dependents, owes d, text_eq_sym d n)

  -- Wherever the plugin stands in the order, its dependencies have been taken.
  abbrev pub Follows : List Text → List Text → Type 0
  Follows seen [] = Unit {0}
  Follows seen (n ∷ order) =
      (text_eq name n ≡ true → missing seen deps ≡ 0) × Follows (n ∷ seen) order

  pub kahn-Follows :
      (fuel : ℕ) (seen ready : List Text) (indegree : Map ℕ) (dependents : Map (List Text))
      (order : List Text)
      → kahn fuel ready indegree dependents ≡ some order
      → Tracks seen [] indegree ready
      → Owes seen dependents
      → Follows seen order
        × (missing (after seen order) deps ≡ 0 → elem name (after seen order) ≡ true)
  unfolding kahn
  kahn-Follows fuel seen [] indegree dependents order h t owes =
      let e : order ≡ [] = ground arith in rw e (tt, λ m. ground (arith, t.live))
  kahn-Follows zero seen (n ∷ ready) indegree dependents order h t owes = cc
  kahn-Follows (suc fuel) seen (n ∷ ready) indegree dependents order h t owes =
      let freed = or_empty (lookup n dependents) in
      let (rest, e, h') = kahn-cons fuel n ready indegree dependents order h in
      let (f, stuck) =
        kahn-Follows fuel (n ∷ seen) (release freed indegree ready).1
          (release freed indegree ready).0 (remove_key n dependents) rest h'
          (release-Tracks (n ∷ seen) freed indegree ready
            (take-Tracks seen n ready indegree dependents t owes))
          (take-Owes seen n dependents owes) in
      rw e ((λ q. ground (arith, t.safe), f), stuck)
