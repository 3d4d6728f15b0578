-- ===== src/Resolution/Counting.antt =====
-- Counting the dependencies of a plugin that are still to come.
use stanchion.Prelude.{
  ℕ, suc, ◌+◌, ◌≤◌, ◌≡◌, refl, true, false, none, List, [], ◌∷◌, ◌++◌, arith, if◌then◌else◌, length,
  Text, Map, text_eq, text_eq_iff, lookup, lookup-insert, insert,
}
use stanchion.Resolution.{elem, or_empty, remove_key, add_dependents, total}

-- how often a name stands in a list
abbrev pub occurrences : Text → List Text → ℕ
occurrences x [] = 0
occurrences x (y ∷ ys) = if text_eq x y then suc (occurrences x ys) else occurrences x ys

-- how many of the names are not among those seen
abbrev pub missing : List Text → List Text → ℕ
missing seen [] = 0
missing seen (x ∷ xs) = if elem x seen then missing seen xs else suc (missing seen xs)

pub text_eq_sym : (a b : Text) → text_eq a b ≡ text_eq b a
text_eq_sym a b = ground (arith, text_eq_iff a b, text_eq_iff b a)

pub missing-cons :
    (seen : List Text) (n : Text) (xs : List Text)
    → elem n seen ≡ false
    → missing (n ∷ seen) xs + occurrences n xs ≡ missing seen xs
missing-cons seen n [] h = omega arith
missing-cons seen n (x ∷ xs) h =
    ground (arith, missing-cons seen n xs, text_eq_iff x n, text_eq_sym x n)

pub missing-cons_seen :
    (seen : List Text) (n : Text) (xs : List Text)
    → elem n seen ≡ true
    → missing (n ∷ seen) xs ≡ missing seen xs
missing-cons_seen seen n [] h = refl
missing-cons_seen seen n (x ∷ xs) h = ground (arith, missing-cons_seen seen n xs, text_eq_iff x n)

pub missing-nil : (xs : List Text) → missing [] xs ≡ length xs
missing-nil [] = refl
missing-nil (x ∷ xs) = ground (arith, missing-nil xs)

pub occurrences-append :
    (x : Text) (ys zs : List Text) → occurrences x (ys ++ zs) ≡ occurrences x ys + occurrences x zs
occurrences-append x [] zs = omega arith
occurrences-append x (y ∷ ys) zs = ground (arith, occurrences-append x ys zs)

pub lookup-remove_key {ℓ} :
    {V : Type ℓ} (j k : Text) (m : Map V)
    → lookup j (remove_key k m) ≡ (if text_eq k j then none else lookup j m)
unfolding remove_key lookup
lookup-remove_key j k [] = ground arith
lookup-remove_key j k ((i, v) ∷ m) =
    ground (arith, lookup-remove_key j k m, text_eq_iff k i, text_eq_iff j i, text_eq_iff k j)

pub total-remove_key :
    (k : Text) (m : Map (List Text))
    → total (remove_key k m) + length (or_empty (lookup k m)) ≤ total m
unfolding remove_key lookup total
total-remove_key k [] = omega arith
total-remove_key k ((j, names) ∷ m) = ground (arith, total-remove_key k m)

pub add_dependents-occurrences :
    (x name d : Text) (deps : List Text) (m : Map (List Text))
    → occurrences x (or_empty (lookup d (add_dependents name deps m)))
      ≡ occurrences x (or_empty (lookup d m)) + (if text_eq x name then occurrences d deps else 0)
unfolding add_dependents
add_dependents-occurrences x name d [] m = ground arith
add_dependents-occurrences x name d (dep ∷ deps) m = ground (
  arith,
  add_dependents-occurrences x name d deps (insert dep (or_empty (lookup dep m) ++ name ∷ []) m),
  lookup-insert d dep (or_empty (lookup dep m) ++ name ∷ []) m,
  occurrences-append x (or_empty (lookup dep m)) (name ∷ []),
  text_eq_iff d dep,
)
