-- ===== src/Package/Confining.antt =====
-- Where an unpacked file can be written.
use stanchion.Prelude.{
  ◌≡◌, refl, sym, ap, ◌∙◌, subst, Bool, true, false, not, ◌&&◌, inl, inr, Option, some, List, [],
  ◌∷◌, arith, ◌==◌, all, In, here, there, Text, codes, text_eq, is_empty, split, Bool-cases,
  Option-cases,
}
use stanchion.Manifest.{
  Component, root_dir, cur_dir, parent_dir, normal, component, components, push_component,
  later_components, first_components,
}
use stanchion.Package.{safe_parts, join_parts, safe_relative}

-- A plain name: not empty, no `.` or `..`, and without a separator.
abbrev pub is_plain : Text → Bool
is_plain part =
    not (is_empty part)
    && (not (text_eq part (codes "."))
        && (not (text_eq part (codes "..")) && all (λ c. not (c == b'/')) part))

abbrev no_slash : Text → Bool
no_slash part = all (λ c. not (c == b'/')) part

split-no_slash : (s : Text) → all no_slash (split b'/' s) ≡ true
unfolding split
split-no_slash [] = refl
split-no_slash (c ∷ s) = ground (arith, split-no_slash s)

component-plain :
    (first : Bool) (piece : Text) {p : Text}
    → no_slash piece ≡ true
    → component first piece ≡ some (normal p)
    → is_plain p ≡ true
unfolding component
component-plain first piece {p} h e = elim (Bool-cases (is_empty piece)) [
  | inl f ↦ absurd (ground arith)
  | inr f ↦ elim (Bool-cases (text_eq piece (codes "."))) [
    | inl g ↦ absurd (ground arith)
    | inr g ↦ elim (Bool-cases (text_eq piece (codes ".."))) [
      | inl k ↦ absurd (ground arith)
      | inr k ↦
          let named : ◌≡◌ {A = Option Component} (some (normal piece)) (some (normal p)) =
            ground arith in
          let same : piece ≡ p = cc in subst (λ x. is_plain x ≡ true) same (ground arith)
    ]
  ]
]

-- Every named component of a path is plain.
abbrev AreNamed : List Component → Type 0
AreNamed cs = (p : Text) → In (normal p) cs → is_plain p ≡ true

push-AreNamed :
    (first : Bool) (piece : Text) (cs : List Component)
    → no_slash piece ≡ true
    → AreNamed cs
    → AreNamed (push_component (component first piece) cs)
push-AreNamed first piece cs h k p i = elim (Option-cases (component first piece)) [
  | inl e ↦ k p (rw e at i)
  | inr (c, e) ↦ elim (rw e at i) [
    | here q ↦ component-plain first piece h (e ∙ ap some (sym q))
    | there j ↦ k p j
  ]
]

later-AreNamed : (ps : List Text) → all no_slash ps ≡ true → AreNamed (later_components ps)
unfolding later_components
later-AreNamed [] h p i = elim i [ ]
later-AreNamed (q ∷ ps) h p i =
    push-AreNamed false q (later_components ps) (ground arith) (later-AreNamed ps (ground arith)) p
      i

first-AreNamed : (ps : List Text) → all no_slash ps ≡ true → AreNamed (first_components ps)
unfolding first_components
first-AreNamed [] h p i = elim i [ ]
first-AreNamed (q ∷ []) h p i = push-AreNamed true q [] (ground arith) (λ p i. elim i [ ]) p i
first-AreNamed (q ∷ r ∷ ps) h p i = elim (Bool-cases (is_empty q)) [
  | inl e ↦ elim (rw (e, first_components) at i) [
    | here x ↦ absurd (ground arith)
    | there j ↦ later-AreNamed (r ∷ ps) (ground arith) p j
  ]
  | inr e ↦
      push-AreNamed true q (later_components (r ∷ ps)) (ground arith)
        (later-AreNamed (r ∷ ps) (ground arith)) p (rw (e, first_components) at i)
]

-- The path is made of one plain name or more.
pub record IsConfined (path : Text) : Type 0 where
  pub first : Text
  pub rest : List Text
  pub joined : path ≡ join_parts (first ∷ rest)
  pub plain : all is_plain (first ∷ rest) ≡ true

safe_parts-plain :
    (cs : List Component) (parts : List Text)
    → AreNamed cs
    → safe_parts cs ≡ some parts
    → all is_plain parts ≡ true
unfolding safe_parts
safe_parts-plain [] parts k h = subst (λ ps. all is_plain ps ≡ true) (unsome h) refl
  where
    unsome : {a b : List Text} → some a ≡ some b → a ≡ b
    unsome e = cc
safe_parts-plain (normal part ∷ cs) parts k h = elim (Bool-cases (is_empty part)) [
  | inl e ↦ absurd (ground arith)
  | inr e ↦ elim (Option-cases (safe_parts cs)) [
    | inl f ↦ absurd (ground arith)
    | inr (ps, f) ↦
        let got : ◌≡◌ {A = Option (List Text)} (some (part ∷ ps)) (some parts) = ground arith in
        let same : part ∷ ps ≡ parts = cc in
        let good = safe_parts-plain cs ps (λ p i. k p (there i)) f in
        let one = k part (here refl) in subst (λ x. all is_plain x ≡ true) same (ground arith)
  ]
]
safe_parts-plain (cur_dir ∷ cs) parts k h = safe_parts-plain cs parts (λ p i. k p (there i)) h
safe_parts-plain (parent_dir ∷ cs) parts k h = absurd (ground arith)
safe_parts-plain (root_dir ∷ cs) parts k h = absurd (ground arith)

-- What `safe_relative` lets through is made of plain names.
pub safe_relative-IsConfined :
    (raw : Text) {path : Text} → safe_relative raw ≡ some path → IsConfined path
unfolding safe_relative components
safe_relative-IsConfined raw {path} h = elim (Option-cases (safe_parts (components raw))) [
  | inl e ↦ absurd (ground arith)
  | inr ([], e) ↦ absurd (ground arith)
  | inr (p ∷ ps, e) ↦
      let got : ◌≡◌ {A = Option Text} (some (join_parts (p ∷ ps))) (some path) = ground arith in
      let same : join_parts (p ∷ ps) ≡ path = cc in
      record {
        first = p;
        rest = ps;
        joined = sym same;
        plain =
            safe_parts-plain (components raw) (p ∷ ps)
              (first-AreNamed (split b'/' raw) (split-no_slash raw)) e;
      }
]
