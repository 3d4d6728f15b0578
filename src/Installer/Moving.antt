-- ===== src/Installer/Moving.antt =====
-- The two renames of a commit: what they make of the directories that they touch.
use stanchion.Prelude.{
  Bool, true, false, ◌≡◌, ◌≢◌, refl, ap, ◌⊎◌, ℕ, Option, none, some, [], ◌∷◌, ◌++◌, arith, Outcome,
  ok, err, Text, codes, text_eq, text_eq_iff, text_eq_refl, length, length-append, is_some,
}
use stanchion.Installer.PluginRoot.{Disk}
use stanchion.Installer.{
  InstallError, System, staging_name, previous_name, file_stem, set_aside, put_in_place,
}

last : Text → Option ℕ
last [] = none
last (c ∷ []) = some c
last (c ∷ d ∷ t) = last (d ∷ t)

last-append : (a : Text) (c : ℕ) (b : Text) → last (a ++ c ∷ b) ≡ last (c ∷ b)
unfolding last
last-append [] c b = refl
last-append (d ∷ []) c b = refl
last-append (d ∷ e ∷ a) c b = last-append (e ∷ a) c b

pub staging-ne-previous : (name other : Text) → staging_name name ≢ previous_name other
unfolding staging_name previous_name last
staging-ne-previous name other e =
    let s = last-append (b'.' ∷ name) b'.' (codes "staging") in
    let p = last-append (file_stem other) b'.' (codes "previous") in
    let same = ap last e in ground arith

pub staging-ne_self : (name : Text) → staging_name name ≢ name
unfolding staging_name
staging-ne_self name e = omega (arith, ap length e, length-append name (codes ".staging"))

-- What `set_aside` makes of the two directories.
abbrev pub IsAside : Text → Text → Disk → Outcome InstallError Bool × Disk → Type 0
IsAside target previous before after =
    (after.0 ≡ ok true → (after.1 target ≡ none) × (after.1 previous ≡ before target))
    × (after.0 ≡ ok false → (after.1 target ≡ none) × (before target ≡ none))
    × ((e : InstallError) → after.0 ≡ err e → after.1 target ≡ before target)
    × ((k : Text) → text_eq k target ≡ false → text_eq k previous ≡ false → after.1 k ≡ before k)

module _ (system : System) (target previous : Text) (apart : text_eq target previous ≡ false)
    (apart' : text_eq previous target ≡ false) where
  pub set_aside-IsAside :
      (disk : Disk) → IsAside target previous disk (set_aside system target previous disk)
  unfolding set_aside
  set_aside-IsAside disk = grind (arith, text_eq_refl target, text_eq_refl previous)

  -- What `put_in_place` makes of the three, where there is nothing at the target.
  module _ (staging : Text) (first : text_eq staging target ≡ false)
      (second : text_eq staging previous ≡ false) (third : text_eq target staging ≡ false)
      (fourth : text_eq previous staging ≡ false) (disk : Disk) (free : disk target ≡ none) where
    pub put_in_place-ok :
        (had : Bool)
        → (put_in_place system had staging target previous disk).0 ≡ ok tt
        → ((put_in_place system had staging target previous disk).1 target ≡ disk staging)
          × (is_some (disk staging) ≡ true)
          × ((put_in_place system had staging target previous disk).1 staging ≡ none)
    unfolding put_in_place
    put_in_place-ok had h = grind (arith, text_eq_refl staging, text_eq_refl target)

    pub put_in_place-err :
        {e : InstallError}
        → (put_in_place system false staging target previous disk).0 ≡ err e
        → (put_in_place system false staging target previous disk).1 target ≡ none
    unfolding put_in_place
    put_in_place-err h = grind (arith, text_eq_refl staging, text_eq_refl target)

    pub put_in_place-restored :
        {e : InstallError}
        → (put_in_place system true staging target previous disk).0 ≡ err e
        → let after = (put_in_place system true staging target previous disk).1 in
          (after target ≡ disk previous)
          ⊎ ((after target ≡ none) × (after previous ≡ disk previous))
    unfolding put_in_place
    put_in_place-restored h = grind (arith, text_eq_refl staging, text_eq_refl target)

    pub put_in_place-kept :
        (had : Bool) (k : Text)
        → text_eq k staging ≡ false
        → text_eq k target ≡ false
        → text_eq k previous ≡ false
        → (put_in_place system had staging target previous disk).1 k ≡ disk k
    unfolding put_in_place
    put_in_place-kept had k h g f = grind (arith)

pub apart : (a b : Text) → a ≢ b → text_eq a b ≡ false
apart a b h = ground (arith, text_eq_iff a b)
