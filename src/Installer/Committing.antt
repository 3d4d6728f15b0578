-- ===== src/Installer/Committing.antt =====
-- What a commit makes of the plugin root.
use stanchion.Prelude.{
  Bool, true, false, ◌≡◌, ◌≢◌, refl, sym, ap, ◌∙◌, ◌⊎◌, inl, inr, Option, none, some, arith,
  Outcome, ok, err, Outcome-cases, Text, text_eq, is_some,
}
use stanchion.Lock.{LockedPlugin}
use stanchion.Installer.PluginRoot.{Disk, Directory}
use stanchion.Installer.{
  InstallError, System, Staged, ◌>>=◌, staging_name, previous_name, set_aside, put_in_place, tidy,
  pin_of, commit,
}
use stanchion.Installer.Moving.{
  apart, staging-ne-previous, staging-ne_self, IsAside, set_aside-IsAside, put_in_place-ok,
  put_in_place-err, put_in_place-restored, put_in_place-kept,
}

-- The three ways that a commit can go.
module _ (system : System) (staged : Staged) (disk : Disk)
    (P : Outcome InstallError LockedPlugin × Disk → Type 0) where
  pub commit-cases :
      (let aside = set_aside system staged.target (previous_name staged.target) disk in
        let placed : Bool → Outcome InstallError (Unit {0}) × Disk = λ had.
          put_in_place system had staged.staging staged.target
            (previous_name staged.target)
            aside.1 in
        ((e : InstallError) → aside.0 ≡ err e → P (err e, aside.1))
        → ((had : Bool) (e : InstallError)
            → aside.0 ≡ ok had
            → (placed had).0 ≡ err e
            → P (err e, (placed had).1))
        → ((had : Bool)
            → aside.0 ≡ ok had
            → (placed had).0 ≡ ok tt
            → P (
              ok (pin_of system staged),
              (tidy system had (previous_name staged.target) (placed had).1).1,
            ))
        → P (commit system staged disk))
  unfolding commit
  commit-cases f g h =
      let previous = previous_name staged.target in
      let aside = set_aside system staged.target previous disk in
      elim (Outcome-cases aside.0) [
        | inr (e, r) ↦ rw (r, ◌>>=◌) (f e r)
        | inl (had, r) ↦
            let placed = put_in_place system had staged.staging staged.target previous aside.1 in
            elim (Outcome-cases placed.0) [
              | inr (e, q) ↦ rw (r, q, ◌>>=◌) (g had e r q)
              | inl (u, q) ↦ rw (r, q, ◌>>=◌) (h had r q)
            ]
      ]

-- A commit as one step of the plugin root. Where it ends well, the plugin's directory is the one that
-- was staged, and nothing is staged any more. Where it fails, the plugin's directory is the one that
-- was there, or that one is set aside and there is none. All others are as they were.
abbrev pub Replaces : Staged → Disk → Outcome InstallError LockedPlugin × Disk → Type 0
Replaces staged before after =
    ((pin : LockedPlugin)
      → after.0 ≡ ok pin
      → (dir : Directory) × (before staged.staging ≡ some dir)
        × (after.1 staged.target ≡ some dir)
        × (after.1 staged.staging ≡ none))
    × ((e : InstallError)
        → after.0 ≡ err e
        → (after.1 staged.target ≡ before staged.target)
          ⊎ ((after.1 staged.target ≡ none)
              × (after.1 (previous_name staged.target) ≡ before staged.target)))
    × ((k : Text)
        → text_eq k staged.target ≡ false
        → text_eq k staged.staging ≡ false
        → text_eq k (previous_name staged.target) ≡ false
        → after.1 k ≡ before k)

there : (o : Option Directory) → is_some o ≡ true → (dir : Directory) × (o ≡ some dir)
there none h = cc
there (some dir) h = (dir, refl)

module _ (system : System) (k name : Text) (other : text_eq k name ≡ false) where
  tidy-kept : (had : Bool) (disk : Disk) → (tidy system had name disk).1 k ≡ disk k
  unfolding tidy
  tidy-kept had disk = ground (arith)

-- The staging directory, the plugin's and the one that the old version is set aside in are three.
abbrev AreApart : Staged → Type 0
AreApart staged =
    (text_eq staged.staging staged.target ≡ false)
    × (text_eq staged.target staged.staging ≡ false)
    × (text_eq staged.staging (previous_name staged.target) ≡ false)
    × (text_eq (previous_name staged.target) staged.staging ≡ false)
    × (text_eq staged.target (previous_name staged.target) ≡ false)
    × (text_eq (previous_name staged.target) staged.target ≡ false)

are_apart :
    (staged : Staged)
    → staged.staging ≡ staging_name staged.target
    → previous_name staged.target ≢ staged.target
    → AreApart staged
are_apart staged staging own =
    let t = staged.target in
    (
      apart _ _ (λ e. staging-ne_self t (sym staging ∙ e)),
      apart _ _ (λ e. staging-ne_self t (sym staging ∙ sym e)),
      apart _ _ (λ e. staging-ne-previous t t (sym staging ∙ e)),
      apart _ _ (λ e. staging-ne-previous t t (sym staging ∙ sym e)),
      apart _ _ (λ e. own (sym e)),
      apart _ _ own,
    )

module _ (system : System) (staged : Staged) (disk : Disk) (names : AreApart staged) where
  old_set_aside :
      IsAside staged.target
        (previous_name staged.target)
        disk
        (set_aside system staged.target (previous_name staged.target) disk)
  old_set_aside = set_aside-IsAside system _ _ names.4 names.5 disk

  module _ (before : Disk) (free : before staged.target ≡ none)
      (kept : (k : Text)
        → text_eq k staged.target ≡ false
        → text_eq k (previous_name staged.target) ≡ false
        → before k ≡ disk k) where
    abbrev placed : Bool → Outcome InstallError (Unit {0}) × Disk
    placed had =
        put_in_place system had staged.staging staged.target (previous_name staged.target) before

    placed-kept :
        (had : Bool) (k : Text)
        → text_eq k staged.target ≡ false
        → text_eq k staged.staging ≡ false
        → text_eq k (previous_name staged.target) ≡ false
        → (placed had).1 k ≡ disk k
    placed-kept had k h g f =
        put_in_place-kept system _ _ names.4 names.5 staged.staging names.0 names.2 names.1 names.3
          before free had k g h f
        ∙ kept k h f

    placed-Replaces :
        (had : Bool)
        → (placed had).0 ≡ ok tt
        → Replaces staged disk (
          ok (pin_of system staged),
          (tidy system had (previous_name staged.target) (placed had).1).1,
        )
    placed-Replaces had h =
        let (a, b, c) =
          put_in_place-ok system _ _ names.4 names.5 staged.staging names.0 names.2 names.1 names.3
            before free had h in
        let (dir, e) = there (before staged.staging) b in
        let p = previous_name staged.target in
        let t = tidy-kept system staged.target p names.4 had (placed had).1 in
        let s = tidy-kept system staged.staging p names.2 had (placed had).1 in
        (
          λ pin q. (dir, sym (kept _ names.0 names.2) ∙ e, t ∙ a ∙ e, s ∙ c),
          λ x q. absurd (ground arith),
          λ k q r u. tidy-kept system k p u had (placed had).1 ∙ placed-kept had k q r u,
        )

    unplaced-Replaces :
        (had : Bool) (x : InstallError)
        → (had ≡ true → before (previous_name staged.target) ≡ disk staged.target)
        → (had ≡ false → disk staged.target ≡ none)
        → (placed had).0 ≡ err x
        → Replaces staged disk (err x, (placed had).1)
    unplaced-Replaces true x old never h =
        let back =
          put_in_place-restored system _ _ names.4 names.5 staged.staging names.0 names.2 names.1
            names.3 before free h in
        (
          λ pin q. absurd (ground arith),
          λ y q. elim back [ inl e ↦ inl (e ∙ old refl) | inr (e, f) ↦ inr (e, f ∙ old refl) ],
          placed-kept true,
        )
    unplaced-Replaces false x old never h = (
      λ pin q. absurd (ground arith),
      λ y q. inl (
          put_in_place-err system _ _ names.4 names.5 staged.staging names.0 names.2 names.1 names.3
            before free h
          ∙ sym (never refl)),
      placed-kept false,
    )

  apart-Replaces : Replaces staged disk (commit system staged disk)
  apart-Replaces =
      let (held, first, failed, kept) = old_set_aside in
      let aside = set_aside system staged.target (previous_name staged.target) disk in
      let free : (had : Bool) → aside.0 ≡ ok had → aside.1 staged.target ≡ none = λ had r.
        elim had as (λ b. aside.0 ≡ ok b → aside.1 staged.target ≡ none) [
          | true ↦ λ r. (held r).0
          | false ↦ λ r. (first r).0
        ]
          r in
      commit-cases system staged disk (Replaces staged disk)
        (λ e r. (λ pin h. absurd (ground arith), λ e' h. inl (failed e r), λ k h g f. kept k h f))
        (λ had e r h.
          unplaced-Replaces aside.1 (free had r) kept had e (λ b. (held (r ∙ ap ok b)).1)
            (λ b. (first (r ∙ ap ok b)).1) h)
        (λ had r h. placed-Replaces aside.1 (free had r) kept had h)

-- A commit of what is staged under its own staging name replaces the directory of that one plugin:
-- where it ends well, that directory is the one that was staged, and nothing is staged any more; where
-- it fails, the directory is the one that was there before, or there is none and that one stands
-- under the name for the previous version. Every directory but these three is as it was. The plugin's
-- own name is not the one for its previous version.
pub commit-Replaces :
    (system : System) (staged : Staged) (disk : Disk)
    → staged.staging ≡ staging_name staged.target
    → previous_name staged.target ≢ staged.target
    → Replaces staged disk (commit system staged disk)
commit-Replaces system staged disk staging own =
    apart-Replaces system staged disk (are_apart staged staging own)
