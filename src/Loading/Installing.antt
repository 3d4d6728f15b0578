-- ===== src/Loading/Installing.antt =====
-- `install_rocks` of crates/stanchion-registry/src/lib.rs, with what becomes of each rock.
use stanchion.Prelude.{
  ◌≡◌, refl, sym, ap, ◌∙◌, subst, Bool, true, false, ◌||◌, ◌⊎◌, inl, inr, Option, none, some, List,
  [], ◌∷◌, ◌++◌, map, arith, any-append, In, here, there, Outcome, ok, err, Text, Map, keys, lookup,
  lookup-insert, In-keys, is_some, insert, text_eq, text_eq_refl, codes, Option-cases, Bool-cases,
}
use mathlib.Core.List.{map-append}
use stanchion.Manifest.{Manifest}
use stanchion.Rocks.Version.{RockVersion}
use stanchion.Rocks.Requirement.{
  Requirement, RocksError, bad_requirement, parse_requirement, matches,
}
use stanchion.Rocks.Requirement
use stanchion.Rocks.Command.{RocksConfig, install_args, run_args}
use stanchion.Rocks.Command
use stanchion.Registry.{RegistryError, LoadFailure, rocks_error, Host, Registry}
use stanchion.Resolution.{elem}
use stanchion.Loading.{Loader}
use stanchion.Loading.Directory.{discover}

pub record InstallReport : Type 0 where
  pub installed : List Text
  pub satisfied : List Text
  pub failures : List (Text × RocksError)

-- of one name the last requirement counts
unfoldable pub add_rocks : Map Text → Map Text → Map Text
add_rocks [] wanted = wanted
add_rocks ((name, requirement) ∷ rocks) wanted = add_rocks rocks (insert name requirement wanted)

unfoldable pub wanted_rocks : List Manifest → Map Text → Map Text
unfolding add_rocks
wanted_rocks [] wanted = wanted
wanted_rocks (m ∷ manifests) wanted = wanted_rocks manifests (add_rocks m.rocks wanted)

abbrev pub is_satisfied : Requirement → Option RockVersion → Bool
is_satisfied requirement none = false
is_satisfied requirement (some found) = matches requirement found

abbrev pub fail_rock : Text → RocksError → InstallReport → InstallReport
fail_rock name e report = record report { failures = report.failures ++ (name, e) ∷ [] }

module _ {W : Type 0} (host : Host W) (loader : Loader W) where
  -- `RocksConfig::install`, and the line that its result adds to the report
  unfoldable pub install_one :
      RocksConfig → W → Text → Requirement → InstallReport → W × InstallReport
  install_one config w name requirement report = elim (install_args name requirement) [
    | Requirement.Result.err e ↦ (w, fail_rock name e report)
    | Requirement.Result.ok args ↦
        let answer = loader.install w config.binary (run_args config args) in
        elim answer.1 [
          | Requirement.Result.err e ↦ (answer.0, fail_rock name e report)
          | Requirement.Result.ok _ ↦
              (answer.0, record report { installed = report.installed ++ name ∷ [] })
        ]
  ]

  unfoldable pub settle_rock :
      RocksConfig → Map RockVersion → W → Text → Text → InstallReport → W × InstallReport
  unfolding install_one
  settle_rock config listing w name raw report = elim (parse_requirement raw) [
    | Requirement.Result.err e ↦ (w, fail_rock name e report)
    | Requirement.Result.ok requirement ↦ elim (is_satisfied requirement (lookup name listing)) [
      | true ↦ (w, record report { satisfied = report.satisfied ++ name ∷ [] })
      | false ↦ install_one config w name requirement report
    ]
  ]

  unfoldable pub settle_rocks :
      RocksConfig → Map RockVersion → W → Map Text → InstallReport → W × InstallReport
  unfolding settle_rock
  settle_rocks config listing w [] report = (w, report)
  settle_rocks config listing w ((name, raw) ∷ wanted) report =
      let next = settle_rock config listing w name raw report in
      settle_rocks config listing next.0 wanted next.1

  unfoldable pub install_rocks : Registry → W → Text → Outcome RegistryError InstallReport × W
  unfolding settle_rocks wanted_rocks discover
  install_rocks r w root = elim r.rocks [
    | none ↦ (
      err (
          rocks_error
            (bad_requirement [] (codes "no LuaRocks tree configured; call `with_rocks` first"))),
      w,
    )
    | some config ↦ elim (discover host loader w root) [
      | err e ↦ (err e, w)
      | ok (manifests, _) ↦ elim (Command.installed (loader.process w) config) [
        | Requirement.Result.err e ↦ (err (rocks_error e), w)
        | Requirement.Result.ok listing ↦
            let settled =
              settle_rocks config listing w (wanted_rocks manifests [])
                (record { installed = []; satisfied = []; failures = [] }) in
            (ok settled.1, settled.0)
      ]
    ]
  ]

-- The report names the rock.
abbrev pub IsReported : Text → InstallReport → Type 0
IsReported name report =
    (elem name report.installed
      || (elem name report.satisfied
          || elem name (map (λ (f : Text × RocksError). f.0) report.failures)))
    ≡ true

-- A report that has grown by one rock.
data Grown (name : Text) (report after : InstallReport) : Type 0 where
  by_failure : (e : RocksError) → after ≡ fail_rock name e report → Grown name report after
  by_presence :
      after ≡ record report { satisfied = report.satisfied ++ name ∷ [] } → Grown name report after
  by_install :
      after ≡ record report { installed = report.installed ++ name ∷ [] } → Grown name report after

named :
    (x name : Text) (report : InstallReport)
    → (IsReported x report ⊎ (x ≡ name))
    → IsReported x report ⊎ (text_eq x name ≡ true)
named x name report (inl r) = inl r
named x name report (inr s) = inr (ap (text_eq x) (sym s) ∙ text_eq_refl x)

Grown-IsReported :
    (x name : Text) (report after : InstallReport)
    → Grown name report after
    → (IsReported x report ⊎ (x ≡ name))
    → IsReported x after
Grown-IsReported x name report after (by_failure e q) h = subst (IsReported x) (sym q) (
    ground (
      arith,
      ap (elem x) (map-append (λ (f : Text × RocksError). f.0) report.failures ((name, e) ∷ [])),
      any-append (text_eq x) (map (λ (f : Text × RocksError). f.0) report.failures) (name ∷ []),
      named x name report h,
    ))
Grown-IsReported x name report after (by_presence q) h =
    subst (IsReported x) (sym q)
      (ground (arith, any-append (text_eq x) report.satisfied (name ∷ []), named x name report h))
Grown-IsReported x name report after (by_install q) h =
    subst (IsReported x) (sym q)
      (ground (arith, any-append (text_eq x) report.installed (name ∷ []), named x name report h))

Result-cases :
    {A : Type 0} (o : Requirement.Result A)
    → ((a : A) × (o ≡ Requirement.Result.ok a))
      ⊎ ((e : RocksError) × (o ≡ Requirement.Result.err e))
Result-cases (Requirement.Result.ok a) = inl (a, refl)
Result-cases (Requirement.Result.err e) = inr (e, refl)

module _ {W : Type 0} (host : Host W) (loader : Loader W) (config : RocksConfig)
    (listing : Map RockVersion) where
  install_one-Grown :
      (w : W) (name : Text) (requirement : Requirement) (report : InstallReport)
      → Grown name report (install_one host loader config w name requirement report).1
  unfolding install_one
  install_one-Grown w name requirement report =
      elim (Result-cases (install_args name requirement)) [
        | inr (e, f) ↦ rw (f, install_one) (by_failure e refl)
        | inl (args, f) ↦
            elim (Result-cases (loader.install w config.binary (run_args config args)).1) [
              | inr (e, g) ↦ rw (f, g, install_one) (by_failure e refl)
              | inl (out, g) ↦ rw (f, g, install_one) (by_install refl)
            ]
      ]

  settle_rock-Grown :
      (w : W) (name raw : Text) (report : InstallReport)
      → Grown name report (settle_rock host loader config listing w name raw report).1
  unfolding settle_rock
  settle_rock-Grown w name raw report = elim (Result-cases (parse_requirement raw)) [
    | inr (e, f) ↦ rw (f, settle_rock) (by_failure e refl)
    | inl (requirement, f) ↦ elim (Bool-cases (is_satisfied requirement (lookup name listing))) [
      | inl g ↦ rw (f, g, settle_rock) (by_presence refl)
      | inr g ↦ rw (f, g, settle_rock) (install_one-Grown w name requirement report)
    ]
  ]

  settle_rocks-IsReported :
      (w : W) (x : Text) (wanted : Map Text) (report : InstallReport)
      → (IsReported x report ⊎ In x (keys wanted))
      → IsReported x (settle_rocks host loader config listing w wanted report).1
  unfolding settle_rocks
  settle_rocks-IsReported w x [] report (inl r) = r
  settle_rocks-IsReported w x [] report (inr i) = elim i [ ]
  settle_rocks-IsReported w x ((name, raw) ∷ wanted) report h =
      let next = settle_rock host loader config listing w name raw report in
      let grown = settle_rock-Grown w name raw report in
      settle_rocks-IsReported next.0 x wanted next.1 (elim h [
        | inl r ↦ inl (Grown-IsReported x name report next.1 grown (inl r))
        | inr i ↦ elim i [
          | here q ↦ inl (Grown-IsReported x name report next.1 grown (inr q))
          | there j ↦ inr j
        ]
      ])

IsWanted : Text → Map Text → Type 0
IsWanted x wanted = is_some (lookup x wanted) ≡ true

add_rocks-IsWanted :
    (x : Text) (rocks wanted : Map Text)
    → (IsWanted x wanted ⊎ In x (keys rocks))
    → IsWanted x (add_rocks rocks wanted)
unfolding add_rocks IsWanted
add_rocks-IsWanted x [] wanted (inl h) = h
add_rocks-IsWanted x [] wanted (inr i) = elim i [ ]
add_rocks-IsWanted x ((name, raw) ∷ rocks) wanted h =
    add_rocks-IsWanted x rocks (insert name raw wanted) (elim h [
      | inl k ↦ inl (ground (arith, lookup-insert x name raw wanted))
      | inr i ↦ elim i [
        | here q ↦ inl (
            ground (arith, lookup-insert x name raw wanted, ap (text_eq x) (sym q), text_eq_refl x))
        | there j ↦ inr j
      ]
    ])

wanted_rocks-IsWanted :
    (x : Text) (manifests : List Manifest) (wanted : Map Text)
    → (IsWanted x wanted ⊎ ((m : Manifest) × In m manifests × In x (keys m.rocks)))
    → IsWanted x (wanted_rocks manifests wanted)
unfolding wanted_rocks
wanted_rocks-IsWanted x [] wanted (inl h) = h
wanted_rocks-IsWanted x [] wanted (inr (m, i, j)) = elim i [ ]
wanted_rocks-IsWanted x (n ∷ manifests) wanted h =
    wanted_rocks-IsWanted x manifests (add_rocks n.rocks wanted) (elim h [
      | inl k ↦ inl (add_rocks-IsWanted x n.rocks wanted (inl k))
      | inr (m, i, j) ↦ elim i [
        | here q ↦ inl (
            add_rocks-IsWanted x n.rocks wanted
              (inr (subst (λ (y : Manifest). In x (keys y.rocks)) q j)))
        | there k ↦ inr (m, k, j)
      ]
    ])

module _ {W : Type 0} (host : Host W) (loader : Loader W) (r : Registry) (w : W) (root : Text) where
  install_rocks-eq :
      {manifests : List Manifest} {unread : List LoadFailure} (config : RocksConfig)
      (listing : Map RockVersion)
      → r.rocks ≡ some config
      → discover host loader w root ≡ ok (manifests, unread)
      → Command.installed (loader.process w) config ≡ Requirement.Result.ok listing
      → (install_rocks host loader r w root).0
        ≡ ok
            (settle_rocks host loader config listing w
              (wanted_rocks manifests [])
              (record { installed = []; satisfied = []; failures = [] })).1
  unfolding install_rocks
  install_rocks-eq config listing e found f = rw (e, found, f, install_rocks) refl

  agree :
      {a b : InstallReport} → ◌≡◌ {A = Outcome RegistryError InstallReport} (ok a) (ok b) → a ≡ b
  agree e = cc

  missed : (x : Text) (wanted : Map Text) → IsWanted x wanted → ¬ (lookup x wanted ≡ none)
  unfolding IsWanted
  missed x wanted h e = ground arith

  -- Where installing ends well, every rock that a plugin of the directory declares is in the report,
  -- as installed, as there already, or as failed.
  pub install_rocks-IsReported :
      {report : InstallReport} {manifests : List Manifest} {unread : List LoadFailure}
      (m : Manifest) (rock : Text)
      → discover host loader w root ≡ ok (manifests, unread)
      → (install_rocks host loader r w root).0 ≡ ok report
      → In m manifests
      → In rock (keys m.rocks)
      → IsReported rock report
  unfolding install_rocks
  install_rocks-IsReported {report} {manifests} m rock found h i j = elim (Option-cases r.rocks) [
    | inl e ↦ absurd (ground arith)
    | inr (config, e) ↦ elim (Result-cases (Command.installed (loader.process w) config)) [
      | inr (x, f) ↦ absurd (ground arith)
      | inl (listing, f) ↦
          let wanted = wanted_rocks manifests [] in
          let none_yet : InstallReport = record { installed = []; satisfied = []; failures = [] } in
          let present = wanted_rocks-IsWanted rock manifests [] (inr (m, i, j)) in
          let settled : (settle_rocks host loader config listing w wanted none_yet).1 ≡ report =
            agree (sym (install_rocks-eq config listing e found f) ∙ h) in
          elim (Option-cases (lookup rock wanted)) [
            | inl g ↦ absurd (missed rock wanted present g)
            | inr (raw, g) ↦ subst (IsReported rock) settled (
                settle_rocks-IsReported host loader config listing w rock wanted none_yet
                  (inr (In-keys rock wanted g)))
          ]
    ]
  ]
