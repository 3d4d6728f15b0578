-- ===== src/Loading/Results.antt =====
-- What loading a directory gives.
use stanchion.Prelude.{
  ◌≡◌, refl, sym, ap, ◌∙◌, subst, true, ◌⊎◌, inl, inr, Option, some, List, [], ◌++◌, arith,
  any-append, text_eq, In, In-append_left, Text, Map, contains_key, Bool-cases, >>=-eq-ok,
  Outcome-cases,
}
use mathlib.Core.List.{map-append}
use stanchion.Manifest.{Manifest}
use stanchion.Rocks.Version.{RockVersion}
use stanchion.Registry.{
  FailureReason, LoadFailure, RegistryError, Outcome, ok, ◌>>◌, LoadItem, Instance, Host, Registry,
}
use stanchion.Resolution.{elem, resolve_order}
use stanchion.Resolution.Start.{HasDistinctNames, elem-names}
use stanchion.Resolution.Arranging.{failure_names}
use stanchion.Resolution.Results.{resolve_order-elem, resolve_order-total}
use stanchion.Loading.{
  Loader, LoadReport, Progress, Loading, group_by_type, sort_groups, account, check_setup,
}
use stanchion.Loading.Directory.{
  discover, prepare_rocks, check_all, load_groups, load_ordered, load_dir,
}
use stanchion.Loading.Checking.{
  Extends, Extends-trans, record_as-Extends, IsReady, check_all-IsReady, check_all-Extends,
  check_all-In,
}
use stanchion.Loading.Absorbing.{
  IsAnswered, fail_as, keep_item, groups-AreFrom, load_groups-keeps, account-keeps, IsSettled,
  fail_as-IsSettled, keep_item-IsSettled, account-IsSettled,
}

module _ {W : Type 0} (host : Host W) (loader : Loader W) (r : Registry) (w : W)
    (installed : Option (Map RockVersion)) (failures : List LoadFailure)
    (ordered : List Manifest) where
  abbrev pub begun : Progress
  begun = record { failed_names = failure_names failures; failures = failures }

  abbrev pub checked : Progress × List LoadItem
  checked = check_all host loader r w installed begun ordered

  abbrev pub start : Loading
  start = record { registry = r; progress = checked.0; names = [] }

  abbrev pub end : Loading
  end =
      account checked.1
        (load_groups host loader (sort_groups (group_by_type checked.1 [])) start w).0

  -- the report and the registry are those of the last state
  load_ordered-end :
      (load_ordered host loader r w installed failures ordered).0
      ≡ record { loaded_names = end.names; failures = end.progress.failures }
  unfolding load_ordered
  load_ordered-end = refl

  pub end-keeps :
      (P : Loading → Type 0)
      → ((name dir : Text) (reason : FailureReason) (s : Loading)
          → P s
          → P (fail_as name dir reason s))
      → ((name : Text) (item : LoadItem) (handle : Instance) (granted : List Text) (s : Loading)
          → IsReady host r w installed item
          → item.manifest.name ≡ name
          → IsAnswered loader name item handle granted
          → P s
          → P (keep_item name item handle granted s))
      → P start
      → P end
  end-keeps P on_failure on_item p =
      let on : (name : Text) (item : LoadItem) (handle : Instance) (granted : List Text)
            (s : Loading)
          → In item checked.1
          → item.manifest.name ≡ name
          → IsAnswered loader name item handle granted
          → P s
          → P (keep_item name item handle granted s) =
        λ name item handle granted s i.
          on_item name item handle granted s
            (check_all-IsReady host loader r w installed begun ordered i) in
      account-keeps P on_failure checked.1 _ (
        load_groups-keeps host loader checked.1 P on_failure on
          (sort_groups (group_by_type checked.1 [])) start w (groups-AreFrom checked.1) p)

  end-Extends : Extends begun end.progress
  end-Extends =
      end-keeps (λ s. Extends begun s.progress)
        (λ name dir reason s p. Extends-trans p (record_as-Extends name dir reason s.progress))
        (λ name item handle granted s i same answered p. p)
        (check_all-Extends host loader r w installed begun ordered)

  end-IsSettled : (x : Text) → IsSettled x start → IsSettled x end
  end-IsSettled x =
      end-keeps (IsSettled x) (fail_as-IsSettled x) (λ name item handle granted s i same answered.
        keep_item-IsSettled x name item handle granted s)

  ordered-IsSettled : (m : Manifest) → In m ordered → IsSettled m.name end
  ordered-IsSettled m i = elim (check_all-In host loader r w installed begun m ordered i) [
    | inl e ↦ end-IsSettled m.name (inl e)
    | inr (item, j, q) ↦
        subst (λ (n : Manifest). IsSettled n.name end) q (account-IsSettled item checked.1 _ j)
  ]

module _ {W : Type 0} (host : Host W) (loader : Loader W) (r : Registry) (w : W) where
  -- The steps of a load that ends well.
  pub record Steps (root : Text) (report : LoadReport) (after : Registry) : Type 0 where
    pub manifests : List Manifest
    pub ordered : List Manifest
    pub unread : List LoadFailure
    pub unordered : List LoadFailure
    pub installed : Option (Map RockVersion)
    pub found : discover host loader w root ≡ ok (manifests, unread)
    pub resolved : resolve_order loader.req_matches manifests ≡ some (ordered, unordered)
    pub prepared : (prepare_rocks host loader r w).1 ≡ ok installed
    pub reported : report ≡ record {
      loaded_names =
          (end host loader
            (prepare_rocks host loader r w).0
            w
            installed
            (unread ++ unordered)
            ordered).names;
      failures =
          (end host loader
            (prepare_rocks host loader r w).0
            w
            installed
            (unread ++ unordered)
            ordered).progress.failures;
    }
    pub kept :
        after
        ≡ (end host loader
            (prepare_rocks host loader r w).0
            w
            installed
            (unread ++ unordered)
            ordered).registry

  loaded_parts :
      {a a' : LoadReport} {b b' : Registry} {c c' : W}
      → ◌≡◌ {A = Option (Outcome RegistryError LoadReport × (Registry × W))}
          (some (ok a, (b, c)))
          (some (ok a', (b', c')))
      → (a ≡ a') × (b ≡ b')
  loaded_parts h = (cc, cc)

  pub load_dir-Steps :
      (root : Text) {report : LoadReport} {after : Registry} {w' : W}
      → load_dir host loader r w root ≡ some (ok report, (after, w'))
      → Steps root report after
  unfolding load_dir load_ordered
  load_dir-Steps root {report} {after} {w'} h =
      elim (Outcome-cases (check_setup r >> discover host loader w root)) [
        | inr (e, f) ↦ absurd (ground arith)
        | inl ((manifests, unread), f) ↦
            let ((ordered, unordered), g) = resolve_order-total loader.req_matches manifests in
            elim (Outcome-cases (prepare_rocks host loader r w).1) [
              | inr (e, k) ↦ absurd (ground arith)
              | inl (installed, k) ↦
                  let parts = loaded_parts (rw (f, load_dir, g, k) at h) in
                  record {
                    manifests = manifests;
                    ordered = ordered;
                    unread = unread;
                    unordered = unordered;
                    installed = installed;
                    found = (>>=-eq-ok (check_setup r) (λ _. discover host loader w root) f).2;
                    resolved = g;
                    prepared = k;
                    reported = sym parts.0;
                    kept = sym parts.1;
                  }
            ]
      ]

  module _ {root : Text} {report : LoadReport} {after : Registry}
      (s : Steps root report after) where
    abbrev pub last : Loading
    last =
        end host loader (prepare_rocks host loader r w).0 w s.installed (s.unread ++ s.unordered)
          s.ordered

    last-Extends :
        Extends
          (record {
            failed_names = failure_names (s.unread ++ s.unordered);
            failures = s.unread ++ s.unordered;
          })
          last.progress
    last-Extends =
        end-Extends host loader (prepare_rocks host loader r w).0 w s.installed
          (s.unread ++ s.unordered) s.ordered

    found-IsSettled :
        (m : Manifest) → HasDistinctNames s.manifests → In m s.manifests → IsSettled m.name last
    found-IsSettled m distinct i =
        let outcome = resolve_order-elem loader.req_matches s.manifests m distinct s.resolved i in
        elim (Bool-cases (elem m.name (failure_names s.unordered))) [
          | inl e ↦ inl (
              last-Extends.keeps m.name (
                ap (elem m.name) (map-append (λ (f : LoadFailure). f.name) s.unread s.unordered)
                ∙ any-append (text_eq m.name) (failure_names s.unread) (failure_names s.unordered)
                ∙ ground arith))
          | inr e ↦
              let (n, j, q) = elem-names m.name s.ordered (ground arith) in
              subst (λ x. IsSettled x last) q
                (ordered-IsSettled host loader (prepare_rocks host loader r w).0 w s.installed
                  (s.unread ++ s.unordered) s.ordered n j)
        ]

    found-booked :
        (m : Manifest)
        → HasDistinctNames s.manifests
        → In m s.manifests
        → (contains_key m.name after.index ≡ true)
          ⊎ (elem m.name (failure_names report.failures) ≡ true)
    found-booked m distinct i = elim (found-IsSettled m distinct i) [
      | inr e ↦ inl (ap (λ (x : Registry). contains_key m.name x.index) s.kept ∙ e)
      | inl e ↦ inr (
          ap (λ (x : LoadReport). elem m.name (failure_names x.failures)) s.reported
          ∙ last-Extends.books (λ x f. f) m.name e)
    ]

    unread-reported : (f : LoadFailure) → In f s.unread → In f report.failures
    unread-reported f i =
        subst (λ (x : LoadReport). In f x.failures) (sym s.reported)
          (last-Extends.reports f (In-append_left s.unordered i))

  -- Once a directory is loaded, each plugin that was found in it is in the index or has a failure
  -- under its name in the report, and each directory whose manifest could not be read has its
  -- failure there. The plugins that were found have different names.
  pub load_dir-IsSettled :
      (root : Text) {report : LoadReport} {after : Registry} {w' : W} {manifests : List Manifest}
      {unread : List LoadFailure}
      → discover host loader w root ≡ ok (manifests, unread)
      → HasDistinctNames manifests
      → load_dir host loader r w root ≡ some (ok report, (after, w'))
      → ((m : Manifest)
          → In m manifests
          → (contains_key m.name after.index ≡ true)
            ⊎ (elem m.name (failure_names report.failures) ≡ true))
        × ((f : LoadFailure) → In f unread → In f report.failures)
  load_dir-IsSettled root {manifests = manifests} {unread = unread} d distinct h =
      let s = load_dir-Steps root h in
      let same : s.manifests ≡ manifests =
        ap (λ (x : List Manifest × List LoadFailure). x.0) (agree (sym s.found ∙ d)) in
      let still : s.unread ≡ unread =
        ap (λ (x : List Manifest × List LoadFailure). x.1) (agree (sym s.found ∙ d)) in
      (
        λ m i.
            found-booked s m (subst HasDistinctNames (sym same) distinct)
              (subst (In m) (sym same) i),
        λ f i. unread-reported s f (subst (In f) (sym still) i),
      )
    where
      agree :
          {a b : List Manifest × List LoadFailure}
          → ◌≡◌ {A = Outcome RegistryError (List Manifest × List LoadFailure)} (ok a) (ok b)
          → a ≡ b
      agree e = cc
