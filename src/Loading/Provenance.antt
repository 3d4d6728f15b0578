-- ===== src/Loading/Provenance.antt =====
-- Where the plugins come from that a registry holds after loading a directory.
use stanchion.Prelude.{
  ◌≡◌, sym, ap, subst, ◌⊎◌, inl, inr, Option, some, List, ◌++◌, arith, In, here, there,
  In-append_split, Option-cases, Text, Map, Outcome-cases,
}
use stanchion.Rocks.Version.{RockVersion}
use stanchion.Rocks.Command.{RockPaths}
use stanchion.Registry.{
  ok, LoadItem, LoadedPlugin, Instance, Host, Registry, verify_plugin, find_signer,
}
use stanchion.Loading.{Loader, LoadReport, Loading, loaded_plugin}
use stanchion.Loading.Directory.{paths_for, prepare_rocks, load_dir}
use stanchion.Loading.Checking.{IsReady}
use stanchion.Loading.Absorbing.{IsAnswered}
use stanchion.Loading.Results.{end-keeps, load_dir-Steps}

module _ {W : Type 0} (host : Host W) (loader : Loader W) (r : Registry) (w : W) where
  pub prepare_rocks-cases :
      ((prepare_rocks host loader r w).0 ≡ r)
      ⊎ ((paths : RockPaths) × ((prepare_rocks host loader r w).0
            ≡ record r { rock_paths = some paths }))
  unfolding prepare_rocks
  prepare_rocks-cases = elim (Option-cases r.rocks) [
    | inl e ↦ inl (ground arith)
    | inr (config, e) ↦ elim (Outcome-cases (paths_for host loader r w config)) [
      | inl (paths, f) ↦ inr (paths, ground arith)
      | inr (x, f) ↦ inl (ground arith)
    ]
  ]

  pub prepare_rocks-plugins : (prepare_rocks host loader r w).0.plugins ≡ r.plugins
  prepare_rocks-plugins = elim prepare_rocks-cases [
    | inl e ↦ ap (λ (x : Registry). x.plugins) e
    | inr (paths, e) ↦ ap (λ (x : Registry). x.plugins) e
  ]

  -- The plugin was loaded from an item that passed the checks, and that is what a runtime of its
  -- type was given and answered with this instance.
  abbrev pub IsVetted : LoadedPlugin → Type 0
  IsVetted p =
      (installed : Option (Map RockVersion)) × (item : LoadItem) × (handle : Instance)
      × (granted : List Text) × ((prepare_rocks host loader r w).1 ≡ ok installed)
      × IsReady host r w installed item
      × IsAnswered loader item.manifest.name item handle granted
      × (p ≡ loaded_plugin item handle granted)

  IsReady-prepared :
      (installed : Option (Map RockVersion)) (item : LoadItem)
      → IsReady host (prepare_rocks host loader r w).0 w installed item
      → IsReady host r w installed item
  unfolding verify_plugin find_signer
  IsReady-prepared installed item i = elim prepare_rocks-cases [
    | inl e ↦ subst (λ (x : Registry). IsReady host x w installed item) e i
    | inr (paths, e) ↦
        let j = subst (λ (x : Registry). IsReady host x w installed item) e i in
        record {
          free = j.free;
          rocks = j.rocks;
          verified = j.verified;
          read = j.read;
          bound = j.bound;
        }
  ]

  -- A plugin that is in the registry after a directory is loaded was there before, or its rocks
  -- were installed, no plugin had its name, it passed verification as the registry then stood, and a
  -- runtime of its type was given the bytes of its entry file, bound to the verified digest if there
  -- is one, and answered with the instance and the grants that the registry keeps for it.
  pub load_dir-IsVetted :
      (root : Text) {report : LoadReport} {after : Registry} {w' : W} (p : LoadedPlugin)
      → load_dir host loader r w root ≡ some (ok report, (after, w'))
      → In p after.plugins
      → In p r.plugins ⊎ IsVetted p
  load_dir-IsVetted root p h i =
      let s = load_dir-Steps host loader r w root h in
      let r' = (prepare_rocks host loader r w).0 in
      let P : Loading → Type 0 =
        λ x. (q : LoadedPlugin) → In q x.registry.plugins → In q r.plugins ⊎ IsVetted q in
      end-keeps host loader r' w s.installed (s.unread ++ s.unordered) s.ordered P
        (λ name dir reason x k. k)
        (λ name item handle granted x ready same answered k q j.
          elim (In-append_split x.registry.plugins j) [
            | inl l ↦ k q l
            | inr l ↦ elim l [
              | here e ↦ inr (
                s.installed,
                item,
                handle,
                granted,
                s.prepared,
                IsReady-prepared s.installed item ready,
                subst (λ n. IsAnswered loader n item handle granted) (sym same) answered,
                e,
              )
              | there m ↦ elim m [ ]
            ]
          ])
        (λ q j. inl (subst (In q) prepare_rocks-plugins j)) p
        (subst (λ (x : Registry). In p x.plugins) s.kept i)
