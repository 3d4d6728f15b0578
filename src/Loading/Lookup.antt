-- ===== src/Loading/Lookup.antt =====
-- Looking names up in a registry after loading a directory.
use stanchion.Prelude.{
  ◌≡◌, refl, sym, ap, ◌∙◌, subst, true, false, inl, inr, some, List, [], ◌∷◌, ◌++◌, arith, ℕ, zero,
  suc, get_elem?, length, any-append, Text, lookup, lookup-insert, contains_key, text_eq,
  text_eq_iff, Bool-cases, Option-cases,
}
use stanchion.Registry.{ok, LoadItem, LoadedPlugin, Instance, Host, Registry, get}
use stanchion.Registry.Operations.Index.{name_of}
use stanchion.Resolution.{elem}
use stanchion.Loading.{Loader, LoadReport, Loading, add_plugin, loaded_plugin}
use stanchion.Loading.Directory.{prepare_rocks, load_dir}
use stanchion.Loading.Absorbing.{keep_item}
use stanchion.Loading.Results.{end-keeps, load_dir-Steps}
use stanchion.Loading.Provenance.{prepare_rocks-cases}

get_elem?-append :
    (ps qs : List LoadedPlugin) (i : ℕ) {p : LoadedPlugin}
    → get_elem? ps i ≡ some p
    → get_elem? (ps ++ qs) i ≡ some p
get_elem?-append [] qs i h = cc
get_elem?-append (q ∷ ps) qs zero h = h
get_elem?-append (q ∷ ps) qs (suc i) h = get_elem?-append ps qs i h

get_elem?-length :
    (ps : List LoadedPlugin) (p : LoadedPlugin) → get_elem? (ps ++ p ∷ []) (length ps) ≡ some p
get_elem?-length [] p = refl
get_elem?-length (q ∷ ps) p = get_elem?-length ps p

-- A plugin is found under the name that it was added under.
add_plugin-get :
    (name : Text) (q : LoadedPlugin) (r : Registry) (x : Text)
    → text_eq x name ≡ true
    → get (add_plugin name q r) x ≡ some q
unfolding get
add_plugin-get name q r x h =
    ground (arith, lookup-insert x name (length r.plugins) r.index, get_elem?-length r.plugins q)

-- Adding a plugin does not change what another name gives.
add_plugin-get-other :
    (name : Text) (q : LoadedPlugin) (r : Registry) (x : Text) {p : LoadedPlugin}
    → text_eq x name ≡ false
    → get r x ≡ some p
    → get (add_plugin name q r) x ≡ some p
unfolding get
add_plugin-get-other name q r x {p} h g = elim (Option-cases (lookup x r.index)) [
  | inl e ↦ absurd (ground arith)
  | inr (i, e) ↦
      let found : get_elem? r.plugins i ≡ some p = ground arith in
      ground (
        arith,
        lookup-insert x name (length r.plugins) r.index,
        get_elem?-append r.plugins (q ∷ []) i found,
      )
]

contains_key-get :
    (r : Registry) (x : Text) {p : LoadedPlugin} → get r x ≡ some p → contains_key x r.index ≡ true
unfolding get contains_key
contains_key-get r x h = ground arith

taken-free :
    (r : Registry) (x y : Text)
    → contains_key x r.index ≡ true
    → contains_key y r.index ≡ false
    → text_eq x y ≡ false
taken-free r x y t f = elim (Bool-cases (text_eq x y)) [
  | inr e ↦ e
  | inl e ↦
      let same = ap (λ z. contains_key z r.index) ((text_eq_iff x y).0 e) in absurd (ground arith)
]

-- Every name that was reported gives a plugin of that name.
abbrev IsHeld : Loading → Type 0
IsHeld s =
    (x : Text)
    → elem x s.names ≡ true
    → (p : LoadedPlugin) × (get s.registry x ≡ some p) × (name_of p ≡ x)

keep_item-IsHeld :
    (name : Text) (item : LoadItem) (handle : Instance) (granted : List Text) (s : Loading)
    → item.manifest.name ≡ name
    → IsHeld s
    → IsHeld (keep_item name item handle granted s)
keep_item-IsHeld name item handle granted s same k x e =
    let q = loaded_plugin item handle granted in
    elim (Bool-cases (text_eq x name)) [
      | inl f ↦ (q, add_plugin-get name q s.registry x f, same ∙ sym ((text_eq_iff x name).0 f))
      | inr f ↦
          let (p, g, n) = k x (ground (arith, any-append (text_eq x) s.names (name ∷ []))) in
          (p, add_plugin-get-other name q s.registry x f g, n)
    ]

module _ {W : Type 0} (host : Host W) (loader : Loader W) (r : Registry) (w : W) where
  prepare_rocks-get : (x : Text) → get (prepare_rocks host loader r w).0 x ≡ get r x
  unfolding get
  prepare_rocks-get x = elim (prepare_rocks-cases host loader r w) [
    | inl e ↦ ap (λ (y : Registry). get y x) e
    | inr (paths, e) ↦ ap (λ (y : Registry). get y x) e
  ]

  -- Loading a directory leaves every name that was taken with the plugin it had, and each name that
  -- it reports as loaded gives a plugin of that name.
  pub load_dir-get :
      (root : Text) {report : LoadReport} {after : Registry} {w' : W}
      → load_dir host loader r w root ≡ some (ok report, (after, w'))
      → ((x : Text) (p : LoadedPlugin) → get r x ≡ some p → get after x ≡ some p)
        × ((x : Text)
            → elem x report.loaded_names ≡ true
            → (p : LoadedPlugin) × (get after x ≡ some p) × (name_of p ≡ x))
  load_dir-get root h =
      let s = load_dir-Steps host loader r w root h in
      let r' = (prepare_rocks host loader r w).0 in
      (
        λ x p g.
            let taken = contains_key-get r' x (prepare_rocks-get x ∙ g) in
            subst (λ (y : Registry). get y x ≡ some p) (sym s.kept)
              (end-keeps host loader r' w s.installed (s.unread ++ s.unordered) s.ordered
                (λ (y : Loading). get y.registry x ≡ some p) (λ name dir reason y k. k)
                (λ name item handle granted y ready same answered k.
                  add_plugin-get-other name _ y.registry x
                    (taken-free r' x name taken
                      (ap (λ z. contains_key z r'.index) (sym same) ∙ ready.free))
                    k)
                (prepare_rocks-get x ∙ g)),
        λ x e.
            subst (λ (y : Registry). (p : LoadedPlugin) × (get y x ≡ some p) × (name_of p ≡ x))
              (sym s.kept)
              (end-keeps host loader r' w s.installed (s.unread ++ s.unordered) s.ordered IsHeld
                (λ name dir reason y k. k)
                (λ name item handle granted y ready same answered.
                  keep_item-IsHeld name item handle granted y same)
                (λ z f. absurd (ground arith)) x
                (ap (λ (y : LoadReport). elem x y.loaded_names) (sym s.reported) ∙ e)),
      )
