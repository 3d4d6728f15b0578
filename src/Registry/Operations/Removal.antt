-- ===== src/Registry/Operations/Removal.antt =====
-- Removal, one plugin at a time and by a revocation list: exactly the named plugins go.
use stanchion.Prelude.{
  ℕ, zero, suc, ◌+◌, ◌≡◌, refl, ap, sym, ◌∙◌, Bool, true, false, ◌⊎◌, inl, inr, Option, none, some,
  List, [], ◌∷◌, arith, if◌then◌else◌, get_elem?, remove_at, all, any, is_some, is_empty, Text,
  text_eq, text_eq_iff, Bool-cases, Option-cases,
}
use stanchion.Signature.{Revocations}
use stanchion.Registry.{
  LoadFailure, RegistryError, Outcome, ok, err, LoadedPlugin, Host, Registry, get,
}
use stanchion.Registry.Operations.{
  drop_plugin, locate, remove, refusal, refused_of, remove_each, apply_revocations,
}
use stanchion.Registry.Operations.Refusal.{IsRefused, IsAllowed, refusal-cases}
use stanchion.Registry.Operations.Index.{
  name_of, differs, Distinct, place, find, IsIndexed, drop_plugin-IsIndexed, find-place, get-find,
  find-place-none,
}

find-absent :
    (name : Text) (ps : List LoadedPlugin) → all (differs name) ps ≡ true → find name ps ≡ none
find-absent name [] h = refl
find-absent name (p ∷ ps) h = ground (arith, find-absent name ps)

find-remove_at :
    (name : Text) (i j : ℕ) (ps : List LoadedPlugin) (other : Text)
    → Distinct ps
    → place i name ps ≡ some (i + j)
    → find other (remove_at ps j) ≡ (if text_eq other name then none else find other ps)
find-remove_at name i j [] other d h = absurd (ground arith)
find-remove_at name i zero (p ∷ ps) other d h = elim (Bool-cases (text_eq name (name_of p))) [
  | inl e ↦
      let same = (text_eq_iff name (name_of p)).0 e in
      let gone = find-absent name ps (rw same d.0) in
      elim (Bool-cases (text_eq other name)) [
        | inl f ↦ let o = (text_eq_iff other name).0 f in rw (f, o) gone
        | inr f ↦ ground (arith, ap (text_eq other) same)
      ]
  | inr e ↦
      let (k, q, g) = find-place name (suc i) ps {k = i + 0} (ground arith) in absurd (omega arith)
]
find-remove_at name i (suc j) (p ∷ ps) other d h = elim (Bool-cases (text_eq name (name_of p))) [
  | inl e ↦ absurd (ground arith)
  | inr e ↦
      let further : place (suc i) name ps ≡ some (suc i + j) = ground arith in
      ground (
        arith,
        find-remove_at name (suc i) j ps other d.1 further,
        text_eq_iff other name,
        text_eq_iff name (name_of p),
      )
]

-- What `locate` finds is the plugin under that name, at its place.
pub locate-place :
    (r : Registry) (name : Text) {k : ℕ} {plugin : LoadedPlugin}
    → IsIndexed r
    → locate r name ≡ ok (k, plugin)
    → (place 0 name r.plugins ≡ some k) × (find name r.plugins ≡ some plugin)
unfolding locate
locate-place r name {k} {plugin} v h = elim (Option-cases (place 0 name r.plugins)) [
  | inl e ↦ absurd (ground (arith, v.indexed name))
  | inr (i, e) ↦
      let (j, q, g) = find-place name 0 r.plugins {k = i} e in
      let same : i ≡ j = omega arith in
      elim (Option-cases (get_elem? r.plugins i)) [
        | inl f ↦ absurd (ground (arith, v.indexed name))
        | inr (p, f) ↦ (ground (arith, v.indexed name), ground (arith, v.indexed name))
      ]
]

locate-missing :
    (r : Registry) (name : Text) {e : RegistryError}
    → IsIndexed r
    → locate r name ≡ err e
    → find name r.plugins ≡ none
unfolding locate
locate-missing r name v h = elim (Option-cases (place 0 name r.plugins)) [
  | inl e ↦ find-place-none name 0 r.plugins e
  | inr (i, e) ↦
      let (j, q, g) = find-place name 0 r.plugins {k = i} e in
      let same : i ≡ j = omega arith in
      elim (Option-cases (find name r.plugins)) [
        | inl f ↦ f
        | inr (p, f) ↦ absurd (ground (arith, v.indexed name))
      ]
]

pub Located-cases :
    (o : Outcome RegistryError (ℕ × LoadedPlugin))
    → ((k : ℕ) × (p : LoadedPlugin) × (o ≡ ok (k, p))) ⊎ ((e : RegistryError) × (o ≡ err e))
Located-cases (ok (k, p)) = inl (k, p, refl)
Located-cases (err e) = inr (e, refl)

module _ {W : Type 0} (host : Host W) where
  remove-find :
      (r : Registry) (w : W) (name other : Text)
      → IsIndexed r
      → find other (remove host r w name).1.0.plugins
        ≡ (if text_eq other name then none else find other r.plugins)
  unfolding remove drop_plugin
  remove-find r w name other v = elim (Located-cases (locate r name)) [
    | inl (k, plugin, e) ↦
        let (at, found) = locate-place r name v e in
        let from_zero : k ≡ 0 + k = omega arith in
        ground (arith, find-remove_at name 0 k r.plugins other v.distinct (at ∙ ap some from_zero))
    | inr (x, e) ↦ let gone = locate-missing r name v e in ground (arith, text_eq_iff other name)
  ]

  -- Removal keeps the index sound.
  pub remove-IsIndexed :
      (r : Registry) (w : W) (name : Text) → IsIndexed r → IsIndexed (remove host r w name).1.0
  unfolding remove
  remove-IsIndexed r w name v = elim (Located-cases (locate r name)) [
    | inl (k, plugin, e) ↦ rw (e, remove) (drop_plugin-IsIndexed r k v)
    | inr (x, e) ↦ rw (e, remove) v
  ]

  -- After a removal the name is free, and every other name still gives the same plugin; so removing
  -- a name that is not there leaves every name as it was.
  pub remove-get :
      (r : Registry) (w : W) (name other : Text)
      → IsIndexed r
      → get (remove host r w name).1.0 other ≡ (if text_eq other name then none else get r other)
  remove-get r w name other v =
      get-find (remove host r w name).1.0 other (remove-IsIndexed r w name v)
      ∙ remove-find r w name other v
      ∙ ap (λ (g : Option LoadedPlugin). if text_eq other name then none else g)
          (sym (get-find r other v))

  remove_each-IsIndexed :
      (fs : List LoadFailure) (r : Registry) (w : W)
      → IsIndexed r
      → IsIndexed (remove_each host fs r w).0
  unfolding remove_each
  remove_each-IsIndexed [] r w v = v
  remove_each-IsIndexed (f ∷ fs) r w v =
      let after = (remove host r w f.name).1 in
      remove_each-IsIndexed fs after.0 after.1 (remove-IsIndexed r w f.name v)

  remove_each-get :
      (fs : List LoadFailure) (r : Registry) (w : W) (other : Text)
      → IsIndexed r
      → get (remove_each host fs r w).0 other
        ≡ (if any (λ (f : LoadFailure). text_eq other f.name) fs then none else get r other)
  unfolding remove_each
  remove_each-get [] r w other v = refl
  remove_each-get (f ∷ fs) r w other v =
      let after = (remove host r w f.name).1 in
      let step = remove-get r w f.name other v in
      let later = remove_each-get fs after.0 after.1 other (remove-IsIndexed r w f.name v) in
      ground (arith, step, later)

  abbrev listed : Text → List LoadFailure → Bool
  listed other fs = any (λ (f : LoadFailure). text_eq other f.name) fs

  refused_of-absent :
      (list : Revocations) (w : W) (other : Text) (ps : List LoadedPlugin)
      → all (differs other) ps ≡ true
      → listed other (refused_of host list w ps) ≡ false
  unfolding refused_of
  refused_of-absent list w other [] h = refl
  refused_of-absent list w other (p ∷ ps) h = elim (Option-cases (refusal host list w p)) [
    | inl e ↦ ground (arith, refused_of-absent list w other ps)
    | inr (x, e) ↦ ground (arith, refused_of-absent list w other ps)
  ]

  refused_of-listed :
      (list : Revocations) (w : W) (other : Text) (ps : List LoadedPlugin) {p : LoadedPlugin}
      → Distinct ps
      → find other ps ≡ some p
      → listed other (refused_of host list w ps) ≡ is_some (refusal host list w p)
  unfolding refused_of
  refused_of-listed list w other [] d h = absurd (ground arith)
  refused_of-listed list w other (q ∷ ps) {p} d h = elim (Bool-cases (text_eq other (name_of q))) [
    | inl e ↦
        let same = (text_eq_iff other (name_of q)).0 e in
        let found : q ≡ p = ground arith in
        let gone = refused_of-absent list w other ps (rw same d.0) in
        elim (Option-cases (refusal host list w q)) [
          | inl f ↦ ground (arith, ap (refusal host list w) found)
          | inr (x, f) ↦ ground (arith, ap (refusal host list w) found)
        ]
    | inr e ↦
        let later = refused_of-listed list w other ps {p = p} d.1 (ground arith) in
        elim (Option-cases (refusal host list w q)) [
          | inl f ↦ ground (arith, later)
          | inr (x, f) ↦ ground (arith, later)
        ]
  ]

  remove-revocations :
      (r : Registry) (w : W) (name : Text) → (remove host r w name).1.0.revocations ≡ r.revocations
  unfolding remove drop_plugin
  remove-revocations r w name = elim (Located-cases (locate r name)) [
    | inl (k, plugin, e) ↦ ground arith
    | inr (x, e) ↦ ground arith
  ]

  remove_each-revocations :
      (fs : List LoadFailure) (r : Registry) (w : W)
      → (remove_each host fs r w).0.revocations ≡ r.revocations
  unfolding remove_each
  remove_each-revocations [] r w = refl
  remove_each-revocations (f ∷ fs) r w =
      let after = (remove host r w f.name).1 in
      remove_each-revocations fs after.0 after.1 ∙ remove-revocations r w f.name

  -- What is left of a plugin that a list is applied to.
  abbrev pub spared : Revocations → W → LoadedPlugin → Option LoadedPlugin
  spared list w plugin =
      if is_empty list
      then some plugin
      else if is_some (refusal host list w plugin)
      then none
      else some plugin

  apply_revocations-spared :
      (r : Registry) (w : W) (list : Revocations) (name : Text) {plugin : LoadedPlugin}
      → IsIndexed r
      → get r name ≡ some plugin
      → IsIndexed (apply_revocations host r w list).1.0
        × ((apply_revocations host r w list).1.0.revocations ≡ some list)
        × (get (apply_revocations host r w list).1.0 name ≡ spared list w plugin)
  unfolding apply_revocations get
  apply_revocations-spared r w list name {plugin} v h =
      let fs = if is_empty list then [] else refused_of host list w r.plugins in
      let r' = record r { revocations = some list } in
      let v' : IsIndexed r' = record { distinct = v.distinct; indexed = v.indexed } in
      let found : find name r.plugins ≡ some plugin = sym (get-find r name v) ∙ h in
      let kept : get r' name ≡ some plugin = get-find r' name v' ∙ found in
      (
        remove_each-IsIndexed fs r' w v',
        remove_each-revocations fs r' w,
        remove_each-get fs r' w name v'
            ∙ ap (λ (g : Option LoadedPlugin). if listed name fs then none else g) kept
            ∙ left r.plugins v.distinct found,
      )
    where
      left :
          (ps : List LoadedPlugin)
          → Distinct ps
          → find name ps ≡ some plugin
          → (if listed name (if is_empty list then [] else refused_of host list w ps)
              then none
              else some plugin)
            ≡ spared list w plugin
      left ps d f = elim (Bool-cases (is_empty list)) [
        | inl e ↦ rw e
        | inr e ↦ rw (e, refused_of-listed list w name ps d f)
      ]

  spared-cases :
      (list : Revocations) (w : W) (plugin : LoadedPlugin)
      → ((spared list w plugin ≡ none) × IsRefused host list w plugin)
        ⊎ ((spared list w plugin ≡ some plugin) × IsAllowed host list w plugin)
  unfolding is_empty
  spared-cases [] w plugin = elim (Option-cases plugin.digest) [
    | inl e ↦ inr (refl, (none, (e, λ x i. elim i [ ]), λ x i. elim i [ ]))
    | inr (d, e) ↦ inr (refl, (some d, inl e, λ x i. elim i [ ]))
  ]
  spared-cases (x ∷ list) w plugin = elim (refusal-cases host (x ∷ list) w plugin) [
    | inl (reason, e, h) ↦ inl (ground arith, h)
    | inr (e, h) ↦ inr (ground arith, h)
  ]

  -- Applying a revocation list unloads exactly the plugins that it refuses: those of which an entry
  -- names the build, by the digest they were verified with or else by that of their files, or the
  -- signer, and those whose files cannot be read where such a digest is needed. Every other plugin
  -- stays under its name. The index stays sound, and the list is kept for later loads.
  pub apply_revocations-get :
      (r : Registry) (w : W) (list : Revocations) (name : Text) {plugin : LoadedPlugin}
      → IsIndexed r
      → get r name ≡ some plugin
      → IsIndexed (apply_revocations host r w list).1.0
        × ((apply_revocations host r w list).1.0.revocations ≡ some list)
        × (((get (apply_revocations host r w list).1.0 name ≡ none) × IsRefused host list w plugin)
            ⊎ ((get (apply_revocations host r w list).1.0 name ≡ some plugin)
                × IsAllowed host list w plugin))
  apply_revocations-get r w list name {plugin} v h =
      let (sound, kept, left) = apply_revocations-spared r w list name v h in
      (
        sound,
        kept,
        elim (spared-cases list w plugin) [
          | inl (e, refused) ↦ inl (left ∙ e, refused)
          | inr (e, allowed) ↦ inr (left ∙ e, allowed)
        ],
      )
