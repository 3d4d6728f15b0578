-- ===== src/Registry/Operations/Reloading.antt =====
-- Reloading: all or nothing for one plugin, and nothing for the others.
use stanchion.Prelude.{
  ℕ, zero, suc, ◌+◌, ◌≡◌, refl, ap, sym, ◌∙◌, Bool, true, false, inl, inr, Option, some, List, [],
  ◌∷◌, arith, if◌then◌else◌, set, all, Text, text_eq, text_eq_iff, Bool-cases, >>=-eq-ok,
  Outcome-cases,
}
use mathlib.Core.Path.{subst}
use stanchion.Signature.{Bytes, Signer, DirectoryDigest}
use stanchion.Manifest.{Manifest}
use stanchion.Registry.Verify.{IsBound, bind_if_digest-IsBound}
use stanchion.Registry.{
  load_context, RegistryError, FailureReason, renamed, Outcome, ok, err, LoadedPlugin, LoadItem,
  Instance, Host, Registry, get, verify_plugin, read_manifest, bind_if_digest, has_runtime,
  same_type, map_err, io_failed,
}
use stanchion.Registry.Operations.{
  locate, reload, finish, prepare, replace, reloaded, require, revalidate,
}
use stanchion.Registry.Operations.Index.{
  name_of, differs, Distinct, place, find, IsIndexed, find-place, get-find,
}
use stanchion.Registry.Operations.Removal.{Located-cases, locate-place}

module _ (name : Text) (q : LoadedPlugin) (same : name_of q ≡ name) where
  place-set :
      (i j : ℕ) (other : Text) (ps : List LoadedPlugin)
      → place i name ps ≡ some (i + j)
      → place i other (set ps j q) ≡ place i other ps
  place-set i j other [] h = absurd (ground arith)
  place-set i zero other (p ∷ ps) h = elim (Bool-cases (text_eq name (name_of p))) [
    | inl e ↦
        let here : name_of q ≡ name_of p = same ∙ (text_eq_iff name (name_of p)).0 e in
        ground (arith, ap (text_eq other) here)
    | inr e ↦
        let (k, f, g) = find-place name (suc i) ps {k = i + 0} (ground arith) in
        absurd (omega arith)
  ]
  place-set i (suc j) other (p ∷ ps) h = elim (Bool-cases (text_eq name (name_of p))) [
    | inl e ↦ absurd (ground arith)
    | inr e ↦
        let further : place (suc i) name ps ≡ some (suc i + j) = ground arith in
        ground (arith, place-set (suc i) j other ps further)
  ]

  find-set :
      (i j : ℕ) (other : Text) (ps : List LoadedPlugin)
      → place i name ps ≡ some (i + j)
      → find other (set ps j q) ≡ (if text_eq other name then some q else find other ps)
  find-set i j other [] h = absurd (ground arith)
  find-set i zero other (p ∷ ps) h = elim (Bool-cases (text_eq name (name_of p))) [
    | inl e ↦
        let here = (text_eq_iff name (name_of p)).0 e in
        ground (arith, ap (text_eq other) same, ap (text_eq other) here)
    | inr e ↦
        let (k, f, g) = find-place name (suc i) ps {k = i + 0} (ground arith) in
        absurd (omega arith)
  ]
  find-set i (suc j) other (p ∷ ps) h = elim (Bool-cases (text_eq name (name_of p))) [
    | inl e ↦ absurd (ground arith)
    | inr e ↦
        let further : place (suc i) name ps ≡ some (suc i + j) = ground arith in
        ground (
          arith,
          find-set (suc i) j other ps further,
          text_eq_iff other name,
          text_eq_iff name (name_of p),
        )
  ]

  all-set :
      (t : Text) (i j : ℕ) (ps : List LoadedPlugin)
      → place i name ps ≡ some (i + j)
      → all (differs t) ps ≡ true
      → all (differs t) (set ps j q) ≡ true
  all-set t i j [] h a = refl
  all-set t i zero (p ∷ ps) h a = elim (Bool-cases (text_eq name (name_of p))) [
    | inl e ↦
        let here : name_of q ≡ name_of p = same ∙ (text_eq_iff name (name_of p)).0 e in
        ground (arith, ap (text_eq t) here)
    | inr e ↦
        let (k, f, g) = find-place name (suc i) ps {k = i + 0} (ground arith) in
        absurd (omega arith)
  ]
  all-set t i (suc j) (p ∷ ps) h a = elim (Bool-cases (text_eq name (name_of p))) [
    | inl e ↦ absurd (ground arith)
    | inr e ↦
        let further : place (suc i) name ps ≡ some (suc i + j) = ground arith in
        ground (arith, all-set t (suc i) j ps further)
  ]

  set-Distinct :
      (i j : ℕ) (ps : List LoadedPlugin)
      → place i name ps ≡ some (i + j)
      → Distinct ps
      → Distinct (set ps j q)
  set-Distinct i j [] h d = tt
  set-Distinct i zero (p ∷ ps) h d = elim (Bool-cases (text_eq name (name_of p))) [
    | inl e ↦
        let here : name_of q ≡ name_of p = same ∙ (text_eq_iff name (name_of p)).0 e in
        (rw here d.0, d.1)
    | inr e ↦
        let (k, f, g) = find-place name (suc i) ps {k = i + 0} (ground arith) in
        absurd (omega arith)
  ]
  set-Distinct i (suc j) (p ∷ ps) h d = elim (Bool-cases (text_eq name (name_of p))) [
    | inl e ↦ absurd (ground arith)
    | inr e ↦
        let further : place (suc i) name ps ≡ some (suc i + j) = ground arith in
        (all-set (name_of p) (suc i) j ps further d.0, set-Distinct (suc i) j ps further d.1)
  ]

  replace-IsIndexed :
      (r : Registry) (k : ℕ)
      → IsIndexed r
      → place 0 name r.plugins ≡ some k
      → IsIndexed (replace r k q)
  unfolding replace
  replace-IsIndexed r k v h =
      let from_zero : k ≡ 0 + k = omega arith in
      let at = h ∙ ap some from_zero in
      record {
        distinct = set-Distinct 0 k r.plugins at v.distinct;
        indexed = λ other. v.indexed other ∙ sym (place-set 0 k other r.plugins at);
      }

  replace-get :
      (r : Registry) (k : ℕ) (other : Text)
      → IsIndexed r
      → place 0 name r.plugins ≡ some k
      → get (replace r k q) other ≡ (if text_eq other name then some q else get r other)
  unfolding replace
  replace-get r k other v h =
      let from_zero : k ≡ 0 + k = omega arith in
      get-find (replace r k q) other (replace-IsIndexed r k v h)
      ∙ find-set 0 k other r.plugins (h ∙ ap some from_zero)
      ∙ ap (λ (g : Option LoadedPlugin). if text_eq other name then some q else g)
          (sym (get-find r other v))

module _ {W : Type 0} (host : Host W) where
  finish-err :
      (r : Registry) (k : ℕ) (current : LoadedPlugin) (name : Text) (item : LoadItem)
      (answer : W × Outcome Text (Instance × List Text)) {e : RegistryError}
      → (finish host r k current name item answer).0 ≡ err e
      → (finish host r k current name item answer).1.0 ≡ r
  unfolding finish
  finish-err r k current name item (w, err m) h = refl
  finish-err r k current name item (w, ok bound) h = absurd (ground arith)

  -- A reload that fails, at whatever step, leaves the registry as it was.
  pub reload-err :
      (r : Registry) (w : W) (name : Text) {e : RegistryError}
      → (reload host r w name).0 ≡ err e
      → (reload host r w name).1.0 ≡ r
  unfolding reload
  reload-err r w name h = elim (Located-cases (locate r name)) [
    | inl (k, current, e) ↦ elim (Outcome-cases (prepare host r w current name)) [
      | inl (item, f) ↦
          let last =
            finish-err r k current name item (host.reload_plugin w item (load_context r)) in
          rw (e, reload, f) (last (rw (e, reload, f) at h))
      | inr (x, f) ↦ rw (e, reload, f)
    ]
    | inr (x, e) ↦ rw (e, reload)
  ]

-- What the checks before the runtime's turn have established.
abbrev pub IsPrepared : {W : Type 0} → Host W → Registry → W → Text → LoadItem → Type 0
IsPrepared host r w name item =
    (item.manifest.name ≡ name)
    × (verify_plugin host r w item.manifest ≡ ok (item.signer, item.digest))
    × IsBound host.sha256 item.manifest item.digest item.entry_bytes
    × (host.read_file w item.manifest.dir item.manifest.entry ≡ ok item.entry_bytes)

require-ok : (b : Bool) (e : FailureReason) → require b e ≡ ok tt → b ≡ true
require-ok true e h = refl
require-ok false e h = absurd (ground arith)

module _ {W : Type 0} (host : Host W) where
  assemble :
      (r : Registry) (w : W) (name : Text) (m : Manifest) (v : Signer × Option DirectoryDigest)
      (b : Bytes) {item : LoadItem}
      → text_eq m.name name ≡ true
      → verify_plugin host r w m ≡ ok v
      → map_err io_failed (host.read_file w m.dir m.entry) ≡ ok b
      → bind_if_digest host.sha256 m v.1 b ≡ ok tt
      → ◌≡◌ {A = Outcome FailureReason LoadItem}
          (ok (record { manifest = m; signer = v.0; digest = v.1; entry_bytes = b }))
          (ok item)
      → IsPrepared host r w name item
  assemble r w name m v b same verified read bound packed =
      let made : LoadItem = record { manifest = m; signer = v.0; digest = v.1; entry_bytes = b } in
      subst (IsPrepared host r w name) (ok-injective packed) (
        (text_eq_iff m.name name).0 same,
        verified,
        bind_if_digest-IsBound host.sha256 m v.1 b bound,
        read_ok (host.read_file w m.dir m.entry) read,
      )
    where
      ok-injective :
          {a c : LoadItem} → ◌≡◌ {A = Outcome FailureReason LoadItem} (ok a) (ok c) → a ≡ c
      ok-injective e = cc

      read_ok : (o : Outcome Text Bytes) → map_err io_failed o ≡ ok b → o ≡ ok b
      read_ok (ok c) e = ground arith
      read_ok (err x) e = absurd (ground arith)

  prepare-IsPrepared :
      (r : Registry) (w : W) (current : LoadedPlugin) (name : Text) {item : LoadItem}
      → prepare host r w current name ≡ ok item
      → IsPrepared host r w name item
  unfolding prepare
  prepare-IsPrepared r w current name h =
      let (m, e1, h1) = >>=-eq-ok (read_manifest host w current.manifest.dir) _ h in
      let (_, e2, h2) = >>=-eq-ok (require (text_eq m.name name) _) _ h1 in
      let (_, e3, h3) =
        >>=-eq-ok (require (same_type m.plugin_type current.manifest.plugin_type) _) _ h2 in
      let (_, e4, h4) = >>=-eq-ok (revalidate m) _ h3 in
      let (v, e5, h5) = >>=-eq-ok (verify_plugin host r w m) _ h4 in
      let (b, e6, h6) = >>=-eq-ok (map_err io_failed (host.read_file w m.dir m.entry)) _ h5 in
      let (_, e7, h7) = >>=-eq-ok (bind_if_digest host.sha256 m v.1 b) _ h6 in
      let (_, e8, h8) = >>=-eq-ok (require (has_runtime r current.manifest.plugin_type) _) _ h7 in
      assemble r w name m v b (require-ok (text_eq m.name name) (renamed m.name) e2) e5 e6 e7 h8

  finish-ok :
      (r : Registry) (k : ℕ) (current : LoadedPlugin) (name : Text) (item : LoadItem)
      (answer : W × Outcome Text (Instance × List Text))
      → (finish host r k current name item answer).0 ≡ ok tt
      → (bound : Instance × List Text) × (answer.1 ≡ ok bound)
        × ((finish host r k current name item answer).1.0 ≡ replace r k (reloaded host item bound))
  unfolding finish
  finish-ok r k current name item (w, err m) h = absurd (ground arith)
  finish-ok r k current name item (w, ok bound) h = (bound, refl, refl)

  -- A reload that succeeds puts a plugin of the same name in the old one's place, and every other
  -- name still gives the same plugin. The new one has passed verification, and the bytes that the
  -- runtime was given are those of its entry file, bound to the verified digest if there is one;
  -- its instance and its grants are what the runtime returned for them.
  pub reload-ok :
      (r : Registry) (w : W) (name : Text)
      → IsIndexed r
      → (reload host r w name).0 ≡ ok tt
      → (item : LoadItem) × (bound : Instance × List Text) × IsPrepared host r w name item
        × ((host.reload_plugin w item (load_context r)).1 ≡ ok bound)
        × IsIndexed (reload host r w name).1.0
        × ((other : Text)
            → get (reload host r w name).1.0 other
              ≡ (if text_eq other name then some (reloaded host item bound) else get r other))
  unfolding reload
  reload-ok r w name v h = elim (Located-cases (locate r name)) [
    | inl (k, current, e) ↦ elim (Outcome-cases (prepare host r w current name)) [
      | inl (item, f) ↦
          let good = prepare-IsPrepared r w current name f in
          let (at, found) = locate-place r name v e in
          let (bound, answer, last) =
            finish-ok r k current name item (host.reload_plugin w item (load_context r))
              (rw (e, reload, f) at h) in
          let new = reloaded host item bound in
          (
            item,
            bound,
            good,
            answer,
            rw (e, reload, f, last) (replace-IsIndexed name new good.0 r k v at),
            λ other. rw (e, reload, f, last) (replace-get name new good.0 r k other v at),
          )
      | inr (x, f) ↦ absurd (ground arith)
    ]
    | inr (x, e) ↦ absurd (ground arith)
  ]
