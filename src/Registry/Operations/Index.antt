-- ===== src/Registry/Operations/Index.antt =====
-- The name index against the list of plugins: the invariant that every method keeps.
use stanchion.Prelude.{
  ℕ, zero, suc, ◌+◌, ◌≡◌, refl, Bool, true, not, inl, inr, Option, none, some, List, [], ◌∷◌, arith,
  if◌then◌else◌, get_elem?, remove_at, all, Text, Map, lookup, insert, lookup-insert, text_eq,
  text_eq_iff, Bool-cases, Option-cases,
}
use stanchion.Registry.{LoadedPlugin, Registry, rebuild, get}
use stanchion.Registry.Operations.{drop_plugin}

abbrev pub name_of : LoadedPlugin → Text
name_of plugin = plugin.manifest.name

abbrev pub differs : Text → LoadedPlugin → Bool
differs name plugin = not (text_eq name (name_of plugin))

-- No two plugins have one name.
abbrev pub Distinct : List LoadedPlugin → Type 0
Distinct [] = Unit {0}
Distinct (p ∷ ps) = (all (differs (name_of p)) ps ≡ true) × Distinct ps

-- The place of the first plugin with the name, counted from `i`.
abbrev pub place : ℕ → Text → List LoadedPlugin → Option ℕ
place i name [] = none
place i name (p ∷ ps) = if text_eq name (name_of p) then some i else place (suc i) name ps

-- The first plugin with the name.
abbrev pub find : Text → List LoadedPlugin → Option LoadedPlugin
find name [] = none
find name (p ∷ ps) = if text_eq name (name_of p) then some p else find name ps

-- The index gives each name the place of its plugin, and names are not shared.
pub record IsIndexed (r : Registry) : Type 0 where
  pub distinct : Distinct r.plugins
  pub indexed : (name : Text) → lookup name r.index ≡ place 0 name r.plugins

abbrev or_else : Option ℕ → Option ℕ → Option ℕ
or_else none other = other
or_else (some i) other = some i

pub absent :
    (name : Text) (i : ℕ) (ps : List LoadedPlugin)
    → all (differs name) ps ≡ true
    → place i name ps ≡ none
absent name i [] h = refl
absent name i (p ∷ ps) h = ground (arith, absent name (suc i) ps)

lookup-rebuild :
    (name : Text) (i : ℕ) (ps : List LoadedPlugin) (index : Map ℕ)
    → Distinct ps
    → lookup name (rebuild i ps index) ≡ or_else (place i name ps) (lookup name index)
unfolding rebuild
lookup-rebuild name i [] index d = refl
lookup-rebuild name i (p ∷ ps) index d = elim (Bool-cases (text_eq name (name_of p))) [
  | inl e ↦
      let same = (text_eq_iff name (name_of p)).0 e in
      let gone = absent name (suc i) ps (rw same d.0) in
      ground (
        arith,
        lookup-rebuild name (suc i) ps (insert (name_of p) i index) d.1,
        gone,
        lookup-insert name (name_of p) i index,
      )
  | inr e ↦ ground (
    arith,
    lookup-rebuild name (suc i) ps (insert (name_of p) i index) d.1,
    lookup-insert name (name_of p) i index,
  )
]

all-remove_at :
    (p : LoadedPlugin → Bool) (ps : List LoadedPlugin) (k : ℕ)
    → all p ps ≡ true
    → all p (remove_at ps k) ≡ true
all-remove_at p [] k h = refl
all-remove_at p (q ∷ ps) zero h = ground arith
all-remove_at p (q ∷ ps) (suc k) h = ground (arith, all-remove_at p ps k)

pub remove_at-Distinct : (ps : List LoadedPlugin) (k : ℕ) → Distinct ps → Distinct (remove_at ps k)
remove_at-Distinct [] k d = tt
remove_at-Distinct (p ∷ ps) zero d = d.1
remove_at-Distinct (p ∷ ps) (suc k) d =
    (all-remove_at (differs (name_of p)) ps k d.0, remove_at-Distinct ps k d.1)

pub drop_plugin-IsIndexed : (r : Registry) (k : ℕ) → IsIndexed r → IsIndexed (drop_plugin r k)
unfolding drop_plugin lookup
drop_plugin-IsIndexed r k v =
    let d = remove_at-Distinct r.plugins k v.distinct in
    record {
      distinct = d;
      indexed = λ name. ground (arith, lookup-rebuild name 0 (remove_at r.plugins k) [] d);
    }

pub find-place :
    (name : Text) (i : ℕ) (ps : List LoadedPlugin) {k : ℕ}
    → place i name ps ≡ some k
    → (j : ℕ) × (k ≡ i + j) × (get_elem? ps j ≡ find name ps)
find-place name i [] h = absurd (ground arith)
find-place name i (p ∷ ps) {k} h = elim (Bool-cases (text_eq name (name_of p))) [
  | inl e ↦ (0, ground arith, ground arith)
  | inr e ↦
      let later : place (suc i) name ps ≡ some k = ground arith in
      let (j, q, g) = find-place name (suc i) ps later in (suc j, omega arith, ground arith)
]

pub find-place-none :
    (name : Text) (i : ℕ) (ps : List LoadedPlugin) → place i name ps ≡ none → find name ps ≡ none
find-place-none name i [] h = refl
find-place-none name i (p ∷ ps) h = ground (arith, find-place-none name (suc i) ps)

-- With a sound index, looking a name up finds the plugin of that name.
pub get-find : (r : Registry) (name : Text) → IsIndexed r → get r name ≡ find name r.plugins
unfolding get
get-find r name v = elim (Option-cases (place 0 name r.plugins)) [
  | inl e ↦ ground (arith, v.indexed name, find-place-none name 0 r.plugins e)
  | inr (k, e) ↦
      let (j, q, g) = find-place name 0 r.plugins e in
      let same : k ≡ j = omega arith in ground (arith, v.indexed name)
]
