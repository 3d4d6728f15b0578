-- ===== src/Loading/Absorbing.antt =====
-- What holds throughout the part of loading that follows the checks: the runtimes' outcomes, the
-- groups, and the last round over the plugins that are ready.
use stanchion.Prelude.{
  ◌≡◌, refl, sym, ap, ◌∙◌, subst, true, ◌||◌, ◌⊎◌, inl, inr, some, List, [], ◌∷◌, ◌++◌, arith, In,
  here, there, In-append_split, Text, Map, text_eq, text_eq_iff, lookup, insert, length,
  text_eq_refl, lookup-insert, contains_key, Bool-cases, Option-cases,
}
use stanchion.Manifest.{PluginType, lua, wasm}
use stanchion.Registry.{
  FailureReason, Instance, LoadItem, LoadContext, Host, has_runtime, same_type, load_context,
}
use stanchion.Loading.{
  GroupOutcome, loaded, failed, Loader, Loading, record_as, add_plugin, loaded_plugin, absorb,
  absorb_all, refuse_group, account, account_one, Group, before, add_item, group_by_type,
  insert_group, sort_groups, items_by_name,
}
use stanchion.Resolution.{elem}
use stanchion.Loading.Directory.{load_groups}

abbrev pub fail_as : Text → Text → FailureReason → Loading → Loading
fail_as name dir reason s = record s { progress = record_as name dir reason s.progress }

abbrev pub keep_item : Text → LoadItem → Instance → List Text → Loading → Loading
keep_item name item handle granted s = record s {
  registry = add_plugin name (loaded_plugin item handle granted) s.registry;
  names = s.names ++ name ∷ [];
}

-- Every plugin of every group is one of these, and is of the group's type.
abbrev pub AreFrom : List LoadItem → List Group → Type 0
AreFrom ready groups =
    (ty : PluginType) (members : List LoadItem) (item : LoadItem)
    → In (ty, members) groups
    → In item members
    → In item ready × (item.manifest.plugin_type ≡ ty)

same_type-eq : (s t : PluginType) → same_type s t ≡ true → s ≡ t
same_type-eq lua lua h = refl
same_type-eq wasm wasm h = refl
same_type-eq lua wasm h = absurd (ground arith)
same_type-eq wasm lua h = absurd (ground arith)

add_item-AreFrom :
    (ready : List LoadItem) (item : LoadItem) (groups : List Group)
    → In item ready
    → AreFrom ready groups
    → AreFrom ready (add_item item groups)
unfolding add_item
add_item-AreFrom ready item [] i f ty members other (here q) j =
    elim (subst (In other) (ap (λ (g : Group). g.1) q) j) [
      | here e ↦ (
        subst (λ x. In x ready) (sym e) i,
        ap (λ (x : LoadItem). x.manifest.plugin_type) e ∙ sym (ap (λ (g : Group). g.0) q),
      )
      | there k ↦ elim k [ ]
    ]
add_item-AreFrom ready item [] i f ty members other (there k) j = elim k [ ]
add_item-AreFrom ready item ((t, ms) ∷ groups) i f ty members other g j =
    elim (Bool-cases (same_type t item.manifest.plugin_type)) [
      | inl e ↦ elim (rw (e, add_item) at g) [
        | here q ↦ elim (In-append_split ms (subst (In other) (ap (λ (h : Group). h.1) q) j)) [
          | inl k ↦
              let (l, same) = f t ms other (here refl) k in
              (l, same ∙ sym (ap (λ (h : Group). h.0) q))
          | inr k ↦ elim k [
            | here e' ↦ (
              subst (λ x. In x ready) (sym e') i,
              ap (λ (x : LoadItem). x.manifest.plugin_type) e'
                  ∙ sym (same_type-eq t item.manifest.plugin_type e)
                  ∙ sym (ap (λ (h : Group). h.0) q),
            )
            | there l ↦ elim l [ ]
          ]
        ]
        | there k ↦ f ty members other (there k) j
      ]
      | inr e ↦ elim (rw (e, add_item) at g) [
        | here q ↦
            let (l, same) =
              f t ms other (here refl) (subst (In other) (ap (λ (h : Group). h.1) q) j) in
            (l, same ∙ sym (ap (λ (h : Group). h.0) q))
        | there k ↦
            add_item-AreFrom ready item groups i (λ t' ms' x a b. f t' ms' x (there a) b) ty members
              other k j
      ]
    ]

group_by_type-AreFrom :
    (ready items : List LoadItem) (groups : List Group)
    → ((item : LoadItem) → In item items → In item ready)
    → AreFrom ready groups
    → AreFrom ready (group_by_type items groups)
unfolding group_by_type
group_by_type-AreFrom ready [] groups sub f = f
group_by_type-AreFrom ready (item ∷ items) groups sub f =
    group_by_type-AreFrom ready items (add_item item groups) (λ x i. sub x (there i))
      (add_item-AreFrom ready item groups (sub item (here refl)) f)

insert_group-In :
    (x g : Group) (groups : List Group) → In x (insert_group g groups) → In x (g ∷ groups)
unfolding insert_group
insert_group-In x g [] i = i
insert_group-In x g (h ∷ groups) i = elim (Bool-cases (before h.0 g.0)) [
  | inr e ↦ rw (e, insert_group) at i
  | inl e ↦ elim (rw (e, insert_group) at i) [
    | here q ↦ there (here q)
    | there j ↦ elim (insert_group-In x g groups j) [ here q ↦ here q | there k ↦ there (there k) ]
  ]
]

sort_groups-In : (x : Group) (groups : List Group) → In x (sort_groups groups) → In x groups
unfolding sort_groups
sort_groups-In x [] i = i
sort_groups-In x (g ∷ groups) i = elim (insert_group-In x g (sort_groups groups) i) [
  | here q ↦ here q
  | there j ↦ there (sort_groups-In x groups j)
]

pub groups-AreFrom : (ready : List LoadItem) → AreFrom ready (sort_groups (group_by_type ready []))
groups-AreFrom ready ty members item g i =
    group_by_type-AreFrom ready ready [] (λ x j. j) (λ t ms x a b. elim a [ ]) ty members item
      (sort_groups-In (ty, members) (group_by_type ready []) g) i

items_by_name-In :
    (name : Text) (item : LoadItem) (members : List LoadItem) (items : Map LoadItem)
    → lookup name (items_by_name members items) ≡ some item
    → (In item members × (item.manifest.name ≡ name)) ⊎ (lookup name items ≡ some item)
unfolding items_by_name
items_by_name-In name item [] items h = inr h
items_by_name-In name item (m ∷ members) items h =
    elim (items_by_name-In name item members (insert m.manifest.name m items) h) [
      | inl (i, q) ↦ inl (there i, q)
      | inr l ↦ elim (Bool-cases (text_eq name m.manifest.name)) [
        | inl e ↦
            let same : m ≡ item = ground (arith, lookup-insert name m.manifest.name m items) in
            inl (
              here (sym same),
              ap (λ (x : LoadItem). x.manifest.name) (sym same)
                  ∙ sym ((text_eq_iff name m.manifest.name).0 e),
            )
        | inr e ↦ inr (ground (arith, lookup-insert name m.manifest.name m items))
      ]
    ]

-- A property of the state that stands when a failure is recorded stands after the last round.
module _ (P : Loading → Type 0)
    (on_failure : (name dir : Text) (reason : FailureReason) (s : Loading)
      → P s
      → P (fail_as name dir reason s)) where
  account_one-keeps : (item : LoadItem) (s : Loading) → P s → P (account_one item s)
  unfolding account_one
  account_one-keeps item s p =
      elim (Bool-cases (
        elem item.manifest.name s.progress.failed_names
        || contains_key item.manifest.name s.registry.index)) [
          | inl e ↦ rw (e, account_one) p
          | inr e ↦ rw (e, account_one) (on_failure item.manifest.name item.manifest.dir _ s p)
        ]

  pub account-keeps : (items : List LoadItem) (s : Loading) → P s → P (account items s)
  unfolding account
  account-keeps [] s p = p
  account-keeps (item ∷ items) s p = account-keeps items _ (account_one-keeps item s p)

-- A runtime of the plugin's type was given the plugin, and gave this instance for it.
abbrev pub IsAnswered : {W : Type 0} → Loader W → Text → LoadItem → Instance → List Text → Type 0
IsAnswered {W} loader name item handle granted =
    (w : W) × (members : List LoadItem) × (context : LoadContext) × In item members
    × In (loaded name handle granted)
        (loader.load_group w item.manifest.plugin_type members context).1

-- A property of the state that stands when a failure is recorded, and when a plugin that is ready
-- and that a runtime has loaded is added under its name, stands after all groups.
module _ {W : Type 0} (host : Host W) (loader : Loader W) (ready : List LoadItem)
    (P : Loading → Type 0)
    (on_failure : (name dir : Text) (reason : FailureReason) (s : Loading)
      → P s
      → P (fail_as name dir reason s))
    (on_item : (name : Text) (item : LoadItem) (handle : Instance) (granted : List Text)
        (s : Loading)
      → In item ready
      → item.manifest.name ≡ name
      → IsAnswered loader name item handle granted
      → P s
      → P (keep_item name item handle granted s)) where
  absorb-keeps :
      (items : Map LoadItem) (outcome : GroupOutcome) (s : Loading)
      → ((name : Text) (item : LoadItem)
          → lookup name items ≡ some item
          → In item ready × (item.manifest.name ≡ name))
      → ((name : Text) (item : LoadItem) (handle : Instance) (granted : List Text)
          → lookup name items ≡ some item
          → outcome ≡ loaded name handle granted
          → IsAnswered loader name item handle granted)
      → P s
      → P (absorb items outcome s)
  unfolding absorb
  absorb-keeps items (failed name dir reason) s sub given p = on_failure name dir _ s p
  absorb-keeps items (loaded name handle granted) s sub given p =
      elim (Option-cases (lookup name items)) [
        | inl e ↦ rw (e, absorb) (on_failure name [] _ s p)
        | inr (item, e) ↦
            rw (e, absorb)
              (on_item name item handle granted s (sub name item e).0 (sub name item e).1
                (given name item handle granted e refl) p)
      ]

  absorb_all-keeps :
      (items : Map LoadItem) (outcomes : List GroupOutcome) (s : Loading)
      → ((name : Text) (item : LoadItem)
          → lookup name items ≡ some item
          → In item ready × (item.manifest.name ≡ name))
      → ((name : Text) (item : LoadItem) (handle : Instance) (granted : List Text)
          → lookup name items ≡ some item
          → In (loaded name handle granted) outcomes
          → IsAnswered loader name item handle granted)
      → P s
      → P (absorb_all items outcomes s)
  unfolding absorb_all
  absorb_all-keeps items [] s sub given p = p
  absorb_all-keeps items (outcome ∷ outcomes) s sub given p =
      absorb_all-keeps items outcomes (absorb items outcome s) sub
        (λ name item handle granted e i. given name item handle granted e (there i))
        (absorb-keeps items outcome s sub
          (λ name item handle granted e same. given name item handle granted e (here (sym same))) p)

  refuse_group-keeps : (members : List LoadItem) (s : Loading) → P s → P (refuse_group members s)
  unfolding refuse_group
  refuse_group-keeps [] s p = p
  refuse_group-keeps (item ∷ members) s p =
      refuse_group-keeps members _ (on_failure item.manifest.name item.manifest.dir _ s p)

  members-In :
      (name : Text) (item : LoadItem) (members : List LoadItem)
      → lookup name (items_by_name members []) ≡ some item
      → In item members × (item.manifest.name ≡ name)
  unfolding lookup
  members-In name item members l = elim (items_by_name-In name item members [] l) [
    | inl i ↦ i
    | inr n ↦ absurd (ground arith)
  ]

  pub load_groups-keeps :
      (groups : List Group) (s : Loading) (w : W)
      → AreFrom ready groups
      → P s
      → P (load_groups host loader groups s w).0
  unfolding load_groups
  load_groups-keeps [] s w f p = p
  load_groups-keeps ((ty, members) ∷ groups) s w f p =
      let later : AreFrom ready groups = λ t ms x a b. f t ms x (there a) b in
      let context = load_context s.registry in
      let answer = loader.load_group w ty members context in
      elim (Bool-cases (has_runtime s.registry ty)) [
        | inr e ↦
            rw (e, load_groups)
              (load_groups-keeps groups _ w later (refuse_group-keeps members s p))
        | inl e ↦
            rw (e, load_groups)
              (load_groups-keeps groups _ answer.0 later (
                absorb_all-keeps (items_by_name members []) answer.1 s
                  (λ name item l.
                    let (i, q) = members-In name item members l in
                    ((f ty members item (here refl) i).0, q))
                  (λ name item handle granted l k.
                    let (i, q) = members-In name item members l in
                    let same = (f ty members item (here refl) i).1 in
                    (
                      w,
                      members,
                      context,
                      i,
                      subst
                          (λ (t : PluginType).
                            In (loaded name handle granted)
                              (loader.load_group w t members context).1)
                          (sym same) k,
                    ))
                  p))
      ]

-- The name has failed, or is in the index.
abbrev pub IsSettled : Text → Loading → Type 0
IsSettled name s =
    (elem name s.progress.failed_names ≡ true) ⊎ (contains_key name s.registry.index ≡ true)

pub fail_as-IsSettled :
    (x name dir : Text) (reason : FailureReason) (s : Loading)
    → IsSettled x s
    → IsSettled x (fail_as name dir reason s)
fail_as-IsSettled x name dir reason s (inl e) = inl (ground arith)
fail_as-IsSettled x name dir reason s (inr e) = inr e

pub keep_item-IsSettled :
    (x name : Text) (item : LoadItem) (handle : Instance) (granted : List Text) (s : Loading)
    → IsSettled x s
    → IsSettled x (keep_item name item handle granted s)
unfolding contains_key
keep_item-IsSettled x name item handle granted s (inl e) = inl e
keep_item-IsSettled x name item handle granted s (inr e) =
    inr (ground (arith, lookup-insert x name (length s.registry.plugins) s.registry.index))

account_one-IsSettled :
    (item : LoadItem) (s : Loading) → IsSettled item.manifest.name (account_one item s)
unfolding account_one
account_one-IsSettled item s = elim (Bool-cases (elem item.manifest.name s.progress.failed_names)) [
  | inl e ↦ rw (e, account_one) (inl e)
  | inr e ↦ elim (Bool-cases (contains_key item.manifest.name s.registry.index)) [
    | inl f ↦ rw (e, f, account_one) (inr f)
    | inr f ↦ rw (e, f, account_one) (inl (ground (arith, text_eq_refl item.manifest.name)))
  ]
]

-- After the last round, every plugin that was ready has failed or is in the index.
pub account-IsSettled :
    (item : LoadItem) (items : List LoadItem) (s : Loading)
    → In item items
    → IsSettled item.manifest.name (account items s)
unfolding account
account-IsSettled item [] s i = elim i [ ]
account-IsSettled item (other ∷ items) s (there i) = account-IsSettled item items _ i
account-IsSettled item (other ∷ items) s (here q) =
    let x = item.manifest.name in
    account-keeps (IsSettled x) (fail_as-IsSettled x) items (account_one other s) (
      subst (λ (i : LoadItem). IsSettled i.manifest.name (account_one other s)) (sym q)
        (account_one-IsSettled other s))
