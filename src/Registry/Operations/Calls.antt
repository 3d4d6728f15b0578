-- ===== src/Registry/Operations/Calls.antt =====
-- A dispatch against calls by name.
use stanchion.Prelude.{
  ◌≡◌, refl, ap, ◌∙◌, some, List, [], ◌∷◌, arith, In, here, there, all-In, Text, text_eq_iff,
  text_eq_refl, map,
}
use stanchion.Value.{Value}
use stanchion.Registry.{RegistryError, Outcome, ok, err, LoadedPlugin, Host, Registry, get}
use stanchion.Registry.Operations.{Report, call, dispatch, dispatch_each, settle}
use stanchion.Registry.Operations.Index.{name_of, differs, Distinct, find, IsIndexed, get-find}

-- Each plugin is the one found under its name.
find-In :
    (p : LoadedPlugin) (ps : List LoadedPlugin)
    → Distinct ps
    → In p ps
    → find (name_of p) ps ≡ some p
find-In p [] d i = elim i [ ]
find-In p (q ∷ ps) d (here e) = ground (arith, text_eq_refl (name_of p), ap name_of e)
find-In p (q ∷ ps) d (there i) =
    let other = all-In (differs (name_of q)) d.0 i in
    ground
      (arith, find-In p ps d.1 i, text_eq_iff (name_of p) (name_of q), text_eq_refl (name_of q))

-- the report of one call, before those that follow
abbrev pub then_report :
    {W : Type 0}
    → Text
    → Outcome RegistryError (Outcome Text Value) × W
    → (W → List Report × W)
    → List Report × W
then_report name (ok result, w) later =
    let rest = later w in (record { plugin = name; result = result } ∷ rest.0, rest.1)
then_report name (err e, w) later = later w

module _ {W : Type 0} (host : Host W) where
  -- one call after the other, by name, through the worlds that they leave
  abbrev pub call_each : Registry → W → List LoadedPlugin → Text → List Value → List Report × W
  call_each r w [] method args = ([], w)
  call_each r w (p ∷ ps) method args =
      then_report (name_of p) (call host r w (name_of p) method args)
        (λ w'. call_each r w' ps method args)

  call-found :
      (r : Registry) (w : W) (name method : Text) (args : List Value) {p : LoadedPlugin}
      → get r name ≡ some p
      → call host r w name method args ≡ (
        ok (settle (host.call w p.instance_of method args).1),
        (host.call w p.instance_of method args).0,
      )
  unfolding call
  call-found r w name method args e = rw (e, call)

  dispatch_each-calls :
      (r : Registry) (ps : List LoadedPlugin) (w : W) (method : Text) (args : List Value)
      → ((p : LoadedPlugin) → In p ps → get r (name_of p) ≡ some p)
      → dispatch_each host ps w method args ≡ call_each r w ps method args
  unfolding dispatch_each
  dispatch_each-calls r [] w method args found = refl
  dispatch_each-calls r (p ∷ ps) w method args found =
      let answer = host.call w p.instance_of method args in
      let later = dispatch_each-calls r ps answer.0 method args (λ q i. found q (there i)) in
      rw (call-found r w (name_of p) method args (found p (here refl))) (rw later)

  -- A dispatch is a call of every loaded plugin by its name, in load order, each on the world that
  -- the calls before it left, and a call that fails or panics is reported in its place: it does
  -- not end the dispatch.
  pub dispatch-call_each :
      (r : Registry) (w : W) (method : Text) (args : List Value)
      → IsIndexed r
      → dispatch host r w method args ≡ call_each r w r.plugins method args
  unfolding dispatch
  dispatch-call_each r w method args v =
      dispatch_each-calls r r.plugins w method args
        (λ p i. get-find r (name_of p) v ∙ find-In p r.plugins v.distinct i)

  dispatch_each-names :
      (ps : List LoadedPlugin) (w : W) (method : Text) (args : List Value)
      → map (λ (o : Report). o.plugin) (dispatch_each host ps w method args).0 ≡ map name_of ps
  unfolding dispatch_each
  dispatch_each-names [] w method args = refl
  dispatch_each-names (p ∷ ps) w method args =
      let answer = host.call w p.instance_of method args in
      ap (◌∷◌ (name_of p)) (dispatch_each-names ps answer.0 method args)

  -- Every loaded plugin is reported once, in load order, whatever its call ends with.
  pub dispatch-names :
      (r : Registry) (w : W) (method : Text) (args : List Value)
      → map (λ (o : Report). o.plugin) (dispatch host r w method args).0 ≡ map name_of r.plugins
  unfolding dispatch
  dispatch-names r w method args = dispatch_each-names r.plugins w method args
