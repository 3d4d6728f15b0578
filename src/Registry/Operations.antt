-- ===== src/Registry/Operations.antt =====
-- The registry's methods on loaded plugins, of crates/stanchion-registry/src/lib.rs. A method gives
-- the new registry and the new state of the world beside its result.
pub mod Index
pub mod Refusal
pub mod Removal
pub mod Reloading
pub mod Calls
use stanchion.Prelude.{
  ℕ, zero, suc, Bool, true, false, not, Option, none, some, List, [], ◌∷◌, ◌++◌, if◌then◌else◌,
  get_elem?, set, remove_at, is_some, is_empty, Text, Map, lookup, codes, text_eq,
}
use stanchion.Value.{Value}
use stanchion.Manifest.{Manifest, PluginType, fine, refused, validate}
use stanchion.Signature.{Bytes, Signer, DirectoryDigest, Revocations, needs_digest}
use stanchion.Signature
use stanchion.Registry.{
  load_context, FailureReason, renamed, retyped, bad_manifest, io_failed, no_backend, runtime,
  revoked, LoadFailure, RegistryError, unknown_plugin, reload_failed, Outcome, ok, err, ◌>>=◌, ◌>>◌,
  map_err, LoadedPlugin, LoadItem, Instance, Called, value, failed, panicked, Host, Registry,
  same_type, has_runtime, rebuild, get, verify_plugin, read_manifest, bind_if_digest, compute,
}

-- the place of a plugin, and the plugin at it
unfoldable pub locate : Registry → Text → Outcome RegistryError (ℕ × LoadedPlugin)
locate r name = elim (lookup name r.index) [
  | none ↦ err (unknown_plugin name)
  | some position ↦ elim (get_elem? r.plugins position) [
    | none ↦ err (unknown_plugin name)
    | some plugin ↦ ok (position, plugin)
  ]
]

unfoldable pub drop_plugin : Registry → ℕ → Registry
drop_plugin r position =
    let plugins = remove_at r.plugins position in
    record r { plugins = plugins; index = rebuild 0 plugins [] }

-- `iter().position(|name| name == capability)`
unfoldable pub position_of : Text → List Text → Option ℕ
position_of name [] = none
position_of name (n ∷ ns) =
    let rest = position_of name ns in
    if text_eq n name then some zero else elim rest [ none ↦ none | some i ↦ some (suc i) ]

unfoldable pub replace : Registry → ℕ → LoadedPlugin → Registry
replace r position plugin = record r { plugins = set r.plugins position plugin }

abbrev pub refuse : LoadedPlugin → FailureReason → LoadFailure
refuse plugin reason = record {
  name = plugin.manifest.name;
  dir = plugin.manifest.dir;
  reason = reason;
}

-- the outcome of one plugin in a dispatch
pub record Report : Type 0 where
  pub plugin : Text
  pub result : Outcome Text Value

unfoldable pub settle : Called → Outcome Text Value
settle (value v) = ok v
settle (failed m) = err m
settle (panicked m) = err m

abbrev pub require : Bool → FailureReason → Outcome FailureReason (Unit {0})
require true e = ok tt
require false e = err e

abbrev pub revalidate : Manifest → Outcome FailureReason (Unit {0})
revalidate manifest = elim (validate manifest) [ fine ↦ ok tt | refused e ↦ err (bad_manifest e) ]

module _ {W : Type 0} (host : Host W) where
  unfoldable pub remove : Registry → W → Text → Outcome RegistryError LoadedPlugin × (Registry × W)
  unfolding locate drop_plugin
  remove r w name = elim (locate r name) [
    | err e ↦ (err e, (r, w))
    | ok (position, plugin) ↦ (
      ok plugin,
      (
        drop_plugin r position,
        (if has_runtime r plugin.manifest.plugin_type
            then host.unload w plugin.manifest.plugin_type name
            else w),
      ),
    )
  ]

  -- the checks of `reload`, up to the item that is handed to the runtime
  unfoldable pub prepare : Registry → W → LoadedPlugin → Text → Outcome FailureReason LoadItem
  prepare r w current name = do
    manifest ← read_manifest host w current.manifest.dir
    require (text_eq manifest.name name) (renamed manifest.name)
    require (same_type manifest.plugin_type current.manifest.plugin_type)
        (retyped manifest.plugin_type)
    revalidate manifest
    verified ← verify_plugin host r w manifest
    entry_bytes ← map_err io_failed (host.read_file w manifest.dir manifest.entry)
    bind_if_digest host.sha256 manifest verified.1 entry_bytes
    require (has_runtime r current.manifest.plugin_type) (no_backend current.manifest.plugin_type)
    ok (record {
      manifest = manifest;
      signer = verified.0;
      digest = verified.1;
      entry_bytes = entry_bytes;
    })

  abbrev pub reloaded : LoadItem → Instance × List Text → LoadedPlugin
  reloaded item bound = record {
    manifest = item.manifest;
    instance_of = bound.0;
    granted = bound.1;
    signer = item.signer;
    digest = item.digest;
  }

  abbrev pub fail : LoadedPlugin → Text → FailureReason → RegistryError
  fail current name reason =
      reload_failed (record { name = name; dir = current.manifest.dir; reason = reason })

  -- the last steps of `reload`: the runtime's answer goes into the slot
  unfoldable pub finish :
      Registry
      → ℕ
      → LoadedPlugin
      → Text
      → LoadItem
      → W × Outcome Text (Instance × List Text)
      → Outcome RegistryError (Unit {0}) × (Registry × W)
  unfolding replace
  finish r position current name item (w, err m) = (err (fail current name (runtime m)), (r, w))
  finish r position current name item (w, ok bound) =
      (ok tt, (replace r position (reloaded item bound), w))

  unfoldable pub reload : Registry → W → Text → Outcome RegistryError (Unit {0}) × (Registry × W)
  unfolding locate finish
  reload r w name = elim (locate r name) [
    | err e ↦ (err e, (r, w))
    | ok (position, current) ↦ elim (prepare r w current name) [
      | err reason ↦ (err (fail current name reason), (r, w))
      | ok item ↦ finish r position current name item (host.reload_plugin w item (load_context r))
    ]
  ]

  unfoldable pub revoke : Registry → W → Text → Text → Outcome RegistryError Bool × (Registry × W)
  unfolding locate replace position_of
  revoke r w name capability = elim (locate r name) [
    | err e ↦ (err e, (r, w))
    | ok (position, plugin) ↦ elim (position_of capability plugin.granted) [
      | none ↦ (ok false, (r, w))
      | some i ↦
          let answer = host.revoke_capability w plugin.instance_of capability in
          (
            ok answer.1,
            (replace r position (record plugin { granted = remove_at plugin.granted i }), answer.0),
          )
    ]
  ]

  -- the digest to judge a loaded plugin by: the one it was verified with, or a fresh one
  unfoldable pub digest_for :
      Bool → W → LoadedPlugin → Outcome FailureReason (Option DirectoryDigest)
  digest_for needed w plugin = elim plugin.digest [
    | some d ↦ ok (some d)
    | none ↦ elim needed [
      | true ↦ (do d ← compute host w plugin.manifest.dir; ok (some d))
      | false ↦ ok none
    ]
  ]

  -- why a loaded plugin is to be unloaded, if it is
  unfoldable pub refusal : Revocations → W → LoadedPlugin → Option FailureReason
  unfolding digest_for
  refusal list w plugin = elim (digest_for (needs_digest list) w plugin) [
    | err reason ↦ some reason
    | ok digest ↦ elim (Signature.check list digest plugin.signer) [
      | some reason ↦ some (revoked reason)
      | none ↦ none
    ]
  ]

  unfoldable pub refused_of : Revocations → W → List LoadedPlugin → List LoadFailure
  unfolding refusal
  refused_of list w [] = []
  refused_of list w (plugin ∷ plugins) =
      let rest = refused_of list w plugins in
      elim (refusal list w plugin) [ some reason ↦ refuse plugin reason ∷ rest | none ↦ rest ]

  -- an outcome of `remove` is dropped here
  unfoldable pub remove_each : List LoadFailure → Registry → W → Registry × W
  unfolding remove
  remove_each [] r w = (r, w)
  remove_each (failure ∷ failures) r w =
      let after = (remove r w failure.name).1 in remove_each failures after.0 after.1

  unfoldable pub apply_revocations : Registry → W → Revocations → List LoadFailure × (Registry × W)
  unfolding refused_of remove_each
  apply_revocations r w list =
      let refused = if is_empty list then [] else refused_of list w r.plugins in
      (refused, remove_each refused (record r { revocations = some list }) w)

  unfoldable pub call :
      Registry → W → Text → Text → List Value → Outcome RegistryError (Outcome Text Value) × W
  unfolding settle
  call r w plugin method args = elim (get r plugin) [
    | none ↦ (err (unknown_plugin plugin), w)
    | some entry ↦
        let answer = host.call w entry.instance_of method args in (ok (settle answer.1), answer.0)
  ]

  unfoldable pub dispatch_each : List LoadedPlugin → W → Text → List Value → List Report × W
  unfolding settle
  dispatch_each [] w method args = ([], w)
  dispatch_each (plugin ∷ plugins) w method args =
      let answer = host.call w plugin.instance_of method args in
      let later = dispatch_each plugins answer.0 method args in
      (record { plugin = plugin.manifest.name; result = settle answer.1 } ∷ later.0, later.1)

  unfoldable pub dispatch : Registry → W → Text → List Value → List Report × W
  unfolding dispatch_each
  dispatch r w method args = dispatch_each r.plugins w method args
