-- ===== src/Manifest/Validation.antt =====
-- What a validated manifest guarantees of its name and its entry path.
use stanchion.Prelude.{
  ℕ, ◌≡◌, ◌≢◌, ◌↔◌, refl, true, false, List, [], ◌∷◌, arith, all, Text, codes, is_empty, ends_with,
  split, is_ascii_alphanumeric,
}
use stanchion.Manifest.{
  PluginType, lua, wasm, Manifest, is_name_byte, is_valid_name, Component, root_dir, cur_dir,
  parent_dir, normal, component, components, is_confined, fine, validate_name, validate_entry_path,
  check_suffix, validate, check_components,
}

check_components_iff :
    (cs : List Component) → (check_components cs ≡ fine) ↔ (all is_confined cs ≡ true)
unfolding check_components
check_components_iff [] = (λ _. refl, λ _. refl)
check_components_iff (normal p ∷ cs) = check_components_iff cs
check_components_iff (cur_dir ∷ cs) = check_components_iff cs
check_components_iff (parent_dir ∷ cs) = (λ h. cc, λ h. cc)
check_components_iff (root_dir ∷ cs) = (λ h. cc, λ h. cc)

abbrev pub suffix : PluginType → Text
suffix lua = codes ".lua"
suffix wasm = codes ".wasm"

check_suffix_iff :
    (ty : PluginType) (entry : Text)
    → (check_suffix ty entry ≡ fine) ↔ (ends_with (suffix ty) entry ≡ true)
unfolding check_suffix
check_suffix_iff lua entry = ground arith
check_suffix_iff wasm entry = ground arith

-- A manifest passes exactly when its name fits the grammar, its entry is not empty and has no
-- root and no `..` among its components, and the entry ends as its plugin type wants.
pub validate_iff :
    (m : Manifest)
    → (validate m ≡ fine) ↔ (
        (is_valid_name m.name ≡ true)
        × (is_empty m.entry ≡ false)
        × (all is_confined (components m.entry) ≡ true)
        × (ends_with (suffix m.plugin_type) m.entry ≡ true))
unfolding validate validate_name validate_entry_path
validate_iff m =
    let (c, d) = check_components_iff (components m.entry) in
    let (s, t) = check_suffix_iff m.plugin_type m.entry in
    (ground (arith, c, s), ground (arith, d, t))

name_byte-ne-slash : (c : ℕ) → is_name_byte c ≡ true → c ≢ b'/'
unfolding is_name_byte is_ascii_alphanumeric
name_byte-ne-slash c h = ground arith

split-name : (name : Text) → all is_name_byte name ≡ true → split b'/' name ≡ name ∷ []
unfolding split
split-name [] h = refl
split-name (c ∷ s) h = ground (arith, name_byte-ne-slash c, split-name s)

-- A name that fits the grammar is one plain component of a path, so that joining it to a
-- directory stays right below that directory.
pub components-is_valid_name :
    (name : Text) → is_valid_name name ≡ true → components name ≡ normal name ∷ []
unfolding is_valid_name components component
components-is_valid_name name h = ground (arith, split-name name)
