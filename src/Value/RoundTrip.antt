-- ===== src/Value/RoundTrip.antt =====
-- From TOML to a value and back.
use stanchion.Prelude.{◌≡◌, refl, Bool, true, false, ◌&&◌, arith}
use stanchion.Value.{
  Toml, text, integer, decimal, boolean, datetime, array, table, TomlItems, stop, element, Table,
  empty, entry, toml_to_value, items_to_value, entries_to_value, ok, value_to_toml, items_to_toml,
  fields_to_toml,
}

-- No datetime stands in the document.
abbrev mutual
  has_no_datetime : Toml → Bool
  has_no_datetime (text t) = true
  has_no_datetime (integer n) = true
  has_no_datetime (decimal d) = true
  has_no_datetime (boolean b) = true
  has_no_datetime (datetime t) = false
  has_no_datetime (array ts) = items_no_datetime ts
  has_no_datetime (table es) = entries_no_datetime es

  items_no_datetime : TomlItems → Bool
  items_no_datetime stop = true
  items_no_datetime (element t ts) = has_no_datetime t && items_no_datetime ts

  entries_no_datetime : Table → Bool
  entries_no_datetime empty = true
  entries_no_datetime (entry k t es) = has_no_datetime t && entries_no_datetime es

mutual
  unfolding toml_to_value value_to_toml

  back : (t : Toml) → has_no_datetime t ≡ true → value_to_toml (toml_to_value t) ≡ ok t
  back (text t) h = refl
  back (integer n) h = refl
  back (decimal d) h = refl
  back (boolean b) h = refl
  back (datetime t) h = cc
  back (array ts) h = ground (arith, items_back ts h)
  back (table es) h = ground (arith, entries_back es h)

  items_back :
      (ts : TomlItems) → items_no_datetime ts ≡ true → items_to_toml (items_to_value ts) ≡ ok ts
  items_back stop h = refl
  items_back (element t ts) h = ground (arith, back t (ground arith), items_back ts (ground arith))

  entries_back :
      (es : Table) → entries_no_datetime es ≡ true → fields_to_toml (entries_to_value es) ≡ ok es
  entries_back empty h = refl
  entries_back (entry k t es) h =
      ground (arith, back t (ground arith), entries_back es (ground arith))

-- Every TOML document with no datetime in it survives the way to a value and back.
pub value_to_toml-toml_to_value :
    (t : Toml) → has_no_datetime t ≡ true → value_to_toml (toml_to_value t) ≡ ok t
value_to_toml-toml_to_value t h = back t h
