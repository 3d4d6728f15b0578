-- ===== src/Value.antt =====
-- crates/stanchion-abi/src/value.rs: the values that cross a plugin boundary, and their
-- translation from and to TOML. A float is kept as its bit pattern, a TOML datetime as its
-- rendering; a table is an association list in key order.
pub mod RoundTrip
use stanchion.Prelude.{ℕ, Bool, true, false, Option, none, some, if◌then◌else◌, Text, text_eq}

-- `i64`: `negsuc n` is -(n + 1)
pub data ℤ : Type 0 where
  pos : ℕ → ℤ
  negsuc : ℕ → ℤ

mutual
  pub data Value : Type 0 where
    nil : Value
    bool : Bool → Value
    int : ℤ → Value
    float : ℕ → Value
    str : Text → Value
    list : Items → Value
    map : Fields → Value
    function : Value

  pub data Items : Type 0 where
    end : Items
    item : Value → Items → Items

  pub data Fields : Type 0 where
    done : Fields
    field : Text → Value → Fields → Fields

mutual
  pub data Toml : Type 0 where
    text : Text → Toml
    integer : ℤ → Toml
    decimal : ℕ → Toml
    boolean : Bool → Toml
    datetime : Text → Toml
    array : TomlItems → Toml
    table : Table → Toml

  pub data TomlItems : Type 0 where
    stop : TomlItems
    element : Toml → TomlItems → TomlItems

  pub data Table : Type 0 where
    empty : Table
    entry : Text → Toml → Table → Table

unfoldable mutual
  pub toml_to_value : Toml → Value
  toml_to_value (text t) = str t
  toml_to_value (integer n) = int n
  toml_to_value (decimal d) = float d
  toml_to_value (boolean b) = bool b
  toml_to_value (datetime t) = str t
  toml_to_value (array ts) = list (items_to_value ts)
  toml_to_value (table es) = map (entries_to_value es)

  pub items_to_value : TomlItems → Items
  items_to_value stop = end
  items_to_value (element t ts) = item (toml_to_value t) (items_to_value ts)

  pub entries_to_value : Table → Fields
  entries_to_value empty = done
  entries_to_value (entry k t es) = field k (toml_to_value t) (entries_to_value es)

unfoldable pub table_to_map : Table → Value
unfolding toml_to_value items_to_value entries_to_value
table_to_map es = map (entries_to_value es)

-- the two refusals of `value_to_toml`
pub data TomlError : Type 0 where
  no_null no_function : TomlError

pub data Converted (A : Type 0) : Type 0 where
  ok : A → Converted A
  err : TomlError → Converted A

infixl 5 ◌>>=◌
abbrev pub ◌>>=◌ : {A B : Type 0} → Converted A → (A → Converted B) → Converted B
ok a >>= f = f a
err e >>= f = err e

abbrev is_nil : Value → Bool
is_nil nil = true
is_nil _ = false

unfoldable mutual
  pub value_to_toml : Value → Converted Toml
  value_to_toml nil = err no_null
  value_to_toml (bool b) = ok (boolean b)
  value_to_toml (int n) = ok (integer n)
  value_to_toml (float d) = ok (decimal d)
  value_to_toml (str t) = ok (text t)
  value_to_toml (list vs) = do ts ← items_to_toml vs; ok (array ts)
  value_to_toml (map fs) = do es ← fields_to_toml fs; ok (table es)
  value_to_toml function = err no_function

  pub items_to_toml : Items → Converted TomlItems
  items_to_toml end = ok stop
  items_to_toml (item v vs) = do t ← value_to_toml v; ts ← items_to_toml vs; ok (element t ts)

  -- a nil entry is left out
  pub fields_to_toml : Fields → Converted Table
  fields_to_toml done = ok empty
  fields_to_toml (field k v fs) =
      let rest = fields_to_toml fs in
      if is_nil v then rest else (do t ← value_to_toml v; es ← rest; ok (entry k t es))
