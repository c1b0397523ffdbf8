-- ===== src/Ipc/Value.antt =====
-- The JSON values of the library, with the reads of them that the handlers make. A number is a u64,
-- or another number as it is printed.
use backr.Base.{if◌then◌else◌, Text, eq_text, ℕ, Bool, Option, none, some}

mutual
  pub data Value : Type 0 where
    null : Value
    bool : Bool → Value
    number : ℕ → Value
    other_number : Text → Value
    string : Text → Value
    array : Items → Value
    object : Fields → Value

  pub data Items : Type 0 where
    nil : Items
    cons : Value → Items → Items

  pub data Fields : Type 0 where
    end : Fields
    field : Text → Value → Fields → Fields

-- `serde_json::Map::get`
unfoldable pub find_field : Text → Fields → Option Value
find_field key end = none
find_field key (field k v rest) = if eq_text k key then some v else find_field key rest

-- `Value::get` at a key
abbrev pub get : Text → Value → Option Value
get key (object fields) = find_field key fields
get key _ = none

abbrev pub as_str : Value → Option Text
as_str (string s) = some s
as_str _ = none

abbrev pub as_bool : Value → Option Bool
as_bool (bool b) = some b
as_bool _ = none

abbrev pub as_u64 : Value → Option ℕ
as_u64 (number n) = some n
as_u64 _ = none

-- An optional text as `json!` writes it.
abbrev pub optional : {A : Type 0} → (A → Value) → Option A → Value
optional write none = null
optional write (some a) = write a
