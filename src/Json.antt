-- ===== src/Json.antt =====
-- `serde_json::Value`, as the program uses it. A number is an unsigned or a negative integer, or a
-- float, which stands as its printed text. The fields of an object are listed in some order, each
-- key once.
use perdure.Prelude.{
  ℕ, zero, Text, Bool, true, false, List, [], ◌∷◌, Option, none, some, text_eq, if◌then◌else◌,
}

-- `neg n` is -(n + 1).
pub data Number : Type 0 where
  nat : ℕ → Number
  neg : ℕ → Number
  float : Text → Number

mutual
  pub data Value : Type 0 where
    null : Value
    bool : Bool → Value
    number : Number → Value
    string : Text → Value
    array : Items → Value
    object : Fields → Value

  pub data Items : Type 0 where
    nil : Items
    cons : Value → Items → Items

  pub data Fields : Type 0 where
    end : Fields
    field : Text → Value → Fields → Fields

-- `json!({ … })` at an object, and `Vec<Value>` as an array.
abbrev pub fields_of : List (Text × Value) → Fields
fields_of [] = end
fields_of ((k, v) ∷ fs) = field k v (fields_of fs)

abbrev pub json : List (Text × Value) → Value
json fs = object (fields_of fs)

abbrev pub items_of : List Value → Items
items_of [] = nil
items_of (v ∷ vs) = cons v (items_of vs)

unfoldable pub field_get : Text → Fields → Option Value
field_get k end = none
field_get k (field j v fs) = if text_eq j k then some v else field_get k fs

-- `value.get(key)`: `None` also where the value is no object.
unfoldable pub get : Value → Text → Option Value
unfolding field_get
get (object fs) k = field_get k fs
get _ k = none

unfoldable pub as_str : Value → Option Text
as_str (string s) = some s
as_str _ = none

unfoldable pub as_bool : Value → Option Bool
as_bool (bool b) = some b
as_bool _ = none

unfoldable pub as_u64 : Value → Option ℕ
as_u64 (number (nat n)) = some n
as_u64 _ = none

unfoldable pub as_object : Value → Option Fields
as_object (object fs) = some fs
as_object _ = none

-- `v.and_then(|v| v.as_i64()) == Some(0)`.
unfoldable pub is_zero_i64 : Option Value → Bool
is_zero_i64 (some (number (nat zero))) = true
is_zero_i64 _ = false
