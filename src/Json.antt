-- ===== src/Json.antt =====
-- serde_json, which the program only calls: JSON values are a type `V` with these operations.
use stadhouder.Base.{Bool, ◌≡◌, Option, some, List, Text, Assoc, lookup, IsMap}
use stadhouder.Base.Int.{ℤ}

pub record Json (V : Type 0) : Type 0 where
  pub null : V
  pub bool : Bool → V
  pub int : ℤ → V
  pub string : Text → V
  pub array : List V → V
  -- `json!({ key: value, … })`
  pub object : Assoc V → V
  -- `Value::get` with a key: none unless the value is an object with it
  pub get : V → Text → Option V
  pub is_null : V → Bool
  pub as_str : V → Option Text
  pub as_i64 : V → Option ℤ
  pub as_array : V → Option (List V)
  -- `serde_json::from_str::<Value>`
  pub from_str : Text → Option V
  -- `Value::to_string`
  pub to_string : V → Text

-- What the program relies on: printed JSON reads back as the value it was printed from.
pub record ReadsBack {V : Type 0} (j : Json V) : Type 0 where
  pub from_str-to_string : (v : V) → Json.from_str j (j.to_string v) ≡ some v

-- An object has the values that it was made of, if no key stands twice, and a string its text.
pub record ReadsObjects {V : Type 0} (j : Json V) : Type 0 where
  pub get-object : (m : Assoc V) (k : Text) → IsMap m → Json.get j (j.object m) k ≡ lookup k m
  pub as_str-string : (s : Text) → Json.as_str j (j.string s) ≡ some s
