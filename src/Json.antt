-- ===== src/Json.antt =====
-- `serde_json::Value` as the crates use it: the constructors, the accessors, and the map lookup.
-- Printing and parsing belong to the crate serde_json and are the fields of `Codec`.
use memoryd.Prelude.{ℕ, String, Bool, Option, none, some, leb, ◌is◌, if◌then◌else◌}
use memoryd.Prelude.Int.{ℤ, pos, negsuc, i64_max}

-- A number of serde_json: a `u64`, a negative `i64`, or a float kept as its bits.
pub data Number : Type 0 where
  pos_int : ℕ → Number
  neg_int : ℕ → Number
  float : ℕ → Number

mutual
  pub data Value : Type 0 where
    null : Value
    boolean : Bool → Value
    number : Number → Value
    string : String → Value
    array : Items → Value
    object : Fields → Value

  pub data Items : Type 0 where
    nil : Items
    cons : Value → Items → Items

  pub data Fields : Type 0 where
    end : Fields
    field : String → Value → Fields → Fields

-- `Map::get`
unfoldable pub get_field : String → Fields → Option Value
get_field k end = none
get_field k (field j v fs) = if j is k then some v else get_field k fs

-- `Value::get` with a text key: `none` on anything but an object.
unfoldable pub get : String → Value → Option Value
unfolding get_field
get k (object fs) = get_field k fs
get k _ = none

abbrev pub as_str : Value → Option String
as_str (string s) = some s
as_str _ = none

abbrev pub as_bool : Value → Option Bool
as_bool (boolean b) = some b
as_bool _ = none

-- `neg_int n` is -(n + 1).
abbrev pub as_i64_number : Number → Option ℤ
as_i64_number (pos_int n) = if leb n i64_max then some (pos n) else none
as_i64_number (neg_int n) = some (negsuc n)
as_i64_number (float _) = none

abbrev pub as_i64 : Value → Option ℤ
as_i64 (number n) = as_i64_number n
as_i64 _ = none

abbrev pub as_u64 : Value → Option ℕ
as_u64 (number (pos_int n)) = some n
as_u64 _ = none

-- `serde_json::to_string` and `from_str`. `as_f64` gives the bits of a number as a float.
pub record Codec : Type 0 where
  pub as_f64 : Number → ℕ
  pub print : Value → String
  pub parse : String → Option Value
