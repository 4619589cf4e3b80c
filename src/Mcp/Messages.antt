-- ===== src/Mcp/Messages.antt =====
-- The messages of crates/memoryd/src/mcp.rs: JSON-RPC responses, the results of tools, and the
-- shortening of texts. The keys of an object stand in their order.
use Prim.Native.Char.{Char, char}
use memoryd.Prelude.{ℕ, ◌-◌, String, Bool, Option, none, some, List, [], ◌∷◌, get_elem?}
use memoryd.Prelude.Int.{ℤ, pos, negsuc}
use memoryd.Json.{
  Value, boolean, number, string, array, object, Items, nil, cons, Fields, end, field, pos_int,
  neg_int, float,
}
use memoryd.Text.{char_indices, slice_to, joined}

abbrev pub fields : List (String × Value) → Fields
fields [] = end
fields ((k, v) ∷ more) = field k v (fields more)

abbrev pub obj : List (String × Value) → Value
obj members = object (fields members)

abbrev items : List Value → Items
items [] = nil
items (v ∷ vs) = cons v (items vs)

abbrev pub arr : List Value → Value
arr vs = array (items vs)

abbrev pub nat : ℕ → Value
nat n = number (pos_int n)

abbrev pub int : ℤ → Value
int (pos n) = number (pos_int n)
int (negsuc n) = number (neg_int n)

abbrev pub double : ℕ → Value
double bits = number (float bits)

abbrev pub result_response : Value → Value → Value
result_response id result = obj (("id", id) ∷ ("jsonrpc", string "2.0") ∷ ("result", result) ∷ [])

-- The code is the negative of the number.
abbrev pub error_response : Value → ℕ → String → Value
error_response id code message = obj (
    ("error", obj (("code", int (negsuc (code - 1))) ∷ ("message", string message) ∷ []))
    ∷ ("id", id)
    ∷ ("jsonrpc", string "2.0")
    ∷ [])

abbrev pub tool_result : String → Bool → Value
tool_result text is_error = obj (
    ("content", arr (obj (("text", string text) ∷ ("type", string "text") ∷ []) ∷ []))
    ∷ ("isError", boolean is_error)
    ∷ [])

abbrev ellipsis : String
ellipsis = String.◌∷◌ (char 0x2026 tt) String.[]

abbrev cut : String → Option (ℕ × Char) → Option String
cut content none = some content
cut content (some (byte_index, c)) = elim (slice_to content byte_index) [
  | none ↦ none
  | some out ↦ some (joined out ellipsis)
]

-- `none` would be the panic of a slice.
unfoldable pub snippet : String → ℕ → Option String
snippet content max_chars = cut content (get_elem? (char_indices content) max_chars)
