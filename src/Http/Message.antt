-- ===== src/Http/Message.antt =====
-- `HttpRequest`, `HttpResponse`, the header helpers and `constant_time_eq` of
-- crates/memoryd/src/main.rs.
pub mod Constant
use Prim.Native.Nat.{bit_or, bit_xor}
use memoryd.Prelude.{
  ℕ, zero, suc, max, String, Bool, true, false, ◌&&◌, Option, none, some, List, [], ◌∷◌, ◌==◌, ◌is◌,
  if◌then◌else◌, length, get_elem?,
}
use memoryd.Json.{Value, string, object, Fields, end, field}

pub record HttpRequest : Type 0 where
  pub method : String
  pub path : String
  pub headers : List (String × String)
  pub body : List ℕ

pub record HttpResponse : Type 0 where
  pub status : ℕ
  pub reason : String
  pub body : Value

-- `HttpResponse::error`
unfoldable pub reason_for : ℕ → String
reason_for n =
    if n == 400
    then "Bad Request"
    else if n == 401
    then "Unauthorized"
    else if n == 404
    then "Not Found"
    else if n == 405
    then "Method Not Allowed"
    else if n == 408
    then "Request Timeout"
    else if n == 413
    then "Payload Too Large"
    else if n == 415
    then "Unsupported Media Type"
    else if n == 422
    then "Unprocessable Entity"
    else if n == 429
    then "Too Many Requests"
    else if n == 431
    then "Request Header Fields Too Large"
    else if n == 500
    then "Internal Server Error"
    else if n == 503
    then "Service Unavailable"
    else "Error"

abbrev pub error_response : ℕ → String → String → HttpResponse
error_response status code message = record {
  status = status;
  reason = reason_for status;
  body = object (
      field "error" (object (field "code" (string code) (field "message" (string message) end)))
        end);
}

-- The first header of that name.
unfoldable pub header_value : String → List (String × String) → Option String
header_value name [] = none
header_value name ((k, v) ∷ rest) = if k is name then some v else header_value name rest

abbrev pub byte_at : List ℕ → ℕ → ℕ
byte_at bs i = elim (get_elem? bs i) [ none ↦ 0 | some b ↦ b ]

-- The loop of `constant_time_eq` from `index`, with `left_rounds` rounds to go.
pub diff_loop : ℕ → ℕ → List ℕ → List ℕ → ℕ → ℕ
diff_loop zero index left right diff = diff
diff_loop (suc rounds) index left right diff =
    diff_loop rounds (suc index) left right
      (bit_or diff (bit_xor (byte_at left index) (byte_at right index)))

unfoldable pub constant_time_eq : List ℕ → List ℕ → Bool
unfolding diff_loop
constant_time_eq left right =
    diff_loop (max (length left) (length right)) 0 left right (bit_xor (length left) (length right))
    == 0
