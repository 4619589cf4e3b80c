-- ===== src/Http/Body.antt =====
-- `capture_event_from_json`, `recall_request_from_json` and `required_json_string` of
-- crates/memoryd/src/main.rs. An error is the message of the response.
use memoryd.Prelude.{
  ℕ, String, Bool, false, Option, none, some, ◌==◌, ◌is◌, if◌then◌else◌, Result, ok, err, ◌>>=◌,
  ok_or, leb,
}
use memoryd.Prelude.Int.{ℤ}
use memoryd.Json.{Value, number, object, Fields, end, get_field, as_str, as_i64, as_u64, as_bool}
use memoryd.Store.Capture.{NewRawEvent}

abbrev pub usize_max : ℕ
usize_max = 0xffff_ffff_ffff_ffff

pub record RecallArgs : Type 0 where
  pub query : String
  pub limit : ℕ
  pub semantic : Bool
  pub hops : ℕ

abbrev as_object : Value → Option Fields
as_object (object fs) = some fs
as_object _ = none

abbrev missing_message : String → String
missing_message name =
    if name is "session_id"
    then "session_id is required"
    else if name is "agent"
    then "agent is required"
    else if name is "source"
    then "source is required"
    else if name is "kind"
    then "kind is required"
    else if name is "query"
    then "query is required"
    else "required string field is missing"

abbrev and_str : Option Value → Option String
and_str none = none
and_str (some v) = as_str v

unfoldable pub required_json_string : Fields → String → Result String String
required_json_string fs name = ok_or (and_str (get_field name fs)) (missing_message name)

-- `object.get(a).or_else(|| object.get(b))`
abbrev pub either_field : String → String → Fields → Option Value
either_field a b fs = elim (get_field a fs) [ some v ↦ some v | none ↦ get_field b fs ]

abbrev timestamp : Option Value → ℤ → Result String ℤ
timestamp none now = ok now
timestamp (some (number n)) now = ok_or (as_i64 (number n)) "timestamp is out of range"
timestamp (some _) now = err "ts_ms must be integer milliseconds"

unfoldable pub capture_event_from_json : Value → ℤ → Result String NewRawEvent
unfolding required_json_string
capture_event_from_json value now = do
  fs ← ok_or (as_object value) "request body must be a JSON object"
  session_id ← required_json_string fs "session_id"
  agent ← required_json_string fs "agent"
  source ← required_json_string fs "source"
  kind ← required_json_string fs "kind"
  payload ← ok_or (get_field "payload" fs) "payload is required"
  let provenance = elim (get_field "provenance" fs) as (λ _. Value) [
    | none ↦ object end
    | some v ↦ v
  ]
  ts_ms ← timestamp (either_field "ts_ms" "ts" fs) now
  ok (record {
    session_id = session_id;
    agent = agent;
    source = source;
    kind = kind;
    payload = payload;
    provenance = provenance;
    ts_ms = ts_ms;
  })

-- The limit, before the test for zero. A u64 fits a usize.
abbrev limit_of : Option Value → Result String ℕ
limit_of none = ok 5
limit_of (some v) = ok_or (as_u64 v) "k must be a positive integer"

abbrev positive : ℕ → Result String (Unit {0})
positive n = if n == 0 then err "k must be a positive integer" else ok tt

abbrev semantic_of : Option Value → Result String Bool
semantic_of none = ok false
semantic_of (some v) = ok_or (as_bool v) "semantic must be a boolean"

abbrev zero_or_one : Option ℕ → Result String ℕ
zero_or_one none = err "hops must be 0 or 1"
zero_or_one (some n) = if leb n 1 then ok n else err "hops must be 0 or 1"

abbrev hops_of : Option Value → Result String ℕ
hops_of none = ok 1
hops_of (some v) = zero_or_one (as_u64 v)

unfoldable pub recall_request_from_json : Value → Result String RecallArgs
unfolding required_json_string
recall_request_from_json value = do
  fs ← ok_or (as_object value) "request body must be a JSON object"
  query ← required_json_string fs "query"
  limit ← limit_of (either_field "k" "limit" fs)
  _ ← positive limit
  semantic ← semantic_of (get_field "semantic" fs)
  hops ← hops_of (get_field "hops" fs)
  ok (record { query = query; limit = limit; semantic = semantic; hops = hops })
