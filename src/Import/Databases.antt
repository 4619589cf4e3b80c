-- ===== src/Import/Databases.antt =====
-- The readers of agents' databases in crates/memoryd-core/src/importers.rs, on the rows that SQLite
-- gives: the two layouts of OpenCode, and Hermes.
use memoryd.Prelude.{
  ℕ, String, Bool, not, ◌||◌, Option, none, some, List, [], ◌∷◌, any, find, ◌is◌, if◌then◌else◌,
  Result, ok, err, ok_or, show_int,
}
use memoryd.Prelude.Int.{ℤ}
use memoryd.Text.{trim, joined, contains}
use memoryd.Json.{Codec, Value, get, as_str}
use memoryd.Redact.Spans.{Fault}
use memoryd.Http.Reader.{to_ascii_lowercase}
use memoryd.Import.{ImportUnit, ImportError, unsupported_schema, and_then, unwrap_or}
use memoryd.Import.Transcripts.{unit, both}
use memoryd.Import.Opencode.{OpencodePart, opencode_tool_text, opencode_part_payload}

-- `rusqlite::types::Value`; a real is kept as its bits.
pub data SqlValue : Type 0 where
  null : SqlValue
  integer : ℤ → SqlValue
  real : ℕ → SqlValue
  text : String → SqlValue
  blob : SqlValue

-- What the readers do with an `f64`.
pub record Reals : Type 1 where
  pub F64 : Type 0
  pub of_bits : ℕ → F64
  pub of_i64 : ℤ → F64
  pub show : ℕ → String
  pub parse : String → Option F64
  pub is_finite : F64 → Bool
  pub at_most_zero : F64 → Bool
  pub above_10_12 : F64 → Bool
  pub times_1000 : F64 → F64
  pub to_i64 : F64 → ℤ

-- `require_columns` and the time column, on the names that a table has.
abbrev has_column : List String → String → Bool
has_column columns name = any (λ c. to_ascii_lowercase c is to_ascii_lowercase name) columns

unfoldable pub require_columns :
    String → String → List String → List String → Result ImportError (Unit {0})
unfolding to_ascii_lowercase
require_columns agent table columns [] = ok tt
require_columns agent table columns (name ∷ names) =
    let rest = require_columns agent table columns names in
    if has_column columns name
    then rest
    else err (
        unsupported_schema agent
          (joined "table \"" (joined table (joined "\" is missing column \"" (joined name "\"")))))

unfoldable pub opencode_time_column : String → List String → Result ImportError String
unfolding to_ascii_lowercase
opencode_time_column agent columns =
    ok_or (find (has_column columns) ("time_created" ∷ "created_at" ∷ "created" ∷ "time" ∷ []))
      (unsupported_schema agent "message table has no recognized time column")

module _ (C : Codec) (R : Reals) where
  unfoldable pub value_to_string : SqlValue → Option String
  value_to_string (text t) = some t
  value_to_string (integer n) = some (show_int n)
  value_to_string (real bits) = some (R.show bits)
  value_to_string _ = none

  abbrev raw_number : SqlValue → Option R.F64
  raw_number (integer n) = some (R.of_i64 n)
  raw_number (real bits) = some (R.of_bits bits)
  raw_number (text t) = R.parse (trim t)
  raw_number _ = none

  unfoldable pub value_to_unix_ms : SqlValue → Option ℤ
  value_to_unix_ms v = and_then (raw_number v) (λ raw.
      if not (R.is_finite raw) || R.at_most_zero raw
      then none
      else some (R.to_i64 (if R.above_10_12 raw then raw else R.times_1000 raw)))

  unfoldable pub opencode_part :
      String → SqlValue → SqlValue → SqlValue → String → Option String → OpencodePart
  unfolding value_to_string value_to_unix_ms
  opencode_part message_id session_id message_data time kind payload = record {
    message_id = message_id;
    session_id = value_to_string session_id;
    message_data = value_to_string message_data;
    ts_ms = value_to_unix_ms time;
    kind = kind;
    payload = payload;
  }

  abbrev kind_of : Value → String
  kind_of part = to_ascii_lowercase (unwrap_or (and_then (get "type" part) as_str) "")

  abbrev kind_and_payload : Option Value → String × Option String
  kind_and_payload none = ("", none)
  kind_and_payload (some part) = (kind_of part, opencode_part_payload (kind_of part) part)

  -- A row of the current layout.
  unfoldable pub current_row :
      SqlValue → SqlValue → SqlValue → SqlValue → SqlValue → Option OpencodePart
  unfolding opencode_part opencode_part_payload value_to_string to_ascii_lowercase
  current_row id session message_data time part_data = and_then (value_to_string id) (λ message_id.
      let (kind, payload) = kind_and_payload (and_then (value_to_string part_data) C.parse) in
      some (opencode_part message_id session message_data time kind payload))

  -- A row of the legacy layout.
  unfoldable pub legacy_row :
      SqlValue → SqlValue → SqlValue → SqlValue → SqlValue → SqlValue → Option OpencodePart
  unfolding opencode_part opencode_tool_text value_to_string to_ascii_lowercase
  legacy_row id session message_data time part_type content =
      and_then (value_to_string id) (λ message_id.
        let kind = to_ascii_lowercase (unwrap_or (value_to_string part_type) "") in
        let payload =
          if contains kind "text"
          then value_to_string content
          else if contains kind "tool"
          then and_then (value_to_string content) (opencode_tool_text C)
          else none in
        some (opencode_part message_id session message_data time kind payload))

  abbrev hermes_unit :
      Option String → Option String → Option String → Option ℤ → Result Fault (List ImportUnit)
  hermes_unit (some session) (some role) (some content) ts_ms =
      if (role is "user") || (role is "assistant") || (role is "tool")
      then unit role content
          (record { session = session; agent = "hermes"; source = "hermes-session"; ts_ms = ts_ms })
      else ok []
  hermes_unit _ _ _ _ = ok []

  -- The units of the rows of Hermes' messages.
  unfoldable pub hermes_rows :
      List (SqlValue × SqlValue × SqlValue × SqlValue) → Result Fault (List ImportUnit)
  unfolding value_to_string value_to_unix_ms unit
  hermes_rows [] = ok []
  hermes_rows ((session_id, role, content, timestamp) ∷ rows) =
      both
        (hermes_unit (value_to_string session_id) (value_to_string role) (value_to_string content)
          (value_to_unix_ms timestamp))
        (hermes_rows rows)
