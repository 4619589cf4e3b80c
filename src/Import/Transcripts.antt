-- ===== src/Import/Transcripts.antt =====
-- The reader of Claude Code's transcripts in crates/memoryd-core/src/importers.rs, and what the
-- readers of session histories share.
pub mod Codex
use memoryd.Prelude.{
  ℕ, String, Bool, true, false, ◌&&◌, ◌||◌, Option, none, some, List, [], ◌∷◌, ◌++◌, ◌is◌,
  if◌then◌else◌, Result, ok, err, ◌>>=◌,
}
use memoryd.Prelude.Int.{ℤ}
use memoryd.Text.{is_blank, trim, lines, joined, join}
use memoryd.Json.{
  Codec, Value, Items, Fields, nil, cons, string, array, object, get, get_field, as_str, as_bool,
}
use memoryd.Redact.Spans.{Fault}
use memoryd.Import.{ImportUnit, truncate_chars, import_text_cap, and_then, unwrap_or, if_filled}
use memoryd.Import.Iso8601.{parse_iso8601_ms}

-- What a record is told apart by: its session, its agent and source, and its time.
pub record Origin : Type 0 where
  pub session : String
  pub agent : String
  pub source : String
  pub ts_ms : Option ℤ

-- `unit`, put behind the units that there are: `units.extend(unit(…))`.
unfoldable pub unit : String → String → Origin → Result Fault (List ImportUnit)
unit role text o =
    if is_blank text
    then ok []
    else (truncate_chars (trim text) import_text_cap >>= λ body. ok (
        record {
          text = joined "[" (joined role (joined "] " body));
          session_id = o.session;
          agent = o.agent;
          source = o.source;
          ts_ms = o.ts_ms;
        }
        ∷ []))

-- The units of two parts, in order.
abbrev pub both :
    Result Fault (List ImportUnit) → Result Fault (List ImportUnit) → Result Fault (List ImportUnit)
both first second = first >>= λ us. second >>= λ vs. ok (us ++ vs)

abbrev pub str_is : String → Option String → Bool
str_is s none = false
str_is s (some t) = t is s

-- Whether a value has a text under a key.
abbrev pub has_text : String → String → Value → Bool
has_text key text v = str_is text (and_then (get key v) as_str)

abbrev pub cons_some : Option String → List String → List String
cons_some none texts = texts
cons_some (some t) texts = t ∷ texts

unfoldable pub text_blocks : Items → List String
text_blocks nil = []
text_blocks (cons block blocks) =
    let rest = text_blocks blocks in
    if has_text "type" "text" block
    then cons_some (and_then (get "text" block) as_str) rest
    else rest

unfoldable pub joined_text_blocks : Items → String
unfolding text_blocks join
joined_text_blocks blocks = join "\n" (text_blocks blocks)

unfoldable pub claude_tool_result_text : Value → String
unfolding joined_text_blocks
claude_tool_result_text (string text) = text
claude_tool_result_text (array blocks) = joined_text_blocks blocks
claude_tool_result_text _ = ""

abbrev text_of_content : Option Value → String
text_of_content none = ""
text_of_content (some v) = claude_tool_result_text v

-- The units of the blocks that are results of tools.
unfoldable pub tool_results : Origin → Items → Result Fault (List ImportUnit)
unfolding unit
tool_results o nil = ok []
tool_results o (cons block blocks) =
    let rest = tool_results o blocks in
    if has_text "type" "tool_result" block
    then both (unit "tool" (text_of_content (get "content" block)) o) rest
    else rest

unfoldable pub claude_user : Origin → Value → Result Fault (List ImportUnit)
unfolding unit joined_text_blocks tool_results
claude_user o (string text) = unit "user" text o
claude_user o (array blocks) =
    both (unit "user" (joined_text_blocks blocks) o) (tool_results o blocks)
claude_user o _ = ok []

unfoldable pub claude_assistant : Origin → Value → Result Fault (List ImportUnit)
unfolding unit joined_text_blocks
claude_assistant o (array blocks) = unit "assistant" (joined_text_blocks blocks) o
claude_assistant o _ = ok []

-- The time of a record.
abbrev pub time_of : Fields → Option ℤ
time_of fs = and_then (and_then (get_field "timestamp" fs) as_str) parse_iso8601_ms

abbrev claude_content : Bool → Origin → Option Value → Result Fault (List ImportUnit)
claude_content is_user o none = ok []
claude_content is_user o (some content) =
    if is_user then claude_user o content else claude_assistant o content

abbrev is_true : Option Value → Bool
is_true o = elim (and_then o as_bool) [ none ↦ false | some b ↦ b ]

unfoldable pub claude_record : String → Fields → Result Fault (List ImportUnit)
unfolding claude_user claude_assistant
claude_record fallback_session fs =
    let record_type = unwrap_or (and_then (get_field "type" fs) as_str) "" in
    if is_true (get_field "isSidechain" fs)
    then ok []
    else if (record_type is "user") || (record_type is "assistant")
    then claude_content (record_type is "user")
        (record {
          session =
              unwrap_or (and_then (and_then (get_field "sessionId" fs) as_str) if_filled)
                fallback_session;
          agent = "claude";
          source = "claude-session";
          ts_ms = time_of fs;
        })
        (and_then (get_field "message" fs) (get "content"))
    else ok []

abbrev fields_of : Value → Option Fields
fields_of (object fs) = some fs
fields_of _ = none

-- The object that a line holds; a blank or malformed line holds none.
unfoldable pub line_object : Codec → String → Option Fields
line_object C line =
    if is_blank line
    then none
    else elim (C.parse (trim line)) [ none ↦ none | some v ↦ fields_of v ]

abbrev record_or_none :
    (Fields → Result Fault (List ImportUnit)) → Option Fields → Result Fault (List ImportUnit)
record_or_none f none = ok []
record_or_none f (some fs) = f fs

unfoldable pub claude_lines : Codec → String → List String → Result Fault (List ImportUnit)
unfolding line_object claude_record
claude_lines C fallback_session [] = ok []
claude_lines C fallback_session (l ∷ ls) =
    both (record_or_none (claude_record fallback_session) (line_object C l))
      (claude_lines C fallback_session ls)

unfoldable pub parse_claude_session : Codec → String → String → Result Fault (List ImportUnit)
unfolding claude_lines lines
parse_claude_session C contents fallback_session = claude_lines C fallback_session (lines contents)
