-- ===== src/Import/Transcripts/Codex.antt =====
-- The reader of Codex's rollouts, `parse_codex_rollout`.
use memoryd.Prelude.{
  String, Bool, ◌||◌, Option, none, some, List, [], ◌∷◌, ◌is◌, if◌then◌else◌, Result, ok,
}
use memoryd.Text.{lines, join}
use memoryd.Json.{Codec, Value, Items, Fields, nil, cons, array, get, get_field, as_str}
use memoryd.Redact.Spans.{Fault}
use memoryd.Import.{ImportUnit, and_then, unwrap_or, if_filled}
use memoryd.Import.Transcripts.{
  Origin, unit, both, str_is, has_text, cons_some, time_of, line_object,
}

-- The reader of a rollout keeps the session that a `session_meta` line names.
abbrev pub opt_get : String → Option Value → Option Value
opt_get key v = and_then v (get key)

abbrev array_of : Value → Option Items
array_of (array items) = some items
array_of _ = none

abbrev is_text_entry : Value → Bool
is_text_entry entry =
    has_text "type" "input_text" entry
    || has_text "type" "output_text" entry
    || has_text "type" "text" entry

unfoldable pub text_entries : Items → List String
text_entries nil = []
text_entries (cons entry entries) =
    let rest = text_entries entries in
    if is_text_entry entry then cons_some (and_then (get "text" entry) as_str) rest else rest

abbrev entries_text : Option Items → String
entries_text none = ""
entries_text (some entries) = join "\n" (text_entries entries)

abbrev codex_message : Origin → Value → Option String → Result Fault (List ImportUnit)
codex_message o payload none = ok []
codex_message o payload (some role) =
    if (role is "user") || (role is "assistant")
    then unit role (entries_text (and_then (get "content" payload) array_of)) o
    else ok []

-- The units of the payload of a `response_item`.
unfoldable pub codex_response : Origin → Value → Result Fault (List ImportUnit)
unfolding unit text_entries join
codex_response o payload =
    if has_text "type" "message" payload
    then codex_message o payload (and_then (get "role" payload) as_str)
    else if has_text "type" "function_call_output" payload
    then unit "tool" (unwrap_or (and_then (get "output" payload) as_str) "") o
    else ok []

-- The session after a record, and the units of the record.
unfoldable pub codex_record : String → Fields → String × Result Fault (List ImportUnit)
unfolding codex_response
codex_record session fs =
    let payload = get_field "payload" fs in
    let record_type = and_then (get_field "type" fs) as_str in
    if str_is "session_meta" record_type
    then (unwrap_or (and_then (and_then (opt_get "id" payload) as_str) if_filled) session, ok [])
    else if str_is "response_item" record_type
    then (
      session,
      elim payload [
        | none ↦ ok []
        | some p ↦
            codex_response
              (record {
                session = session;
                agent = "codex";
                source = "codex-session";
                ts_ms = time_of fs;
              })
              p
      ],
    )
    else (session, ok [])

abbrev codex_or_none : String → Option Fields → String × Result Fault (List ImportUnit)
codex_or_none session none = (session, ok [])
codex_or_none session (some fs) = codex_record session fs

unfoldable pub codex_lines : Codec → String → List String → Result Fault (List ImportUnit)
unfolding line_object codex_record
codex_lines C session [] = ok []
codex_lines C session (l ∷ ls) =
    let (session', units) = codex_or_none session (line_object C l) in
    both units (codex_lines C session' ls)

unfoldable pub parse_codex_rollout : Codec → String → String → Result Fault (List ImportUnit)
unfolding codex_lines lines
parse_codex_rollout C contents fallback_session = codex_lines C fallback_session (lines contents)
