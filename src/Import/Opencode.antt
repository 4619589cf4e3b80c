-- ===== src/Import/Opencode.antt =====
-- The messages of OpenCode: how the parts of a message become units, in
-- crates/memoryd-core/src/importers.rs.
use memoryd.Prelude.{
  String, Bool, false, ◌||◌, Option, none, some, List, [], ◌∷◌, ◌++◌, ◌is◌, if◌then◌else◌, Result,
  ok,
}
use memoryd.Prelude.Int.{ℤ}
use memoryd.Text.{join, contains}
use memoryd.Json.{Codec, Value, Fields, string, object, get, get_field, as_str, as_bool}
use memoryd.Redact.Spans.{Fault}
use memoryd.Import.{ImportUnit, and_then}
use memoryd.Import.Transcripts.{Origin, unit, both}

-- A message whose parts are gathered.
pub record OpencodeMessage : Type 0 where
  pub role : String
  pub session : String
  pub ts_ms : Option ℤ
  pub texts : List String
  pub tools : List String

-- A row of a part.
pub record OpencodePart : Type 0 where
  pub message_id : String
  pub session_id : Option String
  pub message_data : Option String
  pub ts_ms : Option ℤ
  pub kind : String
  pub payload : Option String

abbrev opencode_origin : OpencodeMessage → Origin
opencode_origin m = record {
  session = m.session;
  agent = "opencode";
  source = "opencode-session";
  ts_ms = m.ts_ms;
}

unfoldable pub tool_units : Origin → List String → Result Fault (List ImportUnit)
unfolding unit
tool_units o [] = ok []
tool_units o (tool ∷ tools) = both (unit "tool" tool o) (tool_units o tools)

abbrev text_unit : OpencodeMessage → List String → Result Fault (List ImportUnit)
text_unit m [] = ok []
text_unit m (t ∷ ts) = unit m.role (join "\n" (t ∷ ts)) (opencode_origin m)

unfoldable pub flush_into : OpencodeMessage → Result Fault (List ImportUnit)
unfolding unit tool_units join
flush_into m = both (text_unit m m.texts) (tool_units (opencode_origin m) m.tools)

abbrev flush_pending : Option OpencodeMessage → Result Fault (List ImportUnit)
flush_pending none = ok []
flush_pending (some m) = flush_into m

-- A part goes to its message.
abbrev add_payload : OpencodePart → OpencodeMessage → String → OpencodeMessage
add_payload p m payload =
    if contains p.kind "text"
    then record m { texts = m.texts ++ payload ∷ [] }
    else if contains p.kind "tool"
    then record m { tools = m.tools ++ payload ∷ [] }
    else m

abbrev with_payload : OpencodePart → Option String → OpencodeMessage → OpencodeMessage
with_payload p none m = m
with_payload p (some payload) m = add_payload p m payload

abbrev add_part : OpencodePart → Option OpencodeMessage → Option OpencodeMessage
add_part p none = none
add_part p (some m) = some (with_payload p p.payload m)

abbrev is_synthetic : Value → Bool
is_synthetic part = elim (and_then (get "synthetic" part) as_bool) [ none ↦ false | some b ↦ b ]

unfoldable pub opencode_part_payload : String → Value → Option String
opencode_part_payload kind part =
    if contains kind "text"
    then (if is_synthetic part then none else and_then (get "text" part) as_str)
    else if contains kind "tool"
    then and_then (and_then (get "state" part) (get "output")) as_str
    else none

module _ (C : Codec) where
  abbrev supported : Option String → Option String
  supported role = and_then role (λ r. if (r is "user") || (r is "assistant") then some r else none)

  -- `OpencodeMessage::from_data`
  unfoldable pub from_data : Option String → Option String → Option ℤ → Option OpencodeMessage
  from_data session_id message_data ts_ms = and_then session_id (λ session.
      and_then (and_then message_data C.parse) (λ value.
        and_then (supported (and_then (get "role" value) as_str)) (λ role.
          some (record { role = role; session = session; ts_ms = ts_ms; texts = []; tools = [] }))))

  abbrev is_current : Option String → String → Bool
  is_current none id = false
  is_current (some k) id = k is id

  -- The rest of the parts, the current message's id and the message that is gathered.
  unfoldable pub accumulate :
      List OpencodePart → Option String → Option OpencodeMessage → Result Fault (List ImportUnit)
  unfolding flush_into from_data
  accumulate [] current pending = flush_pending pending
  accumulate (p ∷ parts) current pending =
      let next = from_data p.session_id p.message_data p.ts_ms in
      let same = accumulate parts current (add_part p pending) in
      let new =
        both (flush_pending pending) (accumulate parts (some p.message_id) (add_part p next)) in
      if is_current current p.message_id then same else new

  unfoldable pub accumulate_opencode : List OpencodePart → Result Fault (List ImportUnit)
  unfolding accumulate
  accumulate_opencode parts = accumulate parts none none

  abbrev first_text : List String → Fields → Option String
  first_text [] fs = none
  first_text (key ∷ keys) fs = elim (and_then (get_field key fs) as_str) [
    | some t ↦ some t
    | none ↦ first_text keys fs
  ]

  abbrev tool_text_of : String → Option Value → Option String
  tool_text_of content none = some content
  tool_text_of content (some (object fs)) = first_text ("text" ∷ "output" ∷ "result" ∷ []) fs
  tool_text_of content (some (string t)) = some t
  tool_text_of content (some _) = none

  unfoldable pub opencode_tool_text : String → Option String
  opencode_tool_text content = tool_text_of content (C.parse content)
