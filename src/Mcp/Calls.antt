-- ===== src/Mcp/Calls.antt =====
-- `handle_tools_call`, the resources, and the answers to the methods of crates/memoryd/src/mcp.rs.
use memoryd.Prelude.{
  ℕ, String, true, false, Option, none, some, List, [], ◌∷◌, map, ◌is◌, if◌then◌else◌, Result, ok,
  err,
}
use memoryd.Prelude.Int.{ℤ}
use memoryd.Text.{begins, codes, joined}
use memoryd.Json.{Value, string, object, Fields, get_field, as_str}
use memoryd.Redact.Spans.{Fault}
use memoryd.Store.Tables.{Tables, StoreError}
use memoryd.Mcp.Messages.{obj, arr, result_response, error_response, tool_result}
use memoryd.Mcp.Definitions.{initialize_result, tool_definitions}
use memoryd.Mcp.Host.{Host}
use memoryd.Mcp.Tools.{
  ToolOutcome, success, ToolError, invalid_arguments, store, panic, resource_session_cap,
  call_memory_remember, call_memory_recall, call_memory_stats, call_memory_graph,
  call_memory_profile,
}

-- A response, or the panic that ends the process.
abbrev pub Response : Type 0
Response = Result Fault Value

abbrev pub method_of : Option Value → Option String
method_of none = none
method_of (some v) = as_str v

-- `params.and_then(as_object)`
abbrev pub params_object : Option Value → Option Fields
params_object (some (object fs)) = some fs
params_object _ = none

-- A text among the parameters.
abbrev pub text_param : String → Option Fields → Option String
text_param name none = none
text_param name (some fs) = method_of (get_field name fs)

abbrev arguments_of : Option Value → Value
arguments_of none = obj []
arguments_of (some v) = v

-- The remainder behind a prefix.
abbrev pub strip_prefix : List ℕ → String → Option String
strip_prefix [] s = some s
strip_prefix (k ∷ ks) String.[] = none
strip_prefix (k ∷ ks) (String.◌∷◌ c s) =
    let rest = strip_prefix ks s in
    if begins (k ∷ []) (codes (String.◌∷◌ c String.[])) then rest else none

module _ (H : Host) where
  abbrev pub tool_response : Value → Result ToolError ToolOutcome → Response
  tool_response id (ok (success payload)) =
      ok (result_response id (tool_result (H.codec.print payload) false))
  tool_response id (ok (ToolOutcome.failure message)) =
      ok (result_response id (tool_result message true))
  tool_response id (err (invalid_arguments message)) = ok (error_response id 32602 message)
  tool_response id (err store) = ok (error_response id 32603 "store error")
  tool_response id (err (panic f)) = err f

  unfoldable pub call_tool : String → Value → Value → ℤ → Tables → Response × Tables
  call_tool name id arguments now t =
      if name is "memory_remember"
      then (let (outcome, u) = call_memory_remember H arguments now t in
          (tool_response id outcome, u))
      else if name is "memory_recall"
      then (tool_response id (call_memory_recall H arguments t), t)
      else if name is "memory_stats"
      then (tool_response id (call_memory_stats H t), t)
      else if name is "memory_graph"
      then (tool_response id (call_memory_graph H arguments t), t)
      else if name is "memory_profile"
      then (tool_response id (call_memory_profile H arguments t), t)
      else (ok (error_response id 32602 "unknown tool"), t)

  abbrev pub named_tool : Fields → Value → ℤ → Tables → Option String → Response × Tables
  named_tool params id now t none = (ok (error_response id 32602 "tool name is required"), t)
  named_tool params id now t (some name) =
      call_tool name id (arguments_of (get_field "arguments" params)) now t

  abbrev pub with_params : Value → ℤ → Tables → Option Fields → Response × Tables
  with_params id now t none = (ok (error_response id 32602 "params must be an object"), t)
  with_params id now t (some params) =
      named_tool params id now t (method_of (get_field "name" params))

  unfoldable pub handle_tools_call : Value → Option Value → ℤ → Tables → Response × Tables
  unfolding call_tool
  handle_tools_call id params now t = with_params id now t (params_object params)

  abbrev session_resource : String → Value
  session_resource session_id = obj (
      ("description", string "Distilled session narrative (what was done, decided, and why).")
      ∷ ("mimeType", string "text/plain")
      ∷ ("name", string (joined "Session " session_id))
      ∷ ("uri", string (joined "memory://session/" session_id))
      ∷ [])

  abbrev profile_resource : Value
  profile_resource = obj (
      ("description", string "Approved profile facts, decision heuristics, and top themes.")
      ∷ ("mimeType", string "application/json")
      ∷ ("name", string "Owner profile")
      ∷ ("uri", string "memory://profile")
      ∷ [])

  abbrev pub listed_resources : Value → Result StoreError (List String) → Value
  listed_resources id (err e) = error_response id 32603 "store error"
  listed_resources id (ok sessions) =
      result_response id
        (obj (("resources", arr (profile_resource ∷ map session_resource sessions)) ∷ []))

  unfoldable pub handle_resources_list : Value → Tables → Value
  handle_resources_list id t = listed_resources id (H.distilled_sessions resource_session_cap t)

  abbrev contents : Value → String → String → String → Value
  contents id uri mime text = result_response id (
      obj (
        (
          "contents",
          arr (
              obj (("mimeType", string mime) ∷ ("text", string text) ∷ ("uri", string uri) ∷ [])
              ∷ []),
        )
        ∷ []))

  abbrev pub profile_contents : Value → String → Result ToolError ToolOutcome → Response
  profile_contents id uri (ok (success payload)) =
      ok (contents id uri "application/json" (H.codec.print payload))
  profile_contents id uri (err (panic f)) = err f
  profile_contents id uri _ = ok (error_response id 32603 "store error")

  abbrev pub session_contents : Value → String → Result StoreError (Option String) → Value
  session_contents id uri (ok (some summary)) = contents id uri "text/plain" summary
  session_contents id uri (ok none) = error_response id 32002 "resource not found"
  session_contents id uri (err e) = error_response id 32603 "store error"

  abbrev pub session_or_not_found : Value → String → Tables → Option String → Value
  session_or_not_found id uri t none = error_response id 32002 "resource not found"
  session_or_not_found id uri t (some session_id) =
      session_contents id uri (H.distilled_session session_id t)

  abbrev pub read_uri : Value → Tables → Option String → Response
  read_uri id t none = ok (error_response id 32602 "uri is required")
  read_uri id t (some uri) =
      if uri is "memory://profile"
      then profile_contents id uri (call_memory_profile H (obj []) t)
      else ok (session_or_not_found id uri t (strip_prefix (codes "memory://session/") uri))

  unfoldable pub handle_resources_read : Value → Option Value → Tables → Response
  handle_resources_read id params t = read_uri id t (text_param "uri" (params_object params))

  -- The answers to a request, once the client has initialized.
  unfoldable pub answer : String → Value → Option Value → ℤ → Tables → Response × Tables
  unfolding handle_tools_call handle_resources_list handle_resources_read
  answer method id params now t =
      if method is "initialize"
      then (ok (result_response id (initialize_result H.version)), t)
      else if method is "ping"
      then (ok (result_response id (obj [])), t)
      else if method is "tools/list"
      then (ok (result_response id (obj (("tools", tool_definitions) ∷ []))), t)
      else if method is "tools/call"
      then handle_tools_call id params now t
      else if method is "resources/list"
      then (ok (handle_resources_list id t), t)
      else if method is "resources/read"
      then (handle_resources_read id params t, t)
      else (ok (error_response id 32601 "method not found"), t)
