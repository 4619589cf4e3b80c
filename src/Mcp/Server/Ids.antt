-- ===== src/Mcp/Server/Ids.antt =====
-- The id that a response carries.
use memoryd.Prelude.{
  ℕ, String, Bool, true, false, Option, none, some, List, [], ◌is◌, if◌then◌else◌, Result, ok, err,
  ◌≡◌, refl,
}
use memoryd.Prelude.Int.{ℤ}
use memoryd.Text.{codes}
use memoryd.Json.{Value, Fields, get, get_field}
use memoryd.Store.Tables.{Tables, StoreError}
use memoryd.Mcp.Messages.{obj, result_response, error_response}
use memoryd.Mcp.Host.{Host}
use memoryd.Mcp.Tools.{
  call_memory_profile, ToolError, ToolOutcome, invalid_arguments, store, panic, success,
}
use memoryd.Mcp.Calls.{
  params_object, Response, tool_response, call_tool, named_tool, strip_prefix, text_param,
  session_contents, with_params, read_uri, listed_resources, profile_contents, session_or_not_found,
  handle_tools_call, answer, handle_resources_list, handle_resources_read,
}

-- A response carries the id, or the process has panicked.
abbrev pub HasId : Value → Response → Type 0
HasId id (ok v) = get "id" v ≡ some id
HasId id (err f) = Unit

pub HasId-if {ℓ} :
    {B : Type ℓ} (b : Bool) (id : Value) (x y : Response × B)
    → HasId id (x.0)
    → HasId id (y.0)
    → HasId id ((if b then x else y).0)
HasId-if true id x y hx hy = hx
HasId-if false id x y hx hy = hy

pub HasId-either :
    (b : Bool) (id : Value) (x y : Response)
    → HasId id x
    → HasId id y
    → HasId id (if b then x else y)
HasId-either true id x y hx hy = hx
HasId-either false id x y hx hy = hy

pub error_response-HasId :
    (id : Value) (code : ℕ) (message : String) → get "id" (error_response id code message) ≡ some id
unfolding get get_field
error_response-HasId id code message = refl

pub result_response-HasId : (id result : Value) → get "id" (result_response id result) ≡ some id
unfolding get get_field
result_response-HasId id result = refl

module _ (H : Host) where
  pub tool_response-HasId :
      (id : Value) (r : Result ToolError ToolOutcome) → HasId id (tool_response H id r)
  tool_response-HasId id (ok (success payload)) = result_response-HasId id _
  tool_response-HasId id (ok (ToolOutcome.failure message)) = result_response-HasId id _
  tool_response-HasId id (err (invalid_arguments message)) = error_response-HasId id 32602 message
  tool_response-HasId id (err store) = error_response-HasId id 32603 "store error"
  tool_response-HasId id (err (panic f)) = tt

  pub call_tool-HasId :
      (name : String) (id arguments : Value) (now : ℤ) (t : Tables)
      → HasId id ((call_tool H name id arguments now t).0)
  unfolding call_tool
  call_tool-HasId name id arguments now t =
      HasId-if (name is "memory_remember") id _ _ (tool_response-HasId id _) (
        HasId-if (name is "memory_recall") id _ _ (tool_response-HasId id _) (
          HasId-if (name is "memory_stats") id _ _ (tool_response-HasId id _) (
            HasId-if (name is "memory_graph") id _ _ (tool_response-HasId id _) (
              HasId-if (name is "memory_profile") id _ _ (tool_response-HasId id _)
                (error_response-HasId id 32602 "unknown tool")))))

  pub named_tool-HasId :
      (params : Fields) (id : Value) (now : ℤ) (t : Tables) (name : Option String)
      → HasId id ((named_tool H params id now t name).0)
  named_tool-HasId params id now t none = error_response-HasId id 32602 "tool name is required"
  named_tool-HasId params id now t (some name) = call_tool-HasId name id _ now t

  pub with_params-HasId :
      (id : Value) (now : ℤ) (t : Tables) (params : Option Fields)
      → HasId id ((with_params H id now t params).0)
  with_params-HasId id now t none = error_response-HasId id 32602 "params must be an object"
  with_params-HasId id now t (some params) = named_tool-HasId params id now t _

  pub resources-HasId :
      (id : Value) (r : Result StoreError (List String)) → HasId id (ok (listed_resources H id r))
  resources-HasId id (ok sessions) = result_response-HasId id _
  resources-HasId id (err e) = error_response-HasId id 32603 "store error"

  pub profile-HasId :
      (id : Value) (uri : String) (r : Result ToolError ToolOutcome)
      → HasId id (profile_contents H id uri r)
  profile-HasId id uri (ok (success payload)) = result_response-HasId id _
  profile-HasId id uri (ok (ToolOutcome.failure message)) =
      error_response-HasId id 32603 "store error"
  profile-HasId id uri (err (panic f)) = tt
  profile-HasId id uri (err (invalid_arguments message)) =
      error_response-HasId id 32603 "store error"
  profile-HasId id uri (err store) = error_response-HasId id 32603 "store error"

  pub session_contents-HasId :
      (id : Value) (uri : String) (r : Result StoreError (Option String))
      → get "id" (session_contents H id uri r) ≡ some id
  session_contents-HasId id uri (ok (some summary)) = result_response-HasId id _
  session_contents-HasId id uri (ok none) = error_response-HasId id 32002 "resource not found"
  session_contents-HasId id uri (err e) = error_response-HasId id 32603 "store error"

  pub session-HasId :
      (id : Value) (uri : String) (t : Tables) (r : Option String)
      → get "id" (session_or_not_found H id uri t r) ≡ some id
  session-HasId id uri t none = error_response-HasId id 32002 "resource not found"
  session-HasId id uri t (some session_id) = session_contents-HasId id uri _

  pub read_uri-HasId :
      (id : Value) (t : Tables) (uri : Option String) → HasId id (read_uri H id t uri)
  read_uri-HasId id t none = error_response-HasId id 32602 "uri is required"
  read_uri-HasId id t (some uri) =
      HasId-either (uri is "memory://profile") id
        (profile_contents H id uri (call_memory_profile H (obj []) t)) _ (profile-HasId id uri _)
        (session-HasId id uri t (strip_prefix (codes "memory://session/") uri))

  pub answer-HasId :
      (method : String) (id : Value) (params : Option Value) (now : ℤ) (t : Tables)
      → HasId id ((answer H method id params now t).0)
  unfolding answer handle_tools_call handle_resources_list handle_resources_read
  answer-HasId method id params now t =
      HasId-if (method is "initialize") id _ _ (result_response-HasId id _) (
        HasId-if (method is "ping") id _ _ (result_response-HasId id _) (
          HasId-if (method is "tools/list") id _ _ (result_response-HasId id _) (
            HasId-if (method is "tools/call") id _ _ (with_params-HasId id now t _) (
              HasId-if (method is "resources/list") id _ _ (resources-HasId id _) (
                HasId-if (method is "resources/read") id _ _
                  (read_uri-HasId id t (text_param "uri" (params_object params)))
                  (error_response-HasId id 32601 "method not found"))))))
