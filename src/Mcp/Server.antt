-- ===== src/Mcp/Server.antt =====
-- `dispatch` and `run_loop` of crates/memoryd/src/mcp.rs.
pub mod Captures
pub mod Ids
pub mod Replies
pub mod Sessions
use memoryd.Prelude.{
  ℕ, zero, suc, ◌+◌, String, Bool, true, false, not, ◌&&◌, ◌||◌, Option, none, some, List, [], ◌∷◌,
  ◌++◌, map, ◌is◌, if◌then◌else◌, length, drop, Result, ok, err, ◌>>=◌,
}
use memoryd.Prelude.Int.{ℤ}
use memoryd.Text.{begins, codes, joined, trim, is_blank, as_bytes}
use memoryd.Json.{Codec, Value, null, string, object, Fields, get, get_field, as_str}
use memoryd.Redact.Spans.{Fault}
use memoryd.Store.Tables.{Tables, StoreError}
use memoryd.Io.{IoError}
use memoryd.Mcp.Messages.{obj, arr, result_response, error_response, tool_result}
use memoryd.Mcp.Definitions.{initialize_result, tool_definitions}
use memoryd.Mcp.Lines.{Fill, chunk, failure, Buffer, max_mcp_line_bytes, read_capped_line}
use memoryd.Mcp.Host.{Host}
use memoryd.Mcp.Tools.{
  ToolOutcome, success, ToolError, invalid_arguments, store, panic, resource_session_cap,
  call_memory_remember, call_memory_recall, call_memory_stats, call_memory_graph,
  call_memory_profile,
}
use memoryd.Mcp.Calls.{
  Response, method_of, text_param, strip_prefix, tool_response, call_tool, named_tool, with_params,
  handle_tools_call, listed_resources, handle_resources_list, profile_contents, session_contents,
  session_or_not_found, read_uri, handle_resources_read, answer,
}

-- What a message leaves: whether the client has initialized, and the tables.
abbrev pub Session : Type 0
Session = Bool × Tables

abbrev pub Dispatched : Type 0
Dispatched = Result Fault (Option Value) × Session

-- How the loop ends; `stuck` would be a want of fuel.
pub data End : Type 0 where
  eof : End
  io : IoError → End
  panicking : Fault → End
  stuck : End

-- A round of the loop: the end, or a reply and what is left to read.
pub data Turn : Type 0 where
  ended : End → Tables → Turn
  goes_on : Option Value → Session → List Fill → Turn

abbrev pub replied : Response → Result Fault (Option Value)
replied (ok v) = ok (some v)
replied (err f) = err f

abbrev pub no_method : Option Value → Session → Dispatched
no_method none s = (ok none, s)
no_method (some id) s = (ok (some (error_response id 32600 "invalid request")), s)

abbrev pub notification : String → Session → Dispatched
notification method (initialized, t) =
    (ok none, (if method is "notifications/initialized" then true else initialized, t))

module _ (H : Host) where
  abbrev pub request : String → Value → Option Value → ℤ → Session → Dispatched
  request method id params now (initialized, t) =
      if not initialized && not ((method is "initialize") || (method is "ping"))
      then (ok (some (error_response id 32002 "server not initialized")), (initialized, t))
      else (let (response, u) = answer H method id params now t in
          (replied response, (initialized, u)))

  abbrev pub with_method : Value → ℤ → Session → Option String → Option Value → Dispatched
  with_method message now s none id = no_method id s
  with_method message now s (some method) none = notification method s
  with_method message now s (some method) (some id) = request method id (get "params" message) now s

  unfoldable pub dispatch : Value → ℤ → Session → Dispatched
  unfolding answer
  dispatch message now s =
      with_method message now s (method_of (get "method" message)) (get "id" message)

  -- `from_utf8_lossy` and the clock, by the number of the line.
  module _ (lossy : List ℕ → String) (clock : ℕ → ℤ) where
    abbrev pub with_message : ℤ → Session → Option Value → Dispatched
    with_message now s none = (ok (some (error_response null 32700 "parse error")), s)
    with_message now s (some message) = dispatch message now s

    abbrev pub with_line : String → ℤ → Session → Dispatched
    with_line String.[] now s = (ok none, s)
    with_line (String.◌∷◌ c line) now s = with_message now s (H.codec.parse (String.◌∷◌ c line))

    unfoldable pub message_step : Buffer → ℤ → Session → Dispatched
    unfolding dispatch
    message_step (raw, over_limit) now s =
        if over_limit
        then (ok (some (error_response null 32600 "request line exceeds limit")), s)
        else with_line (trim (lossy raw)) now s

    abbrev pub with_reply : Option Value → End × (List Value × Tables) → End × (List Value × Tables)
    with_reply none later = later
    with_reply (some v) (end, (replies, t)) = (end, (v ∷ replies, t))

    abbrev pub after_message : List Fill → Dispatched → Turn
    after_message rest (ok reply, s) = goes_on reply s rest
    after_message rest (err f, s) = ended (panicking f) (s.1)

    abbrev pub with_buffer : ℕ → Session → List Fill → Option Buffer → Turn
    with_buffer i s rest none = ended eof (s.1)
    with_buffer i s rest (some buffer) = after_message rest (message_step buffer (clock i) s)

    abbrev pub with_input : ℕ → Session → Result IoError (Option Buffer × List Fill) → Turn
    with_input i s (err e) = ended (io e) (s.1)
    with_input i s (ok (line, rest)) = with_buffer i s rest line

    -- One round of the loop, for the line number `i`.
    unfoldable pub turn : ℕ → Session → List Fill → Turn
    unfolding message_step read_capped_line
    turn i s fills = with_input i s (read_capped_line max_mcp_line_bytes fills)

    -- The replies in the order in which they are written.
    unfoldable pub run_loop : ℕ → ℕ → Session → List Fill → End × (List Value × Tables)
    unfolding turn
    run_loop zero i s fills = (stuck, ([], s.1))
    run_loop (suc fuel) i s fills = elim (turn i s fills) [
      | ended e t ↦ (e, ([], t))
      | goes_on reply later rest ↦ with_reply reply (run_loop fuel (suc i) later rest)
    ]
