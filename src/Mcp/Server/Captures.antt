-- ===== src/Mcp/Server/Captures.antt =====
-- What a call does to the store.
use memoryd.Prelude.{
  String, Bool, true, false, Option, none, some, ◌is◌, if◌then◌else◌, Result, ok, err, ◌≡◌, refl,
}
use memoryd.Prelude.Int.{ℤ}
use memoryd.Json.{Value, Fields}
use memoryd.Store.Tables.{Tables, invalid_capture_field}
use memoryd.Store.Capture.{
  NewRawEvent, CaptureAck, Failure, store_error, fault, capture_event_with_queue_limit,
}
use memoryd.Mcp.Host.{Host}
use memoryd.Mcp.Tools.{remember, after_capture, ToolError, call_memory_remember}
use memoryd.Mcp.Calls.{call_tool, named_tool, with_params, handle_tools_call, answer}

module _ (H : Host) where
  -- The tables stay as they are, or an event is captured.
  pub data Captures (t : Tables) : Tables → Type 1 where
    same : Captures t t
    captured :
        {u : Tables} (e : NewRawEvent) (now : ℤ) (a : CaptureAck)
        → capture_event_with_queue_limit H.codec H.engine e H.queue_depth_max now t ≡ ok (a, u)
        → Captures t u

  pub after_capture-Captures :
      (e : NewRawEvent) (now : ℤ) (t : Tables) (r : Result Failure (CaptureAck × Tables))
      → capture_event_with_queue_limit H.codec H.engine e H.queue_depth_max now t ≡ r
      → Captures t ((after_capture t r).1)
  after_capture-Captures e now t (ok (a, u)) h = captured e now a h
  after_capture-Captures e now t (err (store_error (invalid_capture_field f))) h = same
  after_capture-Captures e now t (err (store_error x)) h = same
  after_capture-Captures e now t (err (fault f)) h = same

  pub remember-Captures :
      (now : ℤ) (t : Tables) (r : Result ToolError NewRawEvent)
      → Captures t ((remember H now t r).1)
  remember-Captures now t (ok e) = after_capture-Captures e now t _ refl
  remember-Captures now t (err e) = same

  pub Captures-if {ℓ} :
      {A : Type ℓ} (b : Bool) (t : Tables) (x y : A × Tables)
      → Captures t (x.1)
      → Captures t (y.1)
      → Captures t ((if b then x else y).1)
  Captures-if true t x y hx hy = hx
  Captures-if false t x y hx hy = hy

  pub call_tool-Captures :
      (name : String) (id arguments : Value) (now : ℤ) (t : Tables)
      → Captures t ((call_tool H name id arguments now t).1)
  unfolding call_tool call_memory_remember
  call_tool-Captures name id arguments now t =
      Captures-if (name is "memory_remember") t _ _ (remember-Captures now t _) (
        Captures-if (name is "memory_recall") t _ _ same (
          Captures-if (name is "memory_stats") t _ _ same (
            Captures-if (name is "memory_graph") t _ _ same
              (Captures-if (name is "memory_profile") t _ _ same same))))

  pub named_tool-Captures :
      (params : Fields) (id : Value) (now : ℤ) (t : Tables) (name : Option String)
      → Captures t ((named_tool H params id now t name).1)
  named_tool-Captures params id now t none = same
  named_tool-Captures params id now t (some name) = call_tool-Captures name id _ now t

  pub with_params-Captures :
      (id : Value) (now : ℤ) (t : Tables) (params : Option Fields)
      → Captures t ((with_params H id now t params).1)
  with_params-Captures id now t none = same
  with_params-Captures id now t (some params) = named_tool-Captures params id now t _

  pub answer-Captures :
      (method : String) (id : Value) (params : Option Value) (now : ℤ) (t : Tables)
      → Captures t ((answer H method id params now t).1)
  unfolding answer handle_tools_call
  answer-Captures method id params now t = Captures-if (method is "initialize") t _ _ same (
      Captures-if (method is "ping") t _ _ same (
        Captures-if (method is "tools/list") t _ _ same (
          Captures-if (method is "tools/call") t _ _ (with_params-Captures id now t _) (
            Captures-if (method is "resources/list") t _ _ same
              (Captures-if (method is "resources/read") t _ _ same same)))))
