-- ===== src/Hook.antt =====
-- `memoryd hook`, crates/memoryd/src/hook.rs: what a hook of an agent captures and prints. The
-- configuration is the limit of the queue. What standard input holds is a text, and what is printed
-- is a list of lines. A hook that fails reports success all the same, so `run` forgets the error.
use memoryd.Prelude.{
  ℕ, String, not, ◌&&◌, Option, none, some, List, [], ◌∷◌, ◌++◌, map, ◌is◌, if◌then◌else◌, take,
  Result, ok, err, ◌>>=◌,
}
use memoryd.Prelude.Int.{ℤ}
use memoryd.Text.{joined, join, is_blank}
use memoryd.Json.{Codec, Value, null, string, object, end, field, get, as_str}
use memoryd.Redact.Spans.{Fault}
use memoryd.Redact.Inline.{Engine}
use memoryd.Import.{truncate_chars, and_then, or_else, unwrap_or}
use memoryd.Store.Tables.{Tables, StoreError}
use memoryd.Store.Capture.{CaptureAck, Failure, store_error, lift, capture_event_with_queue_limit}
use memoryd.Mcp.Host.{ProfileFact, CentralMemory}

abbrev pub capture_text_cap : ℕ
capture_text_cap = 4000

abbrev pub context_char_cap : ℕ
context_char_cap = 2000

abbrev pub prompt_recall_k : ℕ
prompt_recall_k = 3

abbrev pub profile_fact_cap : ℕ
profile_fact_cap = 30

abbrev profile_theme_cap : ℕ
profile_theme_cap = 5

-- The same text as `truncate_chars` of the importers, cut and marked alike.
abbrev pub truncate : String → ℕ → Result Fault String
truncate = truncate_chars

-- What a hook asks the store: the kinds and contents that a prompt recalls, none if the recall
-- fails, and the rows of the profile.
pub record Queries : Type 0 where
  pub recall_hits : String → ℕ → Tables → List (String × String)
  pub profile_facts : ℕ → Tables → Result StoreError (List ProfileFact)
  pub central_memories : ℕ → Tables → Result StoreError (List CentralMemory)

-- A hook ends well or in an error, prints lines, and leaves tables.
abbrev pub Outcome : Type 0
Outcome = Result Failure (Unit {0}) × List String × Tables

abbrev text_at : String → Value → Option String
text_at key payload = and_then (get key payload) as_str

unfoldable pub session_id : Value → String
session_id payload = unwrap_or (text_at "session_id" payload) "hook"

abbrev maybe_string : Option String → Value
maybe_string none = null
maybe_string (some s) = string s

module _ (C : Codec) (E : Engine) (Q : Queries) (queue_depth_max : ℕ) (now : ℤ) where
  unfoldable pub compact_json : Option Value → String
  compact_json none = ""
  compact_json (some null) = ""
  compact_json (some (string s)) = s
  compact_json (some v) = C.print v

  abbrev captured : Tables → Result Failure (CaptureAck × Tables) → Outcome
  captured t (err e) = (err e, [], t)
  captured t (ok (ack, u)) = (ok tt, [], u)

  unfoldable pub capture :
      String → String → String → Result Fault String → Option String → Tables → Outcome
  capture agent session kind (err f) event_name t = (err (Failure.fault f), [], t)
  capture agent session kind (ok text) event_name t = captured t (
      capture_event_with_queue_limit C E
        (record {
          session_id = session;
          agent = agent;
          source = "hook";
          kind = kind;
          payload = object (field "text" (string text) end);
          provenance =
              object (field "event" (maybe_string event_name) (field "via" (string "hook") end));
          ts_ms = now;
        })
        queue_depth_max now t)

  unfoldable pub capture_tool : Value → String → Tables → Outcome
  unfolding compact_json capture session_id
  capture_tool payload agent t =
      let tool = unwrap_or (text_at "tool_name" payload) "tool" in
      let input = compact_json (get "tool_input" payload) in
      let response = compact_json (
        or_else (get "tool_output" payload)
          (or_else (get "tool_response" payload) (get "extra" payload))) in
      let call = joined tool (joined ": " input) in
      let text =
        if not (response is "") && not (response is "null")
        then joined call (joined " -> " response)
        else call in
      capture agent (session_id payload) "observation" (truncate text capture_text_cap)
        (text_at "hook_event_name" payload) t

  abbrev capture_filled : Value → String → Option String → Tables → Outcome
  capture_filled payload agent none t = (ok tt, [], t)
  capture_filled payload agent (some prompt) t =
      if is_blank prompt
      then (ok tt, [], t)
      else capture agent (session_id payload) "observation" (truncate prompt capture_text_cap)
          (text_at "hook_event_name" payload) t

  unfoldable pub capture_prompt : Value → String → Tables → Outcome
  unfolding capture session_id
  capture_prompt payload agent t = capture_filled payload agent (text_at "prompt" payload) t

  -- The line that puts a context into the agent.
  unfoldable pub print_context : Value → String → String → String
  print_context payload default_event context = C.print (
      object (
        field "hookSpecificOutput"
          (object (
            field "additionalContext" (string context) (
              field "hookEventName"
                (string (unwrap_or (text_at "hook_event_name" payload) default_event)) end)))
          end))

  abbrev hit_line : String × String → String
  hit_line (kind, content) = joined "- [" (joined kind (joined "] " content))

  abbrev recalled_lines : Option String → Tables → List String
  recalled_lines none t = []
  recalled_lines (some prompt) t =
      map hit_line (take prompt_recall_k (Q.recall_hits prompt prompt_recall_k t))

  abbrev prompt_context : Value → List String → Result Failure (List String)
  prompt_context payload [] = ok []
  prompt_context payload (l ∷ ls) =
      lift (truncate (joined "Relevant memoryd memories:\n" (join "\n" (l ∷ ls))) context_char_cap)
      >>= λ context. ok (print_context payload "UserPromptSubmit" context ∷ [])

  unfoldable pub emit_prompt_context : Value → Tables → Result Failure (List String)
  unfolding print_context join
  emit_prompt_context payload t =
      prompt_context payload (recalled_lines (text_at "prompt" payload) t)

  abbrev fact_line : ProfileFact → String
  fact_line f = joined "- " (joined f.fact_key (joined ": " f.fact_value))

  abbrev theme_lines : List CentralMemory → Result Fault (List String)
  theme_lines [] = ok []
  theme_lines (m ∷ ms) =
      truncate m.content 160 >>= λ text. theme_lines ms >>= λ rest. ok (joined "- " text ∷ rest)

  abbrev themes_block : List CentralMemory → Result Fault (List String)
  themes_block [] = ok []
  themes_block (m ∷ ms) = theme_lines (m ∷ ms) >>= λ ls. ok ("Recurring themes:" ∷ ls)

  abbrev stored {ℓ} : {A : Type ℓ} → Result StoreError A → Result Failure A
  stored (ok a) = ok a
  stored (err e) = err (store_error e)

  abbrev profile_context :
      Value → List ProfileFact → List CentralMemory → Result Failure (List String)
  profile_context payload [] [] = ok []
  profile_context payload facts themes = lift (themes_block themes) >>= λ block.
      lift (
        truncate
          (join "\n" ("Owner profile (memoryd, human-approved):" ∷ (map fact_line facts ++ block)))
          context_char_cap)
      >>= λ context. ok (print_context payload "SessionStart" context ∷ [])

  unfoldable pub emit_profile_context : Value → Tables → Result Failure (List String)
  unfolding print_context join
  emit_profile_context payload t = stored (Q.profile_facts profile_fact_cap t) >>= λ facts.
      stored (Q.central_memories profile_theme_cap t) >>= λ themes.
      profile_context payload facts themes

  abbrev printed : List String → Outcome → Outcome
  printed lines (r, more, t) = (r, lines ++ more, t)

  -- A prompt is recalled before it is captured.
  abbrev prompt_hook : Value → String → Tables → Result Failure (List String) → Outcome
  prompt_hook payload agent t (err e) = (err e, [], t)
  prompt_hook payload agent t (ok lines) = printed lines (capture_prompt payload agent t)

  abbrev context_hook : Tables → Result Failure (List String) → Outcome
  context_hook t (err e) = (err e, [], t)
  context_hook t (ok lines) = (ok tt, lines, t)

  -- The verb picks the hook; `none` is an unknown one.
  unfoldable pub run_payload : String → String → Value → Tables → Option Outcome
  unfolding capture_tool capture_prompt emit_prompt_context emit_profile_context
  run_payload verb agent payload t =
      if verb is "tool"
      then some (capture_tool payload agent t)
      else if verb is "prompt"
      then some (prompt_hook payload agent t (emit_prompt_context payload t))
      else if verb is "session-start"
      then some (context_hook t (emit_profile_context payload t))
      else none

  -- A text that is no JSON stands for the empty object.
  unfoldable pub run_fallible : String → String → String → Tables → Option Outcome
  unfolding run_payload
  run_fallible verb agent raw t = run_payload verb agent (unwrap_or (C.parse raw) (object end)) t
