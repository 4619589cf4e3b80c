-- ===== src/Mcp/Tools.antt =====
-- The tools and resources of crates/memoryd/src/mcp.rs. A panic is an error of the outer result.
use memoryd.Prelude.{
  ℕ, String, ◌&&◌, Option, none, some, List, [], ◌∷◌, map, leb, if◌then◌else◌, Result, ok, err,
  ◌>>=◌, ok_or, is_some,
}
use memoryd.Prelude.Int.{ℤ}
use memoryd.Json.{
  Value, null, boolean, string, array, object, Items, nil, cons, Fields, get_field, as_str, as_u64,
}
use memoryd.Redact.Spans.{Fault, panicked}
use memoryd.Store.Tables.{Tables, StoreError, invalid_capture_field}
use memoryd.Store.Capture.{
  NewRawEvent, CaptureAck, Failure, store_error, fault, capture_event_with_queue_limit,
}
use memoryd.Http.Body.{recall_request_from_json}
use memoryd.Http.Serve.{RecallResult, found, invalid_query, failed}
use memoryd.Mcp.Host.{
  TableStats, MemoryNeighbor, MemoryNeighborhood, ProfileFact, CentralMemory, Host,
}
use memoryd.Mcp.Messages.{obj, arr, nat, int, double, snippet}

abbrev pub graph_snippet_chars : ℕ
graph_snippet_chars = 240

abbrev pub profile_theme_cap : ℕ
profile_theme_cap = 12

abbrev pub resource_session_cap : ℕ
resource_session_cap = 50

pub data ToolOutcome : Type 0 where
  success : Value → ToolOutcome
  failure : String → ToolOutcome

-- The error of the store goes to stderr only.
pub data ToolError : Type 0 where
  invalid_arguments : String → ToolError
  store : ToolError
  panic : Fault → ToolError

abbrev from_store {ℓ} : {A : Type ℓ} → Result StoreError A → Result ToolError A
from_store (ok a) = ok a
from_store (err e) = err store

abbrev as_object : Value → Option Fields
as_object (object fs) = some fs
as_object _ = none

abbrev arguments_object : Value → Result ToolError Fields
arguments_object v = ok_or (as_object v) (invalid_arguments "arguments must be an object")

abbrev and_str : Option Value → Option String
and_str none = none
and_str (some v) = as_str v

abbrev string_or : String → Option Value → Result ToolError String
string_or default none = ok default
string_or default (some v) = ok_or (as_str v) (invalid_arguments "optional fields must be strings")

unfoldable pub optional_string : Fields → String → String → Result ToolError String
optional_string fs name default = string_or default (get_field name fs)

abbrev bad_tags : ToolError
bad_tags = invalid_arguments "tags must be an array of strings"

abbrev pub strings : Items → Result ToolError (List Value)
strings nil = ok []
strings (cons v vs) =
    ok_or (as_str v) bad_tags >>= λ tag. (strings vs >>= λ tags. ok (string tag ∷ tags))

abbrev as_array : Value → Option Items
as_array (array vs) = some vs
as_array _ = none

abbrev tags_of : Option Value → Result ToolError (List Value)
tags_of none = ok []
tags_of (some v) = ok_or (as_array v) bad_tags >>= strings

-- `remember_event`, the tags being texts.
abbrev pub remember_event :
    String → String → String → String → List Value → String → ℤ → NewRawEvent
remember_event content kind session_id source tags agent now = record {
  session_id = session_id;
  agent = agent;
  source = source;
  kind = kind;
  payload = obj (("memory_kind", string kind) ∷ ("text", string content) ∷ []);
  provenance =
      obj (("memory_kind", string kind) ∷ ("tags", arr tags) ∷ ("via", string "remember") ∷ []);
  ts_ms = now;
}

abbrev maybe_nat : Option ℕ → Value
maybe_nat none = null
maybe_nat (some n) = nat n

abbrev remembered : CaptureAck → Value
remembered a = obj (
    ("degraded", boolean a.degraded)
    ∷ ("enqueued_job_id", maybe_nat a.enqueued_job_id)
    ∷ ("pending_memory", boolean (is_some a.enqueued_job_id))
    ∷ ("raw_event_id", nat a.raw_event_id)
    ∷ ("session_id", string a.session_id)
    ∷ [])

abbrev Called : Type 0
Called = Result ToolError ToolOutcome

abbrev pub after_capture : Tables → Result Failure (CaptureAck × Tables) → Called × Tables
after_capture t (ok (a, u)) = (ok (success (remembered a)), u)
after_capture t (err (store_error (invalid_capture_field _))) =
    (ok (failure "capture fields must not be empty"), t)
after_capture t (err (store_error e)) = (err store, t)
after_capture t (err (fault f)) = (err (panic f), t)

-- A limit from 1 to `top`, or the default.
abbrev in_range : ℕ → String → Option ℕ → Result ToolError ℕ
in_range top message none = err (invalid_arguments message)
in_range top message (some n) =
    if leb 1 n && leb n top then ok n else err (invalid_arguments message)

abbrev limit_or : ℕ → ℕ → String → Option Value → Result ToolError ℕ
limit_or default top message none = ok default
limit_or default top message (some v) = in_range top message (as_u64 v)

-- Every entry, or the panic of one of them.
abbrev each {ℓ} : {A : Type ℓ} → (A → Option Value) → List A → Result ToolError (List Value)
each f [] = ok []
each f (a ∷ rest) = ok_or (f a) (panic panicked) >>= λ v. (each f rest >>= λ vs. ok (v ∷ vs))

abbrev with_snippet : String → (String → Value) → Option Value
with_snippet content f = elim (snippet content graph_snippet_chars) [
  | none ↦ none
  | some text ↦ some (f text)
]

abbrev neighbor_value : MemoryNeighbor → Option Value
neighbor_value n = with_snippet n.content (λ text. obj (
    ("content", string text)
    ∷ ("kind", string n.kind)
    ∷ ("last_reinforced_at", int n.last_reinforced_at)
    ∷ ("lifecycle_state", string n.lifecycle_state)
    ∷ ("link_strength", double n.link_strength)
    ∷ ("link_type", string n.link_type)
    ∷ ("memory_id", string n.memory_id)
    ∷ []))

abbrev hood_value : Option MemoryNeighborhood → Called
hood_value none = ok (failure "memory not found")
hood_value (some hood) = each neighbor_value hood.neighbors >>= λ neighbors.
    (ok_or
        (with_snippet hood.content (λ text. obj (
          ("content", string text)
          ∷ ("kind", string hood.kind)
          ∷ ("memory_id", string hood.memory_id)
          ∷ ("neighbors", arr neighbors)
          ∷ [])))
        (panic panicked)
      >>= λ v. ok (success v))

abbrev fact_value : ProfileFact → Value
fact_value f = obj (
    ("confidence", double f.confidence)
    ∷ ("key", string f.fact_key)
    ∷ ("value", string f.fact_value)
    ∷ [])

abbrev theme_value : CentralMemory → Option Value
theme_value m = with_snippet m.content (λ text. obj (
    ("centrality", double m.centrality)
    ∷ ("content", string text)
    ∷ ("kind", string m.kind)
    ∷ ("memory_id", string m.memory_id)
    ∷ []))

abbrev stat_value : TableStats → Value
stat_value s = obj (("rows", nat s.rows) ∷ ("table", string s.table) ∷ [])

abbrev recalled : RecallResult → Called
recalled (found v) = ok (success v)
recalled invalid_query = ok (failure "query must contain searchable text")
recalled failed = err store

abbrev from_message {ℓ} : {A : Type ℓ} → Result String A → Result ToolError A
from_message (ok a) = ok a
from_message (err message) = err (invalid_arguments message)

-- The event that `memory_remember` captures.
unfoldable pub event_of : Value → ℤ → Result ToolError NewRawEvent
event_of arguments now = do
  fs ← arguments_object arguments
  content ← ok_or (and_str (get_field "content" fs)) (invalid_arguments "content is required")
  kind ← optional_string fs "kind" "note"
  session_id ← optional_string fs "session_id" "mcp"
  source ← optional_string fs "source" "mcp"
  tags ← tags_of (get_field "tags" fs)
  ok (remember_event content kind session_id source tags "mcp" now)

module _ (H : Host) where
  abbrev pub remember : ℤ → Tables → Result ToolError NewRawEvent → Called × Tables
  remember now t (err e) = (err e, t)
  remember now t (ok event) =
      after_capture t
        (capture_event_with_queue_limit H.codec H.engine event H.queue_depth_max now t)

  unfoldable pub call_memory_remember : Value → ℤ → Tables → Called × Tables
  call_memory_remember arguments now t = remember now t (event_of arguments now)

  unfoldable pub call_memory_recall : Value → Tables → Called
  call_memory_recall arguments t =
      from_message (recall_request_from_json arguments) >>= λ args. recalled (H.recall args t)

  unfoldable pub call_memory_stats : Tables → Called
  call_memory_stats t = from_store (H.table_stats t) >>= λ stats.
      ok (success (obj (("tables", arr (map stat_value stats)) ∷ [])))

  unfoldable pub call_memory_graph : Value → Tables → Called
  call_memory_graph arguments t = do
    fs ← arguments_object arguments
    memory_id ←
        ok_or (and_str (get_field "memory_id" fs)) (invalid_arguments "memory_id is required")
    limit ← limit_or 16 50 "limit must be an integer from 1 to 50" (get_field "limit" fs)
    hood ← from_store (H.memory_neighbors memory_id limit t)
    hood_value hood

  unfoldable pub call_memory_profile : Value → Tables → Called
  call_memory_profile arguments t = do
    fs ← arguments_object arguments
    limit ← limit_or 50 100 "limit must be an integer between 1 and 100" (get_field "limit" fs)
    facts ← from_store (H.active_profile_facts limit t)
    themes ← from_store (H.top_central_memories profile_theme_cap t)
    values ← each theme_value themes
    ok (success (obj (("facts", arr (map fact_value facts)) ∷ ("themes", arr values) ∷ [])))
