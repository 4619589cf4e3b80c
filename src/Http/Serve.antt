-- ===== src/Http/Serve.antt =====
-- `handle_http_connection`, `handle_http_request` and the handlers of its routes, of
-- crates/memoryd/src/main.rs. The writer thread of crates/memoryd-core/src/writer.rs runs a job at
-- once or is gone; the request has been parsed, or the parser has given an error.
pub mod Access
pub mod Lockout
use memoryd.Prelude.{
  is_some, ℕ, String, Bool, true, false, not, ◌&&◌, ◌||◌, Option, none, some, List, map, leb, ltb,
  ◌==◌, ◌is◌, if◌then◌else◌, Result, ok, err,
}
use memoryd.Prelude.Int.{ℤ}
use memoryd.Text.{codes, contains_bytes, to_lower, trim, before_char}
use memoryd.Json.{Codec, Value, null, boolean, number, string, object, end, field, pos_int}
use memoryd.Redact.Inline.{Engine}
use memoryd.Store.Tables.{Tables, StoreError, invalid_capture_field}
use memoryd.Store.Capture.{
  CaptureAck, NewRawEvent, Failure, store_error, fault, capture_event_with_queue_limit,
}
use memoryd.Http.Peer.{IpAddr}
use memoryd.Http.Message.{HttpRequest, HttpResponse, error_response, header_value}
use memoryd.Http.Auth.{
  is_authorized, auth_rejection_reason, record_auth_rejection, peer_is_loopback,
}
use memoryd.Http.Body.{RecallArgs, capture_event_from_json, recall_request_from_json}
use memoryd.Http.Throttle.{Entries, is_throttled, record_failure, record_success}

-- What a recall ends with; `recall_with_mode` is an argument.
pub data RecallResult : Type 0 where
  found : Value → RecallResult
  invalid_query failed : RecallResult

-- The configuration, the clock, the state of the writer thread, and what the server calls.
pub record Server : Type 1 where
  pub codec : Codec
  pub engine : Engine
  pub bearer_token : Option String
  pub queue_depth_max : ℕ
  pub now : ℤ
  pub writer_alive : Bool
  pub parse_body : List ℕ → Option Value
  pub schema_version : Tables → Option ℕ
  pub recall : RecallArgs → Tables → RecallResult

-- `WriterHandle::exec`: the answer of the job, or `WriterGone` if the thread is gone or the job
-- panics.
pub data Exec {ℓ} (A : Type ℓ) : Type ℓ where
  answer : A → Exec A
  refused : StoreError → Exec A
  writer_gone : Exec A

abbrev pub finished {ℓ} : {A : Type ℓ} → Tables → Result Failure (A × Tables) → Exec A × Tables
finished t (ok (a, u)) = (answer a, u)
finished t (err (store_error e)) = (refused e, t)
finished t (err (fault f)) = (writer_gone, t)

abbrev pub exec {ℓ} :
    {A : Type ℓ} → Bool → (Tables → Result Failure (A × Tables)) → Tables → Exec A × Tables
exec false job t = (writer_gone, t)
exec true job t = finished t (job t)

abbrev maybe_job : Option ℕ → Value
maybe_job none = null
maybe_job (some n) = number (pos_int n)

abbrev ack_body : CaptureAck → Value
ack_body a = object (
    field "degraded" (boolean a.degraded) (
      field "enqueued_job_id" (maybe_job a.enqueued_job_id) (
        field "processed" (boolean a.processed) (
          field "raw_event_id" (number (pos_int a.raw_event_id))
            (field "session_id" (string a.session_id) end)))))

abbrev pub capture_response : Exec CaptureAck → HttpResponse
capture_response (answer a) = record { status = 202; reason = "Accepted"; body = ack_body a }
capture_response (refused (invalid_capture_field _)) =
    error_response 422 "invalid_request" "capture fields must not be empty"
capture_response (refused _) = error_response 500 "store_error" "capture could not be persisted"
capture_response writer_gone = error_response 500 "store_error" "capture could not be persisted"

abbrev recall_response : RecallResult → HttpResponse
recall_response (found v) = record { status = 200; reason = "OK"; body = v }
recall_response invalid_query =
    error_response 422 "invalid_request" "query must contain searchable text"
recall_response failed = error_response 500 "store_error" "recall could not be completed"

abbrev health_response : Option ℕ → HttpResponse
health_response none = error_response 500 "store_error" "health check could not read the store"
health_response (some v) = record {
  status = 200;
  reason = "OK";
  body = object (field "schema_version" (number (pos_int v)) (field "status" (string "ok") end));
}

is_chunked_value : Option String → Bool
is_chunked_value none = false
is_chunked_value (some v) = contains_bytes (codes "chunked") (map to_lower (codes v))

pub is_chunked : List (String × String) → Bool
unfolding is_chunked_value
is_chunked headers = is_chunked_value (header_value "transfer-encoding" headers)

is_json_value : Option String → Bool
is_json_value none = false
is_json_value (some v) = trim (before_char b';' v) is "application/json"

pub has_json_content_type : List (String × String) → Bool
unfolding is_json_value
has_json_content_type headers = is_json_value (header_value "content-type" headers)

module _ (S : Server) where
  open S use {codec, engine, bearer_token, queue_depth_max, now, writer_alive}

  pub handle_http_health : HttpRequest → Tables → HttpResponse
  handle_http_health r t =
      if not (r.method is "GET")
      then error_response 405 "method_not_allowed" "GET required"
      else health_response (S.schema_version t)

  pub handle_http_capture : Value → Tables → HttpResponse × Tables
  handle_http_capture body t = elim (capture_event_from_json body now) [
    | err message ↦ (error_response 422 "invalid_request" message, t)
    | ok event ↦
        let (r, u) =
          exec writer_alive (capture_event_with_queue_limit codec engine event queue_depth_max now)
            t in
        (capture_response r, u)
  ]

  pub handle_http_recall : Value → Tables → HttpResponse
  handle_http_recall body t = elim (recall_request_from_json body) [
    | err message ↦ error_response 422 "invalid_request" message
    | ok args ↦ recall_response (S.recall args t)
  ]

  -- The rejection of a request that carries no valid credentials.
  pub reject : Option IpAddr → HttpRequest → Tables → HttpResponse × Tables
  reject peer r t =
      if writer_alive
      then (
        error_response 401 "unauthorized" "authorization failed",
        record_auth_rejection codec r.method r.path peer
            (is_some (header_value "authorization" r.headers))
            (auth_rejection_reason bearer_token peer) now t,
      )
      else (error_response 500 "store_error" "auth audit could not be persisted", t)

  -- The routes behind the check of the body.
  pub dispatch : HttpRequest → Value → Tables → HttpResponse × Tables
  unfolding handle_http_capture handle_http_recall
  dispatch r body t =
      if r.path is "/v1/capture"
      then handle_http_capture body t
      else if r.path is "/v1/recall"
      then (handle_http_recall body t, t)
      else (error_response 404 "not_found" "route not found", t)

  -- The checks of an authorized request, in order.
  pub handle_authorized : HttpRequest → Tables → HttpResponse × Tables
  unfolding dispatch handle_http_health
  handle_authorized r t =
      if is_chunked r.headers
      then (
        error_response 501 "not_implemented"
            "Transfer-Encoding is not supported; send Content-Length",
        t,
      )
      else if r.path is "/v1/health"
      then (handle_http_health r t, t)
      else if not (r.path is "/v1/capture") && not (r.path is "/v1/recall")
      then (error_response 404 "not_found" "route not found", t)
      else if not (r.method is "POST")
      then (error_response 405 "method_not_allowed" "POST required", t)
      else if not (has_json_content_type r.headers)
      then (error_response 415 "unsupported_media_type" "application/json required", t)
      else elim (S.parse_body r.body) [
        | none ↦ (error_response 400 "invalid_json" "request body must be JSON", t)
        | some body ↦ dispatch r body t
      ]

  pub handle_http_request : Option IpAddr → HttpRequest → Tables → HttpResponse × Tables
  unfolding handle_authorized reject handle_http_health
  handle_http_request peer r t =
      if (r.path is "/v1/health") && peer_is_loopback peer
      then (handle_http_health r t, t)
      else if not (is_authorized bearer_token peer r.headers)
      then reject peer r t
      else handle_authorized r t

  -- The throttle before the request is read, and after the response.
  abbrev pub respond :
      Option IpAddr → Result HttpResponse HttpRequest → Tables → HttpResponse × Tables
  respond peer (ok r) t = handle_http_request peer r t
  respond peer (err e) t = (e, t)

  abbrev pub settle : Option IpAddr → ℕ → Entries → Entries
  settle none status m = m
  settle (some ip) status m =
      if status == 401
      then record_failure ip now m
      else if leb 200 status && ltb status 300
      then record_success ip m
      else m

  abbrev pub locked_out : Option IpAddr → Entries → Bool
  locked_out none m = false
  locked_out (some ip) m = is_throttled ip now m

  -- The answer, the tables and the throttle. `written` says whether the answer reaches the socket: if
  -- `write_http_response` fails, the function returns before the throttle hears of the status.
  unfoldable pub handle_http_connection :
      Option IpAddr
      → Result HttpResponse HttpRequest
      → Bool
      → Tables
      → Entries
      → HttpResponse × (Tables × Entries)
  handle_http_connection peer request written t m =
      if locked_out peer m
      then (
        error_response 429 "rate_limited" "too many failed authentication attempts; retry later",
        (t, m),
      )
      else (let (response, u) = respond peer request t in
          (response, (u, if written then settle peer response.status m else m)))
