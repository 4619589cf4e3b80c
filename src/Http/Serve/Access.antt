-- ===== src/Http/Serve/Access.antt =====
-- Who gets what from `handle_http_request`: every request ends in one of three ways.
use memoryd.Prelude.{Bool, true, false, ◌&&◌, Option, some, ◌≡◌, ◌≢◌, ◌is◌, Result, ok, is_some}
use memoryd.Json.{Value}
use memoryd.Store.Tables.{Tables}
use memoryd.Store.Capture.{CaptureAck, NewRawEvent, Failure, capture_event_with_queue_limit}
use memoryd.Http.Peer.{IpAddr}
use memoryd.Http.Message.{HttpRequest, HttpResponse, header_value}
use memoryd.Http.Auth.{
  is_authorized, auth_rejection_reason, record_auth_rejection, peer_is_loopback,
}
use memoryd.Http.Body.{capture_event_from_json}
use memoryd.Http.Serve.{Server, answer, capture_response, has_json_content_type}

-- The health route, for a peer on this machine.
abbrev pub is_exempt : Option IpAddr → HttpRequest → Bool
is_exempt peer r = (r.path is "/v1/health") && peer_is_loopback peer

module _ (S : Server) (peer : Option IpAddr) (r : HttpRequest) (t : Tables) where
  -- The three ends of a request: nothing is written and the status is neither 202 nor 401; or the
  -- request was not authorized, is answered 401, and the rejection is audited; or it was
  -- authorized, is a JSON POST to the capture route, is answered 202, and its event is captured.
  pub data Ends : HttpResponse × Tables → Type 0 where
    quiet :
        (response : HttpResponse)
        → response.status ≢ 202
        → response.status ≢ 401
        → Ends (response, t)
    rejected :
        (response : HttpResponse)
        → is_exempt peer r ≡ false
        → is_authorized S.bearer_token peer r.headers ≡ false
        → response.status ≡ 401
        → Ends (
          response,
          record_auth_rejection S.codec r.method r.path peer
              (is_some (header_value "authorization" r.headers))
              (auth_rejection_reason S.bearer_token peer)
              S.now
              t,
        )
    captured :
        (response : HttpResponse) (body : Value) (e : NewRawEvent) (a : CaptureAck) (u : Tables)
        → is_authorized S.bearer_token peer r.headers ≡ true
        → (r.path is "/v1/capture") ≡ true
        → (r.method is "POST") ≡ true
        → has_json_content_type r.headers ≡ true
        → S.parse_body r.body ≡ some body
        → capture_event_from_json body S.now ≡ ok e
        → capture_event_with_queue_limit S.codec S.engine e S.queue_depth_max S.now t ≡ ok (a, u)
        → response.status ≡ 202
        → Ends (response, u)

  -- A status that no capture and no rejection has.
  abbrev IsQuiet : HttpResponse → Type 0
  IsQuiet response = (response.status ≢ 202) × (response.status ≢ 401)

  -- What a capture that the request may make ends with.
  data Captures : HttpResponse × Tables → Type 0 where
    quietly : (response : HttpResponse) → IsQuiet response → Captures (response, t)
    stored :
        (body : Value) (e : NewRawEvent) (a : CaptureAck) (u : Tables)
        → S.parse_body r.body ≡ some body
        → capture_event_from_json body S.now ≡ ok e
        → capture_event_with_queue_limit S.codec S.engine e S.queue_depth_max S.now t ≡ ok (a, u)
        → Captures (capture_response (answer a), u)

  captured_event : NewRawEvent → Tables → Result Failure (CaptureAck × Tables)
  captured_event e = capture_event_with_queue_limit S.codec S.engine e S.queue_depth_max S.now
