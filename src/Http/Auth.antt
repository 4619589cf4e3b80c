-- ===== src/Http/Auth.antt =====
-- `is_authorized`, `auth_rejection_reason` and the labels of the audit entry of a rejection.
pub mod Credentials
use memoryd.Prelude.{
  is_some, ℕ, zero, suc, ◌+◌, String, ◌<>◌, Bool, true, false, Option, none, some, List, [], ◌∷◌,
  ◌==◌, ◌is◌, if◌then◌else◌,
}
use memoryd.Prelude.Int.{ℤ}
use Prim.Native.Char.{code}
use memoryd.Text.{as_bytes, before_char}
use memoryd.Json.{Codec, Value, null, boolean, string, object, end, field}
use memoryd.Store.Tables.{Tables}
use memoryd.Store.Audit.{insert_audit_log}
use memoryd.Http.Peer.{IpAddr, is_loopback}
use memoryd.Http.Message.{header_value, constant_time_eq}

abbrev pub peer_is_loopback : Option IpAddr → Bool
peer_is_loopback none = false
peer_is_loopback (some ip) = is_loopback ip

abbrev pub matches_header : Option String → String → Bool
matches_header none token = false
matches_header (some actual) token =
    constant_time_eq (as_bytes actual) (as_bytes ("Bearer " <> token))

unfoldable pub is_authorized : Option String → Option IpAddr → List (String × String) → Bool
is_authorized (some token) peer headers =
    matches_header (header_value "authorization" headers) token
is_authorized none peer headers = peer_is_loopback peer

abbrev pub auth_rejection_reason : Option String → Option IpAddr → String
auth_rejection_reason (some token) peer = "missing_or_invalid_bearer"
auth_rejection_reason none (some ip) = "non_loopback_peer"
auth_rejection_reason none none = "unknown_peer"

-- The text itself if it is listed, `other` if not.
abbrev pub listed : List String → String → String
listed [] s = "other"
listed (k ∷ ks) s = if s is k then k else listed ks s

abbrev http_methods : List String
http_methods = "DELETE" ∷ "GET" ∷ "HEAD" ∷ "OPTIONS" ∷ "PATCH" ∷ "POST" ∷ "PUT" ∷ []

unfoldable pub audit_http_method : String → String
audit_http_method = listed http_methods

unfoldable pub audit_http_path : String → String
audit_http_path path = listed ("/v1/capture" ∷ "/v1/recall" ∷ []) (before_char b'?' path)

unfoldable pub audit_auth_reason : String → String
audit_auth_reason = listed ("missing_or_invalid_bearer" ∷ "non_loopback_peer" ∷ "unknown_peer" ∷ [])

abbrev maybe_loopback : Option IpAddr → Value
maybe_loopback none = null
maybe_loopback (some ip) = boolean (is_loopback ip)

-- `record_auth_rejection`
unfoldable pub record_auth_rejection :
    Codec → String → String → Option IpAddr → Bool → String → ℤ → Tables → Tables
unfolding audit_http_method audit_http_path audit_auth_reason
record_auth_rejection C method path peer header_present reason now t =
    insert_audit_log t "auth.reject" "http_request" none
      (some (
        C.print (
          object (
            field "authorization_header_present" (boolean header_present) (
              field "method" (string (audit_http_method method)) (
                field "path" (string (audit_http_path path)) (
                  field "peer_loopback" (maybe_loopback peer) (
                    field "peer_present" (boolean (is_some peer))
                      (field "reason" (string (audit_auth_reason reason)) end)))))))))
      now
