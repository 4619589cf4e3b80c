-- ===== src/Http/Auth/Credentials.antt =====
-- The credentials that `is_authorized` accepts.
use memoryd.Prelude.{String, ◌<>◌, true, Option, none, some, List, ◌≡◌, refl, ◌↔◌, arith}
use memoryd.Text.{as_bytes}
use memoryd.Http.Peer.{IpAddr, is_loopback}
use memoryd.Http.Message.{header_value}
use memoryd.Http.Message.Constant.{constant_time_eq_iff}
use memoryd.Http.Auth.{is_authorized, matches_header, peer_is_loopback}

-- What the configuration asks of a request: the header with the token, or, without a token, a
-- peer on this machine.
abbrev pub HasCredentials : Option String → Option IpAddr → List (String × String) → Type 0
HasCredentials (some token) peer headers =
    (actual : String) × (header_value "authorization" headers ≡ some actual)
    × (as_bytes actual ≡ as_bytes ("Bearer " <> token))
HasCredentials none peer headers = (ip : IpAddr) × (peer ≡ some ip) × (is_loopback ip ≡ true)

matches_header_lem :
    (h : Option String) (token : String)
    → (matches_header h token ≡ true)
      ↔ ((actual : String) × (h ≡ some actual) × (as_bytes actual ≡ as_bytes ("Bearer " <> token)))
matches_header_lem none token = (λ h. absurd (ground arith), λ (a, e, _). absurd (ground arith))
matches_header_lem (some actual) token = (
  λ h. (actual, refl, (constant_time_eq_iff _ _).0 h),
  λ (a, e, same). (constant_time_eq_iff _ _).1 (ground arith),
)

peer_is_loopback_lem :
    (peer : Option IpAddr)
    → (peer_is_loopback peer ≡ true) ↔ ((ip : IpAddr) × (peer ≡ some ip) × (is_loopback ip ≡ true))
peer_is_loopback_lem none = (λ h. absurd (ground arith), λ (a, e, _). absurd (ground arith))
peer_is_loopback_lem (some ip) = (λ h. (ip, refl, h), λ (a, e, l). ground arith)

-- A request is authorized exactly if its first authorization header is the configured bearer
-- token's, or, where no token is configured, if its peer is known and is a loopback address.
pub is_authorized_iff :
    (token : Option String) (peer : Option IpAddr) (headers : List (String × String))
    → (is_authorized token peer headers ≡ true) ↔ HasCredentials token peer headers
unfolding is_authorized
is_authorized_iff (some token) peer headers =
    matches_header_lem (header_value "authorization" headers) token
is_authorized_iff none peer headers = peer_is_loopback_lem peer
