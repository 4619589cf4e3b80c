-- ===== src/Http/Connection/Unread.antt =====
-- What a request that cannot be read does to the daemon.
use memoryd.Prelude.{
  ℕ, Option, none, some, ◌≡◌, refl, err, ◌⊎◌, inl, inr, ap, arith, false, subst, ◌+◌, ◌*◌,
}
use memoryd.Store.Tables.{Tables}
use memoryd.Http.Peer.{IpAddr}
use memoryd.Http.Throttle.{Entries}
use memoryd.Http.Message.{error_response}
use memoryd.Http.Serve.{Server, handle_http_connection, locked_out, settle}
use memoryd.Http.Reader.{Stream, HttpParseError, read_http_request}
use memoryd.Http.Reader.Reads.{Reads, IsRejection}
use memoryd.Http.Reader.Rejects.{Within, read_http_request-Reads}
use memoryd.Http.Connection.{serve_connection, write_http_response}

settle-other :
    (S : Server) (peer : Option IpAddr) (status : ℕ) (m : Entries)
    → (status ≡ 400) ⊎ (status ≡ 408) ⊎ (status ≡ 413) ⊎ (status ≡ 431)
    → settle S peer status m ≡ m
settle-other S none status m h = refl
settle-other S (some ip) status m h = ground (arith, h)

rejected :
    (stream : Stream) (e : HttpParseError) → read_http_request stream ≡ err e → IsRejection stream e
rejected stream e h =
    subst (Reads (65 * 8193 + 65536) (Within 64) stream) h (read_http_request-Reads stream)

refused-status :
    (stream : Stream) (e : HttpParseError)
    → IsRejection stream e
    → (e.status ≡ 400) ⊎ (e.status ≡ 408) ⊎ (e.status ≡ 413) ⊎ (e.status ≡ 431)
refused-status stream e (inl h) = inl h
refused-status stream e (inr (inl (h, k))) = inr (inl h)
refused-status stream e (inr (inr h)) = inr (inr h)

-- A request that cannot be read, from a peer that is not locked out, is answered with the error, and
-- changes neither the tables nor the throttle.
pub serve_connection-unread :
    (S : Server) (peer : Option IpAddr) (stream : Stream) (t : Tables) (m : Entries)
    (e : HttpParseError)
    → read_http_request stream ≡ err e
    → locked_out S peer m ≡ false
    → serve_connection S peer stream t m
      ≡ (write_http_response S.codec (error_response e.status e.code e.message), (t, m))
unfolding serve_connection handle_http_connection
serve_connection-unread S peer stream t m e h unlocked =
    let same = settle-other S peer e.status m (refused-status stream e (rejected stream e h)) in
    rw (unlocked, h)
      (ap (λ n. (write_http_response S.codec (error_response e.status e.code e.message), (t, n)))
        same)
