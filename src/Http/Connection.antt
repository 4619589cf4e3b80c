-- ===== src/Http/Connection.antt =====
-- One connection from the bytes of its socket to those of the answer: `handle_http_connection` with
-- `read_http_request` and `write_http_response` of crates/memoryd/src/main.rs. No write fails.
pub mod Unread
use memoryd.Prelude.{ℕ, String, true, Option, List, ◌++◌, decimal, Result, ok, err, length}
use memoryd.Text.{as_bytes, joined}
use memoryd.Json.{Codec}
use memoryd.Store.Tables.{Tables}
use memoryd.Http.Peer.{IpAddr}
use memoryd.Http.Throttle.{Entries}
use memoryd.Http.Message.{HttpRequest, HttpResponse, error_response}
use memoryd.Http.Serve.{Server, handle_http_connection}
use memoryd.Http.Reader.{Stream, HttpParseError, read_http_request}

abbrev head_lines : HttpResponse → ℕ → String
head_lines r n = joined "HTTP/1.1 " (
    joined (decimal r.status) (
      joined " " (
        joined r.reason (
          joined "\r\nContent-Type: application/json\r\nContent-Length: "
            (joined (decimal n) "\r\nConnection: close\r\n\r\n")))))

-- The bytes that are written for a response.
unfoldable pub write_http_response : Codec → HttpResponse → List ℕ
write_http_response C r =
    let body = as_bytes (C.print r.body) in as_bytes (head_lines r (length body)) ++ body

-- The request that was read, or the response to an error.
abbrev pub parsed : Result HttpParseError (HttpRequest × Stream) → Result HttpResponse HttpRequest
parsed (ok (r, rest)) = ok r
parsed (err e) = err (error_response e.status e.code e.message)

unfoldable pub serve_connection :
    Server → Option IpAddr → Stream → Tables → Entries → List ℕ × (Tables × Entries)
unfolding write_http_response
serve_connection S peer stream t m =
    let (response, u) =
      handle_http_connection S peer (parsed (read_http_request stream)) true t m in
    (write_http_response S.codec response, u)
