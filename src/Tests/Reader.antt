-- ===== src/Tests/Reader.antt =====
-- Runs of the reader of requests.

use memoryd.Prelude.{◌+◌, ◌*◌, some, [], ◌∷◌, ◌≡◌, refl, arith, ok, err}
use memoryd.Text.{
  as_bytes, encode_utf8, trim, trim_start, trim_end, is_whitespace, to_lower, is_digit, is_upper,
}
use memoryd.Text.Utf8.{from_u32}
use memoryd.Http.Message.{HttpRequest, error_response}
use memoryd.Http.Throttle.{is_throttled, lookup}
use memoryd.Http.Connection.{serve_connection, write_http_response}
use memoryd.Http.Connection.Unread.{serve_connection-unread}
use memoryd.Tests.Data.{no_rows_at_all, toy_codec}
use memoryd.Tests.Http.{server, guest}
use memoryd.Io.{would_block}
use memoryd.Http.Reader.{
  byte, failure, Stream, http_timeout_error, line_loop, read_http_line, read_http_request, declare,
  parse_usize, digits_loop, to_ascii_lowercase, trim_newlines,
}
use memoryd.Http.Reader.Reads.{Reads}
use memoryd.Http.Reader.Rejects.{Within, read_http_request-Reads}
use memoryd.Http.Reader.Roundtrip.{IsRequest, sent_request, read_http_request-sent}

abbrev request : HttpRequest
request = record {
  method = "POST";
  path = "/v1/capture";
  headers = ("host", "x") ∷ ("content-length", "2") ∷ [];
  body = b'{' ∷ b'}' ∷ [];
}

request-IsRequest : IsRequest request
unfolding as_bytes encode_utf8 trim trim_start trim_end is_whitespace to_ascii_lowercase to_lower
    trim_newlines declare parse_usize digits_loop is_digit from_u32 is_upper
request-IsRequest = record {
  method = (refl, refl);
  path = (refl, refl);
  line = record { inline = refl; trimmed = refl; short = omega arith };
  headers = (
    record {
      colonless = refl;
      lower = refl;
      trimmed = refl;
      line = record { inline = refl; trimmed = refl; short = omega arith };
    },
    (
      record {
        colonless = refl;
        lower = refl;
        trimmed = refl;
        line = record { inline = refl; trimmed = refl; short = omega arith };
      },
      tt,
    ),
  );
  few = omega arith;
  content_length = some 2;
  declares = refl;
  exact = refl;
  small = omega arith;
}

read_http_request-sent_example : read_http_request (sent_request request []) ≡ ok (request, [])
read_http_request-sent_example = read_http_request-sent request [] request-IsRequest

-- A client that stalls after its first byte.
abbrev stalled : Stream
stalled = byte b'G' ∷ failure would_block ∷ []

times_out : read_http_request stalled ≡ err http_timeout_error
unfolding read_http_request read_http_line line_loop
times_out = refl

read_http_request-Reads_example :
    Reads (65 * 8193 + 65536) (Within 64) stalled (read_http_request stalled)
read_http_request-Reads_example = read_http_request-Reads stalled

serve_connection-unread_example : serve_connection server (some guest) stalled no_rows_at_all [] ≡ (
  write_http_response toy_codec
      (error_response 408 "request_timeout" "client did not send a complete request in time"),
  (no_rows_at_all, []),
)
unfolding is_throttled lookup
serve_connection-unread_example =
    serve_connection-unread server (some guest) stalled no_rows_at_all [] http_timeout_error
      times_out refl
