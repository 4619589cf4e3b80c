-- ===== src/Http/Reader.antt =====
-- `read_http_request` and `read_http_line` of crates/memoryd/src/main.rs. A socket is the list of
-- what its reads give, one for each byte asked for; its end is the end of the stream.
pub mod Reads
pub mod Rejects
pub mod Lines
pub mod Roundtrip
use Prim.Native.Char.{Char, code}
use memoryd.Prelude.{
  ℕ, zero, suc, ◌+◌, ◌-◌, ◌*◌, ◌^◌, ◌≤◌, String, Bool, true, false, ◌&&◌, ◌||◌, Option, none, some,
  List, [], ◌∷◌, ◌++◌, ltb, leb, ◌==◌, ◌is◌, if◌then◌else◌, length, Result, ok, err, ◌>>=◌, ok_or,
}
use memoryd.Http.Body.{usize_max}
use memoryd.Text.{trim_start, codes, begins, is_digit, is_whitespace, to_lower, trim, split_once}
use memoryd.Text.Utf8.{from_u32, from_utf8}
use memoryd.Io.{IoError, would_block, timed_out, interrupted, other, is_interrupted}
use memoryd.Http.Message.{HttpRequest}

abbrev pub max_http_line_bytes : ℕ
max_http_line_bytes = 8 * 1024

abbrev pub max_http_headers : ℕ
max_http_headers = 64

abbrev pub max_http_body_bytes : ℕ
max_http_body_bytes = 64 * 1024

abbrev pub is_timeout : IoError → Bool
is_timeout would_block = true
is_timeout timed_out = true
is_timeout interrupted = false
is_timeout other = false

-- What one read gives.
pub data Event : Type 0 where
  byte : ℕ → Event
  failure : IoError → Event

abbrev pub Stream : Type 0
Stream = List Event

pub record HttpParseError : Type 0 where
  pub status : ℕ
  pub code : String
  pub message : String

abbrev pub bad_request : String → HttpParseError
bad_request message = record { status = 400; code = "bad_request"; message = message }

abbrev pub http_timeout_error : HttpParseError
http_timeout_error = record {
  status = 408;
  code = "request_timeout";
  message = "client did not send a complete request in time";
}

abbrev pub headers_too_large : String → HttpParseError
headers_too_large message = record { status = 431; code = "headers_too_large"; message = message }

abbrev pub body_too_large : HttpParseError
body_too_large = record {
  status = 413;
  code = "body_too_large";
  message = "request body exceeds limit";
}

-- The error of a read that fails.
abbrev pub read_error : String → IoError → HttpParseError
read_error message e = if is_timeout e then http_timeout_error else bad_request message

-- The end of the stream is an error only before the first byte.
abbrev at_end : List ℕ → Result HttpParseError (List ℕ × Stream)
at_end [] = err (bad_request "empty HTTP request")
at_end (b ∷ bytes) = ok (b ∷ bytes, [])

-- The loop of `read_http_line`, which may take `room` bytes more.
unfoldable pub line_loop : ℕ → List ℕ → Stream → Result HttpParseError (List ℕ × Stream)
line_loop zero bytes stream = ok (bytes, stream)
line_loop (suc room) bytes [] = at_end bytes
line_loop (suc room) bytes (byte b ∷ stream) =
    let later = line_loop room (bytes ++ b ∷ []) stream in
    if b == b'\n' then ok (bytes ++ b ∷ [], stream) else later
line_loop (suc room) bytes (failure e ∷ stream) = err (read_error "could not read HTTP request" e)

-- `trim_end_matches(['\r', '\n'])`
abbrev is_newline : ℕ → Bool
is_newline n = (n == b'\r') || (n == b'\n')

abbrev pub cons_unless_newline : Char → String → String
cons_unless_newline c String.[] = if is_newline (code c) then String.[] else String.◌∷◌ c String.[]
cons_unless_newline c (String.◌∷◌ d s) = String.◌∷◌ c (String.◌∷◌ d s)

unfoldable pub trim_newlines : String → String
trim_newlines String.[] = String.[]
trim_newlines (String.◌∷◌ c s) = cons_unless_newline c (trim_newlines s)

unfoldable pub read_http_line : Stream → Result HttpParseError (String × Stream)
read_http_line stream = line_loop (suc max_http_line_bytes) [] stream >>= λ (bytes, rest).
    (if ltb max_http_line_bytes (length bytes)
      then err (headers_too_large "HTTP line exceeds limit")
      else ok_or (from_utf8 bytes) (bad_request "HTTP request must be UTF-8") >>= λ line.
          ok (trim_newlines line, rest))

-- `split_whitespace`, one `next` at a time: the word and what stands behind it.
unfoldable pub span_word : String → String × String
span_word String.[] = (String.[], String.[])
span_word (String.◌∷◌ c s) =
    let later = span_word s in
    if is_whitespace (code c) then (String.[], String.◌∷◌ c s) else (String.◌∷◌ c later.0, later.1)

abbrev span_unless_empty : String → Option (String × String)
span_unless_empty String.[] = none
span_unless_empty (String.◌∷◌ c s) = some (span_word (String.◌∷◌ c s))

unfoldable pub next_word : String → Option (String × String)
next_word s = span_unless_empty (trim_start s)

abbrev pub checked_version {ℓ} : {A : Type ℓ} → String → A → Result HttpParseError A
checked_version version a =
    if begins (codes "HTTP/") (codes version)
    then ok a
    else err (bad_request "invalid HTTP request version")

-- The method and the path of a request line.
unfoldable pub request_line : String → Result HttpParseError (String × String)
request_line line = do
  (method, line) ← ok_or (next_word line) (bad_request "missing HTTP request method")
  (path, line) ← ok_or (next_word line) (bad_request "missing HTTP request path")
  (version, line) ← ok_or (next_word line) (bad_request "missing HTTP request version")
  checked_version version (method, path)

-- `to_ascii_lowercase`
abbrev lower_char : Char → Char
lower_char c = elim (from_u32 (to_lower (code c))) [ none ↦ c | some d ↦ d ]

unfoldable pub to_ascii_lowercase : String → String
to_ascii_lowercase String.[] = String.[]
to_ascii_lowercase (String.◌∷◌ c s) = String.◌∷◌ (lower_char c) (to_ascii_lowercase s)

-- `str::parse::<usize>`
unfoldable pub digits_loop : ℕ → String → Option ℕ
digits_loop n String.[] = some n
digits_loop n (String.◌∷◌ c s) =
    let n' = n * 10 + (code c - b'0') in
    let later = digits_loop n' s in if is_digit (code c) && leb n' usize_max then later else none

abbrev digits : String → Option ℕ
digits String.[] = none
digits (String.◌∷◌ c s) = digits_loop 0 (String.◌∷◌ c s)

unfoldable pub parse_usize : String → Option ℕ
parse_usize String.[] = none
parse_usize (String.◌∷◌ c s) = if code c == b'+' then digits s else digits (String.◌∷◌ c s)

-- A header's line, and the body's length as the headers so far declare it.
unfoldable pub header_line : String → Result HttpParseError (String × String)
header_line line =
    ok_or (split_once b':' line) (bad_request "malformed HTTP header") >>= λ (name, value).
    ok (to_ascii_lowercase (trim name), trim value)

unfoldable pub declare : String × String → Option ℕ → Result HttpParseError (Option ℕ)
declare (name, value) content_length =
    if name is "content-length"
    then (ok_or (parse_usize value) (bad_request "invalid content-length header") >>= λ n.
        ok (some n))
    else ok content_length

-- `Read::read_exact`
unfoldable pub read_exact : ℕ → Stream → Result HttpParseError (List ℕ × Stream)
read_exact zero stream = ok ([], stream)
read_exact (suc n) [] = err (bad_request "could not read request body")
read_exact (suc n) (byte b ∷ stream) = read_exact n stream >>= λ (body, rest). ok (b ∷ body, rest)
read_exact (suc n) (failure e ∷ stream) =
    let later = read_exact (suc n) stream in
    if is_interrupted e then later else err (read_error "could not read request body" e)

abbrev pub or_zero : Option ℕ → ℕ
or_zero none = 0
or_zero (some n) = n

unfoldable pub read_body : Option ℕ → Stream → Result HttpParseError (List ℕ × Stream)
read_body content_length stream =
    if ltb max_http_body_bytes (or_zero content_length)
    then err body_too_large
    else read_exact (or_zero content_length) stream

abbrev pub is_empty : String → Bool
is_empty String.[] = true
is_empty (String.◌∷◌ c s) = false

abbrev pub Headers : Type 0
Headers = List (String × String)

-- The loop over the headers, with `rounds` to go, and the request that an empty line ends.
unfoldable pub header_loop :
    ℕ → String × String → Headers → Option ℕ → Stream → Result HttpParseError (HttpRequest × Stream)
header_loop zero start headers content_length stream =
    err (headers_too_large "too many HTTP headers")
header_loop (suc rounds) (method, path) headers content_length stream =
    read_http_line stream >>= λ (line, rest). elim (is_empty line) [
      | true ↦ read_body content_length rest >>= λ (body, rest).
          ok (record { method = method; path = path; headers = headers; body = body }, rest)
      | false ↦ header_line line >>= λ header.
          (declare header content_length >>= λ content_length.
          header_loop rounds (method, path) (headers ++ header ∷ []) content_length rest)
    ]

unfoldable pub read_http_request : Stream → Result HttpParseError (HttpRequest × Stream)
read_http_request stream = do
  (line, rest) ← read_http_line stream
  start ← request_line line
  header_loop max_http_headers start [] none rest
