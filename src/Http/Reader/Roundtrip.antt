-- ===== src/Http/Reader/Roundtrip.antt =====
-- A request that is sent is the request that is read.
use mathlib.Core.List.{append_assoc, append-nil}
use Prim.Native.Char.{code}
use memoryd.Prelude.{
  ℕ, zero, suc, ◌≤◌, String, Bool, true, false, not, Option, none, some, List, [], ◌∷◌, ◌++◌, ltb,
  ◌==◌, length, All, Result, ok, ◌>>=◌, ◌≡◌, refl, ap, ◌∙◌, arith, &&_split, ok-injective,
  >>=-eq-ok,
}
use memoryd.Text.{as_bytes, all_chars, is_whitespace, split_once, trim, trim_start, joined, begins}
use memoryd.Http.Message.{HttpRequest}
use memoryd.Http.Reader.{
  Stream, Headers, HttpParseError, or_zero, is_empty, trim_newlines, read_http_line, span_word,
  next_word, request_line, header_line, to_ascii_lowercase, declare, read_exact, read_body,
  header_loop, read_http_request, max_http_body_bytes, max_http_headers,
}
use memoryd.Http.Reader.Lines.{IsLine, sent, line_bytes, read_http_line-sent}

-- A word: a text without white space that is not empty.
abbrev is_ink : ℕ → Bool
is_ink n = not (is_whitespace n)

abbrev IsWord : String → Type 0
IsWord s = (is_empty s ≡ false) × (all_chars is_ink s ≡ true)

is_ink-not_space : (n : ℕ) → is_ink n ≡ true → is_whitespace n ≡ false
is_ink-not_space n h = ground arith

span_word-joined :
    (w t : String)
    → all_chars is_ink w ≡ true
    → span_word (joined w (joined " " t)) ≡ (w, joined " " t)
unfolding span_word is_whitespace
span_word-joined String.[] t h = refl
span_word-joined (String.◌∷◌ c w) t h =
    let (first, others) = &&_split (is_ink (code c)) (all_chars is_ink w) h in
    rw (is_ink-not_space (code c) first, span_word-joined w t others) refl

next_word-joined :
    (w t : String) → IsWord w → next_word (joined w (joined " " t)) ≡ some (w, joined " " t)
unfolding next_word trim_start
next_word-joined String.[] t (h, ink) = absurd (ground arith)
next_word-joined (String.◌∷◌ c w) t (h, ink) =
    let (first, others) = &&_split (is_ink (code c)) (all_chars is_ink w) ink in
    rw (is_ink-not_space (code c) first) (ap some (span_word-joined (String.◌∷◌ c w) t ink))

next_word-space : (s : String) → next_word (joined " " s) ≡ next_word s
unfolding next_word trim_start is_whitespace
next_word-space s = refl

abbrev pub start_line : String → String → String
start_line method path = joined method (joined " " (joined path " HTTP/1.1"))

next_word-version : next_word " HTTP/1.1" ≡ some ("HTTP/1.1", "")
unfolding next_word trim_start is_whitespace span_word
next_word-version = refl

request_line-joined :
    (method path : String)
    → IsWord method
    → IsWord path
    → request_line (start_line method path) ≡ ok (method, path)
unfolding request_line begins
request_line-joined method path m p = rw (next_word-joined method (joined path " HTTP/1.1") m) (
    rw (next_word-space (joined path " HTTP/1.1"), next_word-joined path "HTTP/1.1" p)
      (rw next_word-version refl))

-- A header as it is kept, and the line that it is sent as.
abbrev pub header_text : String × String → String
header_text (name, value) = joined name (joined ": " value)

pub record IsHeader (h : String × String) : Type 0 where
  pub colonless : all_chars (λ n. not (n == b':')) (h.0) ≡ true
  pub lower : to_ascii_lowercase (trim h.0) ≡ h.0
  pub trimmed : trim h.1 ≡ h.1
  pub line : IsLine (header_text h)

not_colon : (n : ℕ) → not (n == b':') ≡ true → (n == b':') ≡ false
not_colon n h = ground arith

split_once-joined :
    (name value : String)
    → all_chars (λ n. not (n == b':')) name ≡ true
    → split_once b':' (joined name (joined ": " value)) ≡ some (name, joined " " value)
unfolding split_once
split_once-joined String.[] value h = refl
split_once-joined (String.◌∷◌ c name) value h =
    let (first, others) =
      &&_split (not (code c == b':')) (all_chars (λ n. not (n == b':')) name) h in
    rw (split_once-joined name value others, not_colon (code c) first) refl

trim-space : (s : String) → trim (joined " " s) ≡ trim s
unfolding trim trim_start is_whitespace
trim-space s = refl

header_line-joined : (h : String × String) → IsHeader h → header_line (header_text h) ≡ ok h
unfolding header_line
header_line-joined (name, value) h =
    rw (split_once-joined name value h.colonless) (rw (h.lower, trim-space value, h.trimmed) refl)

read_exact-sent :
    (bs : List ℕ) (rest : Stream) → read_exact (length bs) (sent bs rest) ≡ ok (bs, rest)
unfolding read_exact
read_exact-sent [] rest = refl
read_exact-sent (b ∷ bs) rest = rw (read_exact-sent bs rest) refl

-- The length of the body as a list of headers declares it.
abbrev pub declared : Headers → Option ℕ → Result HttpParseError (Option ℕ)
declared [] n = ok n
declared (h ∷ headers) n = declare h n >>= declared headers

abbrev pub sent_headers : Headers → Stream → Stream
sent_headers [] rest = sent (line_bytes "") rest
sent_headers (h ∷ headers) rest = sent (line_bytes (header_text h)) (sent_headers headers rest)

abbrev pub sent_request : HttpRequest → Stream → Stream
sent_request r rest =
    sent (line_bytes (start_line r.method r.path)) (sent_headers r.headers (sent r.body rest))

pub record IsRequest (r : HttpRequest) : Type 0 where
  pub method : IsWord r.method
  pub path : IsWord r.path
  pub line : IsLine (start_line r.method r.path)
  pub headers : All IsHeader r.headers
  pub few : suc (length r.headers) ≤ max_http_headers
  pub content_length : Option ℕ
  pub declares : declared r.headers none ≡ ok content_length
  pub exact : or_zero content_length ≡ length r.body
  pub small : length r.body ≤ max_http_body_bytes

small :
    (body : List ℕ)
    → length body ≤ max_http_body_bytes
    → ltb max_http_body_bytes (length body) ≡ false
small body h = ground arith

read_body-sent :
    (n : Option ℕ) (body : List ℕ) (rest : Stream)
    → or_zero n ≡ length body
    → length body ≤ max_http_body_bytes
    → read_body n (sent body rest) ≡ ok (body, rest)
unfolding read_body
read_body-sent n body rest e le = rw (e, small body le) (read_exact-sent body rest)

empty-IsLine : IsLine ""
unfolding trim_newlines as_bytes
empty-IsLine = record { inline = refl; trimmed = refl; short = omega arith }

header_text-not_empty : (name value : String) → is_empty (joined name (joined ": " value)) ≡ false
header_text-not_empty String.[] value = refl
header_text-not_empty (String.◌∷◌ c name) value = refl

header_loop-more :
    (rounds : ℕ) (method path : String) (before : Headers) (n : Option ℕ) (stream : Stream)
    (line : String) (rest : Stream) (h : String × String) (m : Option ℕ)
    → read_http_line stream ≡ ok (line, rest)
    → is_empty line ≡ false
    → header_line line ≡ ok h
    → declare h n ≡ ok m
    → header_loop (suc rounds) (method, path) before n stream
      ≡ header_loop rounds (method, path) (before ++ h ∷ []) m rest
unfolding header_loop
header_loop-more rounds method path before n stream line rest h m hl he hh hd = cc (hl, he, hh, hd)

header_loop-sent :
    (rounds : ℕ) (method path : String) (before after : Headers) (n m : Option ℕ) (body : List ℕ)
    (rest : Stream)
    → All IsHeader after
    → suc (length after) ≤ rounds
    → declared after n ≡ ok m
    → or_zero m ≡ length body
    → length body ≤ max_http_body_bytes
    → header_loop rounds (method, path) before n (sent_headers after (sent body rest))
      ≡ ok (record { method = method; path = path; headers = before ++ after; body = body }, rest)
unfolding header_loop
header_loop-sent zero method path before after n m body rest hs few d e le = absurd (omega arith)
header_loop-sent (suc rounds) method path before [] n m body rest hs few d e le =
    rw
      (
        read_http_line-sent "" (sent body rest) empty-IsLine,
        read_body-sent n body rest (ap or_zero (ok-injective d) ∙ e) le,
        append-nil before,
      )
      refl
header_loop-sent (suc rounds) method path before (h ∷ after) n m body rest (is_h, hs) few d e le =
    let (x, dx, ds) = >>=-eq-ok (declare h n) (declared after) d in
    header_loop-more rounds method path before n (sent_headers (h ∷ after) (sent body rest))
      (header_text h) (sent_headers after (sent body rest)) h x
      (read_http_line-sent (header_text h) (sent_headers after (sent body rest)) is_h.line)
      (header_text-not_empty h.0 h.1) (header_line-joined h is_h) dx
    ∙ header_loop-sent rounds method path (before ++ h ∷ []) after x m body rest hs (omega arith) ds
        e le
    ∙ ap (λ l. ok (record { method = method; path = path; headers = l; body = body }, rest))
        (append_assoc before (h ∷ []) after)

-- A request that is sent is read back, and nothing behind it is touched: its method and path are
-- words, its headers are trimmed, their names in lower case, at most 63 of them, each line fits
-- into 8 KiB, the headers declare the length of the body, and the body fits into 64 KiB.
pub read_http_request-sent :
    (r : HttpRequest) (rest : Stream)
    → IsRequest r
    → read_http_request (sent_request r rest) ≡ ok (r, rest)
unfolding read_http_request
read_http_request-sent r rest h =
    rw
      (
        read_http_line-sent (start_line r.method r.path) (sent_headers r.headers (sent r.body rest))
            h.line,
        request_line-joined r.method r.path h.method h.path,
      )
      (header_loop-sent max_http_headers r.method r.path [] r.headers none h.content_length r.body
        rest h.headers h.few h.declares h.exact h.small)
