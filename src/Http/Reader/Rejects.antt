-- ===== src/Http/Reader/Rejects.antt =====
-- How the reading of a request fails, and how much it takes from the socket.
use memoryd.Prelude.{
  ℕ, zero, suc, ◌+◌, ◌*◌, ◌≤◌, String, Bool, true, false, Option, none, List, [], ◌∷◌, ◌++◌, ltb,
  ◌==◌, ◌is◌, if◌then◌else◌, length, length-append, Result, ok, err, ◌>>=◌, ok_or, ◌≡◌, refl, ap,
  arith, inl, inr, Bool-cases,
}
use memoryd.Text.{split_once, begins, codes}
use memoryd.Text.Utf8.{from_utf8}
use memoryd.Http.Message.{HttpRequest}
use memoryd.Io.{IoError, is_interrupted}
use memoryd.Http.Reader.{
  is_timeout, Event, byte, failure, Stream, HttpParseError, bad_request, read_error, line_loop,
  read_http_line, request_line, header_line, declare, read_exact, read_body, header_loop, is_empty,
  or_zero, parse_usize, read_http_request, Headers, max_http_line_bytes, max_http_headers,
  max_http_body_bytes, next_word,
}
use memoryd.Http.Reader.Reads.{
  IsRejection, Reads, Reads-bind, Reads-mono, Parses, Parses-ok_or, Parses-bind, Reads-parse,
  Reads-if,
}

read_error-IsRejection :
    (message : String) (e : IoError) (stream : Stream)
    → IsRejection (failure e ∷ stream) (read_error message e)
read_error-IsRejection message e stream = elim (Bool-cases (is_timeout e)) [
  | inl stalled ↦ rw stalled (inr (inl (refl, omega arith)))
  | inr h ↦ rw h (inl refl)
]

IsRejection-cons :
    (x : Event) (stream : Stream) (e : HttpParseError)
    → IsRejection stream e
    → IsRejection (x ∷ stream) e
IsRejection-cons x stream e (inl h) = inl h
IsRejection-cons x stream e (inr (inl (h, k))) = inr (inl (h, ground arith))
IsRejection-cons x stream e (inr (inr h)) = inr (inr h)

-- One byte more in front of what a reader takes.
Reads-byte {ℓ} :
    {A : Type ℓ} (n b : ℕ) (P : A → Type 0) (stream : Stream)
    (r : Result HttpParseError (A × Stream))
    → Reads n P stream r
    → Reads (suc n) P (byte b ∷ stream) r
Reads-byte n b P stream (err e) h = IsRejection-cons (byte b) stream e h
Reads-byte n b P stream (ok (a, rest)) (p, s, t) = (p, s, omega arith)

abbrev Anything {ℓ} : {A : Type ℓ} → A → Type 0
Anything a = Unit

line_loop-Reads :
    (room : ℕ) (bytes : List ℕ) (stream : Stream)
    → Reads room Anything stream (line_loop room bytes stream)
unfolding line_loop
line_loop-Reads zero bytes stream = (tt, omega arith, omega arith)
line_loop-Reads (suc room) [] [] = inl refl
line_loop-Reads (suc room) (b ∷ bytes) [] = (tt, omega arith, omega arith)
line_loop-Reads (suc room) bytes (failure e ∷ stream) =
    read_error-IsRejection "could not read HTTP request" e stream
line_loop-Reads (suc room) bytes (byte b ∷ stream) = elim (Bool-cases (b == b'\n')) [
  | inl end ↦ rw end (tt, omega arith, omega arith)
  | inr h ↦ rw h (
      Reads-byte room b Anything stream (line_loop room (bytes ++ b ∷ []) stream)
        (line_loop-Reads room (bytes ++ b ∷ []) stream))
]

read_http_line-Reads :
    (stream : Stream) → Reads (suc max_http_line_bytes) Anything stream (read_http_line stream)
unfolding read_http_line
read_http_line-Reads stream =
    Reads-bind (suc max_http_line_bytes) 0 Anything Anything stream
      (line_loop (suc max_http_line_bytes) [] stream) _
      (line_loop-Reads (suc max_http_line_bytes) [] stream)
      (λ bytes rest done.
        Reads-if 0 Anything rest (ltb max_http_line_bytes (length bytes)) _ _ (inr (inr (inr refl)))
          (Reads-parse 0 Anything rest
            (ok_or (from_utf8 bytes) (bad_request "HTTP request must be UTF-8")) _
            (Parses-ok_or "HTTP request must be UTF-8" (from_utf8 bytes))
            (λ line. (tt, omega arith, omega arith))))

Reads-failure {ℓ} :
    {A : Type ℓ} (n : ℕ) (e : IoError) (P : A → Type 0) (stream : Stream)
    (r : Result HttpParseError (A × Stream))
    → is_interrupted e ≡ true
    → Reads n P stream r
    → Reads n P (failure e ∷ stream) r
Reads-failure n e P stream (err e') i h = IsRejection-cons (failure e) stream e' h
Reads-failure n e P stream (ok (a, rest)) i (p, s, t) = (p, ground arith, t)

Reads-bind-ok :
    (n b : ℕ) (stream : Stream) (r : Result HttpParseError (List ℕ × Stream))
    → Reads n (λ body. length body ≡ n) stream r
    → Reads
        (suc n)
        (λ body. length body ≡ suc n)
        (byte b ∷ stream)
        (r >>= λ (body, rest). ok (b ∷ body, rest))
Reads-bind-ok n b stream (err e) h = IsRejection-cons (byte b) stream e h
Reads-bind-ok n b stream (ok (body, rest)) (p, s, t) = (ap suc p, s, omega arith)

read_exact-Reads :
    (n : ℕ) (stream : Stream) → Reads n (λ body. length body ≡ n) stream (read_exact n stream)
unfolding read_exact
read_exact-Reads zero stream = (refl, omega arith, omega arith)
read_exact-Reads (suc n) [] = inl refl
read_exact-Reads (suc n) (byte b ∷ stream) =
    Reads-bind-ok n b stream (read_exact n stream) (read_exact-Reads n stream)
read_exact-Reads (suc n) (failure e ∷ stream) = elim (Bool-cases (is_interrupted e)) [
  | inl again ↦ rw again (
      Reads-failure (suc n) e (λ body. length body ≡ suc n) stream (read_exact (suc n) stream) again
        (read_exact-Reads (suc n) stream))
  | inr h ↦ rw h (read_error-IsRejection "could not read request body" e stream)
]

-- A body within its limit, and as many headers as there are rounds but one.
abbrev pub Within : ℕ → HttpRequest → Type 0
Within rounds r = (length r.body ≤ max_http_body_bytes) × (suc (length r.headers) ≤ rounds)

read_body-Reads :
    (declared : Option ℕ) (stream : Stream)
    → Reads max_http_body_bytes
        (λ body. length body ≤ max_http_body_bytes)
        stream
        (read_body declared stream)
unfolding read_body
read_body-Reads declared stream = elim (Bool-cases (ltb max_http_body_bytes (or_zero declared))) [
  | inl large ↦ rw large (inr (inr (inl refl)))
  | inr h ↦ rw h (
      Reads-mono (or_zero declared) max_http_body_bytes (λ body. length body ≡ or_zero declared)
        (λ body. length body ≤ max_http_body_bytes) stream (read_exact (or_zero declared) stream)
        (ground arith) (λ body e. ground arith) (read_exact-Reads (or_zero declared) stream))
]

finish-Reads :
    (rounds : ℕ) (method path : String) (headers : Headers) (declared : Option ℕ) (stream : Stream)
    → Reads max_http_body_bytes (Within (length headers + suc rounds)) stream (
        read_body declared stream >>= λ (body, rest).
        ok (record { method = method; path = path; headers = headers; body = body }, rest))
finish-Reads rounds method path headers declared stream =
    Reads-bind max_http_body_bytes 0 (λ body. length body ≤ max_http_body_bytes)
      (Within (length headers + suc rounds)) stream (read_body declared stream) _
      (read_body-Reads declared stream)
      (λ body rest within. ((within, omega arith), omega arith, omega arith))

header_line-Parses : (line : String) → Parses (header_line line)
unfolding header_line
header_line-Parses line =
    Parses-bind (ok_or (split_once b':' line) (bad_request "malformed HTTP header")) _
      (Parses-ok_or "malformed HTTP header" (split_once b':' line)) (λ x. tt)

Parses-if {ℓ} :
    {A : Type ℓ} (b : Bool) (x y : Result HttpParseError A)
    → Parses x
    → Parses y
    → Parses (if b then x else y)
Parses-if true x y hx hy = hx
Parses-if false x y hx hy = hy

declare-Parses : (header : String × String) (declared : Option ℕ) → Parses (declare header declared)
unfolding declare
declare-Parses (name, value) declared =
    Parses-if (name is "content-length") _ _
      (Parses-bind _ _ (Parses-ok_or "invalid content-length header" (parse_usize value)) (λ n. tt))
      tt

header_loop-Reads :
    (rounds : ℕ) (start : String × String) (headers : Headers) (declared : Option ℕ)
    (stream : Stream)
    → Reads
        (rounds * suc max_http_line_bytes + max_http_body_bytes)
        (Within (length headers + rounds))
        stream
        (header_loop rounds start headers declared stream)
unfolding header_loop
header_loop-Reads zero start headers declared stream = inr (inr (inr refl))
header_loop-Reads (suc rounds) (method, path) headers declared stream =
    Reads-mono (suc max_http_line_bytes + (rounds * suc max_http_line_bytes + max_http_body_bytes))
      (suc rounds * suc max_http_line_bytes + max_http_body_bytes) _ _ stream _ (omega arith)
      (λ a p. p)
      (Reads-bind (suc max_http_line_bytes) (rounds * suc max_http_line_bytes + max_http_body_bytes)
        Anything (Within (length headers + suc rounds)) stream (read_http_line stream) _
        (read_http_line-Reads stream)
        (λ line rest done. elim (Bool-cases (is_empty line)) [
          | inl blank ↦ rw blank (
              Reads-mono max_http_body_bytes
                (rounds * suc max_http_line_bytes + max_http_body_bytes) _ _ rest _ (omega arith)
                (λ a p. p) (finish-Reads rounds method path headers declared rest))
          | inr h ↦ rw h (
              Reads-parse _ _ rest (header_line line) _ (header_line-Parses line) (λ header.
                Reads-parse _ _ rest (declare header declared) _ (declare-Parses header declared)
                  (λ more.
                    Reads-mono _ _ _ (Within (length headers + suc rounds)) rest _ (omega arith)
                      (λ r (within, few).
                        (within, omega (arith, few, length-append headers (header ∷ []))))
                      (header_loop-Reads rounds (method, path) (headers ++ header ∷ []) more
                        rest))))
        ]))

request_line-Parses : (line : String) → Parses (request_line line)
unfolding request_line
request_line-Parses line =
    Parses-bind _ _ (Parses-ok_or "missing HTTP request method" (next_word line)) (λ (method, line).
      Parses-bind _ _ (Parses-ok_or "missing HTTP request path" (next_word line)) (λ (path, line).
        Parses-bind _ _ (Parses-ok_or "missing HTTP request version" (next_word line))
          (λ (version, line). Parses-if (begins (codes "HTTP/") (codes version)) _ _ tt refl)))

-- Reading a request from a socket ends in the request or in an error. An error has the status 400,
-- 413 or 431, or it is 408 and the socket has stalled. A request has a body of at most 64 KiB and at
-- most 63 headers, and for it at most 65 lines of 8193 bytes and 64 KiB are read.
pub read_http_request-Reads :
    (stream : Stream) → Reads (65 * 8193 + 65536) (Within 64) stream (read_http_request stream)
unfolding read_http_request
read_http_request-Reads stream =
    Reads-bind (suc max_http_line_bytes) (64 * suc max_http_line_bytes + max_http_body_bytes)
      Anything (Within 64) stream (read_http_line stream) _ (read_http_line-Reads stream)
      (λ line rest done.
        Reads-parse _ _ rest (request_line line) _ (request_line-Parses line)
          (λ start. header_loop-Reads max_http_headers start [] none rest))
