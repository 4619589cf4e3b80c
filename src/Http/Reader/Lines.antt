-- ===== src/Http/Reader/Lines.antt =====
-- A line that is sent is the line that is read.
use Prim.Native.Char.{Char, char, code}
use mathlib.Core.List.{append_assoc}
use memoryd.Prelude.{
  ℕ, zero, suc, ◌+◌, ◌≤◌, String, Bool, true, false, not, List, [], ◌∷◌, ◌++◌, ltb, ◌==◌, length,
  length-append, All, All-append, ok, ◌≡◌, refl, sym, ap, ◌∙◌, arith, inl, inr, Bool-cases,
  &&_split,
}
use memoryd.Text.{encode_utf8, as_bytes, joined, all_chars}
use memoryd.Text.Utf8.Roundtrip.{from_utf8-as_bytes}
use memoryd.Http.Reader.{
  byte, Stream, line_loop, read_http_line, trim_newlines, cons_unless_newline, max_http_line_bytes,
}

-- The bytes on a socket, and what comes behind them.
abbrev pub sent : List ℕ → Stream → Stream
sent [] rest = rest
sent (b ∷ bs) rest = byte b ∷ sent bs rest

abbrev pub crlf : String
crlf = String.◌∷◌ (char 13 tt) (String.◌∷◌ (char 10 tt) String.[])

abbrev pub line_bytes : String → List ℕ
line_bytes line = as_bytes (joined line crlf)

abbrev pub is_inline : ℕ → Bool
is_inline n = not (n == b'\n')

as_bytes-joined : (s t : String) → as_bytes (joined s t) ≡ as_bytes s ++ as_bytes t
unfolding as_bytes
as_bytes-joined String.[] t = refl
as_bytes-joined (String.◌∷◌ c s) t =
    ap (λ l. encode_utf8 c ++ l) (as_bytes-joined s t)
    ∙ sym (append_assoc (encode_utf8 c) (as_bytes s) (as_bytes t))

IsInline : List ℕ → Type 0
IsInline = All (λ b. is_inline b ≡ true)

encode_utf8-IsInline : (c : Char) → is_inline (code c) ≡ true → IsInline (encode_utf8 c)
unfolding encode_utf8 IsInline
encode_utf8-IsInline c h = elim (Bool-cases (ltb (code c) 128)) [
  | inl one ↦ rw one (h, tt)
  | inr a ↦ elim (Bool-cases (ltb (code c) 2048)) [
    | inl two ↦ rw (a, two) (ground arith, (ground arith, tt))
    | inr b ↦ elim (Bool-cases (ltb (code c) 65536)) [
      | inl three ↦ rw (a, b, three) (ground arith, (ground arith, (ground arith, tt)))
      | inr d ↦ rw (a, b, d) (ground arith, (ground arith, (ground arith, (ground arith, tt))))
    ]
  ]
]

as_bytes-IsInline : (s : String) → all_chars is_inline s ≡ true → IsInline (as_bytes s)
unfolding as_bytes IsInline
as_bytes-IsInline String.[] h = tt
as_bytes-IsInline (String.◌∷◌ c s) h =
    let (first, others) = &&_split (is_inline (code c)) (all_chars is_inline s) h in
    All-append (λ b. is_inline b ≡ true) (encode_utf8 c) (as_bytes s) (encode_utf8-IsInline c first)
      (as_bytes-IsInline s others)

not_newline : (b : ℕ) → is_inline b ≡ true → (b == b'\n') ≡ false
not_newline b h = ground arith

line_loop-sent :
    (room : ℕ) (bytes bs : List ℕ) (rest : Stream)
    → IsInline bs
    → suc (length bs) ≤ room
    → line_loop room bytes (sent bs (byte b'\n' ∷ rest)) ≡ ok (bytes ++ (bs ++ b'\n' ∷ []), rest)
unfolding line_loop IsInline
line_loop-sent zero bytes bs rest h le = absurd (omega arith)
line_loop-sent (suc room) bytes [] rest h le = refl
line_loop-sent (suc room) bytes (b ∷ bs) rest (h, hs) le = rw (not_newline b h) (
    line_loop-sent room (bytes ++ b ∷ []) bs rest hs (omega arith)
    ∙ ap (λ l. ok (l, rest)) (append_assoc bytes (b ∷ []) (bs ++ b'\n' ∷ [])))

sent-append : (bs cs : List ℕ) (rest : Stream) → sent (bs ++ cs) rest ≡ sent bs (sent cs rest)
sent-append [] cs rest = refl
sent-append (b ∷ bs) cs rest = ap (λ s. byte b ∷ s) (sent-append bs cs rest)

trim_newlines-joined : (s : String) → trim_newlines (joined s crlf) ≡ trim_newlines s
unfolding trim_newlines
trim_newlines-joined String.[] = refl
trim_newlines-joined (String.◌∷◌ c s) = ap (cons_unless_newline c) (trim_newlines-joined s)

-- A text that fits on a line.
pub record IsLine (s : String) : Type 0 where
  pub inline : all_chars is_inline s ≡ true
  pub trimmed : trim_newlines s ≡ s
  pub short : length (as_bytes s) + 2 ≤ max_http_line_bytes

line_bytes-eq : (line : String) → line_bytes line ≡ (as_bytes line ++ b'\r' ∷ []) ++ b'\n' ∷ []
unfolding as_bytes encode_utf8
line_bytes-eq line =
    as_bytes-joined line crlf ∙ sym (append_assoc (as_bytes line) (b'\r' ∷ []) (b'\n' ∷ []))

length-line_bytes : (line : String) → length (line_bytes line) ≡ length (as_bytes line) + 2
length-line_bytes line = omega (
  arith,
  ap length (line_bytes-eq line),
  length-append (as_bytes line ++ b'\r' ∷ []) (b'\n' ∷ []),
  length-append (as_bytes line) (b'\r' ∷ []),
)

fits : (line : String) → IsLine line → ltb max_http_line_bytes (length (line_bytes line)) ≡ false
fits line h = ground (arith, length-line_bytes line, h.short)

line_loop-line :
    (line : String) (rest : Stream)
    → IsLine line
    → line_loop (suc max_http_line_bytes) [] (sent (line_bytes line) rest)
      ≡ ok (line_bytes line, rest)
unfolding IsInline
line_loop-line line rest h =
    let bytes = as_bytes line ++ b'\r' ∷ [] in
    let inline =
      All-append (λ b. is_inline b ≡ true) (as_bytes line) (b'\r' ∷ [])
        (as_bytes-IsInline line h.inline) (refl, tt) in
    ap (λ l. line_loop (suc max_http_line_bytes) [] (sent l rest)) (line_bytes-eq line)
    ∙ ap (line_loop (suc max_http_line_bytes) []) (sent-append bytes (b'\n' ∷ []) rest)
    ∙ line_loop-sent (suc max_http_line_bytes) [] bytes rest inline
        (omega (arith, h.short, length-append (as_bytes line) (b'\r' ∷ [])))
    ∙ ap (λ l. ok (l, rest)) (sym (line_bytes-eq line))

pub read_http_line-sent :
    (line : String) (rest : Stream)
    → IsLine line
    → read_http_line (sent (line_bytes line) rest) ≡ ok (line, rest)
unfolding read_http_line
read_http_line-sent line rest h =
    rw
      (
        line_loop-line line rest h,
        fits line h,
        from_utf8-as_bytes (joined line crlf),
        trim_newlines-joined line,
        h.trimmed,
      )
      refl
