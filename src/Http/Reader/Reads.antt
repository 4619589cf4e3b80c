-- ===== src/Http/Reader/Reads.antt =====
-- What a reader of the socket may end in, and the laws of its steps.
use memoryd.Prelude.{
  ℕ, ◌+◌, ◌≤◌, String, Bool, true, false, Option, none, some, if◌then◌else◌, count, Result, ok, err,
  ◌>>=◌, ok_or, ◌≡◌, refl, arith, ◌⊎◌, inl, inr,
}
use memoryd.Http.Reader.{is_timeout, Event, byte, failure, Stream, HttpParseError, bad_request}

abbrev pub stalls : Event → Bool
stalls (byte b) = false
stalls (failure e) = is_timeout e

abbrev pub IsRejection : Stream → HttpParseError → Type 0
IsRejection stream e =
    (e.status ≡ 400)
    ⊎ ((e.status ≡ 408) × (1 ≤ count stalls stream))
    ⊎ (e.status ≡ 413)
    ⊎ (e.status ≡ 431)

abbrev pub counts_byte : Event → Bool
counts_byte (byte b) = true
counts_byte (failure e) = false

-- What a reader may end in: an error that says why, or a value that satisfies `P`, with no more
-- stalls ahead than before and at most `n` bytes taken.
abbrev pub Reads {ℓ} :
    {A : Type ℓ} → ℕ → (A → Type 0) → Stream → Result HttpParseError (A × Stream) → Type 0
Reads n P stream (err e) = IsRejection stream e
Reads n P stream (ok (a, rest)) =
    P a
    × (count stalls rest ≤ count stalls stream)
    × (count counts_byte stream ≤ n + count counts_byte rest)

pub Reads-weaken {ℓ} :
    {A : Type ℓ} (n m : ℕ) (P : A → Type 0) (stream rest : Stream)
    (r : Result HttpParseError (A × Stream))
    → count stalls rest ≤ count stalls stream
    → count counts_byte stream ≤ n + count counts_byte rest
    → Reads m P rest r
    → Reads (n + m) P stream r
Reads-weaken n m P stream rest (err e) stalled taken (inl h) = inl h
Reads-weaken n m P stream rest (err e) stalled taken (inr (inl (h, k))) = inr (inl (h, omega arith))
Reads-weaken n m P stream rest (err e) stalled taken (inr (inr h)) = inr (inr h)
Reads-weaken n m P stream rest (ok (a, later)) stalled taken (p, s, t) =
    (p, omega arith, omega arith)

pub Reads-bind {ℓ κ} :
    {A : Type ℓ} {B : Type κ} (n m : ℕ) (P : A → Type 0) (Q : B → Type 0) (stream : Stream)
    (r : Result HttpParseError (A × Stream)) (f : A × Stream → Result HttpParseError (B × Stream))
    → Reads n P stream r
    → ((a : A) (rest : Stream) → P a → Reads m Q rest (f (a, rest)))
    → Reads (n + m) Q stream (r >>= f)
Reads-bind n m P Q stream (err e) f h next = h
Reads-bind n m P Q stream (ok (a, rest)) f (p, stalled, taken) next =
    Reads-weaken n m Q stream rest (f (a, rest)) stalled taken (next a rest p)

pub Reads-mono {ℓ} :
    {A : Type ℓ} (n m : ℕ) (P Q : A → Type 0) (stream : Stream)
    (r : Result HttpParseError (A × Stream))
    → n ≤ m
    → ((a : A) → P a → Q a)
    → Reads n P stream r
    → Reads m Q stream r
Reads-mono n m P Q stream (err e) le f h = h
Reads-mono n m P Q stream (ok (a, rest)) le f (p, s, t) = (f a p, s, omega arith)

-- A step on a text, which reads nothing: its errors have the status 400.
abbrev pub Parses {ℓ} : {A : Type ℓ} → Result HttpParseError A → Type 0
Parses (err e) = e.status ≡ 400
Parses (ok a) = Unit

pub Parses-ok_or {ℓ} :
    {A : Type ℓ} (message : String) (o : Option A) → Parses (ok_or o (bad_request message))
Parses-ok_or message none = refl
Parses-ok_or message (some a) = tt

pub Parses-bind {ℓ κ} :
    {A : Type ℓ} {B : Type κ} (r : Result HttpParseError A) (f : A → Result HttpParseError B)
    → Parses r
    → ((a : A) → Parses (f a))
    → Parses (r >>= f)
Parses-bind (err e) f h next = h
Parses-bind (ok a) f h next = next a

pub Reads-parse {ℓ κ} :
    {A : Type ℓ} {B : Type κ} (m : ℕ) (Q : B → Type 0) (stream : Stream)
    (r : Result HttpParseError A) (f : A → Result HttpParseError (B × Stream))
    → Parses r
    → ((a : A) → Reads m Q stream (f a))
    → Reads m Q stream (r >>= f)
Reads-parse m Q stream (err e) f h next = inl h
Reads-parse m Q stream (ok a) f h next = next a

pub Reads-if {ℓ} :
    {A : Type ℓ} (n : ℕ) (P : A → Type 0) (stream : Stream) (b : Bool)
    (x y : Result HttpParseError (A × Stream))
    → Reads n P stream x
    → Reads n P stream y
    → Reads n P stream (if b then x else y)
Reads-if n P stream true x y hx hy = hx
Reads-if n P stream false x y hx hy = hy
