-- ===== src/Redact/Fuel.antt =====
-- The fuel of the redactor's loops is enough: no run ends in the fault `stuck`.
use Prim.Native.Char.{Char, code}
use memoryd.Prelude.{
  ℕ, zero, suc, ◌+◌, ◌-◌, ◌≤◌, ◌<◌, max, String, Bool, true, false, ◌&&◌, Option, none, some, List,
  [], ◌∷◌, ◌++◌, ◌≡◌, refl, arith, ltb, leb, ◌==◌, if◌then◌else◌, All, Result, ok, err, ◌>>=◌,
  ok_or, subst, ok-injective, >>=-eq-ok,
}
use memoryd.Text.{byte_len, len_utf8, slice_from, slice_to, slice, char_indices_from, char_indices}
use memoryd.Redact.Spans.{Span, Fault, panicked, stuck}
use memoryd.Redact.{
  first_where, find_secret_end, bearer_loop, collect_bearer_spans, min_secret_len, prefix_loop,
  prefixes_loop, find_ascii_case_insensitive, is_secret_terminator, secret_prefixes, email_at,
  email_loop, find_email_start, find_email_end, collect_email_spans,
  collect_known_secret_prefix_spans,
}

-- Not the fault that a loop without fuel ends in.
abbrev pub Ends {ℓ} : {A : Type ℓ} → Result Fault A → Type 0
Ends (ok a) = Unit {0}
Ends (err panicked) = Unit {0}
Ends (err stuck) = ⊥

pub Ends-bind {ℓ κ} :
    {A : Type ℓ} {B : Type κ} (r : Result Fault A) (f : A → Result Fault B)
    → Ends r
    → ((a : A) → r ≡ ok a → Ends (f a))
    → Ends (r >>= f)
Ends-bind (ok a) f h next = next a refl
Ends-bind (err panicked) f h next = tt
Ends-bind (err stuck) f h next = h

pub Ends-ok_or {ℓ} : {A : Type ℓ} (o : Option A) → Ends (ok_or o panicked)
Ends-ok_or none = tt
Ends-ok_or (some a) = tt

pub Ends-if {ℓ} :
    {A : Type ℓ} (b : Bool) (x y : Result Fault A) → Ends x → Ends y → Ends (if b then x else y)
Ends-if true x y hx hy = hx
Ends-if false x y hx hy = hy

ok_or-eq-ok {ℓ} : {A : Type ℓ} (o : Option A) {a : A} → ok_or o panicked ≡ ok a → o ≡ some a
ok_or-eq-ok none h = absurd (ground arith)
ok_or-eq-ok (some b) h = cc

byte_len-slice_from :
    (s : String) (n : ℕ) (r : String) → slice_from s n ≡ some r → n + byte_len r ≡ byte_len s
unfolding slice_from byte_len
byte_len-slice_from s zero r h = ground arith
byte_len-slice_from String.[] (suc n) r h = absurd (ground arith)
byte_len-slice_from (String.◌∷◌ c s) (suc n) r h =
    ground (arith, byte_len-slice_from s (suc n - len_utf8 c) r)

first_where_le :
    (p : ℕ → Bool) (end i : ℕ) (s : String)
    → i + byte_len s ≤ end
    → first_where p end (char_indices_from i s) ≤ end
unfolding char_indices_from byte_len
first_where_le p end i String.[] h = omega arith
first_where_le p end i (String.◌∷◌ c s) h =
    ground (arith, first_where_le p end (i + len_utf8 c) s (omega arith))

Ends-find_secret_end : (input : String) (start : ℕ) → Ends (find_secret_end input start)
unfolding find_secret_end
Ends-find_secret_end input start =
    Ends-bind (ok_or (slice_from input start) panicked) _ (Ends-ok_or (slice_from input start))
      (λ a h. tt)

-- The end of a secret lies in the text, and so does its start.
find_secret_end_le :
    (input : String) (start end : ℕ)
    → find_secret_end input start ≡ ok end
    → (start ≤ byte_len input) × (end ≤ byte_len input)
unfolding find_secret_end
find_secret_end_le input start end h =
    let (rest, cut, h') = >>=-eq-ok (ok_or (slice_from input start) panicked) _ h in
    let e = byte_len-slice_from input start rest (ok_or-eq-ok _ cut) in
    let low = first_where_le is_secret_terminator (byte_len input) start rest (omega arith) in
    (omega arith, subst (λ n. n ≤ byte_len input) (ok-injective h') low)

Ends-bearer_loop :
    (fuel : ℕ) (input : String) (offset : ℕ) (spans : List Span)
    → offset ≤ byte_len input + 1
    → byte_len input + 1 < fuel + offset
    → Ends (bearer_loop fuel input offset spans)
unfolding bearer_loop
Ends-bearer_loop zero input offset spans low high = absurd (omega arith)
Ends-bearer_loop (suc fuel) input offset spans low high =
    Ends-bind (ok_or (slice_from input offset) panicked) _ (Ends-ok_or (slice_from input offset))
      (λ rest cut.
        elim (find_ascii_case_insensitive rest "bearer ")
          as (λ x. Ends {A = List Span} (elim x as (λ y. Result Fault (List Span)) [
            | none ↦ ok spans
            | some relative ↦
                let start = offset + relative + 7 in
                find_secret_end input start >>= λ end.
                bearer_loop fuel input (max end (start + 1))
                  (if ltb start end then spans ++ (start, end) ∷ [] else spans)
          ])) [
            | none ↦ tt
            | some relative ↦
                Ends-bind (find_secret_end input (offset + relative + 7)) _
                  (Ends-find_secret_end input (offset + relative + 7))
                  (λ end found.
                    let (a, b) = find_secret_end_le input (offset + relative + 7) end found in
                    Ends-bearer_loop fuel input _ _ (omega arith) (omega arith))
          ])

Ends-prefix_loop :
    (fuel : ℕ) (prefix input : String) (offset : ℕ) (spans : List Span)
    → 0 < byte_len prefix
    → offset ≤ byte_len input + byte_len prefix
    → byte_len input + byte_len prefix < fuel + offset
    → Ends (prefix_loop fuel prefix input offset spans)
unfolding prefix_loop
Ends-prefix_loop zero prefix input offset spans some_of_it low high = absurd (omega arith)
Ends-prefix_loop (suc fuel) prefix input offset spans some_of_it low high =
    Ends-bind (ok_or (slice_from input offset) panicked) _ (Ends-ok_or (slice_from input offset))
      (λ rest cut.
        elim (find_ascii_case_insensitive rest prefix)
          as (λ x. Ends {A = List Span} (elim x as (λ y. Result Fault (List Span)) [
            | none ↦ ok spans
            | some relative ↦
                let start = offset + relative in
                find_secret_end input start >>= λ end.
                prefix_loop fuel prefix input (max end (start + byte_len prefix)) (
                  if leb (min_secret_len prefix) (end - start)
                  then spans ++ (start, end) ∷ []
                  else spans)
          ])) [
            | none ↦ tt
            | some relative ↦
                Ends-bind (find_secret_end input (offset + relative)) _
                  (Ends-find_secret_end input (offset + relative))
                  (λ end found.
                    let (a, b) = find_secret_end_le input (offset + relative) end found in
                    Ends-prefix_loop fuel prefix input _ _ some_of_it (omega arith) (omega arith))
          ])

Ends-prefixes_loop :
    (ps : List String) (input : String) (spans : List Span)
    → All (λ p. 0 < byte_len p) ps
    → Ends (prefixes_loop ps input spans)
unfolding prefixes_loop
Ends-prefixes_loop [] input spans h = tt
Ends-prefixes_loop (p ∷ ps) input spans (h, hs) =
    Ends-bind (prefix_loop (suc (byte_len input + byte_len p)) p input 0 spans) _
      (Ends-prefix_loop (suc (byte_len input + byte_len p)) p input 0 spans h (omega arith)
        (omega arith))
      (λ found done. Ends-prefixes_loop ps input found hs)

secret_prefixes_long : All (λ p. 0 < byte_len p) secret_prefixes
unfolding byte_len len_utf8
secret_prefixes_long = ground arith

pub Ends-bearer : (input : String) (spans : List Span) → Ends (collect_bearer_spans input spans)
unfolding collect_bearer_spans
Ends-bearer input spans =
    Ends-bearer_loop (suc (byte_len input + 1)) input 0 spans (omega arith) (omega arith)

pub Ends-known :
    (input : String) (spans : List Span) → Ends (collect_known_secret_prefix_spans input spans)
unfolding collect_known_secret_prefix_spans
Ends-known input spans = Ends-prefixes_loop secret_prefixes input spans secret_prefixes_long

Ends-email_at : (input : String) (at : ℕ) (spans : List Span) → Ends (email_at input at spans)
unfolding email_at find_email_start find_email_end
Ends-email_at input at spans =
    Ends-bind (find_email_start input at) _
      (Ends-bind (ok_or (slice_to input at) panicked) _ (Ends-ok_or (slice_to input at))
        (λ a e. tt))
      (λ start found.
        Ends-bind (find_email_end input (at + 1)) _
          (Ends-bind (ok_or (slice_from input (at + 1)) panicked) _
            (Ends-ok_or (slice_from input (at + 1))) (λ a e. tt))
          (λ end found'.
            Ends-if (ltb start at && ltb (at + 1) end) _ _
              (Ends-bind (ok_or (slice input start end) panicked) _
                (Ends-ok_or (slice input start end)) (λ a e. tt))
              tt))

Ends-email_loop :
    (input : String) (rest : List (ℕ × Char)) (spans : List Span)
    → Ends (email_loop input rest spans)
unfolding email_loop
Ends-email_loop input [] spans = tt
Ends-email_loop input ((at, c) ∷ rest) spans =
    Ends-bind (if code c == b'@' then email_at input at spans else ok spans) _
      (Ends-if (code c == b'@') _ _ (Ends-email_at input at spans) tt)
      (λ found done. Ends-email_loop input rest found)

pub Ends-email : (input : String) (spans : List Span) → Ends (collect_email_spans input spans)
unfolding collect_email_spans
Ends-email input spans = Ends-email_loop input (char_indices input) spans
