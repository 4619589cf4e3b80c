-- ===== src/Redact.antt =====
-- The redaction of secrets in crates/memoryd-core/src/store.rs: `redact_inline_string_with_count`
-- and the collectors of spans that it calls. Positions are byte offsets. A slice off the boundary
-- of a character panics, and each `while` loop takes fuel: `Fault` names both.
pub mod Entropy
pub mod Fuel
pub mod Spans
pub mod Inline
pub mod Sorting
use Prim.Native.Char.{Char, code}
use memoryd.Prelude.{
  ℕ, zero, suc, ◌+◌, ◌-◌, ◌≤◌, ◌<◌, max, String, ◌<>◌, Bool, true, false, not, ◌&&◌, ◌||◌, Option,
  none, some, List, [], ◌∷◌, ◌++◌, ltb, leb, ◌==◌, ◌is◌, if◌then◌else◌, length, any, Result, ok,
  err, ◌>>=◌, ok_or,
}
use memoryd.Text.{
  all_chars, split_once, byte_len, slice_from, slice_to, slice, char_indices, char_indices_from,
  len_utf8, as_bytes, codes, contains, one_of, is_whitespace, is_alphanumeric, is_alphabetic,
  is_digit, to_lower,
}
use Entropy.{Float, shannon_entropy}
use Spans.{Span, Fault, panicked, stuck, Redacted, redacted, Sorter, apply_redaction_spans}

-- The first position at which the needle stands in the bytes, ASCII letters compared without case.
matches_at : List ℕ → List ℕ → Bool
matches_at [] bs = true
matches_at (k ∷ ks) [] = false
matches_at (k ∷ ks) (b ∷ bs) = (to_lower k == to_lower b) && matches_at ks bs

position_from : ℕ → List ℕ → List ℕ → Option ℕ
position_from i ks [] = if matches_at ks [] then some i else none
position_from i ks (b ∷ bs) =
    let later = position_from (suc i) ks bs in if matches_at ks (b ∷ bs) then some i else later

find_ascii_case_insensitive : String → String → Option ℕ
find_ascii_case_insensitive haystack needle = position_from 0 (as_bytes needle) (as_bytes haystack)

unfoldable pub is_secret_terminator : ℕ → Bool
is_secret_terminator n = is_whitespace n || one_of ",;:)([]{}<>\"'`" n

is_email_boundary : ℕ → Bool
is_email_boundary n = is_whitespace n || one_of "<>()[]{}\"'`,;:" n

unfoldable pub is_token_char : ℕ → Bool
is_token_char n = is_alphanumeric n || one_of "_-.=+" n

-- The position of the first character of a class, or the end.
abbrev first_where : (ℕ → Bool) → ℕ → List (ℕ × Char) → ℕ
first_where p end [] = end
first_where p end ((i, c) ∷ rest) = if p (code c) then i else first_where p end rest

find_secret_end : String → ℕ → Result Fault ℕ
find_secret_end input start = ok_or (slice_from input start) panicked >>= λ rest.
    ok (first_where is_secret_terminator (byte_len input) (char_indices_from start rest))

-- `collect_bearer_spans`, its loop from `offset`. Each round moves on by a byte at least.
bearer_loop : ℕ → String → ℕ → List Span → Result Fault (List Span)
bearer_loop zero input offset spans = err stuck
bearer_loop (suc fuel) input offset spans = do
  rest ← ok_or (slice_from input offset) panicked
  elim (find_ascii_case_insensitive rest "bearer ") [
    | none ↦ ok spans
    | some relative ↦
        let start = offset + relative + 7 in
        find_secret_end input start >>= λ end.
        bearer_loop fuel input (max end (start + 1))
          (if ltb start end then spans ++ (start, end) ∷ [] else spans)
  ]

unfoldable pub collect_bearer_spans : String → List Span → Result Fault (List Span)
unfolding bearer_loop find_secret_end find_ascii_case_insensitive position_from matches_at
collect_bearer_spans input spans = bearer_loop (suc (byte_len input + 1)) input 0 spans

abbrev min_secret_len : String → ℕ
min_secret_len prefix = if (prefix is "AKIA") || (prefix is "ASIA") then 20 else byte_len prefix + 8

prefix_loop : ℕ → String → String → ℕ → List Span → Result Fault (List Span)
prefix_loop zero prefix input offset spans = err stuck
prefix_loop (suc fuel) prefix input offset spans = do
  rest ← ok_or (slice_from input offset) panicked
  elim (find_ascii_case_insensitive rest prefix) [
    | none ↦ ok spans
    | some relative ↦
        let start = offset + relative in
        find_secret_end input start >>= λ end.
        prefix_loop fuel prefix input (max end (start + byte_len prefix))
          (if leb (min_secret_len prefix) (end - start) then spans ++ (start, end) ∷ [] else spans)
  ]

abbrev secret_prefixes : List String
secret_prefixes =
    "ghp_" ∷ "gho_" ∷ "ghu_" ∷ "ghs_" ∷ "ghr_" ∷ "github_pat_" ∷ "sk_live_" ∷ "sk_test_" ∷ "sk-"
    ∷ "AKIA" ∷ "ASIA" ∷ []

prefixes_loop : List String → String → List Span → Result Fault (List Span)
prefixes_loop [] input spans = ok spans
prefixes_loop (p ∷ ps) input spans =
    prefix_loop (suc (byte_len input + byte_len p)) p input 0 spans >>= prefixes_loop ps input

unfoldable pub collect_known_secret_prefix_spans : String → List Span → Result Fault (List Span)
unfolding prefixes_loop prefix_loop find_secret_end find_ascii_case_insensitive position_from
    matches_at
collect_known_secret_prefix_spans = prefixes_loop secret_prefixes

-- The end of the last boundary character before `at`, or the start of the text.
last_boundary_end : ℕ → List (ℕ × Char) → ℕ
last_boundary_end found [] = found
last_boundary_end found ((i, c) ∷ rest) =
    last_boundary_end (if is_email_boundary (code c) then i + len_utf8 c else found) rest

find_email_start : String → ℕ → Result Fault ℕ
find_email_start input at =
    ok_or (slice_to input at) panicked >>= λ head. ok (last_boundary_end 0 (char_indices head))

find_email_end : String → ℕ → Result Fault ℕ
find_email_end input after_at = ok_or (slice_from input after_at) panicked >>= λ rest.
    ok (first_where is_email_boundary (byte_len input) (char_indices_from after_at rest))

is_email_char : ℕ → Bool
is_email_char n = is_alphanumeric n || one_of "._%+-@" n

looks_like_email : String → Bool
looks_like_email candidate = elim (split_once b'@' candidate) [
  | none ↦ false
  | some (local, domain) ↦
      not (local is "")
      && contains domain "."
      && leb 3 (byte_len domain)
      && all_chars is_email_char candidate
]

-- One round of `collect_email_spans`, at an `@`.
email_at : String → ℕ → List Span → Result Fault (List Span)
email_at input at spans = do
  start ← find_email_start input at
  end ← find_email_end input (at + 1)
  if ltb start at && ltb (at + 1) end
      then (ok_or (slice input start end) panicked >>= λ candidate.
          ok (if looks_like_email candidate then spans ++ (start, end) ∷ [] else spans))
      else ok spans

email_loop : String → List (ℕ × Char) → List Span → Result Fault (List Span)
email_loop input [] spans = ok spans
email_loop input ((at, c) ∷ rest) spans =
    (if code c == b'@' then email_at input at spans else ok spans) >>= email_loop input rest

unfoldable pub collect_email_spans : String → List Span → Result Fault (List Span)
unfolding email_loop email_at find_email_start find_email_end last_boundary_end looks_like_email
    is_email_char is_email_boundary
collect_email_spans input spans = email_loop input (char_indices input) spans
