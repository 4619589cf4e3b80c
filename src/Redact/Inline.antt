-- ===== src/Redact/Inline.antt =====
-- The collector of high-entropy tokens, `redact_inline_string_with_count`, `is_sensitive_key` and
-- `redact_json_value_in_place` of crates/memoryd-core/src/store.rs.
pub mod Returns
pub mod Keys
use Prim.Native.Char.{Char, code}
use memoryd.Prelude.{
  ℕ, ◌+◌, String, Bool, true, false, ◌&&◌, ◌||◌, Option, none, some, List, [], ◌∷◌, ◌++◌, map, ltb,
  leb, ◌==◌, ◌is◌, if◌then◌else◌, any, filter, length, Result, ok, ◌>>=◌, ok_or, all,
}
use memoryd.Text.{
  byte_len, slice, char_indices, as_bytes, codes, contains, contains_bytes, begins, is_alphanumeric,
  is_alphabetic, is_digit, to_lower,
}
use memoryd.Json.{
  Value, null, boolean, number, string, array, object, Items, nil, cons, Fields, end, field,
}
use memoryd.Redact.Entropy.{Float, shannon_entropy}
use memoryd.Redact.Spans.{Span, Fault, panicked, Redacted, redacted, Sorter, apply_redaction_spans}
use memoryd.Redact.{
  is_token_char, collect_bearer_spans, collect_known_secret_prefix_spans, collect_email_spans,
}

abbrev high_entropy_min_len : ℕ
high_entropy_min_len = 20

abbrev digit_secret_min_len : ℕ
digit_secret_min_len = 16

-- What the redactor takes from outside: the floats, and the standard library's unstable sort.
pub record Engine : Type 1 where
  pub floats : Float
  pub sorter : Sorter

module _ (E : Engine) where
  -- 4.0 bits for each character.
  is_entropic : String → Bool
  is_entropic candidate = E.floats.le (E.floats.of_ℕ 4) (shannon_entropy E.floats candidate)

  push_high_entropy_span : String → ℕ → ℕ → List Span → Result Fault (List Span)
  unfolding is_entropic
  push_high_entropy_span input start stop spans =
      ok_or (slice input start stop) panicked >>= λ candidate.
      (let bytes = as_bytes candidate in
        ok (
          if leb high_entropy_min_len (byte_len candidate)
            && any is_alphabetic bytes
            && any is_digit bytes
            && is_entropic candidate
          then spans ++ (start, stop) ∷ []
          else if leb digit_secret_min_len (byte_len candidate) && all is_digit bytes
          then spans ++ (start, stop) ∷ []
          else spans))

  -- The end of a token, which began at `start` if one did.
  flush : String → Option ℕ → ℕ → List Span → Result Fault (List Span)
  flush input none stop spans = ok spans
  flush input (some start) stop spans = push_high_entropy_span input start stop spans

  abbrev get_or_insert : Option ℕ → ℕ → Option ℕ
  get_or_insert none i = some i
  get_or_insert (some s) i = some s

  token_loop : String → List (ℕ × Char) → Option ℕ → List Span → Result Fault (List Span)
  token_loop input [] start spans = flush input start (byte_len input) spans
  token_loop input ((i, c) ∷ rest) start spans = elim (is_token_char (code c)) [
    | true ↦ token_loop input rest (get_or_insert start i) spans
    | false ↦ flush input start i spans >>= token_loop input rest none
  ]

  collect_high_entropy_spans : String → List Span → Result Fault (List Span)
  collect_high_entropy_spans input spans = token_loop input (char_indices input) none spans

  unfoldable pub collect_spans : String → Result Fault (List Span)
  unfolding collect_high_entropy_spans token_loop flush push_high_entropy_span
  collect_spans input = do
    bearer ← collect_bearer_spans input []
    known ← collect_known_secret_prefix_spans input bearer
    emails ← collect_email_spans input known
    collect_high_entropy_spans input emails

  abbrev pub is_private_key : String → Bool
  is_private_key input = contains input "-----BEGIN" && contains input "PRIVATE KEY-----"

  unfoldable pub redact_inline_string_with_count : String → Result Fault Redacted
  unfolding collect_spans
  redact_inline_string_with_count input =
      if is_private_key input
      then ok (record { value = redacted; redactions = if input is redacted then 0 else 1 })
      else (collect_spans input >>= apply_redaction_spans E.sorter input)

-- `ends_with`
ends_with : List ℕ → List ℕ → Bool
ends_with ks [] = begins ks []
ends_with ks (b ∷ bs) = (begins ks (b ∷ bs) && (length ks == length (b ∷ bs))) || ends_with ks bs

abbrev whole_keys : List String
whole_keys =
    "authorization" ∷ "auth" ∷ "password" ∷ "passwd" ∷ "pwd" ∷ "token" ∷ "apikey" ∷ "credential"
    ∷ "credentials" ∷ "privatekey" ∷ []

abbrev key_parts : List String
key_parts = "secret" ∷ "password" ∷ "apikey" ∷ "credential" ∷ "privatekey" ∷ []

abbrev same_codes : List ℕ → List ℕ → Bool
same_codes [] [] = true
same_codes (k ∷ ks) (b ∷ bs) = (k == b) && same_codes ks bs
same_codes _ _ = false

unfoldable pub is_sensitive_key : String → Bool
unfolding ends_with
is_sensitive_key key =
    let normalized = map to_lower (filter is_alphanumeric (codes key)) in
    any (λ k. same_codes (codes k) normalized) whole_keys
    || ends_with (codes "token") normalized
    || any (λ k. contains_bytes (codes k) normalized) key_parts

-- The value that a sensitive key is left with, and what it adds to the count.
abbrev hide : Value → Value × ℕ
hide (string s) = (string redacted, if s is redacted then 0 else 1)
hide _ = (string redacted, 1)

abbrev rewrite : String → Redacted → Value × ℕ
rewrite s r = (string (if ltb 0 r.redactions then r.value else s), r.redactions)

module _ (E : Engine) where
  -- `redact_json_value_in_place`: at a value that no sensitive key names, at the elements of an
  -- array, and at the entries of an object.
  unfoldable mutual
    pub redact_value : Value → Result Fault (Value × ℕ)
    redact_value null = ok (null, 0)
    redact_value (boolean b) = ok (boolean b, 0)
    redact_value (number n) = ok (number n, 0)
    redact_value (string s) = redact_inline_string_with_count E s >>= λ r. ok (rewrite s r)
    redact_value (array vs) = redact_items vs >>= λ r. ok (array r.0, r.1)
    redact_value (object fs) = redact_fields fs >>= λ r. ok (object r.0, r.1)

    pub redact_items : Items → Result Fault (Items × ℕ)
    redact_items nil = ok (nil, 0)
    redact_items (cons v vs) =
        redact_value v >>= λ r. (redact_items vs >>= λ rest. ok (cons r.0 rest.0, r.1 + rest.1))

    pub redact_fields : Fields → Result Fault (Fields × ℕ)
    redact_fields end = ok (end, 0)
    redact_fields (field k v fs) =
        let below = redact_value v in
        (if is_sensitive_key k then ok (hide v) else below) >>= λ r.
        (redact_fields fs >>= λ rest. ok (field k r.0 rest.0, r.1 + rest.1))
