-- ===== src/Redact/Inline/Returns.antt =====
-- The redactor returns: its fuel is enough for every text and every JSON value.
use Prim.Native.Char.{Char, code}
use memoryd.Prelude.{
  ℕ, String, Option, none, some, List, [], ◌∷◌, ◌≢◌, inl, inr, if◌then◌else◌, ok, err, ok_or,
  Bool-cases, subst,
}
use memoryd.Text.{byte_len, slice, slice_from, char_indices}
use memoryd.Json.{
  Value, null, boolean, number, string, array, object, Items, nil, cons, Fields, end, field,
}
use memoryd.Redact.{
  is_token_char, collect_bearer_spans, collect_known_secret_prefix_spans, collect_email_spans,
}
use memoryd.Redact.Spans.{Span, panicked, stuck, Sorter, apply_loop, apply_redaction_spans}
use memoryd.Redact.Fuel.{Ends, Ends-bind, Ends-ok_or, Ends-if, Ends-bearer, Ends-known, Ends-email}
use memoryd.Redact.Inline.{
  Engine, flush, push_high_entropy_span, token_loop, get_or_insert, collect_high_entropy_spans,
  collect_spans, is_private_key, redact_inline_string_with_count, redact_value, redact_items,
  redact_fields, is_sensitive_key, hide,
}

Ends-apply_loop :
    (input : String) (spans : List Span) (cursor : ℕ) (output : String) (n : ℕ)
    → Ends (apply_loop input spans cursor output n)
unfolding apply_loop
Ends-apply_loop input [] cursor output n =
    Ends-bind (ok_or (slice_from input cursor) panicked) _ (Ends-ok_or (slice_from input cursor))
      (λ r e. tt)
Ends-apply_loop input ((start, stop) ∷ spans) cursor output n =
    Ends-if _ _ _ (Ends-apply_loop input spans cursor output n) (
      Ends-bind (ok_or (slice input cursor start) panicked) _
        (Ends-ok_or (slice input cursor start)) (λ kept cut. Ends-apply_loop input spans stop _ _))

Ends-apply :
    (S : Sorter) (input : String) (spans : List Span) → Ends (apply_redaction_spans S input spans)
unfolding apply_redaction_spans
Ends-apply S input [] = tt
Ends-apply S input (s ∷ spans) = Ends-apply_loop input (S.sort (s ∷ spans)) 0 "" 0

module _ (E : Engine) where
  Ends-flush :
      (input : String) (start : Option ℕ) (stop : ℕ) (spans : List Span)
      → Ends (flush E input start stop spans)
  unfolding flush push_high_entropy_span
  Ends-flush input none stop spans = tt
  Ends-flush input (some start) stop spans =
      Ends-bind (ok_or (slice input start stop) panicked) _ (Ends-ok_or (slice input start stop))
        (λ a e. tt)

  Ends-token_loop :
      (input : String) (rest : List (ℕ × Char)) (start : Option ℕ) (spans : List Span)
      → Ends (token_loop E input rest start spans)
  unfolding token_loop
  Ends-token_loop input [] start spans = Ends-flush input start (byte_len input) spans
  Ends-token_loop input ((i, c) ∷ rest) start spans = elim (Bool-cases (is_token_char (code c))) [
    | inl inside ↦
        rw (inside, token_loop) (Ends-token_loop input rest (get_or_insert E start i) spans)
    | inr outside ↦
        rw (outside, token_loop)
          (Ends-bind (flush E input start i spans) _ (Ends-flush input start i spans)
            (λ found done. Ends-token_loop input rest none found))
  ]

  Ends-collect_spans : (input : String) → Ends (collect_spans E input)
  unfolding collect_spans collect_high_entropy_spans
  Ends-collect_spans input =
      Ends-bind (collect_bearer_spans input []) _ (Ends-bearer input []) (λ bearer _.
        Ends-bind (collect_known_secret_prefix_spans input bearer) _ (Ends-known input bearer)
          (λ known _.
            Ends-bind (collect_email_spans input known) _ (Ends-email input known)
              (λ emails _. Ends-token_loop input (char_indices input) none emails)))

  pub redact_inline-Ends : (input : String) → Ends (redact_inline_string_with_count E input)
  unfolding redact_inline_string_with_count
  redact_inline-Ends input = Ends-if (is_private_key E input) _ _ tt (
      Ends-bind (collect_spans E input) _ (Ends-collect_spans input)
        (λ spans _. Ends-apply E.sorter input spans))

  mutual
    unfolding redact_value

    value-Ends : (v : Value) → Ends (redact_value E v)
    value-Ends null = tt
    value-Ends (boolean b) = tt
    value-Ends (number n) = tt
    value-Ends (string s) =
        Ends-bind (redact_inline_string_with_count E s) _ (redact_inline-Ends s) (λ r _. tt)
    value-Ends (array vs) = Ends-bind (redact_items E vs) _ (items-Ends vs) (λ r _. tt)
    value-Ends (object fs) = Ends-bind (redact_fields E fs) _ (fields-Ends fs) (λ r _. tt)

    items-Ends : (vs : Items) → Ends (redact_items E vs)
    items-Ends nil = tt
    items-Ends (cons v vs) =
        Ends-bind (redact_value E v) _ (value-Ends v)
          (λ r _. Ends-bind (redact_items E vs) _ (items-Ends vs) (λ rest _. tt))

    fields-Ends : (fs : Fields) → Ends (redact_fields E fs)
    fields-Ends end = tt
    fields-Ends (field k v fs) =
        Ends-bind (if is_sensitive_key k then ok (hide v) else redact_value E v) _
          (Ends-if (is_sensitive_key k) _ _ tt (value-Ends v))
          (λ r _. Ends-bind (redact_fields E fs) _ (fields-Ends fs) (λ rest _. tt))

  -- The redactor has fuel enough for every JSON value: it answers, or ends in a panic of the source,
  -- and never in the fault of a loop that has run out.
  pub redact_value_returns : (v : Value) → redact_value E v ≢ err stuck
  redact_value_returns v h = subst Ends h (value-Ends v)
