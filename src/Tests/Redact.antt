-- ===== src/Tests/Redact.antt =====
-- Runs of the redactor.
use Prim.Native.Char.{Char, char}
use memoryd.Prelude.{String, ◌≡◌, refl, ◌≢◌, ℕ, Result, ok, err}
use memoryd.Text.{
  split_once, byte_len, slice_from, slice_to, slice, char_indices_from, as_bytes, encode_utf8,
  len_utf8, contains, one_of, is_whitespace, is_alphanumeric, is_digit, is_alphabetic, to_lower,
}
use memoryd.Redact.{
  collect_bearer_spans, collect_known_secret_prefix_spans, collect_email_spans,
  is_secret_terminator, is_token_char,
}
use memoryd.Redact.Spans.{Fault, panicked, Redacted, apply_redaction_spans}
use memoryd.Redact.Inline.{collect_spans, redact_inline_string_with_count}
use memoryd.Redact.Sorting.{sort}
use memoryd.Json.{Value, object, field, end, string}
use memoryd.Redact.Spans.{stuck}
use memoryd.Redact.Inline.{redact_value, redact_items, redact_fields, is_sensitive_key}
use memoryd.Redact.Inline.Returns.{redact_value_returns}
use memoryd.Redact.Inline.Keys.{Hides, redact_value-Hides}
use memoryd.Tests.Data.{toy_engine}

-- The redactor with all that it computes with.
run : String → Result Fault Redacted
unfolding redact_inline_string_with_count collect_spans sort apply_redaction_spans
    collect_bearer_spans collect_known_secret_prefix_spans collect_email_spans is_secret_terminator
    is_token_char split_once byte_len slice_from slice_to slice char_indices_from as_bytes
    encode_utf8 len_utf8 contains one_of is_whitespace is_alphanumeric is_digit is_alphabetic
    to_lower
run = redact_inline_string_with_count toy_engine

email_run :
    run "mail bob@example.com now" ≡ ok (record { value = "mail [REDACTED] now"; redactions = 1 })
unfolding run
email_run = refl

-- The tail of a token that begins inside a known prefix's secret is left in the text.
leak_run :
    run "key=sk-abcdefgh12345678ABCDEF/ghijk"
    ≡ ok (record { value = "[REDACTED]/ghijk"; redactions = 1 })
unfolding run
leak_run = refl

abbrev wide_space : Char
wide_space = char 0x3000 tt

abbrev onto : String → String → String
onto String.[] t = t
onto (String.◌∷◌ c s) t = String.◌∷◌ c (onto s t)

-- A blank of three bytes behind the word.
panic_run : run (onto "bearer " (String.◌∷◌ wide_space "x")) ≡ err panicked
unfolding run
panic_run = refl

-- A text that ends in the words that announce a token.
end_run : run "bearer " ≡ err panicked
unfolding run
end_run = refl

abbrev login : Value
login = object (field "user" (string "ann") (field "password" (string "hunter2") end))

abbrev hidden_login : Value
hidden_login = object (field "user" (string "ann") (field "password" (string "[REDACTED]") end))

value_run : Value → Result Fault (Value × ℕ)
unfolding redact_value redact_items redact_fields is_sensitive_key redact_inline_string_with_count
    collect_spans sort apply_redaction_spans collect_bearer_spans collect_known_secret_prefix_spans
    collect_email_spans is_secret_terminator is_token_char split_once byte_len slice_from slice_to
    slice char_indices_from as_bytes encode_utf8 len_utf8 contains one_of is_whitespace
    is_alphanumeric is_digit is_alphabetic to_lower
value_run = redact_value toy_engine

login_run : value_run login ≡ ok (hidden_login, 1)
unfolding value_run
login_run = refl

redact_value_returns_example : redact_value toy_engine login ≢ err stuck
redact_value_returns_example = redact_value_returns toy_engine login

redact_value-Hides_example : Hides login hidden_login
unfolding value_run
redact_value-Hides_example = redact_value-Hides toy_engine login hidden_login 1 login_run
