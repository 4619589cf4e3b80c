-- ===== src/Redact/Spans.antt =====
-- `apply_redaction_spans` of crates/memoryd-core/src/store.rs, and the types of the redactor.
use memoryd.Prelude.{
  ℕ, suc, ◌≤◌, String, ◌<>◌, ◌||◌, List, [], ◌∷◌, ltb, leb, if◌then◌else◌, Result, ok, ◌>>=◌, ok_or,
  All,
}
use mathlib.Core.List.{Perm}
use memoryd.Text.{byte_len, slice_from, slice}

-- A start and an end, in bytes.
abbrev pub Span : Type 0
Span = ℕ × ℕ

pub data Fault : Type 0 where
  panicked stuck : Fault

-- `RedactedString`
pub record Redacted : Type 0 where
  pub value : String
  pub redactions : ℕ

abbrev pub redacted : String
redacted = "[REDACTED]"

abbrev pub IsSortedByStart : List Span → Type 0
IsSortedByStart [] = Unit
IsSortedByStart (s ∷ spans) = All (λ (t : Span). s.0 ≤ t.0) spans × IsSortedByStart spans

-- `sort_unstable_by_key(|span| span.0)`: the standard library sorts by the key, and leaves the
-- order of equal keys open.
pub record Sorter : Type 0 where
  pub sort : List Span → List Span
  pub sort-perm : (spans : List Span) → Perm (sort spans) spans
  pub sort-IsSortedByStart : (spans : List Span) → IsSortedByStart (sort spans)

-- The loop over the sorted spans.
unfoldable pub apply_loop : String → List Span → ℕ → String → ℕ → Result Fault Redacted
apply_loop input [] cursor output n = ok_or (slice_from input cursor) panicked >>= λ rest.
    ok (record { value = output <> rest; redactions = n })
apply_loop input ((start, end) ∷ spans) cursor output n =
    let skip = apply_loop input spans cursor output n in
    let hide = ok_or (slice input cursor start) panicked >>= λ kept.
    apply_loop input spans end ((output <> kept) <> redacted) (suc n) in
    if ltb start cursor || leb end start || ltb (byte_len input) end then skip else hide

unfoldable pub apply_redaction_spans : Sorter → String → List Span → Result Fault Redacted
unfolding apply_loop
apply_redaction_spans S input [] = ok (record { value = input; redactions = 0 })
apply_redaction_spans S input (s ∷ spans) = apply_loop input (S.sort (s ∷ spans)) 0 "" 0
