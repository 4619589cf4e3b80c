-- ===== src/Tests/Approvals.antt =====
-- Runs of decisions on approvals.
use memoryd.Prelude.{Option, String, true, false, none, some, [], ◌∷◌, ◌≡◌, refl, arith, Result, ok}
use memoryd.Prelude.Int.{ℤ, pos}
use memoryd.Json.{get, get_field}
use memoryd.Text.{
  split_once, byte_len, slice_from, slice_to, slice, char_indices_from, as_bytes, encode_utf8,
  len_utf8, contains, one_of, is_whitespace, is_alphanumeric, is_digit, is_alphabetic, to_lower,
}
use memoryd.Redact.{
  collect_bearer_spans, collect_known_secret_prefix_spans, collect_email_spans,
  is_secret_terminator, is_token_char,
}
use memoryd.Redact.Spans.{apply_redaction_spans}
use memoryd.Redact.Inline.{collect_spans, redact_inline_string_with_count}
use memoryd.Redact.Sorting.{sort}
use memoryd.Store.Audit.{insert_audit_log}
use memoryd.Store.Tables.{Tables, Approval, ApprovalState, Fact, FactState}
use memoryd.Store.Capture.{Failure}
use memoryd.Store.Approvals.{
  ApprovalDecision, decide_approval, decide_tx, decide_pending, decide_facts, commit_fact,
  insert_fact, supersede, update_approvals,
}
use memoryd.Store.Approvals.Decision.{decide_approval-IsUniqueActive, decide_twice}
use memoryd.Store.Approvals.Facts.{IsUniqueActive}
use memoryd.Tests.Data.{toy_engine, toy_codec, no_rows_at_all}

abbrev proposal : ApprovalState → Option ℤ → Approval
proposal state decided = record {
  id = "p";
  target_type = "profile_fact";
  target_ref = none;
  proposed_change = "{}";
  state = state;
  requested_at = pos 1;
  decided_at = decided;
}

abbrev fact : String → String → String → FactState → ℤ → Fact
fact id value approval state created = record {
  id = id;
  fact_key = "editor";
  fact_value = value;
  confidence = 0;
  source_memory_id = none;
  approval_id = approval;
  state = state;
  created_at = created;
}

-- One proposal for a key that has an active fact.
abbrev proposed : Tables
proposed = record no_rows_at_all {
  approvals = proposal ApprovalState.pending none ∷ [];
  facts = fact "f0" "ed" "old" FactState.active (pos 0) ∷ [];
}

abbrev approved : Tables
approved = record no_rows_at_all {
  approvals = proposal ApprovalState.approved (some (pos 9)) ∷ [];
  facts =
      fact "f0" "ed" "old" FactState.superseded (pos 0)
      ∷ fact "f1" "vim" "p" FactState.active (pos 9)
      ∷ [];
  audit_log =
      record {
        ts = pos 9;
        actor = "memoryd";
        action = "approve_profile_fact";
        target_type = "approval";
        target_ref = some "p";
        detail = none;
      }
      ∷ [];
}

abbrev committed : ApprovalDecision
committed = record {
  state = ApprovalState.approved;
  committed_fact = true;
  already_decided = false;
}

decide : Tables → Result Failure (ApprovalDecision × Tables)
unfolding decide_approval decide_tx decide_pending decide_facts commit_fact insert_fact supersede
    update_approvals insert_audit_log get get_field redact_inline_string_with_count collect_spans
    sort apply_redaction_spans collect_bearer_spans collect_known_secret_prefix_spans
    collect_email_spans is_secret_terminator is_token_char split_once byte_len slice_from slice_to
    slice char_indices_from as_bytes encode_utf8 len_utf8 contains one_of is_whitespace
    is_alphanumeric is_digit is_alphabetic to_lower
decide = decide_approval toy_codec toy_engine "p" true (pos 9) "f1"

first_decision : decide proposed ≡ ok (committed, approved)
unfolding decide
first_decision = refl

one_active : IsUniqueActive proposed.facts
one_active k = ground arith

decide_approval-IsUniqueActive_example : IsUniqueActive approved.facts
unfolding decide
decide_approval-IsUniqueActive_example =
    decide_approval-IsUniqueActive toy_codec toy_engine "p" true (pos 9) "f1" proposed approved
      committed first_decision one_active

decide_twice_example :
    decide_tx toy_codec toy_engine "p" "profile_fact" "{}" false (pos 10) "f2" approved
    ≡ ok (
      record { state = ApprovalState.approved; committed_fact = false; already_decided = true },
      approved,
    )
unfolding decide
decide_twice_example =
    decide_twice toy_codec toy_engine "p" "profile_fact" "{}" true false (pos 9) (pos 10) "f1" "f2"
      proposed approved committed first_decision
