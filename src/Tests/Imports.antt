-- ===== src/Tests/Imports.antt =====
-- Runs of an import.
use memoryd.Prelude.{none, [], ◌∷◌, ◌≡◌, refl, Result, ok, decimal, min, arith}
use memoryd.Prelude.Int.{pos, i64_max}
use memoryd.Json.{get, get_field}
use memoryd.Text.{
  split_once, byte_len, slice_from, slice_to, slice, char_indices_from, as_bytes, encode_utf8,
  len_utf8, is_blank, contains, one_of, is_whitespace, is_alphanumeric, is_digit, is_alphabetic,
  to_lower, split_whitespace, join,
}
use memoryd.Redact.{
  collect_bearer_spans, collect_known_secret_prefix_spans, collect_email_spans,
  is_secret_terminator, is_token_char,
}
use memoryd.Redact.Spans.{apply_redaction_spans}
use memoryd.Redact.Inline.{collect_spans, redact_inline_string_with_count}
use memoryd.Redact.Sorting.{sort}
use memoryd.Import.{ImportUnit, content_hash, normalize, mix, to_le_bytes}
use memoryd.Import.Iso8601.{days_from_civil}
use memoryd.Store.Audit.{insert_audit_log}
use memoryd.Store.Queue.{active_job_count}
use memoryd.Store.Tables.{Tables, BatchState}
use memoryd.Store.Capture.{Failure, upsert_session, capture_fts_content, job_payload}
use memoryd.Store.Staging.{
  ImportSummary, import_units, begin_import_batch, stage_units, stage_import_unit, stage_redacted,
  insert_unit, audit_stage, clear_unit, update_batch, import_summary, is_imported, already_imported,
}
use memoryd.Store.Staging.Imports.{IsAccounted, import_units-IsAccounted}
use memoryd.Tui.{civil_from_days}
use memoryd.Tui.Calendar.Dates.{civil_from_days-days_from_civil}
use memoryd.Tests.Data.{toy_engine, toy_codec, no_rows_at_all}

abbrev note : ImportUnit
note = record { text = "hi"; session_id = "s"; agent = "a"; source = "import"; ts_ms = none }

-- Two units with one text, imported into empty tables.
unfoldable imported : Result Failure ImportSummary × Tables
unfolding import_units begin_import_batch stage_units stage_import_unit stage_redacted insert_unit
    audit_stage clear_unit update_batch import_summary is_imported already_imported content_hash
    normalize mix to_le_bytes split_whitespace join redact_inline_string_with_count collect_spans
    sort apply_redaction_spans collect_bearer_spans collect_known_secret_prefix_spans
    collect_email_spans is_secret_terminator is_token_char split_once byte_len slice_from slice_to
    slice char_indices_from as_bytes encode_utf8 len_utf8 contains one_of is_whitespace
    is_alphanumeric is_digit is_alphabetic to_lower is_blank upsert_session capture_fts_content
    job_payload active_job_count insert_audit_log decimal get get_field
imported =
    import_units toy_codec toy_engine "jsonl" "p" (note ∷ note ∷ []) 5 (pos 9) "b" no_rows_at_all

abbrev summary : ImportSummary
summary = record {
  batch_id = "b";
  source = "jsonl";
  path = "p";
  total = 2;
  processed = 1;
  skipped = 1;
  state = BatchState.completed;
}

one_of_two : imported.0 ≡ ok summary
unfolding imported
one_of_two = refl

import_units-IsAccounted_example : IsAccounted (min 5 i64_max) 2 no_rows_at_all imported.1 summary
unfolding imported
import_units-IsAccounted_example =
    import_units-IsAccounted toy_codec toy_engine "jsonl" "p" 5 (note ∷ note ∷ []) (pos 9) "b"
      no_rows_at_all summary tt tt one_of_two

-- The 29th of February 2024.
civil_from_days-days_from_civil_example :
    civil_from_days (days_from_civil (pos 2024) 2 29) ≡ (pos 2024, 2, 29)
civil_from_days-days_from_civil_example =
    civil_from_days-days_from_civil 2024 2 29 (omega arith) (omega arith) (omega arith)
      (omega arith)
