-- ===== src/Tests/Capture.antt =====
-- Runs of a capture.
use memoryd.Prelude.{
  ℕ, Option, Bool, true, false, none, some, List, [], ◌∷◌, ◌≡◌, refl, Result, ok, decimal,
}
use memoryd.Prelude.Int.{pos}
use memoryd.Json.{object, end, field, string, get, get_field}
use memoryd.Text.{
  split_once, byte_len, slice_from, slice_to, slice, char_indices_from, as_bytes, encode_utf8,
  len_utf8, is_blank, contains, one_of, is_whitespace, is_alphanumeric, is_digit, is_alphabetic,
  to_lower,
}
use memoryd.Redact.{
  collect_bearer_spans, collect_known_secret_prefix_spans, collect_email_spans,
  is_secret_terminator, is_token_char,
}
use memoryd.Redact.Spans.{apply_redaction_spans}
use memoryd.Redact.Inline.{
  redact_value, redact_items, redact_fields, is_sensitive_key, collect_spans,
  redact_inline_string_with_count,
}
use memoryd.Redact.Sorting.{sort}
use memoryd.Store.Audit.{insert_audit_log}
use memoryd.Store.Queue.{active_job_count}
use memoryd.Store.Tables.{Tables, Job, JobState}
use memoryd.Store.Capture.{
  NewRawEvent, CaptureAck, Failure, capture_event_with_queue_limit, clean, append, audit_capture,
  enqueue, upsert_session, capture_fts_content, total_redactions,
}
use memoryd.Store.Capture.Stored.{Stores}
use memoryd.Store.Capture.Atomic.{IsCounted, capture-Stores, capture-IsCounted}
use memoryd.Tests.Data.{toy_engine, toy_codec, no_rows_at_all, embed_job}

abbrev pub greeting : NewRawEvent
greeting = record {
  session_id = "s";
  agent = "a";
  source = "hook";
  kind = "note";
  payload = object (field "text" (string "hi") end);
  provenance = object end;
  ts_ms = pos 7;
}

-- What a capture into empty tables leaves, with room for `jobs`.
abbrev pub kept : List Job → Tables
kept jobs = record no_rows_at_all {
  sessions = record { id = "s"; agent = "a"; started_at = pos 7; event_count = 1 } ∷ [];
  raw_events =
      record {
        id = 1;
        session_id = "s";
        ts = pos 7;
        source = "hook";
        kind = "note";
        payload = "{}";
        provenance = "{}";
        content_hash = none;
      }
      ∷ [];
  fts = record { raw_event_id = 1; content = "hi" } ∷ [];
  jobs = jobs;
  audit_log =
      record {
        ts = pos 9;
        actor = "memoryd";
        action = "capture.append";
        target_type = "raw_event";
        target_ref = some "1";
        detail = some "{}";
      }
      ∷ [];
}

abbrev pub ack : Option ℕ → Bool → CaptureAck
ack job degraded = record {
  raw_event_id = 1;
  session_id = "s";
  enqueued_job_id = job;
  degraded = degraded;
  processed = false;
}

-- A capture with all that it computes with.
unfoldable pub capture : ℕ → Tables → Result Failure (CaptureAck × Tables)
unfolding capture_event_with_queue_limit redact_inline_string_with_count collect_spans sort
    apply_redaction_spans collect_bearer_spans collect_known_secret_prefix_spans collect_email_spans
    is_secret_terminator is_token_char split_once byte_len slice_from slice_to slice
    char_indices_from as_bytes encode_utf8 len_utf8 contains one_of is_whitespace is_alphanumeric
    is_digit is_alphabetic to_lower redact_value redact_items redact_fields is_sensitive_key clean
    is_blank append audit_capture enqueue upsert_session capture_fts_content total_redactions
    active_job_count insert_audit_log decimal get get_field
capture limit t = capture_event_with_queue_limit toy_codec toy_engine greeting limit (pos 9) t

pub with_room :
    capture 1 no_rows_at_all
    ≡ ok (ack (some 1) false, kept (embed_job 1 JobState.pending 9 none ∷ []))
unfolding capture
with_room = refl

-- A queue without room takes no job, and the event is stored all the same.
without_room : capture 0 no_rows_at_all ≡ ok (ack none true, kept [])
unfolding capture
without_room = refl

capture-Stores_example :
    Stores toy_codec toy_engine greeting
      (pos 9)
      1
      no_rows_at_all
      (ack (some 1) false)
      (kept (embed_job 1 JobState.pending 9 none ∷ []))
unfolding capture
capture-Stores_example =
    capture-Stores toy_codec toy_engine greeting 1 (pos 9) no_rows_at_all
      (kept (embed_job 1 JobState.pending 9 none ∷ [])) (ack (some 1) false) with_room

capture-IsCounted_example : IsCounted (kept (embed_job 1 JobState.pending 9 none ∷ []))
unfolding capture
capture-IsCounted_example =
    capture-IsCounted toy_codec toy_engine greeting 1 (pos 9) no_rows_at_all
      (kept (embed_job 1 JobState.pending 9 none ∷ [])) (ack (some 1) false) with_room (λ k. refl)
