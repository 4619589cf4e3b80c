-- ===== src/Store/Capture.antt =====
-- `capture_event_with_queue_limit` of crates/memoryd-core/src/store.rs, with
-- `validate_capture_field` and `capture_fts_content`. The time of the clock is an argument.
pub mod Stored
pub mod Atomic
use memoryd.Prelude.{
  ℕ, zero, suc, ◌+◌, ◌≤◌, min, max, String, ◌<>◌, Bool, true, false, not, Option, none, some, List,
  [], ◌∷◌, ◌++◌, ltb, ◌is◌, if◌then◌else◌, Result, ok, err, ◌>>=◌, decimal,
}
use memoryd.Prelude.Int.{ℤ, pos, ltb_ℤ, i64_max}
use memoryd.Text.{is_blank}
use memoryd.Json.{
  Codec, Value, null, boolean, number, string, object, Fields, end, field, pos_int, get, as_str,
}
use memoryd.Redact.Spans.{Fault, Redacted, redacted}
use memoryd.Redact.Inline.{Engine, redact_inline_string_with_count, redact_value}
use memoryd.Store.Tables.{
  Tables, Session, RawEvent, FtsRow, Job, JobState, StoreError, invalid_capture_field,
}
use memoryd.Store.Audit.{insert_audit_log}
use memoryd.Store.Queue.{active_job_count}

pub record NewRawEvent : Type 0 where
  pub session_id : String
  pub agent : String
  pub source : String
  pub kind : String
  pub payload : Value
  pub provenance : Value
  pub ts_ms : ℤ

pub record CaptureAck : Type 0 where
  pub raw_event_id : ℕ
  pub session_id : String
  pub enqueued_job_id : Option ℕ
  pub degraded : Bool
  pub processed : Bool

-- An error that the store returns, or a panic of the redactor.
pub data Failure : Type 0 where
  store_error : StoreError → Failure
  fault : Fault → Failure

abbrev pub lift {ℓ} : {A : Type ℓ} → Result Fault A → Result Failure A
lift (ok a) = ok a
lift (err f) = err (fault f)

abbrev or_printed : Codec → Value → Option Value → String
or_printed C payload (some (string text)) = text
or_printed C payload _ = C.print payload

-- The text of a payload, or the payload printed.
unfoldable pub capture_fts_content : Codec → Value → String
capture_fts_content C payload = or_printed C payload (get "text" payload)

-- The event with its texts and values redacted, and the counts.
pub record Cleaned : Type 0 where
  pub event : NewRawEvent
  pub metadata_redactions : ℕ
  pub payload_redactions : ℕ
  pub provenance_redactions : ℕ

unfoldable pub total_redactions : Cleaned → ℕ
total_redactions c = c.metadata_redactions + c.payload_redactions + c.provenance_redactions

abbrev pub run_checks : List (String × String) → Result Failure (Unit {0})
run_checks [] = ok tt
run_checks ((name, value) ∷ rest) =
    if is_blank value then err (store_error (invalid_capture_field name)) else run_checks rest

unfoldable pub clean : Engine → NewRawEvent → Result Failure Cleaned
clean E e = do
  session ← lift (redact_inline_string_with_count E e.session_id)
  agent ← lift (redact_inline_string_with_count E e.agent)
  source ← lift (redact_inline_string_with_count E e.source)
  kind ← lift (redact_inline_string_with_count E e.kind)
  _ ← run_checks (
      ("session_id", session.value)
      ∷ ("agent", agent.value)
      ∷ ("source", source.value)
      ∷ ("kind", kind.value)
      ∷ [])
  payload ← lift (redact_value E e.payload)
  provenance ← lift (redact_value E e.provenance)
  ok (record {
    event = record {
      session_id = session.value;
      agent = agent.value;
      source = source.value;
      kind = kind.value;
      payload = payload.0;
      provenance = provenance.0;
      ts_ms = e.ts_ms;
    };
    metadata_redactions =
        session.redactions + agent.redactions + source.redactions + kind.redactions;
    payload_redactions = payload.1;
    provenance_redactions = provenance.1;
  })

-- INSERT INTO sessions … ON CONFLICT(id) DO UPDATE
unfoldable pub upsert_session : NewRawEvent → List Session → List Session
upsert_session e [] =
    record { id = e.session_id; agent = e.agent; started_at = e.ts_ms; event_count = 1 } ∷ []
upsert_session e (s ∷ rest) =
    if s.id is e.session_id
    then record s {
      started_at = if ltb_ℤ e.ts_ms s.started_at then e.ts_ms else s.started_at;
      event_count = s.event_count + 1;
    }
      ∷ rest
    else s ∷ upsert_session e rest

-- The row id that SQLite gives a new row of a table without AUTOINCREMENT.
abbrev pub max_id : List ℕ → ℕ
max_id [] = 0
max_id (k ∷ ks) = max k (max_id ks)

abbrev pub event_ids : List RawEvent → List ℕ
event_ids [] = []
event_ids (r ∷ rs) = r.id ∷ event_ids rs

abbrev pub job_row_ids : List Job → List ℕ
job_row_ids [] = []
job_row_ids (j ∷ js) = j.id ∷ job_row_ids js

abbrev maybe_id : Option ℕ → Value
maybe_id none = null
maybe_id (some n) = number (pos_int n)

module _ (C : Codec) where
  -- The payload of the job of an event.
  unfoldable pub job_payload : ℕ → NewRawEvent → Value
  job_payload id e = object (
      field "kind" (string e.kind) (
        field "raw_event_id" (number (pos_int id))
          (field "session_id" (string e.session_id) (field "source" (string e.source) end))))

  -- The row of an embed job.
  abbrev pub embed_row : ℕ → ℕ → NewRawEvent → ℤ → Job
  embed_row id event_id e scheduled_at = record {
    id = id;
    kind = "embed";
    priority = 100;
    state = JobState.pending;
    payload = C.print (job_payload event_id e);
    attempts = 0;
    scheduled_at = scheduled_at;
    started_at = none;
    finished_at = none;
    last_error = none;
  }

  -- INSERT INTO jobs, unless the queue is full.
  unfoldable pub enqueue : ℕ → ℕ → NewRawEvent → ℤ → List Job → Option ℕ × List Job
  unfolding job_payload
  enqueue max_active event_id e scheduled_at jobs =
      if ltb (active_job_count jobs) (min max_active i64_max)
      then (let id = suc (max_id (job_row_ids jobs)) in
          (some id, jobs ++ embed_row id event_id e scheduled_at ∷ []))
      else (none, jobs)

  abbrev is_none {ℓ} : {A : Type ℓ} → Option A → Bool
  is_none none = true
  is_none (some a) = false

  -- The `capture.append` entry, and `redaction.apply` if something was redacted.
  unfoldable pub audit_capture : ℕ → Cleaned → Option ℕ → ℤ → Tables → Tables
  audit_capture event_id c job now t =
      let e = c.event in
      let reference = some (decimal event_id) in
      let appended =
        insert_audit_log t "capture.append" "raw_event" reference
          (some (
            C.print (
              object (
                field "degraded" (boolean (is_none job)) (
                  field "enqueued_job_id" (maybe_id job) (
                    field "kind" (string e.kind) (
                      field "session_id" (string e.session_id)
                        (field "source" (string e.source) end))))))))
          now in
      if ltb 0 (total_redactions c)
      then insert_audit_log appended "redaction.apply" "raw_event" reference
          (some (
            C.print (
              object (
                field "metadata_redactions" (number (pos_int c.metadata_redactions)) (
                  field "payload_redactions" (number (pos_int c.payload_redactions)) (
                    field "provenance_redactions" (number (pos_int c.provenance_redactions)) (
                      field "redactions" (number (pos_int (total_redactions c)))
                        (field "replacement" (string redacted) end))))))))
          now
      else appended

  abbrev pub event_row : ℕ → NewRawEvent → RawEvent
  event_row id e = record {
    id = id;
    session_id = e.session_id;
    ts = e.ts_ms;
    source = e.source;
    kind = e.kind;
    payload = C.print e.payload;
    provenance = C.print e.provenance;
    content_hash = none;
  }

  -- The transaction.
  unfoldable pub append : Cleaned → ℕ → ℤ → Tables → CaptureAck × Tables
  unfolding audit_capture enqueue upsert_session capture_fts_content
  append c max_active now t =
      let e = c.event in
      let id = suc (max_id (event_ids t.raw_events)) in
      let (job, jobs) = enqueue max_active id e now t.jobs in
      let search : FtsRow = record {
        raw_event_id = id;
        content = capture_fts_content C e.payload;
      } in
      (
        record {
          raw_event_id = id;
          session_id = e.session_id;
          enqueued_job_id = job;
          degraded = is_none job;
          processed = false;
        },
        audit_capture id c job now (record t {
          sessions = upsert_session e t.sessions;
          raw_events = t.raw_events ++ event_row id e ∷ [];
          fts = t.fts ++ search ∷ [];
          jobs = jobs;
        }),
      )

  unfoldable pub capture_event_with_queue_limit :
      Engine → NewRawEvent → ℕ → ℤ → Tables → Result Failure (CaptureAck × Tables)
  unfolding clean append
  capture_event_with_queue_limit E e max_active now t =
      clean E e >>= λ c. ok (append c max_active now t)
