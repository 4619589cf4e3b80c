-- ===== src/Store/Staging.antt =====
-- Staging imported units in crates/memoryd-core/src/store.rs: `begin_import_batch`,
-- `stage_import_unit`, `import_summary` and `import_units`. The time of the clock is an argument,
-- and so is the id that SQLite draws at random for a new batch.
pub mod Rows
pub mod Again
pub mod Loop
pub mod Counts
pub mod Imports
pub mod Repeats
pub mod Sound
use memoryd.Prelude.{
  ℕ, suc, ◌+◌, min, String, ◌<>◌, Bool, true, false, ◌&&◌, Option, none, some, List, [], ◌∷◌, ◌++◌,
  map, ltb, leb, ◌==◌, ◌is◌, if◌then◌else◌, length, any, find, Result, ok, err, ◌>>=◌, ok_or,
  decimal,
}
use memoryd.Prelude.Int.{ℤ, i64_max}
use memoryd.Json.{Codec, object, end, field, pos_int, number, string}
use memoryd.Redact.Spans.{Fault, Redacted, redacted}
use memoryd.Redact.Inline.{Engine, redact_inline_string_with_count}
use memoryd.Import.{ImportUnit, content_hash, unwrap_or}
use memoryd.Store.Tables.{
  Tables, RawEvent, FtsRow, Job, ImportBatch, BatchState, StoreError, no_rows,
}
use memoryd.Store.Audit.{insert_audit_log}
use memoryd.Store.Queue.{active_job_count}
use memoryd.Store.Capture.{
  NewRawEvent, Failure, store_error, lift, run_checks, upsert_session, max_id, event_ids,
  job_row_ids, embed_row, event_row, capture_fts_content, job_payload,
}

pub record ImportSummary : Type 0 where
  pub batch_id : String
  pub source : String
  pub path : String
  pub total : ℕ
  pub processed : ℕ
  pub skipped : ℕ
  pub state : BatchState

pub data StageOutcome : Type 0 where
  staged skipped paused : StageOutcome

-- The row that a batch begins with.
abbrev pub fresh_batch : String → String → String → ℕ → ℤ → ImportBatch
fresh_batch id source path total now = record {
  id = id;
  source = source;
  path_or_uri = path;
  total = min total i64_max;
  processed = 0;
  skipped = 0;
  state = BatchState.staging;
  started_at = now;
  finished_at = none;
}

-- ON CONFLICT(source, path_or_uri) DO UPDATE
abbrev pub reset_batch : ℕ → ImportBatch → ImportBatch
reset_batch total b = record b {
  total = min total i64_max;
  state = BatchState.staging;
  processed = 0;
  skipped = 0;
  finished_at = none;
}

-- The id of the batch, and the batches.
unfoldable pub begin_import_batch :
    String → String → ℕ → ℤ → String → List ImportBatch → String × List ImportBatch
begin_import_batch source path total now id [] = (id, fresh_batch id source path total now ∷ [])
begin_import_batch source path total now id (b ∷ rest) =
    let later = begin_import_batch source path total now id rest in
    if (b.source is source) && (b.path_or_uri is path)
    then (b.id, reset_batch total b ∷ rest)
    else (later.0, b ∷ later.1)

-- UPDATE import_batches … WHERE id = ?
abbrev pub at_batch : String → (ImportBatch → ImportBatch) → ImportBatch → ImportBatch
at_batch id f b = if b.id is id then f b else b

unfoldable pub update_batch :
    String → (ImportBatch → ImportBatch) → List ImportBatch → List ImportBatch
update_batch id f = map (at_batch id f)

abbrev pub count_skipped : ImportBatch → ImportBatch
count_skipped b = record b { skipped = b.skipped + 1 }

abbrev pub count_processed : ImportBatch → ImportBatch
count_processed b = record b { processed = b.processed + 1 }

-- `content_hash = ?1`, which NULL fails.
abbrev pub same_bytes : List ℕ → List ℕ → Bool
same_bytes [] [] = true
same_bytes (a ∷ as') (b ∷ bs) = (a == b) && same_bytes as' bs
same_bytes _ _ = false

abbrev pub has_hash : List ℕ → Option (List ℕ) → Bool
has_hash hash none = false
has_hash hash (some h) = same_bytes h hash

-- `WHERE content_hash = ?1 AND kind = 'import'`
unfoldable pub is_imported : List ℕ → RawEvent → Bool
is_imported hash r = has_hash hash r.content_hash && (r.kind is "import")

unfoldable pub already_imported : List ℕ → List RawEvent → Bool
unfolding is_imported
already_imported hash rows = any (is_imported hash) rows

-- The event of a unit, and the number of redactions in its texts.
pub record Cleared : Type 0 where
  pub event : NewRawEvent
  pub redactions : ℕ

-- The event of a unit whose text is redacted already: its names are redacted and checked.
unfoldable pub clear_unit :
    Engine → String → String → String → ImportUnit → Redacted → ℤ → Result Failure Cleared
clear_unit E batch_id source path u text batch_ts = do
  session ← lift (redact_inline_string_with_count E u.session_id)
  agent ← lift (redact_inline_string_with_count E u.agent)
  event_source ← lift (redact_inline_string_with_count E u.source)
  _ ←
      run_checks (
        ("session_id", session.value)
        ∷ ("agent", agent.value)
        ∷ ("source", event_source.value)
        ∷ [])
  ok (record {
    event = record {
      session_id = session.value;
      agent = agent.value;
      source = event_source.value;
      kind = "import";
      payload = object (field "text" (string text.value) end);
      provenance = object (
          field "import_batch" (string batch_id)
            (field "import_source" (string source) (field "path" (string path) end)));
      ts_ms = unwrap_or u.ts_ms batch_ts;
    };
    redactions = text.redactions + session.redactions + agent.redactions + event_source.redactions;
  })

module _ (C : Codec) where
  -- The audit entries of a staged unit.
  unfoldable pub audit_stage : String → ℕ → NewRawEvent → ℕ → ℤ → Tables → Tables
  audit_stage batch_id event_id e redactions ts t =
      let reference = some (decimal event_id) in
      let staged =
        insert_audit_log t "import.stage" "raw_event" reference
          (some (
            C.print (
              object (
                field "import_batch" (string batch_id) (
                  field "session_id" (string e.session_id)
                    (field "source" (string e.source) end))))))
          ts in
      if ltb 0 redactions
      then insert_audit_log staged "redaction.apply" "raw_event" reference
          (some (
            C.print (
              object (
                field "redactions" (number (pos_int redactions))
                  (field "replacement" (string redacted) end)))))
          ts
      else staged

  -- The inserts of a unit that is staged.
  unfoldable pub insert_unit : String → List ℕ → ℤ → Cleared → Tables → Tables
  unfolding audit_stage upsert_session capture_fts_content job_payload update_batch
  insert_unit batch_id hash batch_ts c t =
      let e = c.event in
      let id = suc (max_id (event_ids t.raw_events)) in
      let event : RawEvent = record (event_row C id e) { content_hash = some hash } in
      let search : FtsRow = record {
        raw_event_id = id;
        content = capture_fts_content C e.payload;
      } in
      let inserted = record t {
        sessions = upsert_session e t.sessions;
        raw_events = t.raw_events ++ event ∷ [];
        fts = t.fts ++ search ∷ [];
        jobs = t.jobs ++ embed_row C (suc (max_id (job_row_ids t.jobs))) id e batch_ts ∷ [];
      } in
      let audited = audit_stage batch_id id e c.redactions batch_ts inserted in
      record audited { import_batches = update_batch batch_id count_processed t.import_batches }

  module _ (E : Engine) (batch_id source path : String) (max_active : ℕ) (batch_ts : ℤ) where
    -- What is done with a unit whose text is redacted.
    unfoldable pub stage_redacted :
        ImportUnit → Redacted → Tables → Result Failure (StageOutcome × Tables)
    unfolding insert_unit already_imported update_batch clear_unit
    stage_redacted u text t =
        let hash = content_hash source text.value in
        if already_imported hash t.raw_events
        then ok (
          skipped,
          record t { import_batches = update_batch batch_id count_skipped t.import_batches },
        )
        else if leb (min max_active i64_max) (active_job_count t.jobs)
        then ok (paused, t)
        else (clear_unit E batch_id source path u text batch_ts >>= λ c.
            ok (staged, insert_unit batch_id hash batch_ts c t))

    -- A transaction: an error leaves the tables as they were.
    unfoldable pub stage_import_unit : ImportUnit → Tables → Result Failure (StageOutcome × Tables)
    unfolding stage_redacted
    stage_import_unit u t =
        lift (redact_inline_string_with_count E u.text) >>= λ text. stage_redacted u text t

    -- Whether the loop was paused, or its error, and the tables either way.
    unfoldable pub stage_units : List ImportUnit → Tables → Result Failure Bool × Tables
    unfolding stage_import_unit
    stage_units [] t = (ok false, t)
    stage_units (u ∷ us) t = elim (stage_import_unit u t) [
      | err e ↦ (err e, t)
      | ok (outcome, v) ↦ elim outcome [
        | staged ↦ stage_units us v
        | skipped ↦ stage_units us v
        | paused ↦ (ok true, v)
      ]
    ]

-- UPDATE import_batches SET state = ?1, finished_at = ?2
abbrev pub finish : Bool → ℤ → ImportBatch → ImportBatch
finish was_paused now b = record b {
  state = if was_paused then BatchState.paused else BatchState.completed;
  finished_at = if was_paused then none else some now;
}

unfoldable pub import_summary :
    String → String → String → List ImportBatch → Result Failure ImportSummary
import_summary batch_id source path batches =
    ok_or (find (λ b. b.id is batch_id) batches) (store_error no_rows) >>= λ b. ok (record {
      batch_id = batch_id;
      source = source;
      path = path;
      total = b.total;
      processed = b.processed;
      skipped = b.skipped;
      state = b.state;
    })

abbrev pub finish_import :
    String
    → String
    → String
    → ℤ
    → Result Failure Bool × Tables
    → Result Failure ImportSummary × Tables
finish_import batch_id source path now (err e, t) = (err e, t)
finish_import batch_id source path now (ok was_paused, t) =
    let batches = update_batch batch_id (finish was_paused now) t.import_batches in
    (import_summary batch_id source path batches, record t { import_batches = batches })

-- Each statement and each unit is committed by itself, so an error keeps the units before it.
unfoldable pub import_units :
    Codec
    → Engine
    → String
    → String
    → List ImportUnit
    → ℕ
    → ℤ
    → String
    → Tables
    → Result Failure ImportSummary × Tables
unfolding begin_import_batch stage_units import_summary update_batch
import_units C E source path units max_active now new_id t =
    let (id, batches) = begin_import_batch source path (length units) now new_id t.import_batches in
    finish_import id source path now
      (stage_units C E id source path max_active now units (record t { import_batches = batches }))
