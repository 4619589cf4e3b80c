-- ===== src/Store/Capture/Atomic.antt =====
-- What a capture leaves in the tables: one event, one search row, at most one job, and the count
-- of its session.

use memoryd.Prelude.{
  ℕ, suc, ◌+◌, String, Option, List, [], ◌∷◌, ◌++◌, ◌≡◌, refl, subst, ok-injective, inl, inr, arith,
  ltb, ◌is◌, eq_iff, if◌then◌else◌, length, count, count-append, length-append, ok, >>=-eq-ok,
  Bool-cases,
}
use memoryd.Prelude.Int.{ℤ}
use memoryd.Json.{Codec, get}
use memoryd.Redact.Inline.{Engine}
use memoryd.Store.Tables.{Tables, Session, RawEvent, Job, JobState}
use memoryd.Store.Audit.{insert_audit_log}
use memoryd.Store.Queue.{active_job_count, is_active}
use memoryd.Store.Capture.{
  CaptureAck, NewRawEvent, Cleaned, clean, append, upsert_session, total_redactions, audit_capture,
  capture_event_with_queue_limit, max_id, event_ids, event_row, capture_fts_content,
}
use memoryd.Store.Capture.Stored.{
  IsRedaction, clean-IsRedaction, content-IsSearchText, below_max_id, Stores, enqueue_row,
}

-- The events of a session, and the number that the session's row keeps.
abbrev pub events_of : String → List RawEvent → ℕ
events_of k rows = count (λ r. r.session_id is k) rows

abbrev pub counted : String → List Session → ℕ
counted k [] = 0
counted k (s ∷ rest) = if s.id is k then s.event_count else counted k rest

-- Every session's row counts its events.
abbrev pub IsCounted : Tables → Type 0
IsCounted t = (k : String) → counted k t.sessions ≡ events_of k t.raw_events

pub counted-upsert_session :
    (k : String) (e : NewRawEvent) (rows : List Session)
    → counted k (upsert_session e rows)
      ≡ (if e.session_id is k then suc (counted k rows) else counted k rows)
unfolding upsert_session
counted-upsert_session k e [] = ground arith
counted-upsert_session k e (s ∷ rest) = ground (
  arith,
  counted-upsert_session k e rest,
  eq_iff s.id e.session_id,
  eq_iff s.id k,
  eq_iff e.session_id k,
)

module _ (C : Codec) where
  -- The audit entries leave the other tables alone.
  audit_capture_lem :
      (id : ℕ) (c : Cleaned) (job : Option ℕ) (now : ℤ) (t : Tables)
      → let u = audit_capture C id c job now t in
        (u.sessions ≡ t.sessions)
        × (u.raw_events ≡ t.raw_events)
        × (u.jobs ≡ t.jobs)
        × (u.fts ≡ t.fts)
        × (length u.audit_log ≡ length t.audit_log + (if ltb 0 (total_redactions c) then 2 else 1))
  unfolding audit_capture insert_audit_log
  audit_capture_lem id c job now t = elim (Bool-cases (ltb 0 (total_redactions c))) [
    | inl hidden ↦ (
      rw (hidden, audit_capture),
      rw (hidden, audit_capture),
      rw (hidden, audit_capture),
      rw (hidden, audit_capture),
      rw (hidden, audit_capture) (rw (length-append {0}, length-append {0}) (omega arith)),
    )
    | inr plain ↦ (
      rw (plain, audit_capture),
      rw (plain, audit_capture),
      rw (plain, audit_capture),
      rw (plain, audit_capture),
      rw (plain, audit_capture) (rw length-append refl),
    )
  ]

  sessions-audit_capture :
      (id : ℕ) (c : Cleaned) (job : Option ℕ) (now : ℤ) (t : Tables)
      → (audit_capture C id c job now t).sessions ≡ t.sessions
  sessions-audit_capture id c job now t = (audit_capture_lem id c job now t).0

  pub raw_events-audit_capture :
      (id : ℕ) (c : Cleaned) (job : Option ℕ) (now : ℤ) (t : Tables)
      → (audit_capture C id c job now t).raw_events ≡ t.raw_events
  raw_events-audit_capture id c job now t = (audit_capture_lem id c job now t).1

  pub jobs-audit_capture :
      (id : ℕ) (c : Cleaned) (job : Option ℕ) (now : ℤ) (t : Tables)
      → (audit_capture C id c job now t).jobs ≡ t.jobs
  jobs-audit_capture id c job now t = (audit_capture_lem id c job now t).2

  fts-audit_capture :
      (id : ℕ) (c : Cleaned) (job : Option ℕ) (now : ℤ) (t : Tables)
      → (audit_capture C id c job now t).fts ≡ t.fts
  fts-audit_capture id c job now t = (audit_capture_lem id c job now t).3

  pub events_of-snoc :
      (k : String) (r : RawEvent) (rows : List RawEvent)
      → events_of k (rows ++ r ∷ [])
        ≡ (if r.session_id is k then suc (events_of k rows) else events_of k rows)
  events_of-snoc k r rows =
      ground (arith, count-append (λ (x : RawEvent). x.session_id is k) rows (r ∷ []))

  append-IsCounted :
      (c : Cleaned) (max_active : ℕ) (now : ℤ) (t : Tables)
      → IsCounted t
      → IsCounted (append C c max_active now t).1
  unfolding append
  append-IsCounted c max_active now t h k =
      rw (sessions-audit_capture, raw_events-audit_capture)
        (ground (
          arith,
          counted-upsert_session k c.event t.sessions,
          h k,
          events_of-snoc k (event_row C (suc (max_id (event_ids t.raw_events))) c.event)
              t.raw_events,
        ))

  pub count_active-snoc :
      (j : Job) (jobs : List Job)
      → j.state ≡ JobState.pending
      → active_job_count (jobs ++ j ∷ []) ≡ suc (active_job_count jobs)
  unfolding active_job_count
  count_active-snoc j jobs h =
      ground (arith, count-append (λ (x : Job). is_active x.state) jobs (j ∷ []))

  append-Stores :
      (E : Engine) (e : NewRawEvent) (c : Cleaned) (max_active : ℕ) (now : ℤ) (t : Tables)
      → IsRedaction E e c.event
      → let r = append C c max_active now t in Stores C E e now max_active t r.0 r.1
  unfolding append
  append-Stores E e c max_active now t redaction = record {
    event = c.event;
    cleaned = redaction;
    new = below_max_id (event_ids t.raw_events);
    session = refl;
    row = rw (raw_events-audit_capture, redaction.time) refl;
    content = capture_fts_content C c.event.payload;
    searched = content-IsSearchText C c.event.payload (get "text" c.event.payload) refl;
    search_row = rw fts-audit_capture refl;
    job =
        rw jobs-audit_capture
          (elim (enqueue_row C max_active (suc (max_id (event_ids t.raw_events))) c.event now
            t.jobs) [
              | inl (refused, same, full) ↦ inl (rw refused refl, refused, same, full)
              | inr (i, taken, new_id, more, room) ↦
                  inr (i, rw taken refl, taken, new_id, more, room)
            ]);
  }

  -- A capture that succeeds adds one event row, under an id above all that are there and that the
  -- answer names, with the redacted session, source, kind, payload and provenance of the event and
  -- its time, and one search row with the text of the redacted payload, or with that payload
  -- printed if it has no text. If the queue is below its limit it also adds an embed job for the
  -- event, under a new id that the answer names, and if it is not, the jobs stay and the answer is
  -- marked degraded.
  pub capture-Stores :
      (E : Engine) (e : NewRawEvent) (max_active : ℕ) (now : ℤ) (t u : Tables) (a : CaptureAck)
      → capture_event_with_queue_limit C E e max_active now t ≡ ok (a, u)
      → Stores C E e now max_active t a u
  unfolding capture_event_with_queue_limit
  capture-Stores E e max_active now t u a h =
      let (c, cleaned, h') = >>=-eq-ok (clean E e) _ h in
      subst (λ r. Stores C E e now max_active t r.0 r.1) (ok-injective h')
        (append-Stores E e c max_active now t (clean-IsRedaction E e c cleaned))

  -- A capture that succeeds keeps every session's count of its events.
  pub capture-IsCounted :
      (E : Engine) (e : NewRawEvent) (max_active : ℕ) (now : ℤ) (t u : Tables) (a : CaptureAck)
      → capture_event_with_queue_limit C E e max_active now t ≡ ok (a, u)
      → IsCounted t
      → IsCounted u
  unfolding capture_event_with_queue_limit
  capture-IsCounted E e max_active now t u a h counts =
      let (c, cleaned, h') = >>=-eq-ok (clean E e) _ h in
      subst (λ r. IsCounted r.1) (ok-injective h') (append-IsCounted c max_active now t counts)
