-- ===== src/Store/Capture/Stored.antt =====
-- What a captured event becomes: its row, its search row and its job, written out from the event.
use memoryd.Prelude.{
  ℕ, suc, ◌<◌, ◌≤◌, max, min, String, true, false, Option, none, some, List, [], ◌∷◌, ◌++◌, All,
  ◌≡◌, ◌≢◌, refl, ◌⊎◌, inl, inr, arith, Result, ok, err, >>=-eq-ok, ltb, ltb→lt, Bool-cases, subst,
  ok-injective,
}
use memoryd.Prelude.Int.{ℤ, i64_max}
use memoryd.Json.{
  Codec, Value, null, boolean, number, string, array, object, end, field, pos_int, get,
}
use memoryd.Redact.Spans.{Fault}
use memoryd.Redact.Inline.{Engine, redact_inline_string_with_count, redact_value}
use memoryd.Store.Tables.{Tables, Job, JobState}
use memoryd.Store.Queue.{active_job_count}
use memoryd.Store.Capture.{
  CaptureAck, NewRawEvent, lift, Cleaned, clean, run_checks, capture_fts_content, enqueue,
  event_ids, job_row_ids, max_id, job_payload,
}

-- The event with its texts and values redacted.
pub record IsRedaction (E : Engine) (e r : NewRawEvent) : Type 0 where
  pub session :
      (n : ℕ) × (redact_inline_string_with_count E e.session_id
        ≡ ok (record { value = r.session_id; redactions = n }))
  pub agent :
      (n : ℕ) × (redact_inline_string_with_count E e.agent
        ≡ ok (record { value = r.agent; redactions = n }))
  pub source :
      (n : ℕ) × (redact_inline_string_with_count E e.source
        ≡ ok (record { value = r.source; redactions = n }))
  pub kind :
      (n : ℕ) × (redact_inline_string_with_count E e.kind
        ≡ ok (record { value = r.kind; redactions = n }))
  pub payload : (n : ℕ) × (redact_value E e.payload ≡ ok (r.payload, n))
  pub provenance : (n : ℕ) × (redact_value E e.provenance ≡ ok (r.provenance, n))
  pub time : r.ts_ms ≡ e.ts_ms

lift-eq-ok {ℓ} : {A : Type ℓ} (r : Result Fault A) (a : A) → lift r ≡ ok a → r ≡ ok a
lift-eq-ok (ok b) a h = cc
lift-eq-ok (err f) a h = cc

pub clean-IsRedaction :
    (E : Engine) (e : NewRawEvent) (c : Cleaned) → clean E e ≡ ok c → IsRedaction E e c.event
unfolding clean
clean-IsRedaction E e c h =
    let (session, hs, h1) = >>=-eq-ok (lift (redact_inline_string_with_count E e.session_id)) _ h in
    let (agent, ha, h2) = >>=-eq-ok (lift (redact_inline_string_with_count E e.agent)) _ h1 in
    let (source, hso, h3) = >>=-eq-ok (lift (redact_inline_string_with_count E e.source)) _ h2 in
    let (kind, hk, h4) = >>=-eq-ok (lift (redact_inline_string_with_count E e.kind)) _ h3 in
    let texts =
      ("session_id", session.value)
      ∷ ("agent", agent.value)
      ∷ ("source", source.value)
      ∷ ("kind", kind.value)
      ∷ [] in
    let (_, _, h5) = >>=-eq-ok (run_checks texts) _ h4 in
    let (payload, hp, h6) = >>=-eq-ok (lift (redact_value E e.payload)) _ h5 in
    let (provenance, hpr, h7) = >>=-eq-ok (lift (redact_value E e.provenance)) _ h6 in
    subst (λ x. IsRedaction E e x.event) (ok-injective h7)
      (record {
        session = (session.redactions, lift-eq-ok _ _ hs);
        agent = (agent.redactions, lift-eq-ok _ _ ha);
        source = (source.redactions, lift-eq-ok _ _ hso);
        kind = (kind.redactions, lift-eq-ok _ _ hk);
        payload = (payload.1, lift-eq-ok _ _ hp);
        provenance = (provenance.1, lift-eq-ok _ _ hpr);
        time = refl;
      })

-- The text that a payload is searched by: its text, or the payload printed if it has none.
abbrev pub IsSearchText : Codec → Value → String → Type 0
IsSearchText C payload text =
    (get "text" payload ≡ some (string text))
    ⊎ (((s : String) → get "text" payload ≢ some (string s)) × (text ≡ C.print payload))

pub content-IsSearchText :
    (C : Codec) (payload : Value) (o : Option Value)
    → get "text" payload ≡ o
    → IsSearchText C payload (capture_fts_content C payload)
unfolding capture_fts_content
content-IsSearchText C payload none h = rw h (inr (λ s e. cc, refl))
content-IsSearchText C payload (some (string s)) h = rw h (inl refl)
content-IsSearchText C payload (some null) h = rw h (inr (λ s e. cc, refl))
content-IsSearchText C payload (some (boolean b)) h = rw h (inr (λ s e. cc, refl))
content-IsSearchText C payload (some (number n)) h = rw h (inr (λ s e. cc, refl))
content-IsSearchText C payload (some (array vs)) h = rw h (inr (λ s e. cc, refl))
content-IsSearchText C payload (some (object fs)) h = rw h (inr (λ s e. cc, refl))

max_id_mono : (n m : ℕ) (ks : List ℕ) → n ≤ m → All (λ i. i < suc n) ks → All (λ i. i < suc m) ks
max_id_mono n m [] h a = tt
max_id_mono n m (i ∷ ks) h (a, rest) = (omega arith, max_id_mono n m ks h rest)

pub below_max_id : (ks : List ℕ) → All (λ i. i < suc (max_id ks)) ks
below_max_id [] = tt
below_max_id (i ∷ ks) =
    (omega arith, max_id_mono (max_id ks) (max i (max_id ks)) ks (omega arith) (below_max_id ks))

module _ (C : Codec) where
  -- The job of an event: an embed job that is due at once, with the event in its payload.
  abbrev pub job_of : ℕ → ℕ → NewRawEvent → ℤ → Job
  job_of id event_id r now = record {
    id = id;
    kind = "embed";
    priority = 100;
    state = JobState.pending;
    payload = C.print (
        object (
          field "kind" (string r.kind) (
            field "raw_event_id" (number (pos_int event_id))
              (field "session_id" (string r.session_id) (field "source" (string r.source) end)))));
    attempts = 0;
    scheduled_at = now;
    started_at = none;
    finished_at = none;
    last_error = none;
  }

  -- What a capture of the event `e` answers and leaves in the tables.
  pub record Stores (E : Engine) (e : NewRawEvent) (now : ℤ) (max_active : ℕ) (t : Tables)
      (a : CaptureAck) (u : Tables) : Type 0 where
    pub event : NewRawEvent
    pub cleaned : IsRedaction E e event
    pub new : All (λ i. i < a.raw_event_id) (event_ids t.raw_events)
    pub session : a.session_id ≡ event.session_id
    pub row :
        u.raw_events
        ≡ t.raw_events
          ++ record {
            id = a.raw_event_id;
            session_id = event.session_id;
            ts = e.ts_ms;
            source = event.source;
            kind = event.kind;
            payload = C.print event.payload;
            provenance = C.print event.provenance;
            content_hash = none;
          }
            ∷ []
    pub content : String
    pub searched : IsSearchText C event.payload content
    pub search_row :
        u.fts ≡ t.fts ++ record { raw_event_id = a.raw_event_id; content = content } ∷ []
    pub job :
        ((a.degraded ≡ true)
          × (a.enqueued_job_id ≡ none)
          × (u.jobs ≡ t.jobs)
          × (min max_active i64_max ≤ active_job_count t.jobs))
        ⊎ ((i : ℕ) × (a.degraded ≡ false)
            × (a.enqueued_job_id ≡ some i)
            × All (λ k. k < i) (job_row_ids t.jobs)
            × (u.jobs ≡ t.jobs ++ job_of i a.raw_event_id event now ∷ [])
            × (active_job_count t.jobs < min max_active i64_max))

  -- The queue takes a job exactly when it is below the limit.
  pub enqueue_row :
      (max_active event_id : ℕ) (r : NewRawEvent) (now : ℤ) (jobs : List Job)
      → let q = enqueue C max_active event_id r now jobs in
        let limit = min max_active i64_max in
        ((q.0 ≡ none) × (q.1 ≡ jobs) × (limit ≤ active_job_count jobs))
        ⊎ ((i : ℕ) × (q.0 ≡ some i)
            × All (λ k. k < i) (job_row_ids jobs)
            × (q.1 ≡ jobs ++ job_of i event_id r now ∷ [])
            × (active_job_count jobs < limit))
  unfolding enqueue job_payload
  enqueue_row max_active event_id r now jobs =
      elim (Bool-cases (ltb (active_job_count jobs) (min max_active i64_max))) [
        | inl room ↦
            rw room (inr (_, refl, below_max_id (job_row_ids jobs), refl, omega (arith, ltb→lt)))
        | inr full ↦ rw full (inl (refl, refl, ground arith))
      ]
