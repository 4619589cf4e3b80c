-- ===== src/Store/Staging/Rows.antt =====
-- What staging one unit does to the rows of the tables.
use memoryd.Prelude.{
  ℕ, suc, ◌≤◌, ◌<◌, min, String, Bool, true, false, some, List, [], ◌∷◌, ◌++◌, ◌≡◌, refl, sym, ap,
  subst, inl, inr, arith, ltb, leb, any, ok, err, >>=-eq-ok, ok-injective, Bool-cases, Result,
  leb→le,
}
use memoryd.Prelude.Int.{ℤ, i64_max}
use memoryd.Json.{Codec}
use memoryd.Redact.Spans.{Fault, Redacted}
use memoryd.Redact.Inline.{Engine, redact_inline_string_with_count}
use memoryd.Import.{ImportUnit, content_hash}
use memoryd.Store.Tables.{Tables, RawEvent}
use memoryd.Store.Audit.{insert_audit_log}
use memoryd.Store.Queue.{active_job_count}
use memoryd.Store.Capture.{
  NewRawEvent, Failure, lift, run_checks, max_id, event_ids, job_row_ids, embed_row, event_row,
  upsert_session,
}
use memoryd.Store.Staging.{
  StageOutcome, staged, skipped, paused, Cleared, audit_stage, insert_unit, clear_unit,
  stage_redacted, stage_import_unit, update_batch, count_skipped, count_processed, is_imported,
  already_imported, same_bytes,
}

pub same_bytes_refl : (bs : List ℕ) → same_bytes bs bs ≡ true
same_bytes_refl [] = refl
same_bytes_refl (b ∷ bs) = ground (arith, same_bytes_refl bs)

pub same_bytes→eq : (as' bs : List ℕ) → same_bytes as' bs ≡ true → as' ≡ bs
same_bytes→eq [] [] h = refl
same_bytes→eq [] (b ∷ bs) h = cc
same_bytes→eq (a ∷ as') [] h = cc
same_bytes→eq (a ∷ as') (b ∷ bs) h = ground (arith, same_bytes→eq as' bs)

any-append {ℓ} :
    {A : Type ℓ} (p : A → Bool) (xs ys : List A) → any p xs ≡ true → any p (xs ++ ys) ≡ true
any-append p [] ys h = cc
any-append p (x ∷ xs) ys h = ground (arith, any-append p xs ys)

any-snoc {ℓ} :
    {A : Type ℓ} (p : A → Bool) (xs : List A) (x : A) → p x ≡ true → any p (xs ++ x ∷ []) ≡ true
any-snoc p [] x h = rw h
any-snoc p (y ∷ xs) x h = ground (arith, any-snoc p xs x h)

-- What was imported is still so when rows are added.
pub already_imported-append :
    (hash : List ℕ) (rows more : List RawEvent)
    → already_imported hash rows ≡ true
    → already_imported hash (rows ++ more) ≡ true
unfolding already_imported
already_imported-append hash rows more h = any-append (is_imported hash) rows more h

-- The row that a unit becomes is imported with its hash.
pub already_imported-snoc :
    (hash : List ℕ) (rows : List RawEvent) (r : RawEvent)
    → r.content_hash ≡ some hash
    → r.kind ≡ "import"
    → already_imported hash (rows ++ r ∷ []) ≡ true
unfolding already_imported is_imported
already_imported-snoc hash rows r h k =
    any-snoc (is_imported hash) rows r (rw (h, k, same_bytes_refl) refl)

-- The row that a unit becomes.
abbrev pub staged_row : Codec → List ℕ → NewRawEvent → Tables → RawEvent
staged_row C hash e t = record (event_row C (suc (max_id (event_ids t.raw_events))) e) {
  content_hash = some hash;
}

lift-eq-ok {ℓ} :
    {A : Type ℓ} (r : Result Fault A) (a : A)
    → ◌≡◌ {A = Result Failure A} (lift r) (ok a)
    → r ≡ ok a
lift-eq-ok (ok b) a h = cc
lift-eq-ok (err f) a h = cc

module _ (C : Codec) where
  -- The inserts, table by table.
  pub record Inserted (batch_id : String) (hash : List ℕ) (ts : ℤ) (c : Cleared) (t u : Tables)
      : Type 0 where
    pub events : u.raw_events ≡ t.raw_events ++ staged_row C hash c.event t ∷ []
    pub sessions : u.sessions ≡ upsert_session c.event t.sessions
    pub jobs :
        u.jobs
        ≡ t.jobs
          ++ embed_row C
              (suc (max_id (job_row_ids t.jobs)))
              (suc (max_id (event_ids t.raw_events)))
              c.event
              ts
            ∷ []
    pub facts : u.facts ≡ t.facts
    pub batches : u.import_batches ≡ update_batch batch_id count_processed t.import_batches

  pub insert_unit-Inserted :
      (batch_id : String) (hash : List ℕ) (ts : ℤ) (c : Cleared) (t : Tables)
      → Inserted batch_id hash ts c t (insert_unit C batch_id hash ts c t)
  unfolding insert_unit audit_stage insert_audit_log
  insert_unit-Inserted batch_id hash ts c t = elim (Bool-cases (ltb 0 c.redactions)) [
    | inl hidden ↦ record {
      events = rw (hidden, insert_unit, audit_stage);
      sessions = rw (hidden, insert_unit, audit_stage);
      jobs = rw (hidden, insert_unit, audit_stage);
      facts = rw (hidden, insert_unit, audit_stage);
      batches = refl;
    }
    | inr plain ↦ record {
      events = rw (plain, insert_unit, audit_stage);
      sessions = rw (plain, insert_unit, audit_stage);
      jobs = rw (plain, insert_unit, audit_stage);
      facts = rw (plain, insert_unit, audit_stage);
      batches = refl;
    }
  ]

  module _ (E : Engine) (batch_id source path : String) (max_active : ℕ) (ts : ℤ) where
    -- How a unit can end: skipped, since its hash is there already; paused at a full queue; or
    -- staged, with a hash that no row had and room in the queue.
    pub data Ends (t : Tables) (hash : List ℕ) (o : StageOutcome) (v : Tables) : Type 0 where
      skips :
          o ≡ skipped
          → already_imported hash t.raw_events ≡ true
          → v ≡ record t { import_batches = update_batch batch_id count_skipped t.import_batches }
          → Ends t hash o v
      pauses :
          o ≡ paused → min max_active i64_max ≤ active_job_count t.jobs → v ≡ t → Ends t hash o v
      stages :
          o ≡ staged
          → already_imported hash t.raw_events ≡ false
          → active_job_count t.jobs < min max_active i64_max
          → (c : Cleared) → c.event.kind ≡ "import"
          → Inserted batch_id hash ts c t v
          → Ends t hash o v

    clear_unit-kind :
        (u : ImportUnit) (text : Redacted) (c : Cleared)
        → clear_unit E batch_id source path u text ts ≡ ok c
        → c.event.kind ≡ "import"
    unfolding clear_unit
    clear_unit-kind u text c h =
        let (session, h0, h') =
          >>=-eq-ok (lift (redact_inline_string_with_count E u.session_id)) _ h in
        let (agent, h1, h'') = >>=-eq-ok (lift (redact_inline_string_with_count E u.agent)) _ h' in
        let (event_source, h2, h''') =
          >>=-eq-ok (lift (redact_inline_string_with_count E u.source)) _ h'' in
        let (_, h3, h4) =
          >>=-eq-ok {A = Unit {0}}
            (run_checks (
              ("session_id", session.value)
              ∷ ("agent", agent.value)
              ∷ ("source", event_source.value)
              ∷ []))
            _ h''' in
        sym (ap (λ (d : Cleared). d.event.kind) (ok-injective h4))

    stage_redacted-Ends :
        (u : ImportUnit) (text : Redacted) (t : Tables) (r : StageOutcome × Tables)
        → stage_redacted C E batch_id source path max_active ts u text t ≡ ok r
        → Ends t (content_hash source text.value) r.0 r.1
    unfolding stage_redacted
    stage_redacted-Ends u text t r h =
        elim (Bool-cases (already_imported (content_hash source text.value) t.raw_events)) [
          | inl there ↦
              subst (λ (r : StageOutcome × Tables). Ends t (content_hash source text.value) r.0 r.1)
                (ok-injective (rw there at h)) (skips refl there refl)
          | inr new ↦ elim (Bool-cases (leb (min max_active i64_max) (active_job_count t.jobs))) [
            | inl full ↦
                subst
                  (λ (r : StageOutcome × Tables). Ends t (content_hash source text.value) r.0 r.1)
                  (ok-injective (rw (new, full) at h)) (pauses refl (leb→le _ _ full) refl)
            | inr room ↦
                let (c, cleared, h') =
                  >>=-eq-ok (clear_unit E batch_id source path u text ts) _ (rw (new, room) at h) in
                subst
                  (λ (r : StageOutcome × Tables). Ends t (content_hash source text.value) r.0 r.1)
                  (ok-injective h')
                  (stages refl new (ground arith) c (clear_unit-kind u text c cleared)
                    (insert_unit-Inserted batch_id _ ts c t))
          ]
        ]

    -- A unit that ends does so with the hash of its redacted text.
    pub stage_import_unit-Ends :
        (u : ImportUnit) (t v : Tables) (o : StageOutcome)
        → stage_import_unit C E batch_id source path max_active ts u t ≡ ok (o, v)
        → (text : Redacted) × (redact_inline_string_with_count E u.text ≡ ok text)
          × Ends t (content_hash source text.value) o v
    unfolding stage_import_unit
    stage_import_unit-Ends u t v o h =
        let (text, cleaned, h') = >>=-eq-ok (lift (redact_inline_string_with_count E u.text)) _ h in
        (text, lift-eq-ok _ _ cleaned, stage_redacted-Ends u text t (o, v) h')
