-- ===== src/Store/Frames.antt =====
-- What the operations of the store leave alone.
use memoryd.Prelude.{
  ℕ, suc, min, String, Bool, Option, none, List, [], ◌∷◌, ◌++◌, ◌≡◌, ◌∙◌, refl, sym, ap, subst,
  ok-injective, inl, inr, ltb, ◌is◌, find, ok, ok_or, >>=-eq-ok, Bool-cases,
}
use memoryd.Prelude.Int.{ℤ, i64_max}
use memoryd.Json.{Codec}
use memoryd.Redact.Inline.{Engine}
use memoryd.Store.Tables.{Tables, Job, RawEvent}
use memoryd.Store.Audit.{insert_audit_log}
use memoryd.Store.Queue.{ids, active_job_count}
use memoryd.Store.Queue.Keys.{IsAscending, IsAscending-snoc}
use memoryd.Store.Queue.Machine.{Tracks, Tracks-refl, Tracks-snoc}
use memoryd.Store.Capture.{
  NewRawEvent, CaptureAck, Cleaned, clean, total_redactions, max_id, event_ids, event_row,
  job_row_ids, enqueue, embed_row, audit_capture, append, capture_event_with_queue_limit,
}
use memoryd.Store.Capture.Stored.{below_max_id}
use memoryd.Store.Capture.Atomic.{jobs-audit_capture, raw_events-audit_capture}
use memoryd.Store.Approvals.{
  ApprovalDecision, is_pending, decide_facts, decide_pending, decide_tx, decide_approval,
}

-- The new id is above the ids of the table.
job_row_ids-eq-ids : (js : List Job) → job_row_ids js ≡ ids js
job_row_ids-eq-ids [] = refl
job_row_ids-eq-ids (j ∷ js) = ap (◌∷◌ j.id) (job_row_ids-eq-ids js)

ids-append : (js ks : List Job) → ids (js ++ ks) ≡ ids js ++ ids ks
ids-append [] ks = refl
ids-append (j ∷ js) ks = ap (◌∷◌ j.id) (ids-append js ks)

-- A capture adds a pending job with a fresh id at most.
abbrev pub Grows : List Job → List Job → Type 0
Grows js ks = Tracks js ks × IsAscending (ids ks)

module _ (C : Codec) where
  pub embed_row-Grows :
      (id : ℕ) (e : NewRawEvent) (now : ℤ) (jobs : List Job)
      → IsAscending (ids jobs)
      → Grows jobs (jobs ++ embed_row C (suc (max_id (job_row_ids jobs))) id e now ∷ [])
  embed_row-Grows id e now jobs keys = (
    Tracks-snoc jobs _ refl,
    rw (ids-append, job_row_ids-eq-ids)
        (IsAscending-snoc _ (ids jobs) (below_max_id (ids jobs)) keys),
  )

  enqueue-Grows :
      (max_active id : ℕ) (e : NewRawEvent) (now : ℤ) (jobs : List Job)
      → IsAscending (ids jobs)
      → Grows jobs (enqueue C max_active id e now jobs).1
  unfolding enqueue
  enqueue-Grows max_active id e now jobs keys =
      elim (Bool-cases (ltb (active_job_count jobs) (min max_active i64_max))) [
        | inr full ↦ rw (full, enqueue) (Tracks-refl jobs, keys)
        | inl room ↦ rw (room, enqueue) (embed_row-Grows id e now jobs keys)
      ]

  facts-audit_capture :
      (id : ℕ) (c : Cleaned) (job : Option ℕ) (now : ℤ) (t : Tables)
      → (audit_capture C id c job now t).facts ≡ t.facts
  unfolding audit_capture insert_audit_log
  facts-audit_capture id c job now t = elim (Bool-cases (ltb 0 (total_redactions c))) [
    | inl hidden ↦ rw (hidden, audit_capture)
    | inr plain ↦ rw (plain, audit_capture)
  ]

  append_lem :
      (c : Cleaned) (max_active : ℕ) (now : ℤ) (t : Tables)
      → IsAscending (ids t.jobs)
      → Grows t.jobs (append C c max_active now t).1.jobs
        × ((append C c max_active now t).1.facts ≡ t.facts)
  unfolding append
  append_lem c max_active now t keys =
      rw (jobs-audit_capture, facts-audit_capture)
        (enqueue-Grows max_active _ c.event now t.jobs keys, refl)

  module _ (E : Engine) where
    pub capture_lem :
        (e : NewRawEvent) (max_active : ℕ) (now : ℤ) (t u : Tables) (a : CaptureAck)
        → capture_event_with_queue_limit C E e max_active now t ≡ ok (a, u)
        → IsAscending (ids t.jobs)
        → Grows t.jobs u.jobs × (u.facts ≡ t.facts)
    unfolding capture_event_with_queue_limit
    capture_lem e max_active now t u a h keys =
        let (c, cleaned, h') = >>=-eq-ok (clean E e) _ h in
        subst (λ (r : CaptureAck × Tables). Grows t.jobs r.1.jobs × (r.1.facts ≡ t.facts))
          (ok-injective h') (append_lem c max_active now t keys)

    -- The event that a capture adds has no hash.
    pub capture-raw_events :
        (e : NewRawEvent) (max_active : ℕ) (now : ℤ) (t u : Tables) (a : CaptureAck)
        → capture_event_with_queue_limit C E e max_active now t ≡ ok (a, u)
        → (r : RawEvent) × (u.raw_events ≡ t.raw_events ++ r ∷ []) × (r.content_hash ≡ none)
    unfolding capture_event_with_queue_limit append
    capture-raw_events e max_active now t u a h =
        let (c, cleaned, h') = >>=-eq-ok (clean E e) _ h in
        (
          event_row C (suc (max_id (event_ids t.raw_events))) c.event,
          sym (ap (λ (r : CaptureAck × Tables). r.1.raw_events) (ok-injective h'))
              ∙ raw_events-audit_capture C _ c _ now _,
          refl,
        )

    -- The tables that a decision leaves alone.
    abbrev pub Spares : Tables → Tables → Type 0
    Spares t u = (u.jobs ≡ t.jobs) × (u.sessions ≡ t.sessions) × (u.raw_events ≡ t.raw_events)

    decide_pending-Spares :
        (id target_type change : String) (accept : Bool) (now : ℤ) (fact_id : String) (t : Tables)
        (r : ApprovalDecision × Tables)
        → decide_pending C E id target_type change accept now fact_id t ≡ ok r
        → Spares t r.1
    unfolding decide_pending insert_audit_log
    decide_pending-Spares id target_type change accept now fact_id t r h =
        let (c, decided, h') =
          >>=-eq-ok (decide_facts C E id target_type change accept now fact_id t.facts) _ h in
        subst (λ (x : ApprovalDecision × Tables). Spares t x.1) (ok-injective h') (refl, refl, refl)

    pub decide-Spares :
        (id : String) (accept : Bool) (now : ℤ) (fact_id : String) (t u : Tables)
        (d : ApprovalDecision)
        → decide_approval C E id accept now fact_id t ≡ ok (d, u)
        → Spares t u
    unfolding decide_approval decide_tx
    decide-Spares id accept now fact_id t u d h =
        let (row, found, h') = >>=-eq-ok (ok_or (find (λ a. a.id is id) t.approvals) _) _ h in
        let (row', found', h'') = >>=-eq-ok (ok_or (find (λ a. a.id is id) t.approvals) _) _ h' in
        elim (Bool-cases (is_pending row'.state)) [
          | inl waits ↦
              decide_pending-Spares id row.target_type row.proposed_change accept now fact_id t
                (d, u) (rw waits at h'')
          | inr done ↦
              subst (λ (x : ApprovalDecision × Tables). Spares t x.1)
                (ok-injective (rw done at h'')) (refl, refl, refl)
        ]
