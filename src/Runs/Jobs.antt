-- ===== src/Runs/Jobs.antt =====
-- What every run of the store keeps.
use memoryd.Prelude.{ℕ, ◌≤◌, min, List, [], ◌∷◌, ◌≡◌, refl, sym, subst, inl, inr, arith, ok}
use memoryd.Prelude.Int.{ℤ, i64_max}
use memoryd.Store.Tables.{Tables, Job}
use memoryd.Store.Audit.{insert_audit_log}
use memoryd.Store.Queue.{active_job_count}
use memoryd.Store.Queue.Machine.{Goes-active, Tracks, Tracks-refl, Tracks-trans}
use memoryd.Store.Capture.{NewRawEvent, CaptureAck, capture_event_with_queue_limit}
use memoryd.Store.Capture.Atomic.{capture-IsCounted, capture-Stores, count_active-snoc}
use memoryd.Store.Approvals.Decision.{decide_approval-IsUniqueActive}
use memoryd.Store.Frames.{capture_lem, capture-raw_events, decide-Spares}
use memoryd.Http.Auth.{record_auth_rejection}
use memoryd.Worker.Refines.{Moves, tick_embed-Moves}
use memoryd.Worker.Frames.{tick_embed-Keeps}
use memoryd.Json.{Codec}
use memoryd.Redact.Inline.{Engine}
use memoryd.Store.Staging.{is_imported}
use memoryd.Store.Staging.Sound.{IsImportedOnce, IsImportedOnce-plain, stage-Keeps}
use memoryd.Runs.{
  Daemon, Step, capture, tick, decide, reject, stage, begin_batch, finish_batch, Run, here, next,
  IsSound,
}

cons_tail : {i k : ℕ} {is' ks : List ℕ} → i ∷ is' ≡ k ∷ ks → is' ≡ ks
cons_tail h = cc

-- Moving along the machine makes no job active again.
Moves-active_job_count :
    (js ks : List Job) → Moves js ks → active_job_count ks ≤ active_job_count js
unfolding active_job_count
Moves-active_job_count [] [] h = omega arith
Moves-active_job_count [] (k ∷ ks) (h, e) = absurd (ground arith)
Moves-active_job_count (j ∷ js) [] (h, e) = absurd h
Moves-active_job_count (j ∷ js) (k ∷ ks) ((same, g, gs), e) =
    ground (arith, Goes-active g, Moves-active_job_count js ks (gs, cons_tail e))

capture-once :
    (C : Codec) (E : Engine) (e : NewRawEvent) (max_active : ℕ) (now : ℤ) (t u : Tables)
    (a : CaptureAck)
    → capture_event_with_queue_limit C E e max_active now t ≡ ok (a, u)
    → IsImportedOnce t.raw_events
    → IsImportedOnce u.raw_events
unfolding is_imported
capture-once C E e max_active now t u a h once =
    let (r, events, hashless) = capture-raw_events C E e max_active now t u a h in
    rw events (IsImportedOnce-plain r t.raw_events (λ hash. rw hashless refl) once)

module _ (D : Daemon) where
  step-Tracks : {t u : Tables} → Step D t u → IsSound D t → Tracks t.jobs u.jobs
  unfolding record_auth_rejection insert_audit_log
  step-Tracks {t} {u} (capture e now a h) s =
      (capture_lem D.codec D.engine e D.queue_depth_max now t u a h s.keyed).0.0
  step-Tracks {t} {u} (tick now report h) s =
      (tick_embed-Moves D.codec D.adapter D.caps now t u report h s.keyed).0
  step-Tracks {t} {u} (decide id accept now fact_id d h) s =
      subst (Tracks t.jobs) (sym (decide-Spares D.codec D.engine id accept now fact_id t u d h).0)
        (Tracks-refl t.jobs)
  step-Tracks {t} {u} (reject method path peer present reason now e) s = rw e (Tracks-refl t.jobs)
  step-Tracks {t} {u} (stage batch_id source path unit batch_ts o h) s =
      ((stage-Keeps D.codec D.engine batch_id source path D.queue_depth_max batch_ts unit t u o
          h).grows
        s.keyed).0
  step-Tracks {t} {u} (begin_batch source path total now new_id e) s = rw e (Tracks-refl t.jobs)
  step-Tracks {t} {u} (finish_batch batch_id was_paused now e) s = rw e (Tracks-refl t.jobs)

  capture-within :
      (t u : Tables) (e : NewRawEvent) (now : ℤ) (a : CaptureAck)
      → capture_event_with_queue_limit D.codec D.engine e D.queue_depth_max now t ≡ ok (a, u)
      → active_job_count t.jobs ≤ min D.queue_depth_max i64_max
      → active_job_count u.jobs ≤ min D.queue_depth_max i64_max
  capture-within t u e now a h within =
      elim (capture-Stores D.codec D.engine e D.queue_depth_max now t u a h).job [
        | inl (_, _, same, _) ↦ rw same within
        | inr (_, _, _, _, more, room) ↦
            rw more (omega (arith, count_active-snoc D.codec _ t.jobs refl))
      ]

  -- Tables with the same jobs, sessions, events and facts are as sound.
  IsSound-same :
      (t u : Tables)
      → u.jobs ≡ t.jobs
      → u.sessions ≡ t.sessions
      → u.raw_events ≡ t.raw_events
      → u.facts ≡ t.facts
      → IsSound D t
      → IsSound D u
  IsSound-same t u jobs sessions events facts s = record {
    keyed = rw jobs s.keyed;
    within = rw jobs s.within;
    counted = rw (sessions, events) s.counted;
    unique = rw facts s.unique;
    once = rw events s.once;
  }

  -- Sound tables stay sound.
  step-IsSound : {t u : Tables} → Step D t u → IsSound D t → IsSound D u
  unfolding record_auth_rejection insert_audit_log
  step-IsSound {t} {u} (capture e now a h) s =
      let ((tracks, keys), facts) =
        capture_lem D.codec D.engine e D.queue_depth_max now t u a h s.keyed in
      record {
        keyed = keys;
        within = capture-within t u e now a h s.within;
        counted = capture-IsCounted D.codec D.engine e D.queue_depth_max now t u a h s.counted;
        unique = rw facts s.unique;
        once = capture-once D.codec D.engine e D.queue_depth_max now t u a h s.once;
      }
  step-IsSound {t} {u} (tick now report h) s =
      let moves = tick_embed-Moves D.codec D.adapter D.caps now t u report h s.keyed in
      let (sessions, events, facts) = tick_embed-Keeps D.codec D.adapter D.caps now t u report h in
      record {
        keyed = rw (moves.1) s.keyed;
        within = omega (arith, Moves-active_job_count t.jobs u.jobs moves, s.within);
        counted = rw (sessions, events) s.counted;
        unique = rw facts s.unique;
        once = rw events s.once;
      }
  step-IsSound {t} {u} (decide id accept now fact_id d h) s =
      let (jobs, sessions, events) = decide-Spares D.codec D.engine id accept now fact_id t u d h in
      record {
        keyed = rw jobs s.keyed;
        within = rw jobs s.within;
        counted = rw (sessions, events) s.counted;
        unique =
            decide_approval-IsUniqueActive D.codec D.engine id accept now fact_id t u d h s.unique;
        once = rw events s.once;
      }
  step-IsSound {t} {u} (reject method path peer present reason now e) s =
      subst (IsSound D) (sym e) (IsSound-same t _ refl refl refl refl s)
  step-IsSound {t} {u} (stage batch_id source path unit batch_ts o h) s =
      let k =
        stage-Keeps D.codec D.engine batch_id source path D.queue_depth_max batch_ts unit t u o h in
      record {
        keyed = (k.grows s.keyed).1;
        within = k.within s.within;
        counted = k.counted s.counted;
        unique = rw (k.facts) s.unique;
        once = k.once s.once;
      }
  step-IsSound {t} {u} (begin_batch source path total now new_id e) s =
      subst (IsSound D) (sym e) (IsSound-same t _ refl refl refl refl s)
  step-IsSound {t} {u} (finish_batch batch_id was_paused now e) s =
      subst (IsSound D) (sym e) (IsSound-same t _ refl refl refl refl s)

  -- Every run keeps the tables sound: job ids stay a key, the jobs in the queue within the limit,
  -- the event counts of the sessions right, the active facts unique for each key, and each imported
  -- hash in one row at most, in whatever order captures, ticks, decisions, rejected requests and the
  -- transactions of imports come.
  pub Run-IsSound : (t u : Tables) → Run D t u → IsSound D t → IsSound D u
  Run-IsSound t u here s = s
  Run-IsSound t u (next {u = v} run st) s = step-IsSound st (Run-IsSound t v run s)

  -- Every run from sound tables refines the machine of a job's life: the rows of its last table are
  -- those of its first, in order and each moved along the machine, and behind them jobs that began as
  -- pending.
  pub Run-Tracks : (t u : Tables) → Run D t u → IsSound D t → Tracks t.jobs u.jobs
  Run-Tracks t u here s = Tracks-refl t.jobs
  Run-Tracks t u (next {u = v} run st) s =
      Tracks-trans t.jobs v.jobs u.jobs (Run-Tracks t v run s)
        (step-Tracks st (Run-IsSound t v run s))
