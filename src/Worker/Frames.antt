-- ===== src/Worker/Frames.antt =====
-- What a tick of the embed worker leaves alone.
use memoryd.Prelude.{
  ℕ, max, String, List, [], ◌∷◌, ◌≡◌, refl, sym, subst, ◌∙◌, inl, inr, leb, length, Result, ok, err,
  >>=-eq-ok, ok-injective, Bool-cases,
}
use memoryd.Prelude.Int.{ℤ, pos}
use memoryd.Json.{Codec}
use memoryd.Store.Tables.{Tables}
use memoryd.Store.Queue.{LeasedJob, lease_embed_jobs, complete_embed_job, fail_job}
use memoryd.Store.Queue.Lease.{lease_embed_jobs-eq-ok}
use memoryd.Worker.{
  TickReport, Caps, Adapter, fail_with, settle_job, tick_loop, tick_embed, visibility_ms,
}

-- The tables that a tick leaves alone.
abbrev pub Keeps : Tables → Tables → Type 0
Keeps t u = (u.sessions ≡ t.sessions) × (u.raw_events ≡ t.raw_events) × (u.facts ≡ t.facts)

Keeps-trans : (t u v : Tables) → Keeps t u → Keeps u v → Keeps t v
Keeps-trans t u v (a, b, c) (a', b', c') = (a' ∙ a, b' ∙ b, c' ∙ c)

module _ (C : Codec) (A : Adapter) (caps : Caps) (now : ℤ) where
  fail_with-Keeps :
      (job : LeasedJob) (message : String) (s : TickReport × Tables)
      → Keeps s.1 (fail_with C A caps now job message s).1
  unfolding fail_job
  fail_with-Keeps job message (r, t) = elim (Bool-cases (leb caps.job_max_attempts job.attempts)) [
    | inl over ↦ rw (over, fail_job) (refl, refl, refl)
    | inr more ↦ rw (more, fail_job) (refl, refl, refl)
  ]

  settle_job-Keeps :
      (job : LeasedJob) (answer : Result String (List (List ℕ))) (s : TickReport × Tables)
      → Keeps s.1 (settle_job C A caps now job answer s).1
  unfolding complete_embed_job
  settle_job-Keeps job (ok ((b ∷ bs) ∷ vectors)) (r, t) = (refl, refl, refl)
  settle_job-Keeps job (ok ([] ∷ vectors)) s = fail_with-Keeps job _ s
  settle_job-Keeps job (ok []) s = fail_with-Keeps job _ s
  settle_job-Keeps job (err message) s = fail_with-Keeps job message s

  tick_loop-Keeps :
      (jobs : List LeasedJob) (s : TickReport × Tables)
      → Keeps s.1 (tick_loop C A caps now jobs s).1
  unfolding tick_loop
  tick_loop-Keeps [] s = (refl, refl, refl)
  tick_loop-Keeps (job ∷ rest) s =
      let next = settle_job C A caps now job (A.embed job.content) s in
      Keeps-trans s.1 next.1 (tick_loop C A caps now rest next).1
        (settle_job-Keeps job (A.embed job.content) s) (tick_loop-Keeps rest next)

  pub tick_embed-Keeps :
      (t u : Tables) (report : TickReport) → tick_embed C A caps now t ≡ ok (report, u) → Keeps t u
  unfolding tick_embed
  tick_embed-Keeps t u report h =
      let (r, leased, h') =
        >>=-eq-ok
          (lease_embed_jobs C (max 1 caps.worker_concurrency) now (pos (visibility_ms caps)) t) _
          h in
      let same =
        (lease_embed_jobs-eq-ok C (max 1 caps.worker_concurrency) now (pos (visibility_ms caps)) t
          r.1 r.0 leased).0 in
      let start : TickReport × Tables =
        (record { leased = length r.0; completed = 0; failed = 0 }, r.1) in
      subst (λ (s : TickReport × Tables). Keeps t s.1) (ok-injective h')
        (Keeps-trans t r.1 (tick_loop C A caps now r.0 start).1
          (subst (Keeps t) (sym same) (refl, refl, refl)) (tick_loop-Keeps r.0 start))
