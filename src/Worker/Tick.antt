-- ===== src/Worker/Tick.antt =====
-- What a tick of the embed worker leaves.
use memoryd.Prelude.{
  ℕ, ◌+◌, max, String, Bool, true, false, List, [], ◌∷◌, ◌≡◌, refl, subst, ok-injective, inl, inr,
  arith, leb, ◌==◌, if◌then◌else◌, Result, ok, err, >>=-eq-ok, length, Bool-cases,
}
use memoryd.Prelude.Int.{ℤ, pos}
use memoryd.Json.{Codec}
use memoryd.Store.Tables.{Tables, Job, JobState}
use memoryd.Store.Queue.{
  LeasedJob, elem, lease_embed_jobs, complete_embed_job, fail_job, update_job, finish_row, bury_row,
  defer_row, retry_at,
}
use memoryd.Store.Queue.Lease.{holds_at, job_ids}
use memoryd.Worker.{
  TickReport, Caps, Adapter, fail_with, settle_job, tick_loop, tick_embed, visibility_ms,
}

-- The row is under a lease.
abbrev pub is_running : Job → Bool
is_running j = elim j.state [ JobState.running ↦ true | _ ↦ false ]

-- Whether a job with that id is under a lease.
abbrev pub runs : ℕ → Tables → Bool
runs i t = holds_at is_running i t.jobs

-- An UPDATE that ends leases ends that of its id, and starts none.
not-runs-update_job :
    (i k : ℕ) (f : Job → Job) (js : List Job)
    → ((j : Job) → is_running (f j) ≡ false)
    → ((j : Job) → (f j).id ≡ j.id)
    → holds_at is_running i (update_job k f js)
      ≡ (if i == k then false else holds_at is_running i js)
not-runs-update_job i k f [] stops same = ground arith
not-runs-update_job i k f (j ∷ js) stops same =
    ground (arith, not-runs-update_job i k f js stops same, stops j, same j)

module _ (C : Codec) (A : Adapter) (caps : Caps) (now : ℤ) where
  runs-fail_job :
      (i : ℕ) (job : LeasedJob) (message : String) (s : TickReport × Tables)
      → runs i (fail_with C A caps now job message s).1
        ≡ (if i == job.job_id then false else runs i s.1)
  unfolding fail_job
  runs-fail_job i job message (r, t) = elim (Bool-cases (leb caps.job_max_attempts job.attempts)) [
    | inl over ↦
        rw (over, fail_job)
          (not-runs-update_job i job.job_id (bury_row message now) t.jobs (λ j. refl) (λ j. refl))
    | inr more ↦
        rw (more, fail_job)
          (not-runs-update_job i job.job_id
            (defer_row message (retry_at job.attempts now caps.job_backoff_base_ms)) t.jobs
            (λ j. refl) (λ j. refl))
  ]

  runs-settle_job :
      (i : ℕ) (job : LeasedJob) (answer : Result String (List (List ℕ))) (s : TickReport × Tables)
      → runs i (settle_job C A caps now job answer s).1
        ≡ (if i == job.job_id then false else runs i s.1)
  unfolding complete_embed_job
  runs-settle_job i job (ok ((b ∷ bs) ∷ vectors)) (r, t) =
      not-runs-update_job i job.job_id (finish_row now) t.jobs (λ j. refl) (λ j. refl)
  runs-settle_job i job (ok ([] ∷ vectors)) s = runs-fail_job i job _ s
  runs-settle_job i job (ok []) s = runs-fail_job i job _ s
  runs-settle_job i job (err message) s = runs-fail_job i job message s

  runs-tick_loop :
      (i : ℕ) (jobs : List LeasedJob) (s : TickReport × Tables)
      → runs i (tick_loop C A caps now jobs s).1
        ≡ (if elem i (job_ids jobs) then false else runs i s.1)
  unfolding tick_loop
  runs-tick_loop i [] s = refl
  runs-tick_loop i (job ∷ rest) s = ground (
    arith,
    runs-tick_loop i rest (settle_job C A caps now job (A.embed job.content) s),
    runs-settle_job i job (A.embed job.content) s,
  )

  -- The reports of a job.
  abbrev Counts : ℕ → TickReport → TickReport → Type 0
  Counts n r q = (q.leased ≡ r.leased) × (q.completed + q.failed ≡ r.completed + r.failed + n)

  settle_job-Counts :
      (job : LeasedJob) (answer : Result String (List (List ℕ))) (s : TickReport × Tables)
      → Counts 1 s.0 (settle_job C A caps now job answer s).0
  settle_job-Counts job (ok ((b ∷ bs) ∷ vectors)) (r, t) = (refl, omega arith)
  settle_job-Counts job (ok ([] ∷ vectors)) (r, t) = (refl, omega arith)
  settle_job-Counts job (ok []) (r, t) = (refl, omega arith)
  settle_job-Counts job (err message) (r, t) = (refl, omega arith)

  tick_loop-Counts :
      (jobs : List LeasedJob) (s : TickReport × Tables)
      → Counts (length jobs) s.0 (tick_loop C A caps now jobs s).0
  unfolding tick_loop
  tick_loop-Counts [] s = (refl, omega arith)
  tick_loop-Counts (job ∷ rest) s =
      let (a, b) = settle_job-Counts job (A.embed job.content) s in
      let (c, d) = tick_loop-Counts rest (settle_job C A caps now job (A.embed job.content) s) in
      (omega arith, omega arith)

  -- The jobs that a tick leased are each counted once, and none is left under its lease.
  pub Ticks : Tables → TickReport × Tables → Type 0
  Ticks t (report, u) =
      (jobs : List LeasedJob) × (v : Tables) × (lease_embed_jobs C (max 1 caps.worker_concurrency)
          now (pos (visibility_ms caps)) t
        ≡ ok (jobs, v))
      × (report.leased ≡ length jobs)
      × (report.completed + report.failed ≡ length jobs)
      × ((i : ℕ) → elem i (job_ids jobs) ≡ true → runs i u ≡ false)

  tick_loop-Ticks :
      (t v : Tables) (jobs : List LeasedJob)
      → lease_embed_jobs C (max 1 caps.worker_concurrency) now (pos (visibility_ms caps)) t
        ≡ ok (jobs, v)
      → Ticks t (
          tick_loop C A caps now jobs
            (record { leased = length jobs; completed = 0; failed = 0 }, v))
  unfolding Ticks
  tick_loop-Ticks t v jobs leased =
      let start : TickReport × Tables =
        (record { leased = length jobs; completed = 0; failed = 0 }, v) in
      let (a, b) = tick_loop-Counts jobs start in
      (jobs, v, leased, a, omega arith, λ i e. ground (arith, runs-tick_loop i jobs start))

  -- A tick that succeeds has leased jobs by `lease_embed_jobs`; it reports each as completed or as
  -- failed, and not both, and leaves none of them under its lease, whatever the adapter answers.
  pub tick_embed-Ticks :
      (t u : Tables) (report : TickReport)
      → tick_embed C A caps now t ≡ ok (report, u)
      → Ticks t (report, u)
  unfolding tick_embed
  tick_embed-Ticks t u report h =
      let (r, leased, h') =
        >>=-eq-ok
          (lease_embed_jobs C (max 1 caps.worker_concurrency) now (pos (visibility_ms caps)) t) _
          h in
      subst (Ticks t) (ok-injective h') (tick_loop-Ticks t r.1 r.0 leased)
