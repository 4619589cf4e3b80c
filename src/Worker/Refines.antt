-- ===== src/Worker/Refines.antt =====
-- A tick of the embed worker moves jobs along their machine.
use memoryd.Prelude.{
  ℕ, max, String, List, [], ◌∷◌, ◌≡◌, refl, subst, ◌∙◌, Result, ok, err, >>=-eq-ok, ok-injective,
}
use memoryd.Prelude.Int.{ℤ, pos}
use memoryd.Json.{Codec}
use memoryd.Store.Tables.{Tables, Job}
use memoryd.Store.Queue.{ids, LeasedJob, lease_embed_jobs}
use memoryd.Store.Queue.Lease.{job_ids}
use memoryd.Store.Queue.Keys.{IsAscending}
use memoryd.Store.Queue.Machine.{Tracks, Tracks-refl, Tracks-trans}
use memoryd.Store.Queue.Refines.{
  AllRun, lease-Leases, SettlesFirst, complete-SettlesFirst, fail-SettlesFirst,
}
use memoryd.Worker.{TickReport, Caps, Adapter, settle_job, tick_loop, tick_embed, visibility_ms}

-- The same rows, each moved along the machine.
abbrev pub Moves : List Job → List Job → Type 0
Moves js ks = Tracks js ks × (ids ks ≡ ids js)

Moves-trans : (js ks ls : List Job) → Moves js ks → Moves ks ls → Moves js ls
Moves-trans js ks ls (h, e) (g, e') = (Tracks-trans js ks ls h g, e' ∙ e)

module _ (C : Codec) (A : Adapter) (caps : Caps) (now : ℤ) where
  settle_job-SettlesFirst :
      (job : LeasedJob) (rest : List LeasedJob) (answer : Result String (List (List ℕ)))
      (s : TickReport × Tables)
      → IsAscending (job_ids (job ∷ rest))
      → AllRun (job_ids (job ∷ rest)) s.1.jobs
      → SettlesFirst (job_ids rest) s.1.jobs (settle_job C A caps now job answer s).1.jobs
  settle_job-SettlesFirst job rest (ok ((b ∷ bs) ∷ vectors)) (r, t) up h =
      complete-SettlesFirst job.job_id (job_ids rest) t up h _ _ _ _ _ _
  settle_job-SettlesFirst job rest (ok ([] ∷ vectors)) (r, t) up h =
      fail-SettlesFirst job.job_id (job_ids rest) t up h _ _ _ _ _
  settle_job-SettlesFirst job rest (ok []) (r, t) up h =
      fail-SettlesFirst job.job_id (job_ids rest) t up h _ _ _ _ _
  settle_job-SettlesFirst job rest (err message) (r, t) up h =
      fail-SettlesFirst job.job_id (job_ids rest) t up h _ _ _ _ _

  tick_loop-Moves :
      (jobs : List LeasedJob) (s : TickReport × Tables)
      → IsAscending (job_ids jobs)
      → AllRun (job_ids jobs) s.1.jobs
      → Moves s.1.jobs (tick_loop C A caps now jobs s).1.jobs
  unfolding tick_loop
  tick_loop-Moves [] s up h = (Tracks-refl s.1.jobs, refl)
  tick_loop-Moves (job ∷ rest) s up h =
      let next = settle_job C A caps now job (A.embed job.content) s in
      let first = settle_job-SettlesFirst job rest (A.embed job.content) s up h in
      Moves-trans s.1.jobs next.1.jobs _ (first.tracks, first.same_ids)
        (tick_loop-Moves rest next up.1 first.run)

  pub tick_embed-Moves :
      (t u : Tables) (report : TickReport)
      → tick_embed C A caps now t ≡ ok (report, u)
      → IsAscending (ids t.jobs)
      → Moves t.jobs u.jobs
  unfolding tick_embed
  tick_embed-Moves t u report h keys =
      let (r, leased, h') =
        >>=-eq-ok
          (lease_embed_jobs C (max 1 caps.worker_concurrency) now (pos (visibility_ms caps)) t) _
          h in
      let l =
        lease-Leases C (max 1 caps.worker_concurrency) now (pos (visibility_ms caps)) t r.1 r.0
          leased keys in
      subst (λ (s : TickReport × Tables). Moves t.jobs s.1.jobs) (ok-injective h')
        (Moves-trans t.jobs r.1.jobs _ (l.tracks, l.same_ids)
          (tick_loop-Moves r.0 _ l.ascending l.run))
