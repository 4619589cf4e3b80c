-- ===== src/Store/Queue/Refines.antt =====
-- The operations of the queue move jobs along the machine.
use memoryd.Prelude.{
  ℕ, min, String, true, List, [], ◌∷◌, filter, All, ◌≡◌, refl, sym, ap, subst, inl, inr, arith, leb,
  ◌==◌, ==_iff, if◌then◌else◌, ok, Bool-cases,
}
use memoryd.Prelude.Int.{ℤ, i64_max}
use memoryd.Json.{Codec}
use memoryd.Store.Tables.{Tables, Job, JobState}
use memoryd.Store.Queue.{
  is_ready, is_leasable, elem, ids, due_ids, lease_row, lease_rows, LeasedJob, lease_embed_jobs,
  complete_embed_job, fail_job, retry_at, update_job, finish_row, bury_row, defer_row,
}
use memoryd.Store.Queue.Lease.{
  holds_at, elem-claimed, job_ids, lease_embed_jobs-eq-ok, due_ids_leasable,
}
use memoryd.Store.Queue.Keys.{
  IsAscending, IsAscending-filter, ids-map, IsFound, All-IsFound, elem-Above,
}
use memoryd.Store.Queue.Machine.{
  lease, lease_retry, lease_again, finish, defer, bury, Goes, stay, step, Tracks, Tracks-map,
}

Goes-lease :
    (now vis : ℤ) (j : Job) (s : JobState) → is_ready now vis j s ≡ true → Goes s JobState.running
Goes-lease now vis j JobState.pending h = step stay lease
Goes-lease now vis j JobState.deferred h = step stay lease_retry
Goes-lease now vis j JobState.running h = step stay lease_again
Goes-lease now vis j JobState.done h = absurd (ground arith)
Goes-lease now vis j JobState.failed h = absurd (ground arith)
Goes-lease now vis j JobState.dead h = absurd (ground arith)

leasable-Goes :
    (now vis : ℤ) (j : Job) → is_leasable now vis j ≡ true → Goes j.state JobState.running
unfolding is_leasable
leasable-Goes now vis j h = Goes-lease now vis j j.state (ground arith)

-- What an UPDATE of some rows does to a row.
abbrev Follows : (Job → Job) → Job → Type 0
Follows f j = ((f j).id ≡ j.id) × Goes j.state (f j).state

lease_row-Follows :
    (now vis : ℤ) (due : List ℕ) (j : Job)
    → (elem j.id due ≡ true → is_leasable now vis j ≡ true)
    → Follows (λ j. if elem j.id due then lease_row now j else j) j
lease_row-Follows now vis due j h = elim (Bool-cases (elem j.id due)) [
  | inl claimed ↦ rw claimed (refl, leasable-Goes now vis j (h claimed))
  | inr left ↦ rw left (refl, stay)
]

All-lease_row-Follows :
    (now vis : ℤ) (due : List ℕ) (js ks : List Job)
    → ((i : ℕ) → elem i due ≡ true → holds_at (is_leasable now vis) i js ≡ true)
    → All (IsFound (is_leasable now vis) js) ks
    → All (Follows (λ j. if elem j.id due then lease_row now j else j)) ks
All-lease_row-Follows now vis due js [] found h = tt
All-lease_row-Follows now vis due js (k ∷ ks) found (h, hs) = (
  lease_row-Follows now vis due k (λ e. h (found k.id e)),
  All-lease_row-Follows now vis due js ks found hs,
)

-- Every row with an id of the list is under a lease.
abbrev pub AllRun : List ℕ → List Job → Type 0
AllRun is = All (λ j. elem j.id is ≡ true → j.state ≡ JobState.running)

lease_rows-AllRun : (now : ℤ) (due : List ℕ) (js : List Job) → AllRun due (lease_rows now due js)
lease_rows-AllRun now due [] = tt
lease_rows-AllRun now due (j ∷ js) = elim (Bool-cases (elem j.id due)) [
  | inl claimed ↦ rw claimed ((λ e. refl), lease_rows-AllRun now due js)
  | inr left ↦ rw left ((λ e. ground arith), lease_rows-AllRun now due js)
]

AllRun-mono :
    (is ks : List ℕ) (js : List Job)
    → ((i : ℕ) → elem i ks ≡ true → elem i is ≡ true)
    → AllRun is js
    → AllRun ks js
AllRun-mono is ks [] sub h = tt
AllRun-mono is ks (j ∷ js) sub (h, hs) = ((λ e. h (sub j.id e)), AllRun-mono is ks js sub hs)

-- What a lease does, seen by the machine.
pub record Leases (is : List ℕ) (js ks : List Job) : Type 0 where
  pub tracks : Tracks js ks
  pub same_ids : ids ks ≡ ids js
  pub ascending : IsAscending is
  pub run : AllRun is ks

lease_rows-Leases :
    (now vis : ℤ) (limit : ℕ) (js : List Job)
    → IsAscending (ids js)
    → let due = due_ids now vis limit js in
      let rows = lease_rows now due js in Leases (ids (filter (λ j. elem j.id due) rows)) js rows
lease_rows-Leases now vis limit js keys =
    let due = due_ids now vis limit js in
    let rows = lease_rows now due js in
    let same : ids rows ≡ ids js = ids-map _ js (λ j. ground arith) in
    record {
      tracks = Tracks-map _ js (
          All-lease_row-Follows now vis due js js (λ i. due_ids_leasable now vis limit i js)
            (All-IsFound (is_leasable now vis) js keys));
      same_ids = same;
      ascending = IsAscending-filter _ rows (subst IsAscending (sym same) keys);
      run = AllRun-mono due _ rows (λ i. elem-claimed due i rows) (lease_rows-AllRun now due js);
    }

module _ (C : Codec) where
  pub lease-Leases :
      (limit : ℕ) (now vis : ℤ) (t u : Tables) (ls : List LeasedJob)
      → lease_embed_jobs C limit now vis t ≡ ok (ls, u)
      → IsAscending (ids t.jobs)
      → Leases (job_ids ls) t.jobs u.jobs
  lease-Leases limit now vis t u ls h keys =
      let due = due_ids now vis (min limit i64_max) t.jobs in
      let rows = lease_rows now due t.jobs in
      let (same, named) = lease_embed_jobs-eq-ok C limit now vis t u ls h in
      subst (λ is. Leases is t.jobs u.jobs) (sym named)
        (subst (Leases (ids (filter (λ j. elem j.id due) rows)) t.jobs)
          (ap (λ x. x.jobs) (sym same)) (lease_rows-Leases now vis (min limit i64_max) t.jobs keys))

-- The update of one leased row to a state that the machine allows.
abbrev Settles : (Job → Job) → Type 0
Settles f = (j : Job) → ((f j).id ≡ j.id) × Goes JobState.running (f j).state

update_job-Follows :
    (k : ℕ) (f : Job → Job) (j : Job)
    → Settles f
    → (j.id ≡ k → j.state ≡ JobState.running)
    → Follows (λ j. if j.id == k then f j else j) j
update_job-Follows k f j settles runs = elim (Bool-cases (j.id == k)) [
  | inl here ↦ rw here (
    (settles j).0,
    subst (λ s. Goes s (f j).state) (sym (runs ((==_iff j.id k).0 here))) (settles j).1,
  )
  | inr other ↦ rw other (refl, stay)
]

All-update_job-Follows :
    (k : ℕ) (is : List ℕ) (f : Job → Job) (js : List Job)
    → Settles f
    → AllRun (k ∷ is) js
    → All (Follows (λ j. if j.id == k then f j else j)) js
All-update_job-Follows k is f [] settles h = tt
All-update_job-Follows k is f (j ∷ js) settles (h, hs) = (
  update_job-Follows k f j settles (λ e. h (ground arith)),
  All-update_job-Follows k is f js settles hs,
)

update_job-AllRun :
    (k : ℕ) (is : List ℕ) (f : Job → Job) (js : List Job)
    → Settles f
    → IsAscending (k ∷ is)
    → AllRun (k ∷ is) js
    → AllRun is (update_job k f js)
update_job-AllRun k is f [] settles up h = tt
update_job-AllRun k is f (j ∷ js) settles up (h, hs) = elim (Bool-cases (j.id == k)) [
  | inl here ↦ rw here (
    (λ e. absurd (ground (arith, (settles j).0, elem-Above k is up.0))),
    update_job-AllRun k is f js settles up hs,
  )
  | inr other ↦ rw other ((λ e. h (ground arith)), update_job-AllRun k is f js settles up hs)
]

-- What settling the first of the leased jobs does.
pub record SettlesFirst (is : List ℕ) (js ks : List Job) : Type 0 where
  pub tracks : Tracks js ks
  pub same_ids : ids ks ≡ ids js
  pub run : AllRun is ks

update_job-SettlesFirst :
    (k : ℕ) (is : List ℕ) (f : Job → Job) (js : List Job)
    → Settles f
    → IsAscending (k ∷ is)
    → AllRun (k ∷ is) js
    → SettlesFirst is js (update_job k f js)
update_job-SettlesFirst k is f js settles up h = record {
  tracks = Tracks-map _ js (All-update_job-Follows k is f js settles h);
  same_ids = ids-map _ js (λ j. ground (arith, (settles j).0));
  run = update_job-AllRun k is f js settles up h;
}

module _ (k : ℕ) (is : List ℕ) (t : Tables) (up : IsAscending (k ∷ is))
    (h : AllRun (k ∷ is) t.jobs) where
  pub complete-SettlesFirst :
      (event : ℤ) (adapter model : String) (vector : List ℕ) (tokens : ℕ) (now : ℤ)
      → SettlesFirst is t.jobs (complete_embed_job k event adapter model vector tokens now t).jobs
  unfolding complete_embed_job
  complete-SettlesFirst event adapter model vector tokens now =
      update_job-SettlesFirst k is (finish_row now) t.jobs (λ j. (refl, step stay finish)) up h

  pub fail-SettlesFirst :
      (attempts : ℕ) (error : String) (now : ℤ) (max base : ℕ)
      → SettlesFirst is t.jobs (fail_job k attempts error now max base t).1.jobs
  unfolding fail_job
  fail-SettlesFirst attempts error now max base = elim (Bool-cases (leb max attempts)) [
    | inl over ↦
        rw (over, fail_job)
          (update_job-SettlesFirst k is (bury_row error now) t.jobs (λ j. (refl, step stay bury)) up
            h)
    | inr more ↦
        rw (more, fail_job)
          (update_job-SettlesFirst k is (defer_row error (retry_at attempts now base)) t.jobs
            (λ j. (refl, step stay defer)) up h)
  ]
