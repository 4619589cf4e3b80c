-- ===== src/Store/Queue/Lease.antt =====
-- What a lease claims: the rows that the inner SELECT of `lease_embed_jobs` picks, and what the
-- UPDATE leaves of them.
use memoryd.Prelude.{
  ℕ, zero, suc, ◌≤◌, min, Bool, true, false, ◌&&◌, ◌||◌, List, [], ◌∷◌, map, ◌≡◌, refl, ap, inl,
  inr, arith, ◌==◌, ==_iff, length, take, filter, ok, >>=-eq-ok, ok_or, Bool-cases, length-take,
  length-map, ◌⊎◌,
}
use memoryd.Prelude.Int.{ℤ, ◌+ℤ◌, ◌<ℤ◌, -ℤ_parts, +ℤ_parts, i64_max}
use memoryd.Json.{Codec}
use memoryd.Store.Tables.{Tables, Job, FtsRow, json}
use memoryd.Store.Queue.Due.{IsDue, leasable-IsDue}
use memoryd.Store.Queue.{
  is_leasable, insert, sort, elem, ids, due_ids, lease_row, lease_rows, LeasedJob, describe,
  lease_embed_jobs,
}

elem-take : (i n : ℕ) (ks : List ℕ) → elem i (take n ks) ≡ true → elem i ks ≡ true
elem-take i zero ks h = cc
elem-take i (suc n) [] h = cc
elem-take i (suc n) (k ∷ ks) h = ground (arith, elem-take i n ks)

ids-take : (n : ℕ) (js : List Job) → ids (take n js) ≡ take n (ids js)
ids-take zero js = refl
ids-take (suc n) [] = refl
ids-take (suc n) (j ∷ js) = ap (◌∷◌ j.id) (ids-take n js)

elem-insert :
    (i : ℕ) (j : Job) (js : List Job)
    → elem i (ids (insert j js)) ≡ ((i == j.id) || elem i (ids js))
unfolding insert
elem-insert i j [] = refl
elem-insert i j (x ∷ xs) = ground (arith, elem-insert i j xs)

elem-sort : (i : ℕ) (js : List Job) → elem i (ids (sort js)) ≡ elem i (ids js)
unfolding sort
elem-sort i [] = refl
elem-sort i (x ∷ xs) = ground (arith, elem-insert i x (sort xs), elem-sort i xs)

-- Whether some row passes the test under this id.
abbrev pub holds_at : (Job → Bool) → ℕ → List Job → Bool
holds_at p i [] = false
holds_at p i (j ∷ js) = ((i == j.id) && p j) || holds_at p i js

elem-filter :
    (p : Job → Bool) (i : ℕ) (js : List Job) → elem i (ids (filter p js)) ≡ holds_at p i js
elem-filter p i [] = refl
elem-filter p i (j ∷ js) = ground (arith, elem-filter p i js)

-- A claimed id is the id of a row that could be leased.
pub due_ids_leasable :
    (now vis : ℤ) (limit i : ℕ) (js : List Job)
    → elem i (due_ids now vis limit js) ≡ true
    → holds_at (is_leasable now vis) i js ≡ true
unfolding due_ids
due_ids_leasable now vis limit i js h = ground (
  arith,
  ids-take limit (sort (filter (is_leasable now vis) js)),
  elem-take i limit (ids (sort (filter (is_leasable now vis) js))),
  elem-sort i (filter (is_leasable now vis) js),
  elem-filter (is_leasable now vis) i js,
)

-- Some row has this id and is due.
abbrev pub HasDue : ℤ → ℤ → ℕ → List Job → Type 0
HasDue now vis i [] = ⊥
HasDue now vis i (j ∷ js) = ((j.id ≡ i) × IsDue now vis j) ⊎ HasDue now vis i js

holds_at-HasDue :
    (now vis : ℤ) (i : ℕ) (js : List Job)
    → holds_at (is_leasable now vis) i js ≡ true
    → HasDue now vis i js
holds_at-HasDue now vis i [] h = absurd (ground arith)
holds_at-HasDue now vis i (j ∷ js) h = elim (Bool-cases ((i == j.id) && is_leasable now vis j)) [
  | inl here ↦ inl (ground arith, leasable-IsDue now vis j (ground arith))
  | inr there ↦ inr (holds_at-HasDue now vis i js (ground arith))
]

pub length-due_ids :
    (now vis : ℤ) (limit : ℕ) (js : List Job) → length (due_ids now vis limit js) ≤ limit
unfolding due_ids
length-due_ids now vis limit js = omega (
  arith,
  length-map (λ (j : Job). j.id) (take limit (sort (filter (is_leasable now vis) js))),
  length-take limit (sort (filter (is_leasable now vis) js)),
)

-- A row leased at `now` cannot be leased again before the visibility timeout has passed.
lease_row-not-leasable :
    (now later vis : ℤ) (j : Job)
    → later <ℤ now +ℤ vis
    → is_leasable later vis (lease_row now j) ≡ false
unfolding is_leasable
lease_row-not-leasable now later vis j h = ground (arith, -ℤ_parts later vis, +ℤ_parts now vis)

leased-not-holds :
    (now later vis : ℤ) (due : List ℕ) (i : ℕ) (js : List Job)
    → later <ℤ now +ℤ vis
    → elem i due ≡ true
    → holds_at (is_leasable later vis) i (lease_rows now due js) ≡ false
leased-not-holds now later vis due i [] h e = refl
leased-not-holds now later vis due i (j ∷ js) h e =
    ground
      (arith, leased-not-holds now later vis due i js h e, lease_row-not-leasable now later vis j h)

due_ids_exclusive :
    (now later vis : ℤ) (n m i : ℕ) (js : List Job)
    → later <ℤ now +ℤ vis
    → elem i (due_ids now vis n js) ≡ true
    → elem i (due_ids later vis m (lease_rows now (due_ids now vis n js) js)) ≡ false
due_ids_exclusive now later vis n m i js h e = ground (
  arith,
  leased-not-holds now later vis (due_ids now vis n js) i js h e,
  due_ids_leasable later vis m i (lease_rows now (due_ids now vis n js) js),
)

pub elem-claimed :
    (due : List ℕ) (i : ℕ) (js : List Job)
    → elem i (ids (filter (λ j. elem j.id due) js)) ≡ true
    → elem i due ≡ true
elem-claimed due i [] h = cc
elem-claimed due i (j ∷ js) h = elim (Bool-cases (i == j.id)) [
  | inl same ↦ ground (arith, elem-claimed due i js, (==_iff i j.id).0 same)
  | inr other ↦ ground (arith, elem-claimed due i js)
]

abbrev pub job_ids : List LeasedJob → List ℕ
job_ids = map (λ l. l.job_id)

module _ (C : Codec) where
  -- The rows are described in order, one job for each.
  job_ids-describe :
      (rows : List FtsRow) (js : List Job) (ls : List LeasedJob)
      → describe C rows js ≡ ok ls
      → job_ids ls ≡ ids js
  unfolding describe
  job_ids-describe rows [] ls h = ground arith
  job_ids-describe rows (j ∷ js) ls h =
      let (v, parsed, h') = >>=-eq-ok (ok_or (C.parse j.payload) json) _ h in
      let (rest, described, h'') = >>=-eq-ok (describe C rows js) _ h' in
      ground (arith, job_ids-describe rows js rest described)

  -- What a lease that succeeds has done: it updated the claimed rows, and nothing else.
  pub lease_embed_jobs-eq-ok :
      (limit : ℕ) (now vis : ℤ) (t u : Tables) (ls : List LeasedJob)
      → lease_embed_jobs C limit now vis t ≡ ok (ls, u)
      → let due = due_ids now vis (min limit i64_max) t.jobs in
        (u ≡ record t { jobs = lease_rows now due t.jobs })
        × (job_ids ls ≡ ids (filter (λ j. elem j.id due) (lease_rows now due t.jobs)))
  unfolding lease_embed_jobs
  lease_embed_jobs-eq-ok limit now vis t u ls h =
      let due = due_ids now vis (min limit i64_max) t.jobs in
      let claimed = filter (λ j. elem j.id due) (lease_rows now due t.jobs) in
      let (leased, described, h') = >>=-eq-ok (describe C t.fts claimed) _ h in
      (ground arith, ground (arith, job_ids-describe t.fts claimed leased described))

  claimed_due :
      (limit : ℕ) (now vis : ℤ) (t u : Tables) (ls : List LeasedJob) (i : ℕ)
      → lease_embed_jobs C limit now vis t ≡ ok (ls, u)
      → elem i (job_ids ls) ≡ true
      → elem i (due_ids now vis (min limit i64_max) t.jobs) ≡ true
  claimed_due limit now vis t u ls i h e =
      let due = due_ids now vis (min limit i64_max) t.jobs in
      elem-claimed due i (lease_rows now due t.jobs)
        (rw (lease_embed_jobs-eq-ok limit now vis t u ls h).1 at e)

  -- A leased id is the id of a row that was an embed job and was due: waiting with its time come, or
  -- running under a lease at least as old as the visibility timeout.
  pub lease-IsLeasable :
      (limit : ℕ) (now vis : ℤ) (t u : Tables) (ls : List LeasedJob) (i : ℕ)
      → lease_embed_jobs C limit now vis t ≡ ok (ls, u)
      → elem i (job_ids ls) ≡ true
      → HasDue now vis i t.jobs
  lease-IsLeasable limit now vis t u ls i h e = holds_at-HasDue now vis i t.jobs (
      due_ids_leasable now vis (min limit i64_max) i t.jobs
        (claimed_due limit now vis t u ls i h e))

  -- A second lease, on the tables that a first one left and before the visibility timeout of the
  -- first has passed, shares no job with it, whatever the two limits are.
  pub lease_exclusive :
      (n m : ℕ) (now later vis : ℤ) (t u w : Tables) (ls ms : List LeasedJob) (i : ℕ)
      → later <ℤ now +ℤ vis
      → lease_embed_jobs C n now vis t ≡ ok (ls, u)
      → lease_embed_jobs C m later vis u ≡ ok (ms, w)
      → elem i (job_ids ls) ≡ true
      → elem i (job_ids ms) ≡ false
  lease_exclusive n m now later vis t u w ls ms i early h k e =
      let due = due_ids now vis (min n i64_max) t.jobs in
      elim (Bool-cases (elem i (job_ids ms))) [
        | inr apart ↦ apart
        | inl both ↦
            let again = claimed_due m later vis u w ms i k both in
            ground (
              arith,
              due_ids_exclusive now later vis (min n i64_max) (min m i64_max) i t.jobs early
                  (claimed_due n now vis t u ls i h e),
              again,
              lease_embed_jobs-eq-ok n now vis t u ls h,
            )
      ]
