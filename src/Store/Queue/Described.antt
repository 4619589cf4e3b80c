-- ===== src/Store/Queue/Described.antt =====
-- What a lease answers and leaves in the table: the jobs it describes and the rows it updates.
use memoryd.Prelude.{
  ℕ, suc, min, String, true, false, Option, none, some, List, [], ◌∷◌, filter, ◌≡◌, ◌≢◌, refl, ap,
  inl, inr, ◌⊎◌, ok, err, Result, ok_or, ◌>>=◌, Bool-cases, arith, ◌&&◌,
}
use memoryd.Prelude.Int.{ℤ, pos, pos_part, neg_part, leb_ℤ, i64_max, eq_of_parts}
use memoryd.Json.{Codec, Value, get, as_i64}
use memoryd.Store.Tables.{Tables, Job, JobState, FtsRow, StoreError, json}
use memoryd.Store.Queue.{
  elem, due_ids, lease_rows, LeasedJob, describe, lease_embed_jobs, content_of, payload_event,
  or_zero,
}

-- The event that a payload names, or 0 if it names none by a whole number.
abbrev pub NamesEvent : Value → ℤ → Type 0
NamesEvent v e =
    ((n : Value) × (get "raw_event_id" v ≡ some n) × (as_i64 n ≡ some e))
    ⊎ ((n : Value) × (get "raw_event_id" v ≡ some n) × (as_i64 n ≡ none) × (e ≡ pos 0))
    ⊎ ((get "raw_event_id" v ≡ none) × (e ≡ pos 0))

-- The content of the first search row of the event, or no text if it has none.
abbrev pub IsContent : ℤ → List FtsRow → String → Type 0
IsContent e [] text = text ≡ ""
IsContent e (r ∷ rows) text =
    ((pos r.raw_event_id ≡ e) × (text ≡ r.content))
    ⊎ ((pos r.raw_event_id ≢ e) × IsContent e rows text)

number_event :
    (n : Value) (o : Option ℤ) (v : Value)
    → get "raw_event_id" v ≡ some n
    → as_i64 n ≡ o
    → NamesEvent v (or_zero o)
number_event n none v h k = inr (inl (n, h, k, refl))
number_event n (some e) v h k = inl (n, h, k)

payload_event-found :
    (v : Value) (o : Option Value)
    → get "raw_event_id" v ≡ o
    → NamesEvent v (elim o [ none ↦ pos 0 | some n ↦ or_zero (as_i64 n) ])
payload_event-found v none h = inr (inr (h, refl))
payload_event-found v (some n) h = number_event n (as_i64 n) v h refl

payload_event-NamesEvent : (v : Value) → NamesEvent v (payload_event v)
payload_event-NamesEvent v = payload_event-found v (get "raw_event_id" v) refl

content_of-IsContent : (e : ℤ) (rows : List FtsRow) → IsContent e rows (content_of e rows)
content_of-IsContent e [] = refl
content_of-IsContent e (r ∷ rows) =
    elim (Bool-cases (leb_ℤ e (pos r.raw_event_id) && leb_ℤ (pos r.raw_event_id) e)) [
      | inl same ↦ rw same (inl (ground (arith, eq_of_parts (pos r.raw_event_id) e), refl))
      | inr other ↦
          rw other
            (inr (λ k. ground (arith, ap pos_part k, ap neg_part k), content_of-IsContent e rows))
    ]

module _ (C : Codec) where
  -- The job that a claimed row is described by: its id, the event of its payload, the text of that
  -- event, and the attempts with this one.
  pub record Describes (rows : List FtsRow) (j : Job) (l : LeasedJob) : Type 0 where
    pub same : l.job_id ≡ j.id
    pub counted : l.attempts ≡ suc j.attempts
    pub payload : Value
    pub reads : C.parse j.payload ≡ some payload
    pub event : NamesEvent payload l.raw_event_id
    pub content : IsContent l.raw_event_id rows l.content

  -- The table before and after a lease at `now` of these ids, and the jobs that it answers: the
  -- claimed rows run, in order, and each of them is described; the others are as they were.
  pub data Leases (now : ℤ) (due : List ℕ) (rows : List FtsRow)
      : List Job → List Job → List LeasedJob → Type 0 where
    end : Leases now due rows [] [] []
    takes :
        {j k : Job} {js ks : List Job} {l : LeasedJob} {ls : List LeasedJob}
        → elem j.id due ≡ true
        → k
          ≡ record j { state = JobState.running; started_at = some now; attempts = suc j.attempts }
        → Describes rows j l
        → Leases now due rows js ks ls
        → Leases now due rows (j ∷ js) (k ∷ ks) (l ∷ ls)
    leaves :
        {j : Job} {js ks : List Job} {ls : List LeasedJob}
        → elem j.id due ≡ false
        → Leases now due rows js ks ls
        → Leases now due rows (j ∷ js) (j ∷ ks) ls

  -- A claimed row whose payload is no JSON.
  pub data Broken (due : List ℕ) : List Job → Type 0 where
    here :
        {j : Job} {js : List Job}
        → elem j.id due ≡ true
        → C.parse j.payload ≡ none
        → Broken due (j ∷ js)
    there : {j : Job} {js : List Job} → Broken due js → Broken due (j ∷ js)

  abbrev Answers : ℤ → List ℕ → List FtsRow → List Job → Result StoreError (List LeasedJob) → Type 0
  Answers now due rows js (ok ls) = Leases now due rows js (lease_rows now due js) ls
  Answers now due rows js (err e) = (e ≡ json) × Broken due js

  -- How a lease of these ids ends.
  abbrev pub Ends : ℤ → List ℕ → Tables → Result StoreError (List LeasedJob × Tables) → Type 0
  Ends now due t (ok (ls, u)) =
      Leases now due t.fts t.jobs u.jobs ls × (u ≡ record t { jobs = u.jobs })
  Ends now due t (err e) = (e ≡ json) × Broken due t.jobs

  answers-Ends :
      (now : ℤ) (due : List ℕ) (t : Tables) (r : Result StoreError (List LeasedJob))
      → Answers now due t.fts t.jobs r
      → Ends now due t (r >>= λ ls. ok (ls, record t { jobs = lease_rows now due t.jobs }))
  answers-Ends now due t (ok ls) a = (a, refl)
  answers-Ends now due t (err e) a = a

  leaves-Answers :
      (now : ℤ) (due : List ℕ) (rows : List FtsRow) (j : Job) (js : List Job)
      (r : Result StoreError (List LeasedJob))
      → elem j.id due ≡ false
      → Answers now due rows js r
      → Answers now due rows (j ∷ js) r
  leaves-Answers now due rows j js (ok ls) h a = rw h (leaves h a)
  leaves-Answers now due rows j js (err e) h (same, broken) = (same, there broken)

  takes-Answers :
      (now : ℤ) (due : List ℕ) (rows : List FtsRow) (j : Job) (js : List Job) (o : Option Value)
      (r : Result StoreError (List LeasedJob))
      → elem j.id due ≡ true
      → C.parse j.payload ≡ o
      → Answers now due rows js r
      → Answers now due rows (j ∷ js) (
          ok_or o json >>= λ v.
          (r >>= λ rest. ok (
            record {
              job_id = j.id;
              raw_event_id = payload_event v;
              content = content_of (payload_event v) rows;
              attempts = suc j.attempts;
            }
            ∷ rest)))
  takes-Answers now due rows j js none r h p a = (refl, here h p)
  takes-Answers now due rows j js (some v) (err e) h p (same, broken) = (same, there broken)
  takes-Answers now due rows j js (some v) (ok ls) h p a = rw h (
      takes h refl
        (record {
          same = refl;
          counted = refl;
          payload = v;
          reads = p;
          event = payload_event-NamesEvent v;
          content = content_of-IsContent (payload_event v) rows;
        })
        a)

  describe-Answers :
      (now : ℤ) (due : List ℕ) (rows : List FtsRow) (js : List Job)
      → Answers now due rows js
          (describe C rows (filter (λ j. elem j.id due) (lease_rows now due js)))
  unfolding describe
  describe-Answers now due rows [] = end
  describe-Answers now due rows (j ∷ js) = elim (Bool-cases (elem j.id due)) [
    | inl claimed ↦
        rw (claimed, claimed)
          (takes-Answers now due rows j js (C.parse j.payload) _ claimed refl
            (describe-Answers now due rows js))
    | inr other ↦
        rw (other, other)
          (leaves-Answers now due rows j js _ other (describe-Answers now due rows js))
  ]

  -- A lease that succeeds describes exactly the claimed rows, in the order of the table, each with
  -- its id, the event that its payload names, the search text of that event, and its attempts with
  -- this one. It marks them as running since now, counts the attempt, and changes nothing else. A
  -- lease that fails, errors of SQLite aside, does so with a JSON error, and has claimed a row whose
  -- payload is no JSON.
  pub lease-Leases :
      (limit : ℕ) (now vis : ℤ) (t : Tables)
      → Ends now (due_ids now vis (min limit i64_max) t.jobs) t (lease_embed_jobs C limit now vis t)
  unfolding lease_embed_jobs
  lease-Leases limit now vis t =
      let due = due_ids now vis (min limit i64_max) t.jobs in
      answers-Ends now due t _ (describe-Answers now due t.fts t.jobs)
