-- ===== src/Store/Queue.antt =====
-- The embed-job queue of crates/memoryd-core/src/store.rs: `active_job_count`,
-- `lease_embed_jobs`, `complete_embed_job` and `fail_job` over the table `jobs`.
-- An UPDATE maps the table, a SELECT filters, sorts and cuts it. `attempts` is never negative.
pub mod Due
pub mod Lease
pub mod Order
pub mod Retry
pub mod Described
pub mod Keys
pub mod Machine
pub mod Refines
use memoryd.Prelude.{
  ℕ, zero, suc, ◌-◌, ◌*◌, ◌/◌, ◌^◌, min, String, Bool, true, false, ◌&&◌, ◌||◌, Option, none, some,
  List, [], ◌∷◌, ◌++◌, map, ltb, leb, ◌==◌, ◌is◌, if◌then◌else◌, length, take, filter, count, find,
  Result, ok, err, ◌>>=◌, ok_or, show_int,
}
use memoryd.Prelude.Int.{
  ℤ, pos, ◌-ℤ◌, leb_ℤ, ltb_ℤ, pos_part, i64_max, saturating_add, saturating_mul, i64_of_u64,
}
use memoryd.Json.{Codec, Value, get, as_i64}
use memoryd.Store.Tables.{Tables, Job, JobState, FtsRow, Embedding, Usage, StoreError, json}

-- `state IN ('pending', 'deferred', 'running')`
abbrev pub is_active : JobState → Bool
is_active JobState.pending = true
is_active JobState.running = true
is_active JobState.deferred = true
is_active _ = false

unfoldable pub active_job_count : List Job → ℕ
active_job_count jobs = count (λ j. is_active j.state) jobs

-- `started_at IS NOT NULL AND started_at <= ?1 - ?2`
abbrev pub is_expired : ℤ → ℤ → Option ℤ → Bool
is_expired now visibility none = false
is_expired now visibility (some started) = leb_ℤ started (now -ℤ visibility)

abbrev pub is_ready : ℤ → ℤ → Job → JobState → Bool
is_ready now visibility j JobState.pending = leb_ℤ j.scheduled_at now
is_ready now visibility j JobState.deferred = leb_ℤ j.scheduled_at now
is_ready now visibility j JobState.running = is_expired now visibility j.started_at
is_ready now visibility j _ = false

-- The WHERE clause of the lease: waiting and due, or running under a lease that has run out.
unfoldable pub is_leasable : ℤ → ℤ → Job → Bool
is_leasable now visibility j = (j.kind is "embed") && is_ready now visibility j j.state

-- `ORDER BY priority, scheduled_at, id`: whether `a` may stand before `b`.
unfoldable pub before : Job → Job → Bool
before a b =
    ltb a.priority b.priority
    || ((a.priority == b.priority)
        && (ltb_ℤ a.scheduled_at b.scheduled_at
            || (leb_ℤ a.scheduled_at b.scheduled_at
                && leb_ℤ b.scheduled_at a.scheduled_at
                && leb a.id b.id)))

unfoldable pub insert : Job → List Job → List Job
insert j [] = j ∷ []
insert j (x ∷ xs) = if before j x then j ∷ x ∷ xs else x ∷ insert j xs

unfoldable pub sort : List Job → List Job
sort [] = []
sort (x ∷ xs) = insert x (sort xs)

-- `id IN (…)`
abbrev pub elem : ℕ → List ℕ → Bool
elem i [] = false
elem i (k ∷ ks) = (i == k) || elem i ks

abbrev pub ids : List Job → List ℕ
ids = map (λ j. j.id)

-- The inner SELECT.
unfoldable pub due_ids : ℤ → ℤ → ℕ → List Job → List ℕ
unfolding is_leasable sort insert before
due_ids now visibility limit jobs =
    ids (take limit (sort (filter (is_leasable now visibility) jobs)))

-- SET state = 'running', started_at = ?1, attempts = attempts + 1
abbrev pub lease_row : ℤ → Job → Job
lease_row now j = record j {
  state = JobState.running;
  started_at = some now;
  attempts = suc j.attempts;
}

abbrev pub lease_rows : ℤ → List ℕ → List Job → List Job
lease_rows now due jobs = map (λ j. if elem j.id due then lease_row now j else j) jobs

pub record LeasedJob : Type 0 where
  pub job_id : ℕ
  pub raw_event_id : ℤ
  pub content : String
  pub attempts : ℕ

-- `SELECT content FROM raw_events_fts WHERE raw_event_id = ?1`, and `unwrap_or_default`.
abbrev pub content_of : ℤ → List FtsRow → String
content_of e [] = ""
content_of e (r ∷ rows) =
    if leb_ℤ e (pos r.raw_event_id) && leb_ℤ (pos r.raw_event_id) e
    then r.content
    else content_of e rows

abbrev or_zero : Option ℤ → ℤ
or_zero none = pos 0
or_zero (some n) = n

-- `payload.get("raw_event_id").and_then(as_i64).unwrap_or(0)`
abbrev pub payload_event : Value → ℤ
payload_event v = elim (get "raw_event_id" v) [ none ↦ pos 0 | some n ↦ or_zero (as_i64 n) ]

module _ (C : Codec) where
  -- The loop over the claimed rows. A payload that does not parse ends it with an error.
  unfoldable pub describe : List FtsRow → List Job → Result StoreError (List LeasedJob)
  describe rows [] = ok []
  describe rows (j ∷ js) = ok_or (C.parse j.payload) json >>= λ v.
      (describe rows js >>= λ rest. ok (
        record {
          job_id = j.id;
          raw_event_id = payload_event v;
          content = content_of (payload_event v) rows;
          attempts = j.attempts;
        }
        ∷ rest))

  -- The claimed rows come in the order of the table. An error rolls the transaction back.
  unfoldable pub lease_embed_jobs : ℕ → ℤ → ℤ → Tables → Result StoreError (List LeasedJob × Tables)
  unfolding describe due_ids
  lease_embed_jobs limit now visibility t =
      let due = due_ids now visibility (min limit i64_max) t.jobs in
      let jobs = lease_rows now due t.jobs in
      describe t.fts (filter (λ j. elem j.id due) jobs) >>= λ leased.
      ok (leased, record t { jobs = jobs })

-- `ON CONFLICT(owner_type, owner_id, model_id) DO UPDATE`
pub upsert_embedding : Embedding → List Embedding → List Embedding
upsert_embedding e [] = e ∷ []
upsert_embedding e (x ∷ xs) =
    if (x.owner_type is e.owner_type) && (x.owner_id is e.owner_id) && (x.model_id is e.model_id)
    then record x { dim = e.dim; vector = e.vector; created_at = e.created_at } ∷ xs
    else x ∷ upsert_embedding e xs

-- `UPDATE jobs SET … WHERE id = ?1`
abbrev pub update_job : ℕ → (Job → Job) → List Job → List Job
update_job i f jobs = map (λ j. if j.id == i then f j else j) jobs

abbrev pub finish_row : ℤ → Job → Job
finish_row now j = record j { state = JobState.done; finished_at = some now }

-- `vector` is the little-endian bytes of the components, four for each.
unfoldable pub complete_embed_job : ℕ → ℤ → String → String → List ℕ → ℕ → ℤ → Tables → Tables
unfolding upsert_embedding
complete_embed_job job_id raw_event_id adapter_id model_id vector prompt_tokens now t = record t {
  embeddings =
      upsert_embedding
        (record {
          owner_type = "raw_event";
          owner_id = show_int raw_event_id;
          model_id = model_id;
          dim = length vector / 4;
          vector = vector;
          created_at = now;
        })
        t.embeddings;
  usage =
      t.usage
      ++ record {
        ts = now;
        adapter = adapter_id;
        model_id = model_id;
        op = "embed";
        prompt_tokens = prompt_tokens;
        job_id = job_id;
      }
        ∷ [];
  jobs = update_job job_id (finish_row now) t.jobs;
}

pub data JobOutcome : Type 0 where
  deferred_until : ℤ → JobOutcome
  dead : JobOutcome

-- `attempts.saturating_sub(1).clamp(0, 16)`
abbrev pub backoff_exponent : ℕ → ℕ
backoff_exponent attempts = min (attempts - 1) 16

unfoldable pub retry_at : ℕ → ℤ → ℕ → ℤ
retry_at attempts now backoff_base_ms =
    saturating_add now
      (saturating_mul (i64_of_u64 backoff_base_ms) (pos (2 ^ backoff_exponent attempts)))

abbrev pub bury_row : String → ℤ → Job → Job
bury_row error now j = record j {
  state = JobState.dead;
  finished_at = some now;
  last_error = some error;
}

abbrev pub defer_row : String → ℤ → Job → Job
defer_row error at j = record j {
  state = JobState.deferred;
  scheduled_at = at;
  last_error = some error;
}

unfoldable pub fail_job : ℕ → ℕ → String → ℤ → ℕ → ℕ → Tables → JobOutcome × Tables
unfolding retry_at
fail_job job_id attempts error now max_attempts backoff_base_ms t =
    if leb max_attempts attempts
    then (dead, record t { jobs = update_job job_id (bury_row error now) t.jobs })
    else (let at = retry_at attempts now backoff_base_ms in
        (deferred_until at, record t { jobs = update_job job_id (defer_row error at) t.jobs }))
