-- ===== src/Worker.antt =====
-- `tick_embed` of crates/memoryd-core/src/worker.rs, run against the store itself, and
-- `prompt_token_estimate` of crates/memoryd-core/src/adapters.rs. A vector is its bytes, four for a
-- component; the adapter's answer to a text is an argument.
pub mod Tick
pub mod Refines
pub mod Frames
use memoryd.Prelude.{
  ℕ, zero, suc, ◌+◌, ◌*◌, ◌/◌, max, min, String, List, [], ◌∷◌, Result, ok, err, ◌>>=◌, length,
}
use memoryd.Prelude.Int.{ℤ, pos, i64_max}
use memoryd.Json.{Codec}
use memoryd.Store.Tables.{Tables, StoreError}
use memoryd.Store.Queue.{LeasedJob, lease_embed_jobs, complete_embed_job, fail_job}

pub record TickReport : Type 0 where
  pub leased : ℕ
  pub completed : ℕ
  pub failed : ℕ

-- The bounds of the configuration that a tick reads.
pub record Caps : Type 0 where
  pub worker_concurrency : ℕ
  pub lease_visibility_secs : ℕ
  pub job_max_attempts : ℕ
  pub job_backoff_base_ms : ℕ

-- What the worker knows of its adapter.
pub record Adapter : Type 0 where
  pub id : String
  pub model_id : String
  pub embed : String → Result String (List (List ℕ))

abbrev chars : String → ℕ
chars String.[] = 0
chars (String.◌∷◌ c s) = suc (chars s)

-- One token for each four characters, rounded up.
unfoldable pub prompt_token_estimate : String → ℕ
prompt_token_estimate text = (chars text + 3) / 4

-- The visibility timeout in milliseconds: the product stops at the last `u64`, and what does not
-- fit an `i64` becomes the last `i64`.
abbrev pub visibility_ms : Caps → ℕ
visibility_ms caps = min i64_max (min 0xffff_ffff_ffff_ffff (caps.lease_visibility_secs * 1000))

module _ (C : Codec) (A : Adapter) (caps : Caps) (now : ℤ) where
  abbrev fail_with : LeasedJob → String → TickReport × Tables → TickReport × Tables
  fail_with job message (r, t) =
      let (outcome, u) =
        fail_job job.job_id job.attempts message now caps.job_max_attempts caps.job_backoff_base_ms
          t in
      (record r { failed = suc r.failed }, u)

  abbrev complete_with : LeasedJob → List ℕ → TickReport × Tables → TickReport × Tables
  complete_with job vector (r, t) = (
    record r { completed = suc r.completed },
    complete_embed_job job.job_id job.raw_event_id A.id A.model_id vector
        (prompt_token_estimate job.content) now t,
  )

  -- The arms of the match on the adapter's answer.
  abbrev pub settle_job :
      LeasedJob → Result String (List (List ℕ)) → TickReport × Tables → TickReport × Tables
  settle_job job (ok ((b ∷ bs) ∷ vectors)) s = complete_with job (b ∷ bs) s
  settle_job job (ok ([] ∷ vectors)) s = fail_with job "adapter returned no embedding vector" s
  settle_job job (ok []) s = fail_with job "adapter returned no embedding vector" s
  settle_job job (err message) s = fail_with job message s

  unfoldable pub tick_loop : List LeasedJob → TickReport × Tables → TickReport × Tables
  tick_loop [] s = s
  tick_loop (job ∷ rest) s = tick_loop rest (settle_job job (A.embed job.content) s)

  unfoldable pub tick_embed : Tables → Result StoreError (TickReport × Tables)
  unfolding tick_loop
  tick_embed t =
      lease_embed_jobs C (max 1 caps.worker_concurrency) now (pos (visibility_ms caps)) t >>= λ r.
      ok (tick_loop r.0 (record { leased = length r.0; completed = 0; failed = 0 }, r.1))
