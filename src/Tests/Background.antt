-- ===== src/Tests/Background.antt =====
-- Runs of the embed worker and of the provider's retries.
use memoryd.Prelude.{ℕ, ◌<◌, zero, suc, none, some, [], ◌∷◌, ◌≡◌, refl, arith, Result, ok, err}
use memoryd.Prelude.Int.{
  pos, ◌-ℤ◌, saturating_add, saturating_mul, clamp_i64, i64_of_u64, ◌+ℤ◌, ◌*ℤ◌,
}
use memoryd.Json.{get}
use memoryd.Store.Tables.{Tables, JobState, StoreError}
use memoryd.Store.Queue.{
  lease_embed_jobs, describe, due_ids, is_leasable, sort, insert, before, fail_job, retry_at,
}
use memoryd.Worker.{TickReport, Caps, Adapter, tick_embed, tick_loop}
use memoryd.Worker.Tick.{Ticks, tick_embed-Ticks}
use memoryd.Provider.{AttemptOutcome, done, retry, with_retries}
use memoryd.Provider.Retries.{IsTransient, Settles, with_retries-Settles}
use memoryd.Tests.Data.{toy_codec, embed_job, queue}

abbrev pub caps : Caps
caps = record {
  worker_concurrency = 1;
  lease_visibility_secs = 1;
  job_max_attempts = 5;
  job_backoff_base_ms = 1000;
}

-- An adapter that is down.
abbrev pub down : Adapter
down = record { id = "a"; model_id = "m"; embed = λ s. err "down" }

unfoldable pub tick : Tables → Result StoreError (TickReport × Tables)
unfolding tick_embed tick_loop lease_embed_jobs describe due_ids is_leasable sort insert before
    fail_job retry_at get ◌-ℤ◌ saturating_add saturating_mul clamp_i64 i64_of_u64 ◌+ℤ◌ ◌*ℤ◌
tick = tick_embed toy_codec down caps (pos 10)

abbrev pub report : TickReport
report = record { leased = 1; completed = 0; failed = 1 }

abbrev pub after_tick : Tables
after_tick = record queue {
  jobs =
      record (embed_job 1 JobState.deferred 1010 (some (pos 10))) {
        attempts = 1;
        last_error = some "down";
      }
      ∷ embed_job 2 JobState.deferred 90 none
      ∷ embed_job 3 JobState.running 0 (some (pos 8))
      ∷ [];
}

pub failed_tick : tick queue ≡ ok (report, after_tick)
unfolding tick
failed_tick = refl

tick_embed-Ticks_example : Ticks toy_codec down caps (pos 10) queue (report, after_tick)
unfolding tick
tick_embed-Ticks_example =
    tick_embed-Ticks toy_codec down caps (pos 10) queue after_tick report failed_tick

-- One transient error, then an answer.
abbrev answers : ℕ → AttemptOutcome ℕ
answers zero = retry none "busy"
answers (suc n) = done 7

first_busy : (i : ℕ) → i < 1 → IsTransient (answers i)
first_busy zero h = tt
first_busy (suc i) h = absurd (omega arith)

with_retries-Settles_example : Settles 2 answers (done 7) 1 (with_retries 2 answers)
with_retries-Settles_example =
    with_retries-Settles 2 answers (done 7) 1 first_busy refl (λ h. absurd h) (omega arith)
