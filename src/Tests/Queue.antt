-- ===== src/Tests/Queue.antt =====
-- Runs of the embed-job queue.
use memoryd.Prelude.{
  ℕ, false, none, some, List, [], ◌∷◌, ◌++◌, ◌≡◌, refl, arith, min, length, All, Result, ok,
}
use memoryd.Prelude.Int.{
  ℤ, pos, ◌-ℤ◌, ◌+ℤ◌, ◌*ℤ◌, ◌<ℤ◌, saturating_add, saturating_mul, clamp_i64, i64_of_u64, i64_max,
}
use memoryd.Json.{get}
use mathlib.Core.List.{Perm}
use memoryd.Store.Tables.{Tables, Job, JobState, StoreError}
use memoryd.Store.Queue.{
  deferred_until, LeasedJob, lease_embed_jobs, describe, due_ids, is_leasable, sort, insert, before,
  ids, elem, fail_job, retry_at,
}
use memoryd.Store.Queue.Lease.{HasDue, job_ids, holds_at, lease_exclusive, lease-IsLeasable}
use memoryd.Store.Queue.Retry.{fail_job-not-leasable, fail_job-IsOutcome, IsOutcome}
use memoryd.Store.Queue.Order.{due_ids_lem, IsOrdered}
use memoryd.Store.Queue.Due.{IsDue}
use memoryd.Store.Queue.Described.{Ends, lease-Leases}
use memoryd.Tests.Data.{toy_codec, queue, embed_job}

lease : ℤ → Tables → Result StoreError (List LeasedJob × Tables)
unfolding lease_embed_jobs describe due_ids is_leasable sort insert before get ◌-ℤ◌
lease now t = lease_embed_jobs toy_codec 2 now (pos 50) t

-- The first lease takes job 1, and the one after it job 3, whose lease has run out.
abbrev after_first : Tables
after_first = record queue {
  jobs =
      record (embed_job 1 JobState.running 5 (some (pos 10))) { attempts = 1 }
      ∷ embed_job 2 JobState.deferred 90 none
      ∷ embed_job 3 JobState.running 0 (some (pos 8))
      ∷ [];
}

abbrev leased : ℕ → LeasedJob
leased id = record { job_id = id; raw_event_id = pos 1; content = ""; attempts = 1 }

abbrev after_second : Tables
after_second = record queue {
  jobs =
      record (embed_job 1 JobState.running 5 (some (pos 10))) { attempts = 1 }
      ∷ embed_job 2 JobState.deferred 90 none
      ∷ record (embed_job 3 JobState.running 0 (some (pos 59))) { attempts = 1 }
      ∷ [];
}

first_lease : lease (pos 10) queue ≡ ok (leased 1 ∷ [], after_first)
unfolding lease
first_lease = refl

second_lease : lease (pos 59) after_first ≡ ok (leased 3 ∷ [], after_second)
unfolding lease
second_lease = refl

in_time : pos 59 <ℤ pos 10 +ℤ pos 50
unfolding ◌+ℤ◌
in_time = ground arith

lease_exclusive_example : elem 1 (job_ids (leased 3 ∷ [])) ≡ false
unfolding lease
lease_exclusive_example =
    lease_exclusive toy_codec 2 2 (pos 10) (pos 59) (pos 50) queue after_first after_second
      (leased 1 ∷ []) (leased 3 ∷ []) 1 in_time first_lease second_lease refl

lease-IsLeasable_example : HasDue (pos 10) (pos 50) 1 queue.jobs
unfolding lease
lease-IsLeasable_example =
    lease-IsLeasable toy_codec 2 (pos 10) (pos 50) queue after_first (leased 1 ∷ []) 1 first_lease
      refl

due_ids_lem_example :
    (claimed : List Job) × (left : List Job) × (others : List Job) × (due_ids
        (pos 100)
        (pos 50)
        2
        queue.jobs
      ≡ ids claimed)
    × (length claimed ≡ min 2 (length (claimed ++ left)))
    × IsOrdered (claimed ++ left)
    × All (IsDue (pos 100) (pos 50)) (claimed ++ left)
    × All (λ j. ¬ IsDue (pos 100) (pos 50) j) others
    × Perm ((claimed ++ left) ++ others) queue.jobs
due_ids_lem_example = due_ids_lem (pos 100) (pos 50) 2 queue.jobs

-- The third of five attempts waits four seconds.
third_failure : (fail_job 1 3 "down" (pos 10) 5 1000 after_first).0 ≡ deferred_until (pos 4010)
unfolding fail_job retry_at saturating_add saturating_mul clamp_i64 i64_of_u64 ◌+ℤ◌ ◌*ℤ◌
third_failure = refl

fail_job-not-leasable_example :
    holds_at
      (is_leasable (pos 4009) (pos 50))
      1
      (fail_job 1 3 "down" (pos 10) 5 1000 after_first).1.jobs
    ≡ false
unfolding fail_job retry_at saturating_add saturating_mul clamp_i64 i64_of_u64 ◌+ℤ◌ ◌*ℤ◌
fail_job-not-leasable_example =
    fail_job-not-leasable 1 3 5 1000 "down" (pos 10) (pos 4009) (pos 50) after_first (ground arith)

fail_job-IsOutcome_example :
    IsOutcome 1 3 5 10 1000 "down" after_first (fail_job 1 3 "down" (pos 10) 5 1000 after_first)
fail_job-IsOutcome_example =
    fail_job-IsOutcome 1 3 5 10 1000 "down" after_first (omega arith) (omega arith)

lease-Leases_example :
    Ends toy_codec
      (pos 10)
      (due_ids (pos 10) (pos 50) (min 2 i64_max) queue.jobs)
      queue
      (lease_embed_jobs toy_codec 2 (pos 10) (pos 50) queue)
lease-Leases_example = lease-Leases toy_codec 2 (pos 10) (pos 50) queue
