-- ===== src/Store/Queue/Retry.antt =====
-- What a failed embed job is sent back to: the backoff of `fail_job`, and its dead letters.
use native.Mathlib.Nat.{pow-suc}
use memoryd.Prelude.{
  ℕ, zero, suc, ◌+◌, ◌-◌, ◌*◌, ◌^◌, ◌≤◌, ◌<◌, min, String, Bool, false, List, [], ◌∷◌, ◌≡◌, refl,
  ◌≢◌, ◌⊎◌, some, ◌==◌, ==_iff, inl, inr, arith, leb, leb→le, Bool-cases,
}
use memoryd.Prelude.Int.{
  ℤ, pos, i64_max, clamp_i64, saturating_add, saturating_mul, i64_of_u64, ◌+ℤ◌, ◌*ℤ◌, ◌≤ℤ◌, ◌<ℤ◌,
}
use memoryd.Store.Tables.{Tables, Job, JobState}
use memoryd.Store.Queue.{
  JobOutcome, deferred_until, dead, retry_at, fail_job, update_job, bury_row, defer_row,
  is_leasable,
}
use memoryd.Store.Queue.Lease.{holds_at}

clamp_pos : (n : ℕ) → clamp_i64 (pos n) ≡ pos (min i64_max n)
unfolding clamp_i64
clamp_pos n = ground arith

add_pos : (a b : ℕ) → pos a +ℤ pos b ≡ pos (a + b)
unfolding ◌+ℤ◌
add_pos a b = ground arith

mul_pos : (a b : ℕ) → pos a *ℤ pos b ≡ pos (a * b)
unfolding ◌*ℤ◌
mul_pos a b = ground arith

of_u64_pos : (n : ℕ) → n ≤ i64_max → i64_of_u64 n ≡ pos n
unfolding i64_of_u64
of_u64_pos n h = ground arith

-- The delay doubles with each attempt up to the seventeenth, and the sum stops at the last `i64`.
pub retry_at_lem :
    (attempts now base : ℕ)
    → base ≤ i64_max
    → retry_at attempts (pos now) base
      ≡ pos (min i64_max (now + min i64_max (base * 2 ^ min (attempts - 1) 16)))
unfolding retry_at saturating_add saturating_mul
retry_at_lem attempts now base h = rw (of_u64_pos base h, mul_pos, clamp_pos, add_pos, clamp_pos)

pow_mono : (a b : ℕ) → a ≤ b → 2 ^ a ≤ 2 ^ b
pow_mono zero zero h = omega arith
pow_mono zero (suc b) h = omega (arith, pow_mono zero b (omega arith), pow-suc 2 b)
pow_mono (suc a) zero h = absurd (omega arith)
pow_mono (suc a) (suc b) h = omega (arith, pow_mono a b (omega arith), pow-suc 2 a, pow-suc 2 b)

-- An UPDATE by id leaves no row with that id for which a test holds that fails on its result.
pub update_job-not-holds :
    (p : Job → Bool) (f : Job → Job) (i : ℕ) (js : List Job)
    → ((j : Job) → p (f j) ≡ false)
    → ((j : Job) → (f j).id ≡ j.id)
    → holds_at p i (update_job i f js) ≡ false
update_job-not-holds p f i [] h same = refl
update_job-not-holds p f i (j ∷ js) h same =
    ground (arith, update_job-not-holds p f i js h same, h j, same j)

defer_row-not-leasable :
    (error : String) (at later vis : ℤ) (j : Job)
    → later <ℤ at
    → is_leasable later vis (defer_row error at j) ≡ false
unfolding is_leasable
defer_row-not-leasable error at later vis j h = ground arith

bury_row-not-leasable :
    (error : String) (now later vis : ℤ) (j : Job)
    → is_leasable later vis (bury_row error now j) ≡ false
unfolding is_leasable
bury_row-not-leasable error now later vis j = ground arith

-- The times at which no lease takes the job that failed.
abbrev pub Rests : JobOutcome → ℤ → Type 0
Rests (deferred_until at) later = later <ℤ at
Rests dead later = Unit {0}

-- After a failure the job waits for its retry time, and a dead job is never leased again.
pub fail_job-not-leasable :
    (i attempts max base : ℕ) (error : String) (now later vis : ℤ) (t : Tables)
    → Rests (fail_job i attempts error now max base t).0 later
    → holds_at (is_leasable later vis) i (fail_job i attempts error now max base t).1.jobs ≡ false
unfolding fail_job
fail_job-not-leasable i attempts max base error now later vis t h =
    elim (Bool-cases (leb max attempts)) [
      | inl over ↦ rw over (
          update_job-not-holds (is_leasable later vis) (bury_row error now) i t.jobs
            (bury_row-not-leasable error now later vis) (λ j. refl))
      | inr more ↦ rw more (
          update_job-not-holds (is_leasable later vis)
            (defer_row error (retry_at attempts now base)) i t.jobs
            (λ j.
              defer_row-not-leasable error (retry_at attempts now base) later vis j
                (rw (more, fail_job) at h))
            (λ j. refl))
    ]

-- The rows with this id have been changed in this way, the others are as they were, and the order
-- of the table is the same.
abbrev pub Rewrites : ℕ → (Job → Job → Type 0) → List Job → List Job → Type 0
Rewrites i W [] [] = Unit {0}
Rewrites i W (j ∷ js) (k ∷ ks) =
    (((j.id ≡ i) × W j k) ⊎ ((j.id ≢ i) × (k ≡ j))) × Rewrites i W js ks
Rewrites i W _ _ = ⊥

-- What a row becomes when its job is dead, and when it waits for its next attempt.
abbrev pub Buried : String → ℤ → Job → Job → Type 0
Buried error now j k =
    k ≡ record j { state = JobState.dead; finished_at = some now; last_error = some error }

abbrev pub Deferred : String → ℤ → Job → Job → Type 0
Deferred error at j k =
    k ≡ record j { state = JobState.deferred; scheduled_at = at; last_error = some error }

-- The outcome of a failure and the tables after it.
abbrev pub IsOutcome : ℕ → ℕ → ℕ → ℕ → ℕ → String → Tables → JobOutcome × Tables → Type 0
IsOutcome i attempts max now base error t (dead, u) =
    (max ≤ attempts)
    × Rewrites i (Buried error (pos now)) t.jobs u.jobs
    × (u ≡ record t { jobs = u.jobs })
IsOutcome i attempts max now base error t (deferred_until at, u) =
    (attempts < max)
    × (at ≡ pos (min i64_max (now + min i64_max (base * 2 ^ min (attempts - 1) 16))))
    × (pos now ≤ℤ at)
    × (at ≤ℤ pos (now + base * 65536))
    × Rewrites i (Deferred error at) t.jobs u.jobs
    × (u ≡ record t { jobs = u.jobs })

update_job-Rewrites :
    (i : ℕ) (f : Job → Job) (js : List Job) → Rewrites i (λ j k. k ≡ f j) js (update_job i f js)
update_job-Rewrites i f [] = tt
update_job-Rewrites i f (j ∷ js) = elim (Bool-cases (j.id == i)) [
  | inl same ↦ rw same (inl ((==_iff j.id i).0 same, refl), update_job-Rewrites i f js)
  | inr other ↦ rw other (inr (λ e. ground (arith, e), refl), update_job-Rewrites i f js)
]

pow_bounds : (e : ℕ) → e ≤ 16 → (1 ≤ 2 ^ e) × (2 ^ e ≤ 65536)
pow_bounds e h = (pow_mono 0 e (omega arith), pow_mono e 16 h)

scaled_bounds : (a p : ℕ) → p ≤ 65536 → a * p ≤ a * 65536
scaled_bounds a p h = grind arith

retry_at_bounds :
    (attempts now base : ℕ)
    → base ≤ i64_max
    → now ≤ i64_max
    → (pos now ≤ℤ retry_at attempts (pos now) base)
      × (retry_at attempts (pos now) base ≤ℤ pos (now + base * 65536))
retry_at_bounds attempts now base h k = rw (retry_at_lem attempts now base h) (
    let b = pow_bounds (min (attempts - 1) 16) (omega arith) in
    let c = scaled_bounds base (2 ^ min (attempts - 1) 16) b.1 in (omega arith, omega arith))

-- A failure buries the job exactly when its attempts are spent: its row is dead, with the time and
-- the error. Otherwise the row is deferred with the error, to the time after the base delay doubled
-- for each attempt after the first, sixteen times at most; the delay and the sum stop at the last
-- `i64`, so that it waits for no longer than 2 ^ 16 times the base delay. Other rows and the other
-- tables stay as they are. The time and the base delay fit an `i64`.
pub fail_job-IsOutcome :
    (i attempts max now base : ℕ) (error : String) (t : Tables)
    → base ≤ i64_max
    → now ≤ i64_max
    → IsOutcome i attempts max now base error t (fail_job i attempts error (pos now) max base t)
unfolding fail_job
fail_job-IsOutcome i attempts max now base error t h k = elim (Bool-cases (leb max attempts)) [
  | inl over ↦
      rw over (omega (arith, leb→le), update_job-Rewrites i (bury_row error (pos now)) t.jobs, refl)
  | inr more ↦
      let b = retry_at_bounds attempts now base h k in
      rw more (
        ground arith,
        retry_at_lem attempts now base h,
        b.0,
        b.1,
        update_job-Rewrites i (defer_row error (retry_at attempts (pos now) base)) t.jobs,
        refl,
      )
]
