-- ===== src/Provider.antt =====
-- The retries of crates/memoryd-core/src/openaicompat.rs: `is_retryable_status`, `retry_delay` and
-- `with_retries`. Delays are in milliseconds. The provider is the sequence of its answers, and the
-- calls of the injected `sleep` are returned in order.
pub mod Retries
use memoryd.Prelude.{
  ℕ, zero, suc, ◌+◌, ◌*◌, ◌^◌, min, String, Bool, true, false, ◌||◌, Option, none, some, List, [],
  ◌∷◌, ltb, ◌==◌, if◌then◌else◌, Result, ok, err,
}

unfoldable pub is_retryable_status : ℕ → Bool
is_retryable_status status =
    (status == 429) || (status == 500) || (status == 502) || (status == 503) || (status == 504)

abbrev pub retry_backoff_base : ℕ
retry_backoff_base = 500

unfoldable pub retry_delay : ℕ → Option ℕ → ℕ
retry_delay attempt (some after) = after
retry_delay attempt none = retry_backoff_base * 2 ^ min attempt 16

pub data AttemptOutcome {ℓ} (T : Type ℓ) : Type ℓ where
  done : T → AttemptOutcome T
  retry : Option ℕ → String → AttemptOutcome T
  fatal : String → AttemptOutcome T

module _ {ℓ} {T : Type ℓ} (max_retries : ℕ) (attempt : ℕ → AttemptOutcome T) where
  -- The rounds from `n`, with `rounds` to go.
  unfoldable pub rounds_from : ℕ → ℕ → String → Result String T × List ℕ
  rounds_from zero n last_err = (err last_err, [])
  rounds_from (suc rounds) n last_err = elim (attempt n) [
    | done value ↦ (ok value, [])
    | fatal e ↦ (err e, [])
    | retry after e ↦
        let (result, sleeps) = rounds_from rounds (suc n) e in
        (result, if ltb n max_retries then retry_delay n after ∷ sleeps else sleeps)
  ]

  unfoldable pub with_retries : Result String T × List ℕ
  unfolding rounds_from retry_delay
  with_retries = rounds_from (suc max_retries) 0 "provider request failed"
