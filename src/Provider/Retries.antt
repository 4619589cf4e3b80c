-- ===== src/Provider/Retries.antt =====
-- When a provider is asked again, and how often.
use memoryd.Prelude.{
  ℕ, zero, suc, ◌+◌, ◌≤◌, ◌<◌, String, Option, List, ◌≡◌, refl, subst, inl, inr, ◌⊎◌, arith, Result,
  ok, err, length,
}
use memoryd.Provider.{AttemptOutcome, done, retry, fatal, rounds_from, with_retries}

-- The answer is a transient error.
abbrev pub IsTransient {ℓ} : {T : Type ℓ} → AttemptOutcome T → Type 0
IsTransient (retry after e) = Unit {0}
IsTransient o = ⊥

-- What an answer that ends the rounds is turned into.
abbrev pub final : {T : Type 0} → AttemptOutcome T → Result String T
final (done value) = ok value
final (fatal e) = err e
final (retry after e) = err e

outcome_cases :
    {T : Type 0} (o : AttemptOutcome T)
    → ((after : Option ℕ) × (e : String) × (o ≡ retry after e)) ⊎ (IsTransient o → ⊥)
outcome_cases (done value) = inr (λ h. h)
outcome_cases (fatal e) = inr (λ h. h)
outcome_cases (retry after e) = inl (after, e, refl)

module _ {T : Type 0} (max_retries : ℕ) (attempt : ℕ → AttemptOutcome T) where
  -- The rounds end at that answer, after that many sleeps.
  pub Settles : AttemptOutcome T → ℕ → Result String T × List ℕ → Type 0
  Settles o k (result, sleeps) = (result ≡ final o) × (length sleeps ≡ k)

  settle-here :
      (o : AttemptOutcome T) (n rounds : ℕ) (last : String)
      → attempt n ≡ o
      → (IsTransient o → 0 ≡ rounds)
      → n + rounds ≡ max_retries
      → Settles o 0 (rounds_from max_retries attempt (suc rounds) n last)
  unfolding rounds_from Settles
  settle-here (done value) n rounds last e stop sum = rw (e, rounds_from) (refl, refl)
  settle-here (fatal m) n rounds last e stop sum = rw (e, rounds_from) (refl, refl)
  settle-here (retry after m) n (suc rounds) last e stop sum = absurd (omega (arith, stop tt))
  settle-here (retry after m) n zero last e stop sum = rw (e, rounds_from) (refl, ground arith)

  settle-from :
      (o : AttemptOutcome T) (k n rounds : ℕ) (last : String)
      → ((i : ℕ) → i < k → IsTransient (attempt (n + i)))
      → attempt (n + k) ≡ o
      → (IsTransient o → k ≡ rounds)
      → k ≤ rounds
      → n + rounds ≡ max_retries
      → Settles o k (rounds_from max_retries attempt (suc rounds) n last)
  unfolding rounds_from Settles
  settle-from o zero n rounds last before e stop low sum =
      settle-here o n rounds last (subst (λ i. attempt i ≡ o) (omega arith) e) stop sum
  settle-from o (suc k) n zero last before e stop low sum = absurd (omega arith)
  settle-from o (suc k) n (suc rounds) last before e stop low sum =
      elim (outcome_cases (attempt n)) [
        | inr ends ↦
            absurd
              (ends (subst (λ i. IsTransient (attempt i)) (omega arith) (before 0 (omega arith))))
        | inl (after, m, again) ↦
            let (result, sleeps) =
              settle-from o k (suc n) rounds m
                (λ i lt.
                  subst (λ j. IsTransient (attempt j)) (omega arith) (before (suc i) (omega arith)))
                (subst (λ j. attempt j ≡ o) (omega arith) e) (λ t. omega (arith, stop t))
                (omega arith) (omega arith) in
            rw (again, rounds_from) (result, ground arith)
      ]

  -- If the answers before the k-th are transient, and the k-th is not, or is the last that the
  -- budget of retries allows, then the provider is asked no more: the k-th answer is what the call
  -- returns, and it has slept once for each answer before it. A budget of retries that is spent
  -- therefore ends in the last transient error.
  pub with_retries-Settles :
      (o : AttemptOutcome T) (k : ℕ)
      → ((i : ℕ) → i < k → IsTransient (attempt i))
      → attempt k ≡ o
      → (IsTransient o → k ≡ max_retries)
      → k ≤ max_retries
      → Settles o k (with_retries max_retries attempt)
  unfolding with_retries
  with_retries-Settles o k before e stop low =
      settle-from o k 0 max_retries "provider request failed"
        (λ i lt. subst (λ j. IsTransient (attempt j)) (omega arith) (before i lt))
        (subst (λ j. attempt j ≡ o) (omega arith) e) stop low (omega arith)
