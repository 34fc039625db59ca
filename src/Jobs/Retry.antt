-- ===== src/Jobs/Retry.antt =====
-- `auto_retry` of qiskit_ibm_provider/job/utils.py. The outcome of the i-th call of the function is
-- an argument, and the loop has fuel: `none` means that it still runs.
use qiskit_ibm_provider.Common.{
  ℕ, zero, suc, ◌≡◌, refl, Bool, false, Option, none, some, if◌then◌else◌, ◌==◌, Result, ok, raise,
  arith, String,
}

pub data JobError : Type 0 where
  job_api_error : JobError
  other_error : String → JobError

-- `max_retry` counts down; 0 is not met again once it has passed below it. A Python integer below
-- 0 is one that never meets 0, which `none` stands for.
abbrev decremented : Option ℕ → Option ℕ
decremented none = none
decremented (some zero) = none
decremented (some (suc n)) = some n

abbrev is_zero : Option ℕ → Bool
is_zero none = false
is_zero (some n) = n == 0

-- The body of the loop after a call has answered; `again` is the rest of the loop.
abbrev after_call :
    {A : Type 0}
    → Result JobError A
    → Option ℕ
    → Option (Result JobError A)
    → Option (Result JobError A)
after_call (ok a) left again = some (ok a)
after_call (raise job_api_error) left again =
    if is_zero (decremented left) then some (raise job_api_error) else again
after_call (raise (other_error e)) left again = some (raise (other_error e))

module _ {A : Type 0} (func : ℕ → Result JobError A) where
  unfoldable pub auto_retry : ℕ → ℕ → Option ℕ → Option (Result JobError A)
  auto_retry zero i left = none
  auto_retry (suc fuel) i left =
      let again = auto_retry fuel (suc i) (decremented left) in after_call (func i) left again

  -- The first of `n + 1` outcomes that is no server error, or else the last one.
  unfoldable pub first_answer : ℕ → ℕ → Result JobError A
  first_answer zero i = func i
  first_answer (suc n) i =
      let later = first_answer n (suc i) in
      elim (func i) [
        | ok a ↦ ok a
        | raise e ↦ elim e [ job_api_error ↦ later | other_error t ↦ raise (other_error t) ]
      ]

  -- With `max_retry` at least 1 the function is called at most `max_retry` times, and the loop ends
  -- with the first outcome that is no server error, or with the last server error.
  pub auto_retry-first_answer :
      (max_retry i : ℕ)
      → auto_retry (suc max_retry) i (some (suc max_retry)) ≡ some (first_answer max_retry i)
  unfolding auto_retry first_answer
  auto_retry-first_answer zero i = ground arith
  auto_retry-first_answer (suc n) i = ground (arith, auto_retry-first_answer n (suc i))

  -- While every call is a server error, a negative counter is never used up.
  never_ends :
      (fuel i : ℕ) → ((j : ℕ) → func j ≡ raise job_api_error) → auto_retry fuel i none ≡ none
  unfolding auto_retry
  never_ends zero i h = refl
  never_ends (suc fuel) i h = rw (h i) (never_ends fuel (suc i) h)

  -- With `max_retry` 0 and a server that always fails, no number of calls ends the loop.
  pub auto_retry_zero_diverges :
      (fuel i : ℕ) → ((j : ℕ) → func j ≡ raise job_api_error) → auto_retry fuel i (some 0) ≡ none
  unfolding auto_retry
  auto_retry_zero_diverges zero i h = refl
  auto_retry_zero_diverges (suc fuel) i h = rw (h i) (never_ends fuel (suc i) h)
