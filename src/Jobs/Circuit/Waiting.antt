-- ===== src/Jobs/Circuit/Waiting.antt =====
-- Waiting for the end of a job: `wait_for_final_state` of
-- qiskit_ibm_provider/job/ibm_circuit_job.py. The loop has fuel, and `none` means that it ran out.
-- Times are in milliseconds; a question takes the server's time, and a sleep takes 3000.
pub mod Polling
pub mod Rule
use qiskit_ibm_provider.Common.{
  ℕ, zero, suc, ◌+◌, ◌-◌, ◌*◌, ◌≤◌, ◌<◌, ◌≡◌, ◌⊎◌, refl, String, Bool, true, false, Option, none,
  some, if◌then◌else◌, leb, Result, ok, raise, arith, Bool-cases, inl, inr, leb→le, leb→lt,
}
use qiskit_ibm_provider.Common.Exec.{continue, pure, ◌>>=◌, ◌>>◌}
use qiskit_ibm_provider.Jobs.Status.{JobStatus, is_final, api_status_to_job_status}
use qiskit_ibm_provider.Jobs.Circuit.{
  Server, IbmCircuitJob, Method, JobError, api_error, timed_out, failure, value_error, key_error,
  Future, pending, finished, ask, status, query_status, set_status, state_status, is_settled,
  JobResponse,
}

-- Neither a timeout nor the failure of the job.
abbrev pub is_other : JobError → Bool
is_other timed_out = false
is_other (failure m) = false
is_other _ = true

-- What a method that may run on answers: nothing while it still runs.
abbrev pub Run : Type 0 → Type 0 → Type 0
Run R A = Option (Result JobError A × IbmCircuitJob R)

abbrev pub is_streaming : Option Future → Bool
is_streaming none = false
is_streaming (some pending) = true
is_streaming (some finished) = false

-- `timeout is not None and elapsed_time >= timeout`
abbrev pub has_elapsed : Option ℕ → ℕ → Bool
has_elapsed none elapsed = false
has_elapsed (some t) elapsed = leb t elapsed

module _ {R : Type 0} where
  abbrev pub sleep : IbmCircuitJob R → IbmCircuitJob R
  sleep s = record s { now = s.now + 3000 }

  abbrev pub then_run : {A B : Type 0} → Run R A → Method R B → Run R B
  then_run none m = none
  then_run (some (r, s)) m = some (continue r (λ _. m) s)

module _ {R : Type 0} (server : Server R) where
  -- The loop, with the outcome of the last call of `status`.
  unfoldable pub wait_until_final :
      ℕ → Option ℕ → ℕ → Result JobError JobStatus × IbmCircuitJob R → Run R (Unit {0})
  wait_until_final zero timeout start outcome = none
  wait_until_final (suc fuel) timeout start (raise e, s) = some (raise e, s)
  wait_until_final (suc fuel) timeout start (ok st, s) =
      let again = wait_until_final fuel timeout start (status server (sleep s)) in
      if is_final st
      then some (ok tt, s)
      else if has_elapsed timeout (s.now - start)
      then some (raise timed_out, s)
      else again

  abbrev pub wait_for_stream : Option ℕ → Method R (Unit {0})
  wait_for_stream timeout s =
      if is_streaming s.ws_client_future
      then ask server (server.stream_result timeout) s
      else (ok tt, s)

  abbrev pub poll :
      ℕ → Option ℕ → ℕ → Result JobError (Unit {0}) × IbmCircuitJob R → Run R (Unit {0})
  poll fuel timeout start (raise e, s) = some (raise e, s)
  poll fuel timeout start (ok _, s) = wait_until_final fuel timeout start (status server s)

  unfoldable pub wait_for_final_state : ℕ → Option ℕ → IbmCircuitJob R → Run R (Unit {0})
  unfolding wait_until_final
  wait_for_final_state fuel timeout s = poll fuel timeout s.now (wait_for_stream timeout s)

  -- How a call of `status` leaves the job.
  abbrev pub Answered : IbmCircuitJob R → Result JobError JobStatus × IbmCircuitJob R → Type 0
  Answered s (ok st, t) = (t.status ≡ some st) × (s.now ≤ t.now)
  Answered s (raise e, t) = (is_other e ≡ true) × (s.now ≤ t.now)

  status-Answered : (s : IbmCircuitJob R) → Answered s (status server s)
  unfolding status query_status set_status
  status-Answered s = ground arith

  -- How a wait ends: the status of the job is final, or the time is up, or an exception of another
  -- kind is raised.
  abbrev pub Ended : Option ℕ → ℕ → Result JobError (Unit {0}) × IbmCircuitJob R → Type 0
  Ended timeout start (ok _, s) = is_settled s.status ≡ true
  Ended timeout start (raise e, s) =
      (is_other e ≡ true) ⊎ ((e ≡ timed_out) × (has_elapsed timeout (s.now - start) ≡ true))

  wait_until_final-Ended :
      (fuel t start : ℕ) (outcome : Result JobError JobStatus × IbmCircuitJob R)
      (s0 : IbmCircuitJob R)
      → Answered s0 outcome
      → start ≤ s0.now
      → t ≤ s0.now - start + 3000 * fuel
      → (o : Result JobError (Unit {0}) × IbmCircuitJob R) × (wait_until_final
            (suc fuel)
            (some t)
            start
            outcome
          ≡ some o)
        × Ended (some t) start o
  unfolding wait_until_final
  wait_until_final-Ended fuel t start (raise e, s) s0 a l m = ((raise e, s), refl, inl a.0)
  wait_until_final-Ended zero t start (ok st, s) s0 a l m = elim (Bool-cases (is_final st)) [
    | inl final ↦ ((ok tt, s), rw final, rw (a.0) final)
    | inr more ↦ elim (Bool-cases (leb t (s.now - start))) [
      | inl late ↦ ((raise timed_out, s), rw more (rw late), inr (refl, late))
      | inr early ↦ absurd (omega (arith, leb→lt t (s.now - start) early, a.1))
    ]
  ]
  wait_until_final-Ended (suc fuel) t start (ok st, s) s0 a l m = elim (Bool-cases (is_final st)) [
    | inl final ↦ ((ok tt, s), rw final, rw (a.0) final)
    | inr more ↦ elim (Bool-cases (leb t (s.now - start))) [
      | inl late ↦ ((raise timed_out, s), rw more (rw late), inr (refl, late))
      | inr early ↦ rw more (
          rw early (
            wait_until_final-Ended fuel t start (status server (sleep s)) (sleep s)
              (status-Answered (sleep s)) (omega (arith, a.1))
              (omega (arith, leb→lt t (s.now - start) early, a.1))))
    ]
  ]

  -- With a timeout, and no stream that is read, the wait ends: one round for each 3000 milliseconds
  -- and one more are enough, whatever the server answers. It returns only when the status is final,
  -- and raises IBMJobTimeoutError only when the time is up, and never IBMJobFailureError.
  pub wait_for_final_state-Ended :
      (fuel t : ℕ) (s : IbmCircuitJob R)
      → is_streaming s.ws_client_future ≡ false
      → t ≤ 3000 * fuel
      → (o : Result JobError (Unit {0}) × IbmCircuitJob R) × (wait_for_final_state
            (suc fuel)
            (some t)
            s
          ≡ some o)
        × Ended (some t) s.now o
  unfolding wait_for_final_state
  wait_for_final_state-Ended fuel t s quiet enough = rw quiet (
      wait_until_final-Ended fuel t s.now (status server s) s (status-Answered s) (omega arith)
        (omega arith))
