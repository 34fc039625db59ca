-- ===== src/Jobs/Circuit/Outcome/Answered.antt =====
-- `result` of qiskit_ibm_provider/job/ibm_circuit_job.py ends, and what it answers or raises agrees
-- with the status of the job.
use qiskit_ibm_provider.Common.{
  ℕ, suc, ◌-◌, ◌*◌, ◌≤◌, ◌≡◌, ◌⊎◌, refl, ◌∙◌, String, Bool, true, false, not, ◌||◌, Option, none,
  some, inl, inr, is_some, arith, Bool-cases, Result, ok, raise,
}
use qiskit_ibm_provider.Common.Exec.{continue, gets, ◌>>=◌}
use qiskit_ibm_provider.Jobs.Status.{
  JobStatus, initializing, validating, queued, running, done, error, cancelled,
}
use qiskit_ibm_provider.Jobs.Circuit.{
  Server, IbmCircuitJob, JobError, failure, timed_out, is_settled,
}
use qiskit_ibm_provider.Jobs.Circuit.Answers.{job_results, set_result, download_external_result}
use qiskit_ibm_provider.Jobs.Circuit.Messages.{parse_result_for_errors}
use qiskit_ibm_provider.Jobs.Circuit.Waiting.{
  is_streaming, has_elapsed, wait_for_final_state-Ended, Ended, is_other,
}
use qiskit_ibm_provider.Jobs.Circuit.Outcome.{
  result, checked, checked_result, retrieve_result, query_result, error_message, query_message,
  message_from_results,
}
use qiskit_ibm_provider.Jobs.Circuit.Outcome.Executed.{IsExecuted, KeepsStatuses}
use qiskit_ibm_provider.Jobs.Circuit.Outcome.Final.{
  error_message-SameStatus, Retrieved, retrieve_result-Retrieved, retrieve_result-SameStatus,
  wait_for_final_state-IsExecuted,
}

abbrev RaisesOther : {A S : Type 0} → Result JobError A × S → Type 0
RaisesOther (ok a, s) = Unit
RaisesOther (raise e, s) = is_other e ≡ true

module _ {R : Type 0} (server : Server R) where
  query_result-RaisesOther : (s : IbmCircuitJob R) → RaisesOther (query_result server s)
  unfolding query_result job_results download_external_result set_result
  query_result-RaisesOther s = ground arith

  retrieve_result-RaisesOther :
      (refresh : Bool) (s : IbmCircuitJob R) → RaisesOther (retrieve_result server refresh s)
  unfolding retrieve_result
  retrieve_result-RaisesOther refresh s = ground (arith, query_result-RaisesOther s)

  error_message-RaisesOther : (s : IbmCircuitJob R) → RaisesOther (error_message server s)
  unfolding error_message query_message message_from_results job_results download_external_result
      parse_result_for_errors
  error_message-RaisesOther s = ground arith

  -- How `result` ends: with a result, which was kept before or is that of a job that is done; or
  -- with IBMJobFailureError when the status is ERROR, with IBMJobTimeoutError when the time is up, or
  -- with an exception of another kind.
  abbrev pub Outcome :
      IbmCircuitJob R → Bool → Option ℕ → Result JobError (Option R) × IbmCircuitJob R → Type 0
  Outcome s refresh timeout (ok a, t) =
      (r : R) × (a ≡ some r)
      × (t.result ≡ some r)
      × (((refresh ≡ false) × (s.result ≡ some r)) ⊎ (t.status ≡ some done))
  Outcome s refresh timeout (raise e, t) =
      (is_other e ≡ true)
      ⊎ ((e ≡ timed_out) × (has_elapsed timeout (t.now - s.now) ≡ true))
      ⊎ ((m : Option String) × (e ≡ failure m) × (t.status ≡ some error))

  some_result : (o : Option R) → is_some o ≡ true → (r : R) × (o ≡ some r)
  some_result none h = cc
  some_result (some r) h = (r, refl)

  after_retrieval :
      (refresh : Bool) (s : IbmCircuitJob R) (timeout : Option ℕ)
      (o : Result JobError (Unit {0}) × IbmCircuitJob R)
      → Retrieved server o
      → RaisesOther o
      → o.1.status ≡ some done
      → Outcome s refresh timeout (continue o.0 (λ _ t. (ok t.result, t)) o.1)
  after_retrieval refresh s timeout (ok a, t) kept other is_done =
      let (r, e) = some_result t.result kept in (r, e, e, inr is_done)
  after_retrieval refresh s timeout (raise e, t) kept other is_done = inl other

  -- The branch of a job with the status ERROR.
  abbrev failed_with :
      Result JobError (Option String) × IbmCircuitJob R
      → Result JobError (Unit {0}) × IbmCircuitJob R
  failed_with o = continue o.0 (λ m t. (raise (failure m), t)) o.1

  after_message :
      (refresh : Bool) (s : IbmCircuitJob R) (timeout : Option ℕ)
      (o : Result JobError (Option String) × IbmCircuitJob R)
      → RaisesOther o
      → o.1.status ≡ some error
      → Outcome s refresh timeout
          (continue (failed_with o).0 (λ _ t. (ok t.result, t)) (failed_with o).1)
  after_message refresh s timeout (ok m, t) other failed = inr (inr (m, refl, failed))
  after_message refresh s timeout (raise e, t) other failed = inl other

  checked-Outcome :
      (refresh : Bool) (s : IbmCircuitJob R) (timeout : Option ℕ) (t : IbmCircuitJob R)
      (st : Option JobStatus)
      → t.status ≡ st
      → is_settled st ≡ true
      → IsExecuted t
      → Outcome s refresh timeout ((checked server st refresh >>= λ _. gets (λ u. u.result)) t)
  checked-Outcome refresh s timeout t (some done) e settled h =
      after_retrieval refresh s timeout (retrieve_result server refresh t)
        (retrieve_result-Retrieved server refresh t e (h e)) (retrieve_result-RaisesOther refresh t)
        ((retrieve_result-SameStatus server refresh t).0 ∙ e)
  checked-Outcome refresh s timeout t (some error) e settled h =
      after_message refresh s timeout (error_message server t) (error_message-RaisesOther t)
        ((error_message-SameStatus server t).0 ∙ e)
  checked-Outcome refresh s timeout t (some cancelled) e settled h = inl refl
  checked-Outcome refresh s timeout t (some initializing) e settled h = cc
  checked-Outcome refresh s timeout t (some validating) e settled h = cc
  checked-Outcome refresh s timeout t (some queued) e settled h = cc
  checked-Outcome refresh s timeout t (some running) e settled h = cc
  checked-Outcome refresh s timeout t none e settled h = cc

  after_wait :
      (refresh : Bool) (s : IbmCircuitJob R) (timeout : Option ℕ)
      (o : Result JobError (Unit {0}) × IbmCircuitJob R)
      → Ended server timeout s.now o
      → IsExecuted o.1
      → Outcome s refresh timeout (continue o.0 (λ _. checked_result server refresh) o.1)
  unfolding checked_result
  after_wait refresh s timeout (ok a, t) ended h =
      checked-Outcome refresh s timeout t t.status refl ended h
  after_wait refresh s timeout (raise e, t) (inl other) h = inl other
  after_wait refresh s timeout (raise e, t) (inr late) h = inr (inl late)

  -- With a timeout, and no stream that is read, `result` ends, in as many rounds as the wait needs.
  -- It answers a result and never None: the one that was kept, or that of a job whose status is DONE.
  -- It raises IBMJobFailureError only if the status is ERROR, and IBMJobTimeoutError only when the
  -- time is up. The job was executed if its status is DONE at first.
  pub result-Outcome :
      (fuel t : ℕ) (refresh : Bool) (s : IbmCircuitJob R)
      → KeepsStatuses server.upper
      → IsExecuted s
      → is_streaming s.ws_client_future ≡ false
      → t ≤ 3000 * fuel
      → (o : Result JobError (Option R) × IbmCircuitJob R) × (result server
            (suc fuel)
            (some t)
            refresh
            s
          ≡ some o)
        × Outcome s refresh (some t) o
  unfolding result
  result-Outcome fuel t refresh s k h quiet enough =
      let (o, waited, ended) = wait_for_final_state-Ended server fuel t s quiet enough in
      elim (Bool-cases (not (is_some s.result) || refresh)) [
        | inl asks ↦ rw asks (
            rw waited (
              (
                _,
                refl,
                after_wait refresh s (some t) o ended (
                    wait_for_final_state-IsExecuted server (suc fuel) (some t) s o.0 o.1 k h
                      waited),
              )))
        | inr kept ↦ ((ok s.result, s), rw kept, kept_result s.result refresh kept)
      ]
    where
      kept_result :
          (o : Option R) (b : Bool)
          → (not (is_some o) || b) ≡ false
          → (r : R) × (o ≡ some r)
            × (o ≡ some r)
            × (((b ≡ false) × (o ≡ some r)) ⊎ (s.status ≡ some done))
      kept_result none b e = cc
      kept_result (some r) b e = (r, refl, refl, inl (e, refl))
