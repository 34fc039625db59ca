-- ===== src/Jobs/Circuit/Outcome/Final.antt =====
-- What `result` of qiskit_ibm_provider/job/ibm_circuit_job.py answers.
use qiskit_ibm_provider.Common.{
  ℕ, ◌≡◌, String, Bool, true, false, Option, some, is_some, arith, Result, ok, raise,
}
use qiskit_ibm_provider.Common.Exec.{continue, lift, ◌>>=◌}
use qiskit_ibm_provider.Jobs.Status.{done}
use qiskit_ibm_provider.Jobs.Circuit.{
  Server, IbmCircuitJob, JobError, status, query_status, set_status, JobResponse, state_status,
}
use qiskit_ibm_provider.Jobs.Circuit.Answers.{job_results, set_result, download_external_result}
use qiskit_ibm_provider.Jobs.Circuit.Waiting.{wait_for_final_state}
use qiskit_ibm_provider.Jobs.Circuit.Waiting.Rule.{wait_for_final_state-keeps}
use qiskit_ibm_provider.Jobs.Circuit.Outcome.{
  retrieve_result, query_result, error_message, query_message, message_from_results, never_executed,
}
use qiskit_ibm_provider.Jobs.Circuit.Outcome.Executed.{
  IsExecuted, KeepsStatuses, set_status-IsExecuted,
}

module _ {R : Type 0} (server : Server R) where
  -- The status of the job stays, with what the server called it, and so does the stream.
  abbrev pub SameStatus : IbmCircuitJob R → IbmCircuitJob R → Type 0
  SameStatus s t =
      (t.status ≡ s.status)
      × (t.api_status ≡ s.api_status)
      × (t.ws_client_future ≡ s.ws_client_future)

  pub job_results-SameStatus : (s : IbmCircuitJob R) → SameStatus s (job_results server s).1
  unfolding job_results download_external_result
  job_results-SameStatus s = ground arith

  pub query_result-SameStatus : (s : IbmCircuitJob R) → SameStatus s (query_result server s).1
  unfolding query_result job_results download_external_result set_result
  query_result-SameStatus s = ground arith

  pub error_message-SameStatus : (s : IbmCircuitJob R) → SameStatus s (error_message server s).1
  unfolding error_message query_message message_from_results job_results download_external_result
  error_message-SameStatus s = ground arith

  pub query_result-is_some :
      (s : IbmCircuitJob R)
      → (query_result server s).0 ≡ ok tt
      → is_some (query_result server s).1.result ≡ true
  unfolding query_result job_results download_external_result set_result
  query_result-is_some s h = ground arith

  set_named-IsExecuted :
      (named : Result JobError String) (s : IbmCircuitJob R)
      → KeepsStatuses server.upper
      → IsExecuted s
      → IsExecuted (continue named (set_status server) s).1
  set_named-IsExecuted (ok named) s k h = set_status-IsExecuted server named s k
  set_named-IsExecuted (raise e) s k h = h

  answer-IsExecuted :
      (answer : Result JobError JobResponse) (s : IbmCircuitJob R)
      → KeepsStatuses server.upper
      → IsExecuted s
      → IsExecuted (continue answer (λ r. lift (state_status r) >>= set_status server) s).1
  answer-IsExecuted (ok response) s k h = set_named-IsExecuted (state_status response) s k h
  answer-IsExecuted (raise e) s k h = h

  query_status-IsExecuted :
      (s : IbmCircuitJob R)
      → KeepsStatuses server.upper
      → IsExecuted s
      → IsExecuted (query_status server s).1
  unfolding query_status
  query_status-IsExecuted s k h = answer-IsExecuted _ _ k h

  pub status-IsExecuted :
      (s : IbmCircuitJob R)
      → KeepsStatuses server.upper
      → IsExecuted s
      → IsExecuted (status server s).1
  unfolding status
  status-IsExecuted s k h = ground (arith, query_status-IsExecuted s k)

  pub wait_for_final_state-IsExecuted :
      (fuel : ℕ) (timeout : Option ℕ) (s : IbmCircuitJob R) (r : Result JobError (Unit {0}))
      (t : IbmCircuitJob R)
      → KeepsStatuses server.upper
      → IsExecuted s
      → wait_for_final_state server fuel timeout s ≡ some (r, t)
      → IsExecuted t
  wait_for_final_state-IsExecuted fuel timeout s r t k =
      wait_for_final_state-keeps server IsExecuted (λ u m n h. h) (λ u. status-IsExecuted u k) fuel
        timeout s r t

  -- What `retrieve_result` leaves, for a job that is done.
  abbrev pub Retrieved : Result JobError (Unit {0}) × IbmCircuitJob R → Type 0
  Retrieved (ok _, t) = is_some t.result ≡ true
  Retrieved (raise e, t) = Unit

  pub retrieve_result-Retrieved :
      (refresh : Bool) (s : IbmCircuitJob R)
      → s.status ≡ some done
      → never_executed s.api_status ≡ false
      → Retrieved (retrieve_result server refresh s)
  unfolding retrieve_result
  retrieve_result-Retrieved refresh s is_done executed =
      ground (arith, query_result-SameStatus s, query_result-is_some s)

  pub retrieve_result-SameStatus :
      (refresh : Bool) (s : IbmCircuitJob R) → SameStatus s (retrieve_result server refresh s).1
  unfolding retrieve_result
  retrieve_result-SameStatus refresh s = ground (arith, query_result-SameStatus s)
