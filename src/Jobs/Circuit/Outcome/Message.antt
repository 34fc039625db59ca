-- ===== src/Jobs/Circuit/Outcome/Message.antt =====
-- `error_message` of qiskit_ibm_provider/job/ibm_circuit_job.py: the message is kept, and a result
-- that is stored elsewhere cannot be searched.
use qiskit_ibm_provider.Common.{◌≡◌, String, Option, none, some, arith, Result, ok, raise}
use qiskit_ibm_provider.Jobs.Circuit.{Server, IbmCircuitJob, JobError}
use qiskit_ibm_provider.Jobs.Circuit.Answers.{job_results, download_external_result}
use qiskit_ibm_provider.Jobs.Circuit.Outcome.{error_message, query_message, message_from_results}

module _ {R : Type 0} (server : Server R) where
  -- What an answer leaves in the job.
  abbrev Keeps : IbmCircuitJob R → Result JobError (Option String) × IbmCircuitJob R → Type 0
  Keeps s (ok (some m), t) = (t.job_error_msg ≡ some m) × (t.status ≡ s.status)
  Keeps s (ok none, t) = Unit
  Keeps s (raise e, t) = Unit

  error_message-Keeps : (s : IbmCircuitJob R) → Keeps s (error_message server s)
  unfolding error_message query_message message_from_results job_results download_external_result
  error_message-Keeps s = ground arith

  -- An error message that was answered once is answered again, with no question to the server and no
  -- change of the job.
  error_message_again :
      (s : IbmCircuitJob R) (m : String) (t : IbmCircuitJob R)
      → error_message server s ≡ (ok (some m), t)
      → error_message server t ≡ (ok (some m), t)
  unfolding error_message
  error_message_again s m t h = ground (arith, error_message-Keeps s)
