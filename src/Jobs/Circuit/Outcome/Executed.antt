-- ===== src/Jobs/Circuit/Outcome/Executed.antt =====
-- A job that is done has been executed: what `_retrieve_result` of
-- qiskit_ibm_provider/job/ibm_circuit_job.py relies on.
use qiskit_ibm_provider.Common.{◌≡◌, String, true, false, some, str_eq, eq_iff, arith}
use qiskit_ibm_provider.Jobs.Status.{
  ApiJobStatus, done, error, status_value, api_status_to_job_status, api_to_job_status,
  error_creating_job, error_validating_job, error_transpiling_job,
  api_status_to_job_status-status_value,
}
use qiskit_ibm_provider.Jobs.Circuit.{Server, IbmCircuitJob, set_status}
use qiskit_ibm_provider.Jobs.Circuit.Outcome.{never_executed}

-- Upper case leaves the texts of the statuses alone.
abbrev pub KeepsStatuses : (String → String) → Type 0
KeepsStatuses upper = (a : ApiJobStatus) → upper (status_value a) ≡ status_value a

-- The job was executed if its status is DONE.
abbrev pub IsExecuted : {R : Type 0} → IbmCircuitJob R → Type 0
IsExecuted s = s.status ≡ some done → never_executed s.api_status ≡ false

known_error :
    (upper : String → String) (a : ApiJobStatus) (named : String)
    → KeepsStatuses upper
    → str_eq named (status_value a) ≡ true
    → api_status_to_job_status upper named ≡ some (api_to_job_status a)
unfolding status_value
known_error upper a named k e =
    api_status_to_job_status-status_value upper named a (rw ((eq_iff _ _).0 e) (k a))
      (k ApiJobStatus.cancelled)

pub never_executed-is_error :
    (upper : String → String) (named : String)
    → KeepsStatuses upper
    → never_executed (some named) ≡ true
    → api_status_to_job_status upper named ≡ some error
unfolding api_to_job_status status_value
never_executed-is_error upper named k h = ground (
  arith,
  known_error upper error_creating_job named k,
  known_error upper error_validating_job named k,
  known_error upper error_transpiling_job named k,
)

pub set_status-IsExecuted :
    {R : Type 0} (server : Server R) (named : String) (s : IbmCircuitJob R)
    → KeepsStatuses server.upper
    → IsExecuted (set_status server named s).1
unfolding set_status
set_status-IsExecuted server named s k =
    ground (arith, never_executed-is_error server.upper named k)
