-- ===== src/Websocket/Status/Names.antt =====
-- The texts of the statuses that a server sends, of qiskit_ibm_provider/apiconstants.py.
use qiskit_ibm_provider.Common.{◌≡◌, refl, false, some, str_eq}
use qiskit_ibm_provider.Jobs.Status.{
  ApiJobStatus, creating, created, transpiling, transpiled, validated, completed, pending_in_queue,
  cancelled_ran_too_long, failed, error_creating_job, error_validating_job, error_running_job,
  error_transpiling_job, api_job_status, status_value,
}

pub api_job_status-status_value : (s : ApiJobStatus) → api_job_status (status_value s) ≡ some s
unfolding api_job_status status_value
api_job_status-status_value creating = refl
api_job_status-status_value created = refl
api_job_status-status_value transpiling = refl
api_job_status-status_value transpiled = refl
api_job_status-status_value ApiJobStatus.validating = refl
api_job_status-status_value validated = refl
api_job_status-status_value ApiJobStatus.running = refl
api_job_status-status_value completed = refl
api_job_status-status_value pending_in_queue = refl
api_job_status-status_value ApiJobStatus.queued = refl
api_job_status-status_value ApiJobStatus.cancelled = refl
api_job_status-status_value cancelled_ran_too_long = refl
api_job_status-status_value failed = refl
api_job_status-status_value error_creating_job = refl
api_job_status-status_value error_validating_job = refl
api_job_status-status_value error_running_job = refl
api_job_status-status_value error_transpiling_job = refl

pub status_value-not_empty : (s : ApiJobStatus) → str_eq (status_value s) "" ≡ false
unfolding status_value
status_value-not_empty creating = refl
status_value-not_empty created = refl
status_value-not_empty transpiling = refl
status_value-not_empty transpiled = refl
status_value-not_empty ApiJobStatus.validating = refl
status_value-not_empty validated = refl
status_value-not_empty ApiJobStatus.running = refl
status_value-not_empty completed = refl
status_value-not_empty pending_in_queue = refl
status_value-not_empty ApiJobStatus.queued = refl
status_value-not_empty ApiJobStatus.cancelled = refl
status_value-not_empty cancelled_ran_too_long = refl
status_value-not_empty failed = refl
status_value-not_empty error_creating_job = refl
status_value-not_empty error_validating_job = refl
status_value-not_empty error_running_job = refl
status_value-not_empty error_transpiling_job = refl
