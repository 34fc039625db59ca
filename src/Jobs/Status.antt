-- ===== src/Jobs/Status.antt =====
-- Job statuses: qiskit_ibm_provider/apiconstants.py, API_TO_JOB_STATUS and api_status_to_job_status
-- of qiskit_ibm_provider/utils/utils.py, JOB_STATUS_TO_INT of qiskit_ibm_provider/job/utils.py.
use qiskit_ibm_provider.Common.{
  ℕ, ◌≡◌, String, Bool, true, false, Option, none, some, List, [], ◌∷◌, str_eq, if◌then◌else◌, ◌==◌,
  arith, ◌↔◌, ◌≢◌,
}

-- The members of qiskit's JobStatus that the code names.
pub data JobStatus : Type 0 where
  initializing validating queued running error cancelled done : JobStatus

pub data ApiJobStatus : Type 0 where
  creating created transpiling transpiled validating validated running completed : ApiJobStatus
  pending_in_queue queued cancelled cancelled_ran_too_long failed : ApiJobStatus
  error_creating_job error_validating_job error_running_job error_transpiling_job : ApiJobStatus

abbrev pub job_status_to_int : JobStatus → ℕ
job_status_to_int initializing = 0
job_status_to_int validating = 1
job_status_to_int queued = 2
job_status_to_int running = 3
job_status_to_int error = 4
job_status_to_int cancelled = 5
job_status_to_int done = 6

abbrev pub same_status : JobStatus → JobStatus → Bool
same_status a b = job_status_to_int a == job_status_to_int b

-- The table holds a number for each status, and no number twice.
pub same_status_eq : (a b : JobStatus) → same_status a b ≡ true → a ≡ b
same_status_eq a b h = ground arith

-- API_TO_JOB_STATUS
unfoldable pub api_to_job_status : ApiJobStatus → JobStatus
api_to_job_status creating = initializing
api_to_job_status created = initializing
api_to_job_status transpiling = initializing
api_to_job_status transpiled = initializing
api_to_job_status validating = JobStatus.validating
api_to_job_status validated = JobStatus.validating
api_to_job_status running = JobStatus.running
api_to_job_status pending_in_queue = JobStatus.queued
api_to_job_status queued = JobStatus.queued
api_to_job_status completed = done
api_to_job_status cancelled = JobStatus.cancelled
api_to_job_status cancelled_ran_too_long = JobStatus.cancelled
api_to_job_status error_creating_job = error
api_to_job_status error_validating_job = error
api_to_job_status error_running_job = error
api_to_job_status error_transpiling_job = error
api_to_job_status failed = error

-- API_JOB_FINAL_STATES
unfoldable pub in_api_job_final_states : ApiJobStatus → Bool
in_api_job_final_states completed = true
in_api_job_final_states cancelled = true
in_api_job_final_states error_creating_job = true
in_api_job_final_states error_validating_job = true
in_api_job_final_states error_running_job = true
in_api_job_final_states error_transpiling_job = true
in_api_job_final_states failed = true
in_api_job_final_states _ = false

-- The text of each member of ApiJobStatus.
unfoldable pub status_value : ApiJobStatus → String
status_value creating = "CREATING"
status_value created = "CREATED"
status_value transpiling = "TRANSPILING"
status_value transpiled = "TRANSPILED"
status_value validating = "VALIDATING"
status_value validated = "VALIDATED"
status_value running = "RUNNING"
status_value completed = "COMPLETED"
status_value pending_in_queue = "PENDING_IN_QUEUE"
status_value queued = "QUEUED"
status_value cancelled = "CANCELLED"
status_value cancelled_ran_too_long = "CANCELLED - RAN TOO LONG"
status_value failed = "FAILED"
status_value error_creating_job = "ERROR_CREATING_JOB"
status_value error_validating_job = "ERROR_VALIDATING_JOB"
status_value error_running_job = "ERROR_RUNNING_JOB"
status_value error_transpiling_job = "ERROR_TRANSPILING_JOB"

abbrev all_api_statuses : List ApiJobStatus
all_api_statuses =
    creating ∷ created ∷ transpiling ∷ transpiled ∷ ApiJobStatus.validating ∷ validated
    ∷ ApiJobStatus.running ∷ completed ∷ pending_in_queue ∷ ApiJobStatus.queued
    ∷ ApiJobStatus.cancelled ∷ cancelled_ran_too_long ∷ failed ∷ error_creating_job
    ∷ error_validating_job ∷ error_running_job ∷ error_transpiling_job ∷ []

find_value : String → List ApiJobStatus → Option ApiJobStatus
find_value text [] = none
find_value text (s ∷ ss) =
    let rest = find_value text ss in if str_eq text (status_value s) then some s else rest

-- ApiJobStatus(text), which raises ValueError for a text that is no member's: `none`.
unfoldable pub api_job_status : String → Option ApiJobStatus
unfolding find_value status_value
api_job_status text = find_value text all_api_statuses

abbrev mapped : Option ApiJobStatus → Option JobStatus
mapped none = none
mapped (some s) = some (api_to_job_status s)

-- api_status_to_job_status of a text; `upper` is Python's `str.upper`.
unfoldable pub api_status_to_job_status : (String → String) → String → Option JobStatus
unfolding api_job_status api_to_job_status
api_status_to_job_status upper text =
    let renamed = if str_eq (upper text) "CANCELLED - RAN TOO LONG" then "CANCELLED" else text in
    mapped (api_job_status (upper renamed))

-- Every status that the server may name is understood, whatever the letter case of the text, and
-- has the job status of the table. `upper` gives the member's text, and keeps "CANCELLED".
pub api_status_to_job_status-status_value :
    (upper : String → String) (text : String) (s : ApiJobStatus)
    → upper text ≡ status_value s
    → upper "CANCELLED" ≡ "CANCELLED"
    → api_status_to_job_status upper text ≡ some (api_to_job_status s)
unfolding api_status_to_job_status
api_status_to_job_status-status_value upper text creating h c =
    rw (h, api_status_to_job_status) (rw h)
api_status_to_job_status-status_value upper text cancelled_ran_too_long h c =
    rw (h, api_status_to_job_status) (rw c)
api_status_to_job_status-status_value upper text _ h c = rw (h, api_status_to_job_status) (rw h)

-- The statuses after which qiskit expects no change (JOB_FINAL_STATES).
abbrev pub is_final : JobStatus → Bool
is_final error = true
is_final JobStatus.cancelled = true
is_final done = true
is_final _ = false

-- The server's final statuses are those whose job status is final, with one exception:
-- CANCELLED_RAN_TOO_LONG is mapped to the final CANCELLED, and is not in API_JOB_FINAL_STATES.
in_api_job_final_states_iff :
    (s : ApiJobStatus)
    → (in_api_job_final_states s ≡ true)
      ↔ ((is_final (api_to_job_status s) ≡ true) × (s ≢ cancelled_ran_too_long))
unfolding in_api_job_final_states api_to_job_status
in_api_job_final_states_iff s = ground arith
