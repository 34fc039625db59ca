-- ===== src/Jobs/Circuit/Tests.antt =====
-- The theorems on circuit jobs, applied to a server that finishes a job at its third answer.
use qiskit_ibm_provider.Common.{
  ℕ, zero, suc, ◌+◌, ◌<◌, ◌≡◌, refl, String, false, Option, none, some, [], ◌∷◌, if◌then◌else◌, ltb,
  Result, ok, arith,
}
use qiskit_ibm_provider.Jobs.Status.{JobStatus, done, is_final, api_status_to_job_status}
use qiskit_ibm_provider.Jobs.Circuit.{
  Server, IbmCircuitJob, JobError, JobResponse, Metadata, decoded, status, query_status, set_status,
}
use qiskit_ibm_provider.Jobs.Circuit.Messages.{search_job_error, from_last}
use qiskit_ibm_provider.Jobs.Circuit.Answers.{extract_client_version}
use qiskit_ibm_provider.Jobs.Circuit.Waiting.{
  Ended, wait_for_final_state, wait_for_final_state-Ended,
}
use qiskit_ibm_provider.Jobs.Circuit.Waiting.Polling.{
  named_status, wait_for_final_state-first_final,
}
use qiskit_ibm_provider.Jobs.Circuit.Outcome.{error_message, result}
use qiskit_ibm_provider.Jobs.Circuit.Outcome.Answered.{Outcome}
use qiskit_ibm_provider.Jobs.Circuit.Tags.{update_tags}
use qiskit_ibm_provider.Jobs.Circuit.Lifetime.{JobArguments, call_status, circuit_job, perform_all}
use qiskit_ibm_provider.Jobs.Circuit.Lifetime.Calls.{result-after_calls}

abbrev response_with : String → Option String → JobResponse
response_with named reason = record {
  id = some "j1";
  created = some "2023-01-01";
  state = some (record { status = some named; reason = reason });
  tags = some ("mine" ∷ "ibm_composite_job_id_7" ∷ []);
  params = none;
}

abbrev no_metadata : Metadata
no_metadata = record {
  timestamps = none;
  qiskit_version = some "0.1.0,0.21.2";
  position_in_queue = none;
  estimated_completion_time = none;
}

-- A server whose answers to `job_get` are given.
abbrev answering : (ℕ → JobResponse) → Server String
answering answers = record {
  job_get = λ n. ok (answers n);
  job_metadata = λ n. ok no_metadata;
  job_results = λ n. ok "elsewhere";
  job_cancel = λ n. ok tt;
  update_tags = λ tags n. ok 204;
  job_type = λ n. ok "qiskit";
  job_result = λ n. ok "{}";
  download = λ url n. some "JobError: 'bad'";
  stream_result = λ timeout n. ok tt;
  latency = λ n. 100;
  upper = λ s. s;
  isoparse = λ s. some 1;
  external_url = λ s. some "https://results";
  decode = λ raw. decoded "counts";
}

abbrev finishing : Server String
finishing = answering λ n. response_with (if ltb n 2 then "QUEUED" else "COMPLETED") none

abbrev failing : Server String
failing = answering λ n. response_with "FAILED" (some "Error")

abbrev explaining : Server String
explaining = answering λ n. response_with "FAILED" (some "Too many qubits")

abbrev new_job : IbmCircuitJob String
new_job = record {
  api_status = none;
  status = none;
  has_kind = false;
  creation_date = none;
  time_per_step = none;
  tags = "ibm_composite_job_id_7" ∷ "old" ∷ [];
  params = none;
  queue_info = none;
  client_version = [];
  result = none;
  cancelled = false;
  job_error_msg = none;
  refreshed = false;
  ws_client_future = none;
  moment = 0;
  now = 0;
}

abbrev arguments : JobArguments
arguments = record {
  creation_date = none;
  status = none;
  has_kind = false;
  time_per_step = none;
  result = none;
  tags = "ibm_composite_job_id_7" ∷ "old" ∷ [];
  client_info = none;
}

search_job_error_greedy : search_job_error "x JobError: 'it's bad' y" ≡ some "it's bad"
unfolding search_job_error
search_job_error_greedy = refl

from_last_traceback : from_last "Traceback" "Traceback one Traceback two" ≡ some "Traceback two"
unfolding from_last
from_last_traceback = refl

two_client_versions :
    extract_client_version (some "0.1.0,0.21.2")
    ≡ ("qiskit-ibm-provider", "0.1.0") ∷ ("qiskit-terra", "0.21.2") ∷ []
unfolding extract_client_version
two_client_versions = refl

wait_for_final_state-Ended_example :
    (o : Result JobError (Unit {0}) × IbmCircuitJob String) × (wait_for_final_state finishing 4
        (some 9000)
        new_job
      ≡ some o)
    × Ended finishing (some 9000) 0 o
wait_for_final_state-Ended_example =
    wait_for_final_state-Ended finishing 3 9000 new_job refl (omega arith)

wait_for_final_state-first_final_example :
    (t : IbmCircuitJob String) × (wait_for_final_state finishing 3 none new_job ≡ some (ok tt, t))
    × (t.status ≡ some done)
    × (t.moment ≡ 0 + 2 + 1)
unfolding api_status_to_job_status
wait_for_final_state-first_final_example =
    wait_for_final_state-first_final finishing 2 new_job done refl refl before refl refl
  where
    before :
        (i : ℕ)
        → i < 2
        → (st : JobStatus) × (named_status finishing (0 + i) ≡ ok st) × (is_final st ≡ false)
    before zero l = (JobStatus.queued, refl, refl)
    before (suc zero) l = (JobStatus.queued, refl, refl)
    before (suc (suc i)) l = absurd (omega arith)

abbrev explained : IbmCircuitJob String
explained = record new_job { job_error_msg = some "Too many qubits"; moment = 1; now = 100 }

explained_once : error_message explaining new_job ≡ (ok (some "Too many qubits"), explained)
unfolding error_message api_status_to_job_status
explained_once = refl

abbrev retagged : IbmCircuitJob String
retagged = record new_job { tags = "mine" ∷ "ibm_composite_job_id_7" ∷ []; moment = 2; now = 200 }

abbrev asked_once : IbmCircuitJob String
asked_once = record new_job {
  api_status = some "QUEUED";
  status = some JobStatus.queued;
  moment = 1;
  now = 100;
}

result-after_calls_example :
    (o : Result JobError (Option String) × IbmCircuitJob String) × (result finishing 4
        (some 9000)
        false
        asked_once
      ≡ some o)
    × Outcome finishing asked_once false (some 9000) o
unfolding circuit_job perform_all status query_status set_status api_status_to_job_status
result-after_calls_example =
    result-after_calls finishing arguments 0 0 (call_status ∷ []) new_job asked_once 3 9000 false
      (λ a. refl) refl refl (omega arith)
