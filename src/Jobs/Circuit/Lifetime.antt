-- ===== src/Jobs/Circuit/Lifetime.antt =====
-- The life of an `IBMCircuitJob` of qiskit_ibm_provider/job/ibm_circuit_job.py: its construction, and
-- the calls of its methods in any order.
pub mod Ready
pub mod Calls
use qiskit_ibm_provider.Common.{
  ℕ, String, Bool, true, false, Option, none, some, List, [], ◌∷◌, Result, ok, raise,
}
use qiskit_ibm_provider.Common.{◌>>=◌}
use qiskit_ibm_provider.Common.Dict.{Dict}
use qiskit_ibm_provider.Jobs.Status.{JobStatus, api_status_to_job_status}
use qiskit_ibm_provider.Jobs.Circuit.{
  Server, IbmCircuitJob, JobError, value_error, RawData, or_raise, status, cancel, queue_position,
  get_queue_info,
}
use qiskit_ibm_provider.Jobs.Circuit.Answers.{
  refresh, creation_date, time_per_step, client_version, backend_options, header, circuits,
  extract_client_version, decoded_or_raise,
}
use qiskit_ibm_provider.Jobs.Circuit.Waiting.{Run, wait_for_final_state}
use qiskit_ibm_provider.Jobs.Circuit.Outcome.{result, error_message}
use qiskit_ibm_provider.Jobs.Circuit.Tags.{update_tags}

-- The arguments of the constructor that the attributes come from.
pub record JobArguments : Type 0 where
  pub creation_date : Option String
  pub status : Option String
  pub has_kind : Bool
  pub time_per_step : Option (Dict (Option ℕ))
  pub result : Option RawData
  pub tags : List String
  pub client_info : Option String

-- A call of a method. `wait_for_final_state` and `result` have their fuel.
pub data Operation : Type 0 where
  call_status call_cancel call_refresh call_queue_info call_creation_date : Operation
  call_time_per_step call_client_version call_backend_options call_header : Operation
  call_circuits call_error_message : Operation
  call_queue_position : Bool → Operation
  call_update_tags : List String → Operation
  call_wait : ℕ → Option ℕ → Operation
  call_result : ℕ → Option ℕ → Bool → Operation

-- The text of a value that may be None, read by a function that may raise.
abbrev read_optional :
    {A B : Type 0} → (A → Result JobError B) → Option A → Result JobError (Option B)
read_optional f none = ok none
read_optional f (some a) = f a >>= λ b. ok (some b)

module _ {R : Type 0} (server : Server R) where
  -- `__init__`, at a moment and a time.
  unfoldable pub circuit_job : JobArguments → ℕ → ℕ → Result JobError (IbmCircuitJob R)
  unfolding extract_client_version
  circuit_job a moment now = do
    created ← read_optional (λ d. or_raise (server.isoparse d) value_error) a.creation_date
    known ←
        read_optional (λ t. or_raise (api_status_to_job_status server.upper t) value_error) a.status
    decoded ← read_optional (λ d. decoded_or_raise a.has_kind (server.decode d)) a.result
    ok (record {
      api_status = a.status;
      status = known;
      has_kind = a.has_kind;
      creation_date = created;
      time_per_step = a.time_per_step;
      tags = a.tags;
      params = none;
      queue_info = none;
      client_version = extract_client_version a.client_info;
      result = decoded;
      cancelled = false;
      job_error_msg = none;
      refreshed = false;
      ws_client_future = none;
      moment = moment;
      now = now;
    })

  abbrev pub state_of : {A : Type 0} → Run R A → Option (IbmCircuitJob R)
  state_of none = none
  state_of (some o) = some o.1

  -- The job after a call, whether it returned or raised; `none` while it still runs.
  unfoldable pub perform : Operation → IbmCircuitJob R → Option (IbmCircuitJob R)
  perform call_status s = some (status server s).1
  perform call_cancel s = some (cancel server s).1
  perform call_refresh s = some (refresh server s).1
  perform call_queue_info s = some (get_queue_info server s).1
  perform call_creation_date s = some (creation_date server s).1
  perform call_time_per_step s = some (time_per_step server s).1
  perform call_client_version s = some (client_version server s).1
  perform call_backend_options s = some (backend_options server s).1
  perform call_header s = some (header server s).1
  perform call_circuits s = some (circuits server s).1
  perform call_error_message s = some (error_message server s).1
  perform (call_queue_position again) s = some (queue_position server again s).1
  perform (call_update_tags new) s = some (update_tags server new s).1
  perform (call_wait fuel timeout) s = state_of (wait_for_final_state server fuel timeout s)
  perform (call_result fuel timeout again) s = state_of (result server fuel timeout again s)

  -- The job after a list of calls.
  unfoldable pub perform_all : List Operation → IbmCircuitJob R → Option (IbmCircuitJob R)
  unfolding perform
  perform_all [] s = some s
  perform_all (call ∷ calls) s = elim (perform call s) [
    | none ↦ none
    | some t ↦ perform_all calls t
  ]
