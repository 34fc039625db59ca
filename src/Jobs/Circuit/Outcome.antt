-- ===== src/Jobs/Circuit/Outcome.antt =====
-- The outcome of a job: `error_message`, `_retrieve_result` and `result` of
-- qiskit_ibm_provider/job/ibm_circuit_job.py.
pub mod Executed
pub mod Final
pub mod Answered
pub mod Message
use Prim.Native.String.{◌++◌}
use qiskit_ibm_provider.Common.{
  ℕ, zero, suc, String, Bool, true, false, not, ◌||◌, ◌&&◌, Option, none, some, str_eq,
  if◌then◌else◌, is_some, Result, ok, raise,
}
use qiskit_ibm_provider.Common.Exec.{Exec, pure, throw, lift, gets, continue, ◌>>=◌, ◌>>◌}
use qiskit_ibm_provider.Jobs.Status.{JobStatus, done, error, cancelled, api_status_to_job_status}
use qiskit_ibm_provider.Jobs.Circuit.{
  Server, IbmCircuitJob, Method, JobError, ApiError, api_error, invalid_state, failure, uncaught,
  value_error, RawData, plain, bytes, JobResponse, StateData, ask, modify, unhandled, or_raise,
  state_status,
}
use qiskit_ibm_provider.Jobs.Circuit.Messages.{parse_result_for_errors}
use qiskit_ibm_provider.Jobs.Circuit.Answers.{job_results, set_result}
use qiskit_ibm_provider.Jobs.Circuit.Waiting.{Run, wait_for_final_state, then_run}

-- A reason that says more than "Error".
abbrev pub meaningful : Option String → Option String
meaningful none = none
meaningful (some r) = if str_eq r "Error" then none else some r

abbrev pub state_reason : JobResponse → Option String
state_reason r = elim r.state [ none ↦ none | some d ↦ d.reason ]

-- `self._status in [JobStatus.DONE, JobStatus.CANCELLED]`
abbrev pub needs_no_message : Option JobStatus → Bool
needs_no_message (some done) = true
needs_no_message (some cancelled) = true
needs_no_message _ = false

abbrev is_error : JobStatus → Bool
is_error error = true
is_error _ = false

-- `_api_status in (ERROR_CREATING_JOB, ERROR_VALIDATING_JOB, ERROR_TRANSPILING_JOB)`
abbrev pub never_executed : Option String → Bool
never_executed none = false
never_executed (some t) =
    str_eq t "ERROR_CREATING_JOB"
    || str_eq t "ERROR_VALIDATING_JOB"
    || str_eq t "ERROR_TRANSPILING_JOB"

-- A text with bytes behind it raises TypeError, but bytes have raised it before.
abbrev unknown_message : RawData → String
unknown_message (plain raw) = "Unknown error; job result was\n" ++ raw
unknown_message (bytes raw) = ""

abbrev message_of : Option String → RawData → String
message_of (some m) raw = m
message_of none raw = unknown_message raw

abbrev ended_badly : Option JobStatus → Bool
ended_badly (some error) = true
ended_badly (some cancelled) = true
ended_badly _ = false

module _ {R : Type 0} (server : Server R) where
  -- `self._job_error_msg = m; return self._job_error_msg`
  abbrev keep_message : String → Method R (Option String)
  keep_message m = do modify (λ s. record s { job_error_msg = some m }); pure (some m)

  -- The reason is looked for in the results.
  unfoldable pub message_from_results : Method R (Option String)
  unfolding job_results parse_result_for_errors
  message_from_results = do
    raw ← job_results server
    found ← lift (parse_result_for_errors raw)
    keep_message (message_of found raw)

  abbrev message_of_reason : Option String → Method R (Option String)
  message_of_reason none = message_from_results
  message_of_reason (some m) = keep_message m

  -- What the method does when it knows no message.
  unfoldable pub query_message : Method R (Option String)
  unfolding message_from_results
  query_message = do
    response ← ask server (λ n. unhandled (server.job_get n))
    named ← lift (state_status response)
    st ← lift (or_raise (api_status_to_job_status server.upper named) value_error)
    if is_error st then message_of_reason (meaningful (state_reason response)) else pure none

  abbrev known_or_query : Option String → Method R (Option String)
  known_or_query none = query_message
  known_or_query (some m) = pure (some m)

  unfoldable pub error_message : Method R (Option String)
  unfolding query_message
  error_message s =
      (if needs_no_message s.status then pure none else known_or_query s.job_error_msg) s

  abbrev raw_result_of : String → Method R RawData
  raw_result_of kind =
      if str_eq kind "IQX"
      then (do response ← ask server (λ n. unhandled (server.job_result n)); pure (plain response))
      else job_results server

  -- The `try` block of `_retrieve_result`.
  unfoldable pub query_result : Method R (Unit {0})
  unfolding job_results set_result
  query_result = do
    kind ← ask server (λ n. unhandled (server.job_type n))
    raw ← raw_result_of kind
    set_result server raw

  -- `except ApiError`
  abbrev api_error_handled :
      Result JobError (Unit {0}) × IbmCircuitJob R → Result JobError (Unit {0}) × IbmCircuitJob R
  api_error_handled (ok a, s) = (ok a, s)
  api_error_handled (raise (uncaught e), s) =
      if ended_badly s.status then (ok tt, s) else (raise api_error, s)
  api_error_handled (raise e, s) = (raise e, s)

  unfoldable pub retrieve_result : Bool → Method R (Unit {0})
  unfolding query_result
  retrieve_result refresh s =
      if never_executed s.api_status
      then (ok tt, s)
      else if not (is_some s.result) || refresh
      then api_error_handled (query_result s)
      else (ok tt, s)

  abbrev pub checked : Option JobStatus → Bool → Method R (Unit {0})
  checked (some cancelled) refresh = throw invalid_state
  checked (some error) refresh = do m ← error_message; throw (failure m)
  checked _ refresh = retrieve_result refresh

  -- What follows the wait.
  unfoldable pub checked_result : Bool → Method R (Option R)
  unfolding error_message retrieve_result
  checked_result refresh s = (do checked s.status refresh; gets (λ t. t.result)) s

  unfoldable pub result : ℕ → Option ℕ → Bool → IbmCircuitJob R → Run R (Option R)
  unfolding checked_result
  result fuel timeout refresh s =
      if not (is_some s.result) || refresh
      then then_run (wait_for_final_state server fuel timeout s) (checked_result refresh)
      else some (ok s.result, s)
