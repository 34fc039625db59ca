-- ===== src/Jobs/Circuit.antt =====
-- `IBMCircuitJob` of qiskit_ibm_provider/job/ibm_circuit_job.py: its attributes, and its status,
-- cancellation and queue information. The server, the clock and the libraries that the class calls
-- are the record Server. A method is an action on the job that may raise.
pub mod Messages
pub mod Answers
pub mod Waiting
pub mod Outcome
pub mod Tags
pub mod Lifetime
mod Tests
use qiskit_ibm_provider.Common.{
  ℕ, ◌+◌, String, Bool, true, false, ◌&&◌, Option, none, some, List, [], ◌∷◌, if◌then◌else◌, ◌==◌,
  Result, ok, raise,
}
use qiskit_ibm_provider.Common.Dict.{Dict}
use qiskit_ibm_provider.Common.Exec.{Exec, pure, throw, lift, gets, ◌>>=◌, ◌>>◌}
use qiskit_ibm_provider.Jobs.Status.{JobStatus, is_final, api_status_to_job_status}
use qiskit_ibm_provider.Jobs.Queue.{QueueInfo, queue_info}

-- What the server's refusal carries (RequestsApiError).
pub record ApiError : Type 0 where
  pub status_code : ℕ

-- What the methods raise: the IBMJobErrors, an ApiError that is not converted, and the exceptions
-- of Python.
pub data JobError : Type 0 where
  api_error invalid_state timed_out job_error : JobError
  failure : Option String → JobError
  uncaught : ApiError → JobError
  key_error value_error type_error connection_error : JobError

-- `response["state"]`, of which the two keys may be missing.
pub record StateData : Type 0 where
  pub status : Option String
  pub reason : Option String

-- The value of a job parameter: the code only asks whether it is a list.
pub data Param : Type 0 where
  one : String → Param
  many : List String → Param

-- The answer of `job_get`; a missing key is `none`.
pub record JobResponse : Type 0 where
  pub id : Option String
  pub created : Option String
  pub state : Option StateData
  pub tags : Option (List String)
  pub params : Option (Dict Param)

pub record Metadata : Type 0 where
  pub timestamps : Option (Dict (Option ℕ))
  pub qiskit_version : Option String
  pub position_in_queue : Option ℕ
  pub estimated_completion_time : Option ℕ

-- A result as it came: the text of the server, or the bytes of an external URL.
pub data RawData : Type 0 where
  plain : String → RawData
  bytes : String → RawData

-- What decoding gives: a result, a KeyError or TypeError, or another exception.
pub data Decoded (R : Type 0) : Type 0 where
  decoded : R → Decoded R
  unsupported : Decoded R
  undecodable : Decoded R

-- The answers to the n-th question to the world outside, and how long each takes; `upper` is
-- `str.upper`, `isoparse` and `external_url` read a date and the "url" of a JSON text, and `download` gets a URL.
pub record Server (R : Type 0) : Type 0 where
  pub job_get : ℕ → Result ApiError JobResponse
  pub job_metadata : ℕ → Result ApiError Metadata
  pub job_results : ℕ → Result ApiError String
  pub job_cancel : ℕ → Result ApiError (Unit {0})
  pub update_tags : List String → ℕ → Result ApiError ℕ
  pub job_type : ℕ → Result ApiError String
  pub job_result : ℕ → Result ApiError String
  pub download : String → ℕ → Option String
  pub stream_result : Option ℕ → ℕ → Result JobError (Unit {0})
  pub latency : ℕ → ℕ
  pub upper : String → String
  pub isoparse : String → Option ℕ
  pub external_url : String → Option String
  pub decode : RawData → Decoded R

-- The thread that reads the websocket.
pub data Future : Type 0 where
  pending finished : Future

-- The attributes; `moment` counts the questions that were asked, and `now` is the clock in
-- milliseconds.
pub record IbmCircuitJob (R : Type 0) : Type 0 where
  pub api_status : Option String
  pub status : Option JobStatus
  pub has_kind : Bool
  pub creation_date : Option ℕ
  pub time_per_step : Option (Dict (Option ℕ))
  pub tags : List String
  pub params : Option (Dict Param)
  pub queue_info : Option QueueInfo
  pub client_version : Dict String
  pub result : Option R
  pub cancelled : Bool
  pub job_error_msg : Option String
  pub refreshed : Bool
  pub ws_client_future : Option Future
  pub moment : ℕ
  pub now : ℕ

-- The method as an action.
abbrev pub Method : Type 0 → Type 0 → Type 0
Method R A = Exec (IbmCircuitJob R) JobError A

-- `with api_to_job_error()`
abbrev pub api_to_job_error : {A : Type 0} → Result ApiError A → Result JobError A
api_to_job_error (ok a) = ok a
api_to_job_error (raise e) = raise api_error

-- A request with no handler around it.
abbrev pub unhandled : {A : Type 0} → Result ApiError A → Result JobError A
unhandled (ok a) = ok a
unhandled (raise e) = raise (uncaught e)

abbrev pub or_raise : {A : Type 0} → Option A → JobError → Result JobError A
or_raise none e = raise e
or_raise (some a) e = ok a

-- `response["state"]["status"]`
abbrev pub state_status : JobResponse → Result JobError String
state_status r = elim r.state [ none ↦ raise key_error | some d ↦ or_raise d.status key_error ]

-- `status is not None and status in JOB_FINAL_STATES`
abbrev pub is_settled : Option JobStatus → Bool
is_settled none = false
is_settled (some st) = is_final st

abbrev cancel_error : ApiError → JobError
cancel_error e = if e.status_code == 409 then invalid_state else job_error

abbrev cancel_answer : Result ApiError (Unit {0}) → Result JobError (Unit {0})
cancel_answer (ok a) = ok a
cancel_answer (raise e) = raise (cancel_error e)

abbrev pub position : Option QueueInfo → Option ℕ
position none = none
position (some q) = q.position

-- Of the attributes that do not start with an underscore, only the position is ever set.
abbrev if_useful : Option QueueInfo → Option QueueInfo
if_useful none = none
if_useful (some q) = elim q.position [ none ↦ none | some p ↦ some q ]

module _ {R : Type 0} where
  -- Ask the world outside.
  abbrev pub ask : {A : Type 0} → Server R → (ℕ → Result JobError A) → Method R A
  ask server answer s =
      (answer s.moment, record s { moment = s.moment + 1; now = s.now + server.latency s.moment })

  abbrev pub modify : (IbmCircuitJob R → IbmCircuitJob R) → Method R (Unit {0})
  modify f s = (ok tt, f s)

module _ {R : Type 0} (server : Server R) where
  -- `self._api_status = named; self._status = api_status_to_job_status(named)`
  unfoldable pub set_status : String → Method R JobStatus
  set_status named = do
    modify (λ s. record s { api_status = some named })
    st ← lift (or_raise (api_status_to_job_status server.upper named) value_error)
    modify (λ s. record s { status = some st })
    pure st

  unfoldable pub query_status : Method R JobStatus
  unfolding set_status
  query_status = do
    response ← ask server (λ n. api_to_job_error (server.job_get n))
    named ← lift (state_status response)
    set_status named

  abbrev settled_or_query : Option JobStatus → Method R JobStatus
  settled_or_query none = query_status
  settled_or_query (some st) = if is_final st then pure st else query_status

  unfoldable pub status : Method R JobStatus
  unfolding query_status
  status s = settled_or_query s.status s

  -- `_ws_client.disconnect` acts on the websocket alone.
  unfoldable pub cancel : Method R Bool
  cancel = do
    ask server (λ n. cancel_answer (server.job_cancel n))
    modify (λ s. record s { cancelled = true; status = some JobStatus.cancelled })
    pure true

  -- The questions of `queue_info` and of `queue_position` with `refresh`.
  unfoldable pub refresh_queue_info : Method R (Unit {0})
  refresh_queue_info = do
    m ← ask server (λ n. unhandled (server.job_metadata n))
    modify λ s. record s {
      queue_info = some (queue_info m.position_in_queue m.estimated_completion_time);
    }

  unfoldable pub queue_position : Bool → Method R (Option ℕ)
  unfolding refresh_queue_info
  queue_position refresh = do
    if refresh then refresh_queue_info else pure tt
    gets (λ s. position s.queue_info)

  unfoldable pub get_queue_info : Method R (Option QueueInfo)
  unfolding refresh_queue_info
  get_queue_info = do refresh_queue_info; gets (λ s. if_useful s.queue_info)
