-- ===== src/Backend.antt =====
-- `IBMBackend` of qiskit_ibm_provider/ibm_backend.py: the data of a backend, which is fetched once and
-- kept. The fixed data of a backend are Settings, the answers of the server at the n-th question are
-- BackendServer; a method is an action on the attributes that may raise.
pub mod Circuits
pub mod Options
pub mod Run
mod Tests
use qiskit_ibm_provider.Common.{
  ℕ, ◌+◌, String, Bool, true, false, not, ◌||◌, Option, none, some, List, [], ◌∷◌, is_some, ◌≡◌,
  refl, if◌then◌else◌, arith, Result, ok, raise,
}
use qiskit_ibm_provider.Common.Dict.{Dict}
use qiskit_ibm_provider.Common.Exec.{Exec, pure, throw, gets, ◌>>=◌, ◌>>◌}

-- The configuration, as far as the methods read it.
pub record Configuration : Type 0 where
  pub n_qubits : ℕ
  pub simulator : Bool
  pub measure_esp_enabled : Bool
  pub supported_features : List String
  pub basis_gates : List String
  pub supported_instructions : List String

-- The properties: the qubits and the gates that are faulty, a gate by its qubits.
pub record Properties : Type 0 where
  pub faulty_qubits : List ℕ
  pub faulty_gates : List (List ℕ)

pub record BackendStatus : Type 0 where
  pub operational : Bool
  pub status_msg : String

-- A value of a run option.
pub data Value : Type 0 where
  number : ℕ → Value
  real : ℕ → String → Value  -- the whole part, and the digits behind the point
  flag : Bool → Value
  other : String → Value

-- An operation of a circuit; `stops_static` says that it is a control-flow operation or has a
-- condition.
pub record Instruction : Type 0 where
  pub name : String
  pub qubits : List ℕ
  pub stops_static : Bool

pub record Circuit : Type 0 where
  pub num_qubits : ℕ
  pub instructions : List Instruction

-- What a user may run.
pub data Input : Type 0 where
  circuit : Circuit → Input
  schedule : Input
  program : String → Input

-- What `program_run` sends; the circuits are the parameter "circuits".
pub record Request : Type 0 where
  pub program_id : String
  pub backend_name : String
  pub params : Dict Value
  pub circuits : List Input
  pub hgp : String
  pub job_tags : Option (List String)

-- The job's id in the response, which is no dictionary (`none`) or has no id (`some none`).
abbrev pub Response : Type 0
Response = Option (Option String)

pub data BackendError : Type 0 where
  refused : BackendError  -- RequestsApiError, where nothing converts it
  backend_api_error api_protocol_error backend_value_error value_error : BackendError
  key_error type_error attribute_error : BackendError

pub data Warning : Type 0 where
  static_parameter no_dynamic_support paused boolean_init_circuit id_deprecated id_removed : Warning
  unknown_option : String → Warning

-- `D` stands for the pulse defaults and `T` for the targets. A missing answer is `none`, and so is a
-- status that is no dictionary of one. `convert` runs ConvertIdToDelay with the durations of a
-- target.
pub record BackendServer (D T : Type 0) : Type 0 where
  pub backend_properties : Option ℕ → ℕ → Result BackendError (Option Properties)
  pub backend_pulse_defaults : ℕ → Result BackendError (Option D)
  pub backend_status : ℕ → Result BackendError (Option BackendStatus)
  pub program_run : Request → ℕ → Result (Unit {0}) Response
  pub local_to_utc : ℕ → ℕ
  pub make_target : Option D → Option Properties → T
  pub convert : T → List Input → List Input

pub record Settings : Type 0 where
  pub name : String
  pub hgp_name : String
  pub configuration : Configuration
  pub options : Dict (Option Value)

-- The attributes that change; `sent` holds the requests to run a program, newest first, and `moment`
-- counts the questions.
pub record Backend (D T : Type 0) : Type 0 where
  pub properties : Option Properties
  pub defaults : Option D
  pub target : Option T
  pub id_warning_issued : Bool
  pub warnings : List Warning
  pub sent : List Request
  pub moment : ℕ

abbrev pub Method : Type 0 → Type 0 → Type 0 → Type 0
Method D T A = Exec (Backend D T) BackendError A

abbrev pub or_protocol_error : {A : Type 0} → Option A → Result BackendError A
or_protocol_error none = raise api_protocol_error
or_protocol_error (some a) = ok a

module _ {D T : Type 0} where
  abbrev pub ask : {A : Type 0} → (ℕ → Result BackendError A) → Method D T A
  ask answer b = (answer b.moment, record b { moment = b.moment + 1 })

  abbrev pub modify : (Backend D T → Backend D T) → Method D T (Unit {0})
  modify f b = (ok tt, f b)

  -- `warnings.warn`, if a test says so.
  abbrev pub warn_if : Bool → Warning → Method D T (Unit {0})
  warn_if test w b = (ok tt, record b { warnings = if test then w ∷ b.warnings else b.warnings })

module _ {D T : Type 0} (server : BackendServer D T) (settings : Settings) where
  abbrev utc : Option ℕ → Option ℕ
  utc none = none
  utc (some d) = some (server.local_to_utc d)

  -- Data for a date are not kept.
  abbrev keep_properties : Option ℕ → Option Properties → Method D T (Option Properties)
  keep_properties datetime none = pure none
  keep_properties (some d) (some p) = pure (some p)
  keep_properties none (some p) = do modify (λ b. record b { properties = some p }); pure (some p)

  unfoldable pub fetch_properties : Option ℕ → Method D T (Option Properties)
  fetch_properties datetime = do
    p ← ask (server.backend_properties (utc datetime))
    keep_properties datetime p

  unfoldable pub properties : Bool → Option ℕ → Method D T (Option Properties)
  unfolding fetch_properties
  properties refresh datetime b =
      if settings.configuration.simulator
      then (ok none, b)
      else if is_some datetime || (refresh || not (is_some b.properties))
      then fetch_properties datetime b
      else (ok b.properties, b)

  unfoldable pub defaults : Bool → Method D T (Option D)
  defaults refresh b =
      (do
        if refresh || not (is_some b.defaults)
            then (do d ← ask server.backend_pulse_defaults; modify (λ c. record c { defaults = d }))
            else pure tt
        gets (λ c. c.defaults))
        b

  abbrev keep_target : Option ℕ → T → Method D T T
  keep_target (some d) t = pure t
  keep_target none t = do modify (λ b. record b { target = some t }); pure t

  -- `_get_target` where no target is kept, or a new one is wanted.
  unfoldable pub fetch_target : Option ℕ → Method D T T
  fetch_target datetime = do
    p ← ask (server.backend_properties (utc datetime))
    d ← ask server.backend_pulse_defaults
    keep_target datetime (server.make_target d p)

  abbrev kept_or_fetched : Option ℕ → Bool → Option T → Method D T T
  kept_or_fetched none false (some t) = pure t
  kept_or_fetched datetime refresh t = fetch_target datetime

  unfoldable pub get_target : Option ℕ → Bool → Method D T T
  unfolding fetch_target
  get_target datetime refresh b = kept_or_fetched datetime refresh b.target b

  unfoldable pub status : Method D T BackendStatus
  status = do api_status ← ask server.backend_status; λ b. (or_protocol_error api_status, b)
