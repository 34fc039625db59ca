-- ===== src/Backend/Run.antt =====
-- `run` of qiskit_ibm_provider/ibm_backend.py: the tests, the warnings, the replacement of identity
-- gates, and the request of `_runtime_run`. The circuits are a list, and the job is its id.
pub mod Asked
pub mod Sent
use qiskit_ibm_provider.Common.{
  ℕ, ◌+◌, String, Bool, true, false, not, ◌||◌, ◌&&◌, Option, none, some, List, [], ◌∷◌, any,
  str_eq, if◌then◌else◌, or_else, Result, ok, raise,
}
use qiskit_ibm_provider.Common.Dict.{Dict, insert}
use qiskit_ibm_provider.Common.Exec.{Exec, pure, throw, lift, continue, gets, ◌>>=◌, ◌>>◌}
use qiskit_ibm_provider.Backend.{
  BackendServer, Settings, Configuration, Backend, BackendStatus, BackendError, backend_api_error,
  api_protocol_error, backend_value_error, key_error, type_error, Warning, static_parameter,
  no_dynamic_support, paused, boolean_init_circuit, id_deprecated, id_removed, Value, flag, Request,
  Response, Instruction, Input, circuit, schedule, program, Method, ask, modify, warn_if,
  get_target, status,
}
use qiskit_ibm_provider.Backend.Circuits.{check_circuits_attributes, are_circuits_dynamic}
use qiskit_ibm_provider.Backend.Options.{Keywords, get_run_config, is_qasm3}

-- The arguments of `run` that are not circuits; `program_id` is taken out of `run_config`.
pub record RunArguments : Type 0 where
  pub dynamic : Option Bool
  pub job_tags : Option (List String)
  pub program_id : Option String
  pub keywords : Keywords

abbrev pub has_name : String → List String → Bool
has_name name names = any (λ n. str_eq n name) names

-- The truth of an option that is a Boolean or None.
abbrev pub is_set : Option Value → Bool
is_set (some (flag b)) = b
is_set _ = false

abbrev is_boolean : Option Value → Bool
is_boolean (some (flag b)) = true
is_boolean _ = false

abbrev is_false : Option Bool → Bool
is_false (some false) = true
is_false _ = false

-- `dynamic or actually_dynamic`
abbrev pub is_dynamic : RunArguments → List Input → Bool
is_dynamic a inputs = or_else a.dynamic false || are_circuits_dynamic inputs

abbrev runner : Bool → String
runner true = "qasm3-runner"
runner false = "circuit-runner"

-- The program that the user names, unless that is the empty text.
unfoldable pub program_of : Option String → Bool → String
program_of none dynamic = runner dynamic
program_of (some p) dynamic = if str_eq p "" then runner dynamic else p

-- An empty "program_id" stays in `run_config`, and is given to `_get_run_config` twice.
abbrev pub given_once : Option String → Result BackendError (Unit {0})
given_once none = ok tt
given_once (some p) = if str_eq p "" then raise type_error else ok tt

-- `any(instr.name == "id" ...)`
unfoldable pub has_id : List Input → Bool
has_id [] = false
has_id (circuit c ∷ inputs) = any (λ i. str_eq i.name "id") c.instructions || has_id inputs
has_id (_ ∷ inputs) = has_id inputs

-- `run_config_dict["skip_transpilation"] = True`
unfoldable pub with_skip : String → Dict Value → Dict Value
with_skip program_id config =
    if is_qasm3 program_id then config else insert "skip_transpilation" (flag true) config

abbrev pub job_id_of : Response → Result BackendError String
job_id_of none = raise api_protocol_error
job_id_of (some none) = raise key_error
job_id_of (some (some id)) = ok id

abbrev pub submitted : Result (Unit {0}) Response → Result BackendError String
submitted (raise e) = raise backend_api_error
submitted (ok response) = job_id_of response

module _ {D T : Type 0} (server : BackendServer D T) (settings : Settings) where
  open settings use {configuration}

  abbrev id_warning : Warning
  id_warning = if has_name "id" configuration.basis_gates then id_deprecated else id_removed

  -- The end of `_deprecate_id_instruction`.
  unfoldable pub replace_id : List Input → Method D T (List Input)
  replace_id inputs b =
      (do
        warn_if (not b.id_warning_issued) id_warning
        modify (λ c. record c { id_warning_issued = true })
        target ← get_target server settings none false
        pure (server.convert target inputs))
        b

  unfoldable pub deprecate_id_instruction : List Input → Method D T (List Input)
  unfolding replace_id has_id
  deprecate_id_instruction inputs =
      if has_name "delay" configuration.supported_instructions && has_id inputs
      then replace_id inputs
      else pure inputs

  -- `_runtime_run`
  unfoldable pub runtime_run : Request → Method D T String
  runtime_run q b = (
    submitted (server.program_run q b.moment),
    record b { sent = q ∷ b.sent; moment = b.moment + 1 },
  )

  abbrev pub config_of : RunArguments → String → Dict Value
  config_of a program_id =
      (get_run_config settings.options configuration.simulator program_id a.keywords []).0

  abbrev pub request : RunArguments → String → List Input → Request
  request a program_id inputs = record {
    program_id = program_id;
    backend_name = settings.name;
    params = with_skip program_id (config_of a program_id);
    circuits = inputs;
    hgp = settings.hgp_name;
    job_tags = a.job_tags;
  }

  abbrev add_warnings : RunArguments → String → Backend D T → Backend D T
  add_warnings a program_id b = record b {
    warnings =
        (get_run_config settings.options configuration.simulator program_id a.keywords
          b.warnings).1;
  }

  -- From the result of `_get_run_config` on.
  unfoldable pub send : RunArguments → String → List Input → Method D T String
  unfolding runtime_run
  send a program_id inputs = do
    modify (add_warnings a program_id)
    runtime_run (request a program_id inputs)

  unfoldable pub submit : RunArguments → String → List Input → Method D T String
  unfolding send
  submit a program_id inputs = do lift (given_once a.program_id); send a program_id inputs

  abbrev pub esp_supported : RunArguments → Bool
  esp_supported a = not (is_set a.keywords.use_measure_esp) || configuration.measure_esp_enabled

  abbrev pub warn_paused : RunArguments → BackendStatus → Method D T (Unit {0})
  warn_paused a st = do
    warn_if (st.operational && not (str_eq st.status_msg "active")) paused
    warn_if (is_boolean a.keywords.init_circuit) boolean_init_circuit

  unfoldable pub replaced_circuits : List Input → Method D T (List Input)
  unfolding deprecate_id_instruction
  replaced_circuits inputs =
      if configuration.simulator then pure inputs else deprecate_id_instruction inputs

  -- From the replacement of the identity gates on.
  unfoldable pub run_replaced : RunArguments → List Input → Method D T String
  unfolding replaced_circuits submit
  run_replaced a inputs = do
    replaced ← replaced_circuits inputs
    submit a (program_of a.program_id (is_dynamic a inputs)) replaced

  -- From the status of the backend on.
  unfoldable pub run_checked : RunArguments → List Input → Method D T String
  unfolding run_replaced
  run_checked a inputs = do st ← status server settings; warn_paused a st; run_replaced a inputs

  abbrev pub esp_guard : RunArguments → Result BackendError (Unit {0})
  esp_guard a = if esp_supported a then ok tt else raise backend_value_error

  abbrev pub warn_dynamic : RunArguments → List Input → Method D T (Unit {0})
  warn_dynamic a inputs = do
    warn_if (is_false a.dynamic && are_circuits_dynamic inputs) static_parameter
    warn_if (is_dynamic a inputs && not (has_name "qasm3" configuration.supported_features))
        no_dynamic_support

  -- From the test of `use_measure_esp` on.
  unfoldable pub run_guarded : RunArguments → List Input → Method D T String
  unfolding run_checked
  run_guarded a inputs = do lift (esp_guard a); warn_dynamic a inputs; run_checked a inputs

  unfoldable pub run : RunArguments → List Input → Method D T String
  unfolding run_guarded
  run a inputs = do check_circuits_attributes server settings inputs; run_guarded a inputs
