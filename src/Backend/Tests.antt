-- ===== src/Backend/Tests.antt =====
-- The theorems on backends, applied to a device of five qubits with a faulty qubit and a faulty edge.
use qiskit_ibm_provider.Common.{
  ℕ, ◌≡◌, ◌↔◌, refl, String, true, false, none, some, List, [], ◌∷◌, All, ok, raise,
}
use qiskit_ibm_provider.Common.Dict.{lookup, contains, UniqueKeys}
use qiskit_ibm_provider.Backend.{
  BackendServer, Settings, Configuration, Properties, Backend, number, flag, Instruction, Input,
  circuit, value_error, properties, status, get_target,
}
use qiskit_ibm_provider.Backend.Circuits.{
  check_circuits_attributes, check_circuits_attributes_iff, IsRunnable, is_faulty,
}
use qiskit_ibm_provider.Backend.Options.{
  Keywords, keywords, get_run_config, program_options, to_transport_dict, chosen,
  lookup-get_run_config,
}
use qiskit_ibm_provider.Backend.Run.{RunArguments, run}
use qiskit_ibm_provider.Backend.Run.Sent.{Submits, run-Submits}

abbrev device : Configuration
device = record {
  n_qubits = 5;
  simulator = false;
  measure_esp_enabled = false;
  supported_features = [];
  basis_gates = "id" ∷ "x" ∷ [];
  supported_instructions = "delay" ∷ [];
}

abbrev faults : Properties
faults = record { faulty_qubits = 3 ∷ []; faulty_gates = (0 ∷ 1 ∷ []) ∷ [] }

abbrev settings : Settings
settings = record {
  name = "ibm_device";
  hgp_name = "h/g/p";
  configuration = device;
  options = ("shots", some (number 100)) ∷ ("memory", none) ∷ [];
}

abbrev server : BackendServer ℕ ℕ
server = record {
  backend_properties = λ d n. ok none;
  backend_pulse_defaults = λ n. ok none;
  backend_status = λ n. ok (some (record { operational = true; status_msg = "active" }));
  program_run = λ q n. ok (some (some "job-1"));
  local_to_utc = λ d. d;
  make_target = λ d p. 7;
  convert = λ t inputs. inputs;
}

abbrev backend : Backend ℕ ℕ
backend = record {
  properties = some faults;
  defaults = none;
  target = none;
  id_warning_issued = false;
  warnings = [];
  sent = [];
  moment = 0;
}

abbrev on : String → List ℕ → Instruction
on name qubits = record { name = name; qubits = qubits; stops_static = false }

-- The edge between 0 and 1 is used the other way round.
abbrev usable : Input
usable =
    circuit (record { num_qubits = 2; instructions = on "cx" (1 ∷ 0 ∷ []) ∷ on "id" (0 ∷ []) ∷ [] })

abbrev unusable : Input
unusable = circuit (record { num_qubits = 2; instructions = on "cx" (0 ∷ 1 ∷ []) ∷ [] })

abbrev given : Keywords
given = record {
  init_circuit = none;
  init_num_resets = none;
  header = none;
  shots = none;
  memory = some (flag true);
  qubit_lo_freq = none;
  meas_lo_freq = none;
  schedule_los = none;
  meas_level = none;
  meas_return = none;
  rep_delay = none;
  init_qubits = none;
  use_measure_esp = none;
  noise_model = none;
  seed_simulator = none;
  run_config = [];
}

abbrev arguments : RunArguments
arguments = record { dynamic = none; job_tags = none; program_id = none; keywords = given }

faulty_edge_refused :
    (check_circuits_attributes server settings (unusable ∷ []) backend).0 ≡ raise value_error
unfolding check_circuits_attributes properties is_faulty
faulty_edge_refused = refl

run_answers : (run server settings arguments (usable ∷ []) backend).0 ≡ ok "job-1"
unfolding run check_circuits_attributes properties is_faulty status get_target
run_answers = refl

check_circuits_attributes_iff_example :
    ((check_circuits_attributes server settings (usable ∷ unusable ∷ []) backend).1 ≡ backend)
    × (((check_circuits_attributes server settings (usable ∷ unusable ∷ []) backend).0 ≡ ok tt)
        ↔ All (IsRunnable device faults) (usable ∷ unusable ∷ []))
check_circuits_attributes_iff_example =
    check_circuits_attributes_iff server settings refl faults backend refl (usable ∷ unusable ∷ [])

given-UniqueKeys : UniqueKeys (keywords given)
unfolding keywords contains
given-UniqueKeys = (
  refl,
  (
    refl,
    (
      refl,
      (
        refl,
        (refl, (refl, (refl, (refl, (refl, (refl, (refl, (refl, (refl, (refl, (refl, tt))))))))))),
      ),
    ),
  ),
)

lookup-get_run_config_example :
    lookup "shots" (get_run_config settings.options false "circuit-runner" given []).0
    ≡ chosen
        (program_options "circuit-runner")
        settings.options
        false
        "shots"
        (lookup "shots" (keywords given))
        (lookup "shots" (to_transport_dict (program_options "circuit-runner")))
lookup-get_run_config_example =
    lookup-get_run_config settings.options false "circuit-runner" given [] "shots" given-UniqueKeys

run-Submits_example :
    Submits server settings arguments
      (usable ∷ [])
      backend
      faults
      (run server settings arguments (usable ∷ []) backend)
run-Submits_example = run-Submits server settings arguments (usable ∷ []) backend faults refl refl
