-- ===== src/Backend/Options.antt =====
-- The options of a run: qiskit_ibm_provider/utils/options.py, and `_get_run_config` of
-- qiskit_ibm_provider/ibm_backend.py.
use mathlib.Core.List.{◌++◌ as ◌++l◌}
use qiskit_ibm_provider.Common.{
  ◌≡◌, refl, String, Bool, true, false, not, ◌&&◌, Option, none, some, List, [], ◌∷◌, if◌then◌else◌,
  str_eq, eq_iff, arith, or_else,
}
use qiskit_ibm_provider.Common.Dict.{
  Dict, lookup, contains, insert, lookup-insert, UniqueKeys, contains-eq-is_some,
}
use qiskit_ibm_provider.Jobs.Tags.{starts_with}
use qiskit_ibm_provider.Backend.{Value, number, real, flag, other, Warning, unknown_option}

-- The keyword arguments of `run` from `init_circuit` on, and the rest in `run_config` without
-- "program_id".
pub record Keywords : Type 0 where
  pub init_circuit : Option Value
  pub init_num_resets : Option Value
  pub header : Option Value
  pub shots : Option Value
  pub memory : Option Value
  pub qubit_lo_freq : Option Value
  pub meas_lo_freq : Option Value
  pub schedule_los : Option Value
  pub meas_level : Option Value
  pub meas_return : Option Value
  pub rep_delay : Option Value
  pub init_qubits : Option Value
  pub use_measure_esp : Option Value
  pub noise_model : Option Value
  pub seed_simulator : Option Value
  pub run_config : Dict (Option Value)

-- `if isinstance(shots, float): shots = int(shots)`
unfoldable pub whole : Option Value → Option Value
whole (some (real n digits)) = some (number n)
whole shots = shots

-- The keyword arguments of `_get_run_config`, in their order.
unfoldable pub keywords : Keywords → Dict (Option Value)
unfolding whole
keywords k =
    ("init_circuit", k.init_circuit)
    ∷ ("init_num_resets", k.init_num_resets)
    ∷ ("header", k.header)
    ∷ ("shots", whole k.shots)
    ∷ ("memory", k.memory)
    ∷ ("qubit_lo_freq", k.qubit_lo_freq)
    ∷ ("meas_lo_freq", k.meas_lo_freq)
    ∷ ("schedule_los", k.schedule_los)
    ∷ ("meas_level", k.meas_level)
    ∷ ("meas_return", k.meas_return)
    ∷ ("rep_delay", k.rep_delay)
    ∷ ("init_qubits", k.init_qubits)
    ∷ ("use_measure_esp", k.use_measure_esp)
    ∷ ("noise_model", k.noise_model)
    ∷ ("seed_simulator", k.seed_simulator)
    ∷ k.run_config

-- The fields of CommonOptions, with their defaults.
abbrev common_options : Dict (Option Value)
common_options =
    ("shots", some (number 4000))
    ∷ ("meas_level", some (other "CLASSIFIED"))
    ∷ ("init_qubits", some (flag true))
    ∷ ("rep_delay", none)
    ∷ ("memory", some (flag false))
    ∷ ("meas_return", some (other "AVERAGE"))
    ∷ []

abbrev qasm3_options : Dict (Option Value)
qasm3_options = common_options ++l (("init_circuit", none) ∷ ("init_num_resets", none) ∷ [])

abbrev qasm2_options : Dict (Option Value)
qasm2_options =
    common_options
    ++l (("header", none)
        ∷ ("qubit_lo_freq", none)
        ∷ ("meas_lo_freq", none)
        ∷ ("schedule_los", none)
        ∷ ("use_measure_esp", none)
        ∷ ("noise_model", none)
        ∷ ("seed_simulator", none)
        ∷ [])

-- `to_transport_dict`: the values that are not None.
unfoldable pub to_transport_dict : Dict (Option Value) → Dict Value
to_transport_dict [] = []
to_transport_dict ((k, none) ∷ d) = to_transport_dict d
to_transport_dict ((k, some v) ∷ d) = (k, v) ∷ to_transport_dict d

unfoldable pub is_qasm3 : String → Bool
unfolding starts_with
is_qasm3 program_id = starts_with program_id "qasm3-runner"

unfoldable pub program_options : String → Dict (Option Value)
unfolding is_qasm3
program_options program_id = if is_qasm3 program_id then qasm3_options else qasm2_options

-- An option of the backend, `backend_options.get(key)`.
abbrev pub option_of : Dict (Option Value) → String → Option Value
option_of options key = elim (lookup key options) [ none ↦ none | some v ↦ v ]

module _ (fields options : Dict (Option Value)) (simulator : Bool) where
  -- An option of the backend for a keyword that was not given.
  abbrev from_backend : String → Option Value → Dict Value → Dict Value
  from_backend key none config = config
  from_backend key (some v) config = if contains key fields then insert key v config else config

  -- The body of the loop: the dictionary, and the warnings.
  unfoldable pub apply_keyword :
      String → Option Value → Dict Value × List Warning → Dict Value × List Warning
  apply_keyword key (some v) (config, warnings) = (
    insert key v config,
    if not (contains key fields) && not simulator then unknown_option key ∷ warnings else warnings,
  )
  apply_keyword key none (config, warnings) =
      (from_backend key (option_of options key) config, warnings)

  unfoldable pub apply_keywords :
      Dict (Option Value) → Dict Value × List Warning → Dict Value × List Warning
  unfolding apply_keyword
  apply_keywords [] result = result
  apply_keywords ((key, value) ∷ kwargs) result =
      apply_keywords kwargs (apply_keyword key value result)

  -- What a keyword comes to: its value, or else the backend's option if the program knows it, or else
  -- what was there.
  abbrev pub chosen : String → Option (Option Value) → Option Value → Option Value
  chosen key none default = default
  chosen key (some (some v)) default = some v
  chosen key (some none) default = elim (option_of options key) [
    | none ↦ default
    | some v ↦ if contains key fields then some v else default
  ]

  lookup-apply_keyword :
      (k key : String) (value : Option Value) (result : Dict Value × List Warning)
      → lookup k (apply_keyword key value result).0
        ≡ (if str_eq key k then chosen k (some value) (lookup k result.0) else lookup k result.0)
  unfolding apply_keyword
  lookup-apply_keyword k key (some v) (config, ws) = lookup-insert key k v config
  lookup-apply_keyword k key none (config, ws) =
      ground (
        arith,
        eq_iff key k,
        lookup-insert key k (or_else (option_of options key) (number 0)) config,
      )

  -- The keywords are applied with the precedence of `chosen`, each key being given once.
  pub lookup-apply_keywords :
      (k : String) (kwargs : Dict (Option Value)) (result : Dict Value × List Warning)
      → UniqueKeys kwargs
      → lookup k (apply_keywords kwargs result).0 ≡ chosen k (lookup k kwargs) (lookup k result.0)
  unfolding apply_keywords lookup
  lookup-apply_keywords k [] result u = refl
  lookup-apply_keywords k ((key, value) ∷ kwargs) result u = ground (
    arith,
    eq_iff key k,
    contains-eq-is_some key kwargs,
    lookup-apply_keyword k key value result,
    lookup-apply_keywords k kwargs (apply_keyword key value result) u.1,
  )

-- `_get_run_config`: the configuration, and the warnings on top of those before.
unfoldable pub get_run_config :
    Dict (Option Value) → Bool → String → Keywords → List Warning → Dict Value × List Warning
unfolding apply_keywords keywords to_transport_dict program_options
get_run_config options simulator program_id k warnings =
    let fields = program_options program_id in
    apply_keywords fields options simulator (keywords k) (to_transport_dict fields, warnings)

-- Each key of the configuration of a run has the keyword that was given; where that is None, the
-- option of the backend, if the program has such an option; and else the default of the program.
-- Where nothing was given for a key, it has the default. The rest of the keywords has no key twice
-- and none of the named ones.
pub lookup-get_run_config :
    (options : Dict (Option Value)) (simulator : Bool) (program_id : String) (k : Keywords)
    (warnings : List Warning) (key : String)
    → UniqueKeys (keywords k)
    → let fields = program_options program_id in
      lookup key (get_run_config options simulator program_id k warnings).0
      ≡ chosen fields options simulator key
          (lookup key (keywords k))
          (lookup key (to_transport_dict fields))
unfolding get_run_config
lookup-get_run_config options simulator program_id k warnings key u =
    lookup-apply_keywords (program_options program_id) options simulator key (keywords k)
      (to_transport_dict (program_options program_id), warnings) u
