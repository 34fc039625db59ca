-- ===== src/Backend/Run/Asked.antt =====
-- The program and the parameters of the request that `run` of qiskit_ibm_provider/ibm_backend.py sends.
use qiskit_ibm_provider.Common.{
  Option, ◌&&◌, not, str_eq, Bool-cases, ◌≡◌, refl, ◌∙◌, inl, inr, String, Bool, true, false, none,
  some, if◌then◌else◌, ok,
}
use qiskit_ibm_provider.Common.Dict.{Dict, lookup, lookup-insert}
use qiskit_ibm_provider.Backend.Options.{is_qasm3}
use qiskit_ibm_provider.Jobs.Tags.{starts_with}
use qiskit_ibm_provider.Backend.{Value, flag, BackendServer, Settings}
use qiskit_ibm_provider.Backend.Run.{RunArguments, program_of, with_skip, config_of, given_once}

-- The program is the one that the user names, and else a runner, by whether the circuits are dynamic.
abbrev pub IsProgram : Option String → Bool → String → Type 0
IsProgram (some p) dynamic program_id = program_id ≡ p
IsProgram none true program_id = program_id ≡ "qasm3-runner"
IsProgram none false program_id = program_id ≡ "circuit-runner"

runner-IsProgram : (dynamic : Bool) → IsProgram none dynamic (program_of none dynamic)
unfolding program_of
runner-IsProgram true = refl
runner-IsProgram false = refl

pub program_of-IsProgram :
    (p : Option String) (dynamic : Bool) {x : Unit {0}}
    → given_once p ≡ ok x
    → IsProgram p dynamic (program_of p dynamic)
unfolding program_of
program_of-IsProgram none dynamic h = runner-IsProgram dynamic
program_of-IsProgram (some p) dynamic h = elim (Bool-cases (str_eq p "")) [
  | inl e ↦ (let g = rw e at h in absurd cc)
  | inr e ↦ rw e refl
]

module _ {D T : Type 0} (server : BackendServer D T) (settings : Settings) where
  -- Each parameter is that of the configuration; but "skip_transpilation" is set, unless the program is
  -- a qasm3-runner.
  abbrev pub AreParameters : RunArguments → String → Dict Value → Type 0
  AreParameters a program_id params =
      (key : String)
      → lookup key params ≡ (
          if str_eq "skip_transpilation" key && not (starts_with program_id "qasm3-runner")
          then some (flag true)
          else lookup key (config_of server settings a program_id))

  pub with_skip-AreParameters :
      (a : RunArguments) (program_id : String)
      → AreParameters a program_id (with_skip program_id (config_of server settings a program_id))
  unfolding with_skip is_qasm3
  with_skip-AreParameters a program_id key =
      elim (Bool-cases (starts_with program_id "qasm3-runner")) [
        | inl e ↦ rw e (elim (Bool-cases (str_eq "skip_transpilation" key)) [
          | inl f ↦ rw f refl
          | inr f ↦ rw f refl
        ])
        | inr e ↦ rw e (
            lookup-insert "skip_transpilation" key (flag true)
              (config_of server settings a program_id)
            ∙ elim (Bool-cases (str_eq "skip_transpilation" key)) [
              | inl f ↦ rw f refl
              | inr f ↦ rw f refl
            ])
      ]
