-- ===== src/Transpiler/Durations/Tests.antt =====
-- The patches of durations on concrete keys.
use qiskit_ibm_provider.Common.{
  ℕ, ◌≡◌, refl, Option, none, some, List, [], ◌∷◌, str_eq, if◌then◌else◌, Result, ok, raise, All,
}
use qiskit_ibm_provider.Transpiler.Durations.{
  InstrKey, Duration, Durations, DurationError, get_duration_dt, patch_key, lengthen, reset_from,
  patch_reset, patch_measurement, patch_instruction, patch_all, odd_cycle_correction,
}
use qiskit_ibm_provider.Transpiler.Durations.Keys.{key}
use qiskit_ibm_provider.Transpiler.Durations.Patches.{Kept, Agrees, patch_all-Agrees}

abbrev two_durations : Durations
two_durations = record {
  duration_by_name = λ n. none;
  duration_by_name_qubits = λ n qs.
      if str_eq n "measure"
      then some (record { time = 1000; unit = "dt" })
      else if str_eq n "reset"
      then some (record { time = 900; unit = "dt" })
      else none;
  duration_by_name_qubits_params = λ k. none;
}

abbrev short_odd_gate : Durations → Option ℕ
short_odd_gate d = some 72

abbrev both_keys : List InstrKey
both_keys = key "reset" (some (0 ∷ [])) none ∷ key "measure" (some (0 ∷ [])) none ∷ []

abbrev looked_up : Result DurationError Durations → Option Duration
looked_up (raise err) = none
looked_up (ok d) = get_duration_dt (key "reset" (some (0 ∷ [])) none) d

-- The measurement takes 160 more, and 64 more as the gate is short and odd; the reset as well.
patched_reset :
    looked_up (patch_all short_odd_gate both_keys two_durations)
    ≡ some (record { time = 1224; unit = "dt" })
unfolding patch_all patch_instruction patch_measurement patch_reset reset_from lengthen patch_key
    get_duration_dt odd_cycle_correction
patched_reset = refl

patch_all-Agrees_example :
    (e : Durations) × (patch_all short_odd_gate both_keys two_durations ≡ ok e)
    × Kept two_durations e
    × All (Agrees short_odd_gate e) both_keys
unfolding get_duration_dt
patch_all-Agrees_example =
    patch_all-Agrees short_odd_gate both_keys two_durations
      ((λ m. (1000, refl)), ((λ m. (1000, refl)), tt))
