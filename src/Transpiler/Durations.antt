-- ===== src/Transpiler/Durations.antt =====
-- `DynamicCircuitInstructionDurations` of qiskit_ibm_provider/transpiler/passes/scheduling/utils.py: how
-- the durations of measurements and resets are patched. The three tables are qiskit's; a parameter of an
-- instruction is a number of the model. `sx_duration` is what `get` answers for the gate "sx" of qubit 0.
mod Tests
pub mod Patches
pub mod Keys
use qiskit_ibm_provider.Common.{
  ℕ, ◌+◌, ◌%◌, ◌&&◌, not, Bool, true, false, Option, none, some, List, [], ◌∷◌, String, str_eq,
  if◌then◌else◌, ◌==◌, ltb, Result, ok, raise,
}

-- InstrKey
pub record InstrKey : Type 0 where
  pub name : String
  pub qubits : Option (List ℕ)
  pub parameters : Option (List ℕ)

-- A duration with its unit.
pub record Duration : Type 0 where
  pub time : ℕ
  pub unit : String

pub data DurationError : Type 0 where
  key_error transpiler_error : DurationError

pub record Durations : Type 0 where
  pub duration_by_name : String → Option Duration
  pub duration_by_name_qubits : String → List ℕ → Option Duration
  pub duration_by_name_qubits_params : InstrKey → Option Duration

abbrev pub same_numbers : List ℕ → List ℕ → Bool
same_numbers [] [] = true
same_numbers (x ∷ xs) (y ∷ ys) = (x == y) && same_numbers xs ys
same_numbers _ _ = false

abbrev pub same_optional : Option (List ℕ) → Option (List ℕ) → Bool
same_optional none none = true
same_optional (some xs) (some ys) = same_numbers xs ys
same_optional _ _ = false

abbrev pub same_key : InstrKey → InstrKey → Bool
same_key k l =
    str_eq k.name l.name
    && (same_optional k.qubits l.qubits && same_optional k.parameters l.parameters)

abbrev pub look_up : Option (List ℕ) → Option (List ℕ) → InstrKey → Durations → Option Duration
look_up none none k d = d.duration_by_name k.name
look_up (some qs) none k d = d.duration_by_name_qubits k.name qs
look_up _ (some ps) k d = d.duration_by_name_qubits_params k

-- `_get_duration_dt`, with no answer for a KeyError.
unfoldable pub get_duration_dt : InstrKey → Durations → Option Duration
get_duration_dt k d = look_up k.qubits k.parameters k d

abbrev pub set_param : InstrKey → Duration → Durations → Durations
set_param k v d = record d {
  duration_by_name_qubits_params =
      λ l. if same_key l k then some v else d.duration_by_name_qubits_params l;
}

abbrev pub set_shorter :
    Option (List ℕ) → Option (List ℕ) → InstrKey → Duration → Durations → Durations
set_shorter none none k v d = record d {
  duration_by_name = λ n. if str_eq n k.name then some v else d.duration_by_name n;
}
set_shorter (some qs) none k v d = record d {
  duration_by_name_qubits = λ n rs.
      if str_eq n k.name && same_numbers rs qs then some v else d.duration_by_name_qubits n rs;
}
set_shorter _ (some ps) k v d = d

-- `_patch_key`; the table with parameters is set in each case.
unfoldable pub patch_key : InstrKey → Duration → Durations → Durations
patch_key k v d = set_param k v (set_shorter k.qubits k.parameters k v d)

-- `_get_odd_cycle_correction`
unfoldable pub odd_cycle_correction : Option ℕ → ℕ
odd_cycle_correction none = 0
odd_cycle_correction (some key_duration) =
    if ltb key_duration 160 && not (key_duration % 32 == 0) then 64 else 0

abbrev pub measure_patch_cycles : ℕ
measure_patch_cycles = 160

abbrev pub at_name : String → InstrKey → InstrKey
at_name n k = record k { name = n }

module _ (sx_duration : Durations → Option ℕ) where
  -- A duration in "dt" is made longer; another unit raises an exception.
  unfoldable pub lengthen : InstrKey → Option Duration → Durations → Result DurationError Durations
  unfolding patch_key odd_cycle_correction
  lengthen k none d = raise key_error
  lengthen k (some v) d =
      let t = v.time + measure_patch_cycles + odd_cycle_correction (sx_duration d) in
      if str_eq v.unit "dt"
      then ok (patch_key k (record { time = t; unit = v.unit }) d)
      else raise transpiler_error

  -- `_patch_reset`, where the duration of the measurement is the argument.
  unfoldable pub reset_from :
      InstrKey → Option Duration → Durations → Result DurationError Durations
  unfolding patch_key lengthen get_duration_dt
  reset_from k (some v) d = ok (patch_key k v d)
  reset_from k none d = lengthen k (get_duration_dt k d) d

  -- `_patch_reset`
  unfoldable pub patch_reset : InstrKey → Durations → Result DurationError Durations
  unfolding reset_from get_duration_dt
  patch_reset k d = reset_from k (get_duration_dt (at_name "measure" k) d) d

  abbrev pub then_reset : InstrKey → Result DurationError Durations → Result DurationError Durations
  then_reset k (raise err) = raise err
  then_reset k (ok d) = patch_reset (at_name "reset" k) d

  -- `_patch_measurement`
  unfoldable pub patch_measurement : InstrKey → Durations → Result DurationError Durations
  unfolding lengthen get_duration_dt patch_reset
  patch_measurement k d = then_reset k (lengthen k (get_duration_dt k d) d)

  -- `_patch_instruction`
  unfoldable pub patch_instruction : InstrKey → Durations → Result DurationError Durations
  unfolding patch_measurement patch_reset
  patch_instruction k d =
      if str_eq k.name "measure"
      then patch_measurement k d
      else if str_eq k.name "reset"
      then patch_reset k d
      else ok d

  abbrev pub patch_rest :
      Result DurationError Durations
      → (Durations → Result DurationError Durations)
      → Result DurationError Durations
  patch_rest (raise err) rest = raise err
  patch_rest (ok d) rest = rest d

  -- The loop of `update` over the keys of the new durations.
  unfoldable pub patch_all : List InstrKey → Durations → Result DurationError Durations
  unfolding patch_instruction
  patch_all [] d = ok d
  patch_all (k ∷ ks) d = patch_rest (patch_instruction k d) (patch_all ks)
