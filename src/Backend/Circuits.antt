-- ===== src/Backend/Circuits.antt =====
-- The tests of circuits before a run: `_check_circuits_attributes` and `_check_faulty` of
-- qiskit_ibm_provider/ibm_backend.py, `are_circuits_dynamic` of qiskit_ibm_provider/utils/utils.py.
use qiskit_ibm_provider.Common.{
  ℕ, ◌≤◌, ◌<◌, eq_iff, ◌≡◌, refl, ◌↔◌, ◌≢◌, ◌⊎◌, inl, inr, Bool, true, false, not, ◌||◌, ◌&&◌,
  Option, none, some, List, [], ◌∷◌, if◌then◌else◌, ltb, ◌==◌, any, All, length, filter, str_eq,
  arith, Bool-cases, Result, ok, raise,
}
use qiskit_ibm_provider.Common.Exec.{pure, throw, lift, continue, ◌>>=◌, ◌>>◌}
use qiskit_ibm_provider.Backend.{
  BackendServer, Settings, Configuration, Properties, Backend, BackendError, backend_value_error,
  value_error, attribute_error, Instruction, Circuit, Input, circuit, schedule, program, Method,
  properties,
}

-- `are_circuits_dynamic`; a schedule is not met, since it has been refused before.
unfoldable pub are_circuits_dynamic : List Input → Bool
are_circuits_dynamic [] = false
are_circuits_dynamic (program text ∷ inputs) = true
are_circuits_dynamic (schedule ∷ inputs) = are_circuits_dynamic inputs
are_circuits_dynamic (circuit c ∷ inputs) =
    any (λ i. i.stops_static) c.instructions || are_circuits_dynamic inputs

abbrev same_qubits : List ℕ → List ℕ → Bool
same_qubits [] [] = true
same_qubits (a ∷ xs) (b ∷ ys) = a == b && same_qubits xs ys
same_qubits _ _ = false

-- `[tuple(gate.qubits) for gate in faulty_gates if len(gate.qubits) > 1]`
unfoldable pub faulty_edges : Properties → List (List ℕ)
faulty_edges p = filter (λ qs. ltb 1 (length qs)) p.faulty_gates

abbrev is_barrier : Instruction → Bool
is_barrier i = str_eq i.name "barrier"

-- The tests of one instruction.
unfoldable pub is_faulty : Properties → Instruction → Bool
unfolding faulty_edges
is_faulty p i =
    not (is_barrier i)
    && (any (λ q. any (λ f. f == q) p.faulty_qubits) i.qubits
        || (length i.qubits == 2 && any (λ e. same_qubits e i.qubits) (faulty_edges p)))

abbrev pub refuse_faulty : Properties → Circuit → Result BackendError (Unit {0})
refuse_faulty p c = if any (is_faulty p) c.instructions then raise value_error else ok tt

-- The qubits of one answer and the gates of another.
abbrev both : Properties → Properties → Properties
both p q = record { faulty_qubits = p.faulty_qubits; faulty_gates = q.faulty_gates }

abbrev or_attribute_error : Option Properties → Result BackendError Properties
or_attribute_error none = raise attribute_error
or_attribute_error (some p) = ok p

module _ {D T : Type 0} (server : BackendServer D T) (settings : Settings) where
  -- `self.properties()` where it may not be None.
  abbrev needed_properties : Method D T Properties
  needed_properties = do p ← properties server settings false none; lift (or_attribute_error p)

  abbrev faulty_of_second : Option Properties → Circuit → Method D T (Unit {0})
  faulty_of_second none c = pure tt
  faulty_of_second (some first) c = do
    second ← needed_properties
    third ← needed_properties
    lift (refuse_faulty (both second third) c)

  unfoldable pub check_faulty : Circuit → Method D T (Unit {0})
  check_faulty c = do first ← properties server settings false none; faulty_of_second first c

  abbrev check_circuit : Circuit → Method D T (Unit {0})
  check_circuit c =
      if ltb settings.configuration.n_qubits c.num_qubits
      then throw backend_value_error
      else check_faulty c

  unfoldable pub check_input : Input → Method D T (Unit {0})
  unfolding check_faulty
  check_input schedule = throw backend_value_error
  check_input (program text) = pure tt
  check_input (circuit c) = check_circuit c

  -- `_check_circuits_attributes`
  unfoldable pub check_circuits_attributes : List Input → Method D T (Unit {0})
  unfolding check_input
  check_circuits_attributes [] = pure tt
  check_circuits_attributes (input ∷ inputs) = do
    check_input input
    check_circuits_attributes inputs

-- An instruction that the properties allow: it is a barrier, or none of its qubits is faulty and, if
-- it has two qubits, they are not those of a faulty gate of several qubits, in that order.
abbrev pub IsUsable : Properties → Instruction → Type 0
IsUsable p i =
    (i.name ≡ "barrier")
    ⊎ (All (λ q. All (λ f. f ≢ q) p.faulty_qubits) i.qubits
        × (length i.qubits ≡ 2 → All (λ g. 1 < length g → g ≢ i.qubits) p.faulty_gates))

-- What may be run on the backend: no schedule, no circuit with too many qubits, and no instruction
-- that is not usable.
abbrev pub IsRunnable : Configuration → Properties → Input → Type 0
IsRunnable conf p schedule = ⊥
IsRunnable conf p (program text) = Unit
IsRunnable conf p (circuit c) = (c.num_qubits ≤ conf.n_qubits) × All (IsUsable p) c.instructions

module _ {A : Type 0} (f : A → Bool) (P : A → Type 0) (h : (x : A) → (f x ≡ false) ↔ P x) where
  any-false_iff : (xs : List A) → (any f xs ≡ false) ↔ All P xs
  any-false_iff [] = ground arith
  any-false_iff (x ∷ xs) = ground (arith, h x, any-false_iff xs)

same_qubits_iff : (xs ys : List ℕ) → (same_qubits xs ys ≡ true) ↔ (xs ≡ ys)
same_qubits_iff [] [] = ground arith
same_qubits_iff [] (y ∷ ys) = ground arith
same_qubits_iff (x ∷ xs) [] = ground arith
same_qubits_iff (x ∷ xs) (y ∷ ys) = ground (arith, same_qubits_iff xs ys)

-- The edges are the gates of several qubits.
edges_iff :
    (qs : List ℕ) (gates : List (List ℕ))
    → (any (λ e. same_qubits e qs) (filter (λ g. ltb 1 (length g)) gates) ≡ false)
      ↔ All (λ g. 1 < length g → g ≢ qs) gates
edges_iff qs [] = ground arith
edges_iff qs (g ∷ gates) = elim (Bool-cases (ltb 1 (length g))) [
  | inl e ↦ rw e (ground (arith, same_qubits_iff g qs, edges_iff qs gates))
  | inr e ↦ rw e (ground (arith, edges_iff qs gates))
]

ne_iff : (a b : ℕ) → ((a == b) ≡ false) ↔ (a ≢ b)
ne_iff a b = ground arith

is_faulty_iff : (p : Properties) (i : Instruction) → (is_faulty p i ≡ false) ↔ IsUsable p i
unfolding is_faulty faulty_edges
is_faulty_iff p i = ground (
  arith,
  eq_iff i.name "barrier",
  any-false_iff (λ (q : ℕ). any (λ f. f == q) p.faulty_qubits)
      (λ q. All (λ f. f ≢ q) p.faulty_qubits)
      (λ q. any-false_iff (λ f. f == q) (λ f. f ≢ q) (λ f. ne_iff f q) p.faulty_qubits) i.qubits,
  edges_iff i.qubits p.faulty_gates,
)

module _ {D T : Type 0} (server : BackendServer D T) (settings : Settings)
    (device : settings.configuration.simulator ≡ false) (p : Properties) (b : Backend D T)
    (known : b.properties ≡ some p) where
  properties-kept : properties server settings false none b ≡ (ok (some p), b)
  unfolding properties
  properties-kept = ground arith

  check_circuit_lem : (c : Circuit) → check_faulty server settings c b ≡ (refuse_faulty p c, b)
  unfolding check_faulty
  check_circuit_lem c = rw properties-kept (rw properties-kept (rw properties-kept (refl)))

  abbrev verdict : Input → Result BackendError (Unit {0})
  verdict schedule = raise backend_value_error
  verdict (program text) = ok tt
  verdict (circuit c) =
      if ltb settings.configuration.n_qubits c.num_qubits
      then raise backend_value_error
      else refuse_faulty p c

  check_input_lem : (input : Input) → check_input server settings input b ≡ (verdict input, b)
  unfolding check_input
  check_input_lem schedule = refl
  check_input_lem (program text) = refl
  check_input_lem (circuit c) =
      elim (Bool-cases (ltb settings.configuration.n_qubits c.num_qubits)) [
        | inl e ↦ rw e
        | inr e ↦ rw e (check_circuit_lem c)
      ]

  verdict_iff :
      (input : Input) → (verdict input ≡ ok tt) ↔ IsRunnable settings.configuration p input
  verdict_iff schedule = ground arith
  verdict_iff (program text) = ground arith
  verdict_iff (circuit c) =
      ground (arith, any-false_iff (is_faulty p) (IsUsable p) (is_faulty_iff p) c.instructions)

  -- What the tests of all the inputs come to.
  abbrev Checked : List Input → Result BackendError (Unit {0}) × Backend D T → Type 0
  Checked inputs o = (o.1 ≡ b) × ((o.0 ≡ ok tt) ↔ All (IsRunnable settings.configuration p) inputs)

  after_input :
      (r : Result BackendError (Unit {0})) (input : Input) (inputs : List Input)
      → (r ≡ ok tt) ↔ IsRunnable settings.configuration p input
      → Checked inputs (check_circuits_attributes server settings inputs b)
      → Checked
          (input ∷ inputs)
          (continue r (λ _. check_circuits_attributes server settings inputs) b)
  after_input (ok a) input inputs h later = ground (arith, h, later)
  after_input (raise e) input inputs h later = ground (arith, h)

  -- A device whose properties are kept accepts a list of inputs exactly when each of them may run on
  -- it: none is a schedule, none has more qubits than the device, and no instruction but a barrier
  -- uses a faulty qubit or, if it has two qubits, is on a faulty edge. The tests change nothing and
  -- ask the server nothing.
  pub check_circuits_attributes_iff :
      (inputs : List Input)
      → ((check_circuits_attributes server settings inputs b).1 ≡ b)
        × (((check_circuits_attributes server settings inputs b).0 ≡ ok tt)
            ↔ All (IsRunnable settings.configuration p) inputs)
  unfolding check_circuits_attributes
  check_circuits_attributes_iff [] = ground arith
  check_circuits_attributes_iff (input ∷ inputs) = rw (check_input_lem input) (
      after_input (verdict input) input inputs (verdict_iff input)
        (check_circuits_attributes_iff inputs))
