-- ===== src/Transpiler/Padding/Tests.antt =====
-- The padding on a concrete circuit.
use qiskit_ibm_provider.Common.{
  ℕ, ◌≡◌, refl, true, false, some, List, [], ◌∷◌, map, inl, inr, arith,
}
use qiskit_ibm_provider.Transpiler.Schedule.{mem, generic}
use qiskit_ibm_provider.Transpiler.Padding.{
  Kind, gate, measure, Node, ControlNode, Circuit, done, op, control_flow, no_block, block, Added,
  pad_delay, add_pieces, apply_scheduled_op, set_idle, add_terminating_barrier, needs_barrier,
}
use qiskit_ibm_provider.Transpiler.Padding.Visits.{
  begin_dag, init_run, run, visit_circuit, visit_node, visit_generic, begin_node, enter_block,
  pad_wires, pad_between, pad_until_block_end, terminate_block, end_dag, end_fast_path,
  begin_control, end_control, will_use_fast_path,
}
use qiskit_ibm_provider.Transpiler.Padding.Tiling.{tiled_end, pad_delay-IsFilling}
use qiskit_ibm_provider.Transpiler.Padding.Run.{FitsCircuit, run-tiled}
use qiskit_ibm_provider.Transpiler.Padding.Scheduled.{Label, scheduled_ops, scheduled-tiled}
use qiskit_ibm_provider.Transpiler.Schedule

abbrev a_node : Kind → ℕ → ℕ → ℕ → ℕ → Node
a_node kind qubit in_block start duration = record {
  kind = kind;
  conditional = false;
  qubits = qubit ∷ [];
  clbits = [];
  in_block = in_block;
  start = start;
  duration = duration;
}

abbrev condition : ControlNode
condition = record {
  is_if_else = true;
  condition_bits = 0 ∷ [];
  control_qubits = 0 ∷ [];
  in_block = 1;
  start = 1160;
}

-- A gate and a measurement of wire 0 and a gate of wire 1, then a gate of wire 1 on a condition.
abbrev two_wires : Circuit
two_wires = op (a_node gate 0 1 0 160) (
    op (a_node gate 1 1 0 40) (
      op (a_node measure 0 1 160 1000)
        (control_flow condition (block (op (a_node gate 1 2 0 40) done) no_block) done)))

abbrev both_wires : List ℕ
both_wires = 0 ∷ 1 ∷ []

abbrev interval : Added → ℕ × ℕ × List ℕ
interval a = (a.in_block, a.start, a.qubits)

-- The delays: wire 1 waits for the measurement, wire 0 for the gate of the block; barriers and the
-- control flow stand between.
padded_two_wires :
    map interval (run (pad_delay true) both_wires two_wires).added
    ≡ (0, 1160, 0 ∷ 1 ∷ [])
      ∷ (2, 0, 0 ∷ [])
      ∷ (2, 0, 1 ∷ [])
      ∷ (1, 1160, 0 ∷ 1 ∷ [])
      ∷ (1, 40, 1 ∷ [])
      ∷ (1, 160, 0 ∷ [])
      ∷ (1, 0, 1 ∷ [])
      ∷ (1, 0, 0 ∷ [])
      ∷ []
unfolding run visit_circuit visit_node visit_generic begin_node enter_block pad_wires pad_between
    pad_until_block_end terminate_block end_dag end_fast_path begin_control end_control init_run
    pad_delay add_pieces apply_scheduled_op set_idle add_terminating_barrier needs_barrier
    will_use_fast_path
padded_two_wires = refl

fits_two_wires :
    FitsCircuit
      (pad_delay true)
      both_wires
      false
      two_wires
      (begin_dag both_wires (init_run both_wires))
unfolding FitsCircuit run visit_circuit visit_node visit_generic begin_node enter_block pad_wires
    pad_between pad_until_block_end terminate_block end_dag end_fast_path begin_control end_control
    init_run pad_delay add_pieces apply_scheduled_op set_idle add_terminating_barrier needs_barrier
    will_use_fast_path
fits_two_wires = (
  record { fits_time = inl (omega arith); fits_wires = (refl, tt) },
  (
    record { fits_time = inr (refl, refl, λ q m. ground arith); fits_wires = (refl, tt) },
    (
      record { fits_time = inr (refl, refl, λ q m. ground arith); fits_wires = (refl, tt) },
      (
        record { fits_block = inl (refl, refl); fits_wires = (refl, tt); fits_test = refl },
        (((record { fits_time = inl (omega arith); fits_wires = (refl, tt) }, tt), tt)),
        tt,
      ),
    ),
  ),
)

run-tiled_example :
    (t : ℕ) × (tiled_end 1 1 (run (pad_delay true) both_wires two_wires).added ≡ some t)
run-tiled_example =
    run-tiled (pad_delay true) pad_delay-IsFilling both_wires (refl, (refl, tt)) two_wires 1 1
      fits_two_wires

abbrev to_schedule : Schedule.Kind → ℕ → ℕ → Schedule.Node
to_schedule kind qubit duration = record {
  kind = kind;
  qubits = qubit ∷ [];
  clbits = [];
  duration = duration;
}

-- A gate and a measurement of wire 0, then a gate of wire 1.
abbrev unscheduled : List Schedule.Node
unscheduled =
    to_schedule generic 0 160 ∷ to_schedule Schedule.measure 0 0 ∷ to_schedule generic 1 40 ∷ []

abbrev by_kind : Label
by_kind e = elim e.node.kind [ generic ↦ (gate, false) | _ ↦ (measure, false) ]

scheduled-tiled_example :
    (t : ℕ) × (tiled_end 1 1
        (run (pad_delay true) both_wires (
          scheduled_ops
            (pad_delay true)
            pad_delay-IsFilling
            (λ b qs. 1000)
            by_kind
            unscheduled)).added
      ≡ some t)
scheduled-tiled_example =
    scheduled-tiled (pad_delay true) pad_delay-IsFilling (λ b qs. 1000) by_kind both_wires
      unscheduled 1 1 (refl, (refl, tt)) ((refl, tt), ((refl, tt), ((refl, tt), tt)))
