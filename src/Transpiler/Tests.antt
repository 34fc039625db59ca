-- ===== src/Transpiler/Tests.antt =====
-- The scheduling analysis on concrete circuits.
use qiskit_ibm_provider.Common.{ℕ, ◌≡◌, refl, true, false, List, [], ◌∷◌, map, Pairs}
use qiskit_ibm_provider.Transpiler.Schedule.{
  generic, measure, reset, Node, Circuit, done, op, control_flow, no_block, block, Entry, State,
  analyse, visit_circuit, visit_node, visit_kind, visit_generic, visit_measure, visit_reset,
  begin_block, flush_measures, check_flush, overlaps, add_entry, add_measure, retime, retimed,
  retimed_clbits, retimed_end, latest, set_times, raise_time, group_start, init_run,
}
use qiskit_ibm_provider.Transpiler.Schedule.Retime.{Apart, Tied}
use qiskit_ibm_provider.Transpiler.Schedule.Order.{operations-Apart, measurements_together}
use qiskit_ibm_provider.Transpiler.Schedule.Complete.{scheduled, nodes_onto, scheduled-analyse}

abbrev durations : ℕ → List ℕ → ℕ
durations b qs = 1000

abbrev gate : ℕ → Node
gate q = record { kind = generic; qubits = q ∷ []; clbits = []; duration = 160 }

abbrev measured : ℕ → Node
measured q = record { kind = measure; qubits = q ∷ []; clbits = q ∷ []; duration = 1000 }

abbrev reset_of : ℕ → Node
reset_of q = record { kind = reset; qubits = q ∷ []; clbits = []; duration = 1000 }

-- A gate, two measurements, a conditional gate in a block, and a gate after it.
abbrev conditional_circuit : Circuit
conditional_circuit = op (gate 0) (
    op (measured 0) (
      op (measured 1) (
        control_flow (record { kind = generic; qubits = 0 ∷ []; clbits = 0 ∷ []; duration = 0 })
          (block (op (gate 0) done) no_block) (op (gate 0) done))))

abbrev times_of : Entry → ℕ × ℕ × ℕ
times_of e = (e.in_block, e.start, e.stop)

abbrev all_times : State → List (ℕ × ℕ × ℕ)
all_times s = map times_of s.entries

-- Both measurements wait for the gate; the blocks start at 0.
schedule_conditional :
    all_times (analyse durations false conditional_circuit)
    ≡ (3, 0, 160)
      ∷ (2, 0, 160)
      ∷ (1, 1160, 1160)
      ∷ (1, 160, 1160)
      ∷ (1, 160, 1160)
      ∷ (1, 0, 160)
      ∷ []
unfolding analyse visit_circuit visit_node visit_kind visit_generic visit_measure begin_block
    flush_measures check_flush overlaps add_entry add_measure retime retimed retimed_clbits
    retimed_end latest set_times raise_time group_start init_run
schedule_conditional = refl

abbrev measure_reset : Circuit
measure_reset = op (measured 0) (op (reset_of 0) (op (gate 0) done))

-- The early scheduler leaves the gate in the block of the reset; the late one does not.
schedule_measure_reset :
    (all_times (analyse durations false measure_reset)
      ≡ (2, 1000, 1160) ∷ (2, 0, 1000) ∷ (1, 0, 1000) ∷ [])
    × (all_times (analyse durations true measure_reset)
        ≡ (3, 0, 160) ∷ (2, 0, 1000) ∷ (1, 0, 1000) ∷ [])
unfolding analyse visit_circuit visit_node visit_kind visit_generic visit_measure visit_reset
    begin_block flush_measures check_flush overlaps add_entry add_measure retime retimed
    retimed_clbits retimed_end latest set_times raise_time group_start init_run
schedule_measure_reset = (refl, refl)

operations-Apart_example : Pairs Apart (analyse durations true conditional_circuit).entries
operations-Apart_example = operations-Apart durations true conditional_circuit

measurements_together_example : Pairs Tied (analyse durations true conditional_circuit).entries
measurements_together_example = measurements_together durations true conditional_circuit

scheduled-analyse_example :
    scheduled (analyse durations false conditional_circuit) ≡ nodes_onto conditional_circuit []
scheduled-analyse_example = scheduled-analyse durations false conditional_circuit
