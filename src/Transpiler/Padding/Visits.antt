-- ===== src/Transpiler/Padding/Visits.antt =====
-- The visits of qiskit_ibm_provider/transpiler/passes/scheduling/block_base_padder.py: a node, the end
-- of a block, and control flow with the circuits inside it.
use qiskit_ibm_provider.Common.{
  ℕ, suc, ◌+◌, max, Bool, true, false, ◌&&◌, ◌||◌, not, Option, none, some, List, [], ◌∷◌, all,
  length, if◌then◌else◌, ◌==◌, ltb,
}
use qiskit_ibm_provider.Transpiler.Schedule.{mem}
use qiskit_ibm_provider.Transpiler.Padding.{
  Node, ControlNode, Circuit, done, op, control_flow, Blocks, no_block, block, control, of_node,
  Last, Touch, State, Pad, is_barrier, is_delay, is_measure_kind, is_gate_or_delay, set_idle,
  apply_scheduled_op, add_pieces, add_terminating_barrier, last_of_node,
}

abbrev pub same_set : List ℕ → List ℕ → Bool
same_set qs rs = all (λ q. mem q rs) qs && all (λ r. mem r qs) rs

-- The operations are gates and delays only.
abbrev pub gates_and_delays : Circuit → Bool
gates_and_delays done = true
gates_and_delays (op n c) = is_gate_or_delay n.kind && gates_and_delays c
gates_and_delays (control_flow n bs c) = false

abbrev pub all_gates_and_delays : Blocks → Bool
all_gates_and_delays no_block = true
all_gates_and_delays (block c bs) = gates_and_delays c && all_gates_and_delays bs

abbrev is_last_measure : ℕ → Option Touch → Bool
is_last_measure dag none = false
is_last_measure dag (some t) = (t.touched_in == dag) && t.is_measure

abbrev is_fast_measure : ℕ → List ℕ → Option Touch → Bool
is_fast_measure dag qubits none = false
is_fast_measure dag qubits (some t) =
    (t.touched_in == dag) && (t.is_measure && same_set qubits t.touched)

-- The test looks up the wires of the last node to touch the bit in `_wire_map`. They are wires of the
-- top-level circuit, which `_wire_map` has only there: in the circuit of a block it raises KeyError.
-- The top-level circuit has the number 1.
abbrev pub finds_wires : ControlNode → State → Bool
finds_wires n s = elim n.condition_bits [
  | [] ↦ true
  | ◌∷◌ bit (others → _) ↦
      not (n.is_if_else && (length others == 0))
      || (not (is_last_measure s.block_dag (s.last_node_to_touch bit)) || (s.block_dag == 1))
]

-- `_will_use_fast_path`, where it raises no KeyError.
unfoldable pub will_use_fast_path : ControlNode → Blocks → State → Bool
will_use_fast_path n bs s = elim n.condition_bits [
  | [] ↦ false
  | ◌∷◌ bit (others → _) ↦
      (length others == 0)
      && (is_fast_measure s.block_dag n.control_qubits (s.last_node_to_touch bit)
          && all_gates_and_delays bs)
]

abbrev pub is_fast : ControlNode → Blocks → State → Bool
is_fast n bs s = n.is_if_else && will_use_fast_path n bs s

abbrev pub last_of_control : ControlNode → Bool → Last
last_of_control n fast = record {
  is_control_flow = true;
  is_barrier = false;
  width = length n.control_qubits;
  is_fast_path = fast;
}

abbrev pub touch : Node → State → State
touch n s = record s {
  dirty_qubits = λ q. s.dirty_qubits q || (not (is_barrier n.kind) && mem q n.qubits);
  last_node_to_touch = λ c.
      if mem c n.clbits
      then some (record {
        touched_in = s.block_dag;
        is_measure = is_measure_kind n.kind;
        touched = n.qubits;
      })
      else s.last_node_to_touch c;
}

-- The circuit that `_visit_block` begins, on the wires `qubits`.
abbrev pub begin_dag : List ℕ → State → State
begin_dag qubits s = record s {
  prev_node = none;
  block_dag = s.dag_count;
  dag_count = suc s.dag_count;
  dag_qubits = qubits;
  block_duration = 0;
  conditional_block = false;
}

-- `_visit_block` restores what the block before had.
abbrev pub leave_dag : State → State → State
leave_dag before s = record s {
  block_dag = before.block_dag;
  dag_qubits = before.dag_qubits;
  prev_node = before.prev_node;
}

-- `block_idx` after the loop over the blocks, which assigns the indexes of the blocks to it.
abbrev pub assigned_idx : ℕ → ℕ → Blocks → ℕ
assigned_idx block_idx i no_block = block_idx
assigned_idx block_idx i (block c bs) = assigned_idx i (suc i) bs

-- `_visit_control_flow_op` after the blocks.
unfoldable pub end_control : ControlNode → Bool → Blocks → State → State
unfolding apply_scheduled_op
end_control n fast bs s =
    let s1 =
      apply_scheduled_op control (assigned_idx n.in_block 0 bs) n.start 0
        (if fast then n.control_qubits else s.dag_qubits) s in
    record s1 { prev_node = some (last_of_control n fast) }

-- The barrier after a last node that is on a fast path.
unfoldable pub end_fast_path : Option Last → ℕ → ℕ → State → State
unfolding add_terminating_barrier
end_fast_path none block_idx time s = s
end_fast_path (some l) block_idx time s =
    if l.is_fast_path then add_terminating_barrier block_idx time l true s else s

-- `_init_run`, for a circuit on the wires `root`.
unfoldable pub init_run : List ℕ → State
init_run root = record {
  idle_after = λ bit. 0;
  current_block_idx = 0;
  block_duration = 0;
  conditional_block = false;
  prev_node = none;
  last_node_to_touch = λ c. none;
  dirty_qubits = λ q. false;
  block_dag = 0;
  dag_count = 1;
  dag_qubits = root;
  added = [];
}

module _ (pad : Pad) where
  -- `_pad` between two times, when there is time between them.
  unfoldable pub pad_between : ℕ → ℕ → ℕ → Bool → State → State
  unfolding add_pieces
  pad_between block_idx bit t_end at_output s =
      if ltb (s.idle_after bit) t_end
      then add_pieces block_idx bit (pad bit (s.idle_after bit) t_end at_output) s
      else s

  -- `_pad_until_block_end`
  unfoldable pub pad_until_block_end : ℕ → ℕ → List ℕ → State → State
  unfolding pad_between
  pad_until_block_end block_duration block_idx [] s = s
  pad_until_block_end block_duration block_idx (bit ∷ bits) s =
      pad_until_block_end block_duration block_idx bits
        (pad_between block_idx bit block_duration true s)

  -- `_terminate_block`
  unfoldable pub terminate_block : ℕ → ℕ → State → State
  unfolding pad_until_block_end
  terminate_block block_duration block_idx s =
      let s1 = pad_until_block_end block_duration block_idx s.dag_qubits s in
      record s1 { block_duration = 0; idle_after = λ bit. 0 }

  -- What a visit does when the node is in a later block.
  unfoldable pub enter_block : Node → State → State
  unfolding terminate_block add_terminating_barrier
  enter_block n s =
      if ltb s.current_block_idx n.in_block
      then add_terminating_barrier n.in_block n.start (last_of_node n) false
          (terminate_block s.block_duration s.current_block_idx s)
      else s

  -- The state in which the node has its block, and the end of the block is not before its end.
  unfoldable pub begin_node : Node → State → State
  unfolding enter_block
  begin_node n s =
      let s1 = enter_block n s in
      record s1 {
        conditional_block = n.conditional;
        current_block_idx = n.in_block;
        block_duration = max s1.block_duration (n.start + n.duration);
      }

  -- `_visit_delay`
  abbrev pub visit_delay : Node → State → State
  visit_delay n s = begin_node n s

  -- The loop of `_visit_generic` over the wires.
  unfoldable pub pad_wires : Node → List ℕ → State → State
  unfolding pad_between set_idle
  pad_wires n [] s = s
  pad_wires n (bit ∷ bits) s =
      let s1 = pad_between n.in_block bit n.start false s in
      pad_wires n bits
        (record s1 { idle_after = set_idle bit (n.start + n.duration) s1.idle_after })

  -- `_visit_generic`
  unfoldable pub visit_generic : Node → State → State
  unfolding begin_node pad_wires apply_scheduled_op
  visit_generic n s = touch n (
      apply_scheduled_op (of_node n.kind) n.in_block n.start n.duration n.qubits
        (pad_wires n n.qubits (begin_node n s)))

  -- `_visit_node`, without control flow.
  unfoldable pub visit_node : Node → State → State
  unfolding begin_node visit_generic
  visit_node n s =
      let s1 = if is_delay n.kind then visit_delay n s else visit_generic n s in
      record s1 { prev_node = some (last_of_node n) }

  -- What `_visit_block` does after the nodes.
  unfoldable pub end_dag : State → State
  unfolding terminate_block end_fast_path
  end_dag s =
      let s1 = terminate_block s.block_duration s.current_block_idx s in
      end_fast_path s.prev_node s.current_block_idx s.block_duration s1

  -- `_visit_control_flow_op` before the blocks.
  unfoldable pub begin_control : ControlNode → Bool → State → State
  unfolding terminate_block add_terminating_barrier
  begin_control n fast s =
      add_terminating_barrier n.in_block n.start (last_of_control n fast) false
        (terminate_block n.start n.in_block s)

  -- The loop of `_visit_block`, and the loop over the inner blocks, of which the wires are those of
  -- the node on a fast path and else all.
  unfoldable mutual
    unfolding visit_node begin_control end_control end_dag

    pub visit_circuit : List ℕ → Circuit → State → State
    visit_circuit root done s = s
    visit_circuit root (op n c) s = visit_circuit root c (visit_node n s)
    visit_circuit root (control_flow n bs c) s =
        let fast = is_fast n bs s in
        let wires = if fast then n.control_qubits else root in
        visit_circuit root c
          (end_control n fast bs (visit_blocks root wires bs (begin_control n fast s)))

    pub visit_blocks : List ℕ → List ℕ → Blocks → State → State
    visit_blocks root wires no_block s = s
    visit_blocks root wires (block c bs) s =
        visit_blocks root wires bs
          (leave_dag s (end_dag (visit_circuit root c (begin_dag wires s))))

  -- `run`: `_visit_block` of the top-level circuit.
  unfoldable pub run : List ℕ → Circuit → State
  unfolding init_run visit_circuit end_dag
  run root c =
      let s = init_run root in leave_dag s (end_dag (visit_circuit root c (begin_dag root s)))
