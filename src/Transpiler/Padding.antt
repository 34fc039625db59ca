-- ===== src/Transpiler/Padding.antt =====
-- The padding of qiskit_ibm_provider/transpiler/passes/scheduling/block_base_padder.py. The nodes come
-- in the order of `block_order_op_nodes` with the times that the scheduling has given them; the wires
-- are those of the top-level circuit. A node without a time, for which `_visit_node` raises an error,
-- is not in the model. What `_pad` adds on a wire is a parameter.
mod Tests
pub mod Sequence
pub mod Scheduled
pub mod Run
pub mod Nodes
pub mod Wires
pub mod Ends
pub mod Tiling
pub mod Visits
use qiskit_ibm_provider.Common.{
  ℕ, zero, suc, ◌+◌, ◌-◌, max, Bool, true, false, ◌&&◌, ◌||◌, not, Option, none, some, List, [],
  ◌∷◌, ◌++◌, map, all, any, length, if◌then◌else◌, ◌==◌, ltb,
}
use qiskit_ibm_provider.Transpiler.Schedule.{mem}

pub data Kind : Type 0 where
  gate delay barrier measure other : Kind

pub record Node : Type 0 where
  pub kind : Kind
  pub conditional : Bool
  pub qubits : List ℕ
  pub clbits : List ℕ
  pub in_block : ℕ
  pub start : ℕ
  pub duration : ℕ  -- what `_get_node_duration` answers

pub record ControlNode : Type 0 where
  pub is_if_else : Bool
  pub condition_bits : List ℕ
  pub control_qubits : List ℕ
  pub in_block : ℕ
  pub start : ℕ

mutual
  pub data Circuit : Type 0 where
    done : Circuit
    op : Node → Circuit → Circuit
    control_flow : ControlNode → Blocks → Circuit → Circuit

  pub data Blocks : Type 0 where
    no_block : Blocks
    block : Circuit → Blocks → Blocks

-- What an operation of the new circuit is.
pub data Origin : Type 0 where
  padding end_barrier control : Origin
  of_node : Kind → Origin

-- An operation that `_apply_scheduled_op` has added to the circuit `dag`.
pub record Added : Type 0 where
  pub origin : Origin
  pub dag : ℕ
  pub in_block : ℕ
  pub start : ℕ
  pub duration : ℕ
  pub qubits : List ℕ

-- What is asked of `_prev_node`.
pub record Last : Type 0 where
  pub is_control_flow : Bool
  pub is_barrier : Bool
  pub width : ℕ
  pub is_fast_path : Bool

-- An entry of `_last_node_to_touch`.
pub record Touch : Type 0 where
  pub touched_in : ℕ
  pub is_measure : Bool
  pub touched : List ℕ

-- The circuits are numbered in the order in which they are begun.
pub record State : Type 0 where
  pub idle_after : ℕ → ℕ
  pub current_block_idx : ℕ
  pub block_duration : ℕ
  pub conditional_block : Bool
  pub prev_node : Option Last
  pub last_node_to_touch : ℕ → Option Touch
  pub dirty_qubits : ℕ → Bool
  pub block_dag : ℕ
  pub dag_count : ℕ
  pub dag_qubits : List ℕ
  pub added : List Added  -- the last one first

-- An interval of a wire that `_pad` fills: a start and a duration.
pub record Piece : Type 0 where
  pub piece_start : ℕ
  pub piece_duration : ℕ

-- `_pad` of a wire from one time to another, where the last argument tells whether the next node is
-- the output of the wire.
abbrev pub Pad : Type 0
Pad = ℕ → ℕ → ℕ → Bool → List Piece

-- `PadDelay._pad` of qiskit_ibm_provider/transpiler/passes/scheduling/pad_delay.py.
unfoldable pub pad_delay : Bool → Pad
pad_delay fill_very_end bit t_start t_end at_output =
    if not fill_very_end && at_output
    then []
    else record { piece_start = t_start; piece_duration = t_end - t_start } ∷ []

abbrev pub is_barrier : Kind → Bool
is_barrier barrier = true
is_barrier _ = false

abbrev pub is_delay : Kind → Bool
is_delay delay = true
is_delay _ = false

abbrev pub is_measure_kind : Kind → Bool
is_measure_kind measure = true
is_measure_kind _ = false

abbrev pub is_gate_or_delay : Kind → Bool
is_gate_or_delay gate = true
is_gate_or_delay delay = true
is_gate_or_delay _ = false

-- `idle_after` where a bit is idle after `t`.
unfoldable pub set_idle : ℕ → ℕ → (ℕ → ℕ) → ℕ → ℕ
set_idle bit t idle q = if q == bit then t else idle q

-- `_apply_scheduled_op`
unfoldable pub apply_scheduled_op : Origin → ℕ → ℕ → ℕ → List ℕ → State → State
apply_scheduled_op origin block_idx t_start duration qubits s = record s {
  added =
      record {
        origin = origin;
        dag = s.block_dag;
        in_block = block_idx;
        start = t_start;
        duration = duration;
        qubits = qubits;
      }
      ∷ s.added;
}

-- The pieces that `_pad` answers, each added to the wire.
unfoldable pub add_pieces : ℕ → ℕ → List Piece → State → State
unfolding apply_scheduled_op
add_pieces block_idx bit [] s = s
add_pieces block_idx bit (p ∷ ps) s =
    add_pieces block_idx bit ps
      (apply_scheduled_op padding block_idx p.piece_start p.piece_duration (bit ∷ []) s)

abbrev pub full_width : Bool → ℕ → State → Bool
full_width ends width s = ends && (width == length s.dag_qubits)

-- `_needs_block_terminating_barrier`
unfoldable pub needs_barrier : Option Last → Last → State → Bool
needs_barrier none curr s = false
needs_barrier (some prev) curr s = not (
    (prev.is_control_flow && curr.is_control_flow)
    || full_width (prev.is_barrier || prev.is_control_flow) prev.width s
    || full_width (curr.is_barrier || curr.is_control_flow) curr.width s
    || curr.is_fast_path)

-- `_add_block_terminating_barrier`
unfoldable pub add_terminating_barrier : ℕ → ℕ → Last → Bool → State → State
unfolding needs_barrier apply_scheduled_op
add_terminating_barrier block_idx time curr force s =
    if force || needs_barrier s.prev_node curr s
    then apply_scheduled_op end_barrier block_idx time 0 s.dag_qubits s
    else s

abbrev pub last_of_node : Node → Last
last_of_node n = record {
  is_control_flow = false;
  is_barrier = is_barrier n.kind;
  width = length n.qubits;
  is_fast_path = false;
}
