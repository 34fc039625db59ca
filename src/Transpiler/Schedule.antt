-- ===== src/Transpiler/Schedule.antt =====
-- The scheduling analysis of qiskit_ibm_provider/transpiler/passes/scheduling/scheduler.py, in the
-- order in which `block_order_op_nodes` yields the nodes. The wires of a node are those of the
-- top-level circuit (`_map_wires`). The start and stop times are a list of entries, the last visited
-- node first; the sets of measurements that are grouped are numbers of groups. The duration of a
-- measurement depends on the block, whose own numbering of the qubits `_visit_measure` uses. There
-- is no node with a legacy condition, for which `_visit_node` raises an error.
pub mod Retime
pub mod Complete
pub mod Order
pub mod Groups
pub mod Invariant
pub mod Flat
use qiskit_ibm_provider.Common.{
  ℕ, zero, suc, ◌+◌, max, Bool, true, false, ◌&&◌, ◌||◌, Option, none, some, List, [], ◌∷◌, map,
  if◌then◌else◌, ◌==◌, any,
}

-- What an operation is: `generic` stands for a gate, a delay or a barrier.
pub data Kind : Type 0 where
  generic measure reset : Kind

pub record Node : Type 0 where
  pub kind : Kind
  pub qubits : List ℕ
  pub clbits : List ℕ
  pub duration : ℕ  -- what `_get_duration` answers

-- A circuit in block order. The blocks of a control-flow operation are circuits.
mutual
  pub data Circuit : Type 0 where
    done : Circuit
    op : Node → Circuit → Circuit
    control_flow : Node → Blocks → Circuit → Circuit

  pub data Blocks : Type 0 where
    no_block : Blocks
    block : Circuit → Blocks → Blocks

-- A scheduled node: `_node_start_time`, `_node_stop_time`, and the group it is tied to.
pub record Entry : Type 0 where
  pub node : Node
  pub in_block : ℕ
  pub start : ℕ
  pub stop : ℕ
  pub group : Option ℕ

-- The number of the group of `_current_block_measures` is `group_no`.
pub record State : Type 0 where
  pub block_idx : ℕ
  pub entries : List Entry
  pub qubit_times : ℕ → ℕ
  pub clbit_times : ℕ → ℕ
  pub max_block_t1 : ℕ → ℕ  -- 0 where the source has no key
  pub group_no : ℕ
  pub has_reset : Bool
  pub control_flow_block : Bool

abbrev pub mem : ℕ → List ℕ → Bool
mem q qs = any (λ r. q == r) qs

-- The nodes have a qubit in common.
abbrev pub intersects : List ℕ → List ℕ → Bool
intersects qs rs = any (λ q. mem q rs) qs

abbrev pub is_group : ℕ → Option ℕ → Bool
is_group g none = false
is_group g (some h) = g == h

-- The node is one of `_current_block_measures`.
abbrev pub is_current : ℕ → Entry → Bool
is_current g e = is_group g e.group

-- `max` of the times of bits; a node has at least one.
unfoldable pub latest : (ℕ → ℕ) → List ℕ → ℕ
latest times [] = 0
latest times (q ∷ qs) = max (times q) (latest times qs)

unfoldable pub set_times : List ℕ → ℕ → (ℕ → ℕ) → ℕ → ℕ
set_times qs t times q = if mem q qs then t else times q

-- `times` where the time of `b` is at least `t`.
unfoldable pub raise_time : ℕ → ℕ → (ℕ → ℕ) → ℕ → ℕ
raise_time b t times c = if c == b then max (times c) t else times c

-- The current measurements have a qubit in common with `qs`.
unfoldable pub overlaps : ℕ → List Entry → List ℕ → Bool
overlaps g es qs = any (λ e. is_current g e && intersects e.node.qubits qs) es

-- `_flush_measures`
unfoldable pub flush_measures : State → State
flush_measures s = record s { group_no = suc s.group_no; has_reset = false }

-- `_begin_new_circuit_block`
unfoldable pub begin_block : State → State
unfolding flush_measures
begin_block s = flush_measures (record s {
  block_idx = suc s.block_idx;
  control_flow_block = false;
  qubit_times = λ q. 0;
  clbit_times = λ c. 0;
})

-- `_update_bit_times`, for a node that is visited.
unfoldable pub add_entry : Node → ℕ → ℕ → State → State
unfolding set_times raise_time
add_entry n t0 t1 s = record s {
  entries =
      record { node = n; in_block = s.block_idx; start = t0; stop = t1; group = none } ∷ s.entries;
  qubit_times = set_times n.qubits t1 s.qubit_times;
  clbit_times = set_times n.clbits t1 s.clbit_times;
  max_block_t1 = raise_time s.block_idx t1 s.max_block_t1;
}

-- `_check_flush_measures`
unfoldable pub check_flush : Node → State → State
unfolding overlaps begin_block flush_measures
check_flush n s =
    if overlaps s.group_no s.entries n.qubits
    then (if s.has_reset then begin_block s else flush_measures s)
    else s

abbrev pub wires_latest : Node → State → ℕ
wires_latest n s = max (latest s.qubit_times n.qubits) (latest s.clbit_times n.clbits)

abbrev pub add_at : ℕ → Node → State → State
add_at t0 n s = add_entry n t0 (t0 + n.duration) s

-- `_visit_generic`; the late scheduler first leaves a conditional block.
unfoldable pub visit_generic : Bool → Node → State → State
unfolding check_flush begin_block latest add_entry
visit_generic late n s =
    let s1 = if late && s.control_flow_block then begin_block s else s in
    let s2 = check_flush n s1 in add_at (wires_latest n s2) n s2

-- The latest start of the current measurements.
unfoldable pub group_start : ℕ → List Entry → ℕ
group_start g [] = 0
group_start g (e ∷ es) =
    let rest = group_start g es in if is_current g e then max e.start rest else rest

-- The control-flow node itself has duration 0.
abbrev pub enter_control_flow : Node → State → State
enter_control_flow n s = add_entry n (wires_latest n s) (wires_latest n s) s

abbrev pub in_conditional : State → State
in_conditional s = record s { control_flow_block = true }

-- `_init_run`
unfoldable pub init_run : State
init_run = record {
  block_idx = 0;
  entries = [];
  qubit_times = λ q. 0;
  clbit_times = λ c. 0;
  max_block_t1 = λ b. 0;
  group_no = 0;
  has_reset = false;
  control_flow_block = false;
}

module _ (measure_duration : ℕ → List ℕ → ℕ) where
  -- The last loop of `_visit_measure`: the current measurements start at `t0`.
  unfoldable pub retime : ℕ → ℕ → ℕ → Entry → Entry
  retime g b t0 e =
      let moved = is_current g e in
      record e {
        in_block = if moved then b else e.in_block;
        start = if moved then t0 else e.start;
        stop = if moved then t0 + measure_duration b e.node.qubits else e.stop;
      }

  unfoldable pub retimed : ℕ → ℕ → ℕ → List Entry → (ℕ → ℕ) → ℕ → ℕ
  unfolding set_times
  retimed g b t0 [] times = times
  retimed g b t0 (e ∷ es) times =
      let rest = retimed g b t0 es times in
      if is_current g e
      then set_times e.node.qubits (t0 + measure_duration b e.node.qubits) rest
      else rest

  unfoldable pub retimed_clbits : ℕ → ℕ → ℕ → List Entry → (ℕ → ℕ) → ℕ → ℕ
  unfolding set_times
  retimed_clbits g b t0 [] times = times
  retimed_clbits g b t0 (e ∷ es) times =
      let rest = retimed_clbits g b t0 es times in
      if is_current g e
      then set_times e.node.clbits (t0 + measure_duration b e.node.qubits) rest
      else rest

  unfoldable pub retimed_end : ℕ → ℕ → ℕ → List Entry → (ℕ → ℕ) → ℕ → ℕ
  unfolding raise_time
  retimed_end g b t0 [] times = times
  retimed_end g b t0 (e ∷ es) times =
      let rest = retimed_end g b t0 es times in
      if is_current g e then raise_time b (t0 + measure_duration b e.node.qubits) rest else rest

  -- The node joins the current measurements, which all start at `t0`.
  unfoldable pub add_measure : Node → ℕ → State → State
  unfolding retime retimed retimed_clbits retimed_end
  add_measure n t0 s =
      let es =
        record { node = n; in_block = s.block_idx; start = t0; stop = t0; group = some s.group_no }
        ∷ s.entries in
      record s {
        entries = map (retime s.group_no s.block_idx t0) es;
        qubit_times = retimed s.group_no s.block_idx t0 es s.qubit_times;
        clbit_times = retimed_clbits s.group_no s.block_idx t0 es s.clbit_times;
        max_block_t1 = retimed_end s.group_no s.block_idx t0 es s.max_block_t1;
      }

  -- `_visit_measure`
  unfoldable pub visit_measure : Node → State → State
  unfolding overlaps begin_block flush_measures latest group_start add_measure
  visit_measure n s =
      let t0q = latest s.qubit_times n.qubits in
      if overlaps s.group_no s.entries n.qubits
      then (if s.has_reset
          then add_measure n 0 (begin_block s)
          else add_measure n t0q (flush_measures s))
      else add_measure n (max t0q (group_start s.group_no s.entries)) s

  -- `_visit_reset`
  unfoldable pub visit_reset : Node → State → State
  unfolding visit_measure
  visit_reset n s =
      let s1 = visit_measure n (record s { has_reset = true }) in
      record s1 { control_flow_block = true }

  -- The branches of `_visit_node` that are not control flow.
  unfoldable pub visit_kind : Kind → Bool → Node → State → State
  unfolding visit_generic visit_measure visit_reset
  visit_kind generic late n s = visit_generic late n s
  visit_kind measure late n s = visit_measure n s
  visit_kind reset late n s = visit_reset n s

  unfoldable pub visit_node : Bool → Node → State → State
  unfolding visit_kind
  visit_node late n s = visit_kind n.kind late n s

  -- The loop of `_visit_block`, and `_visit_control_flow_op`.
  unfoldable mutual
    unfolding visit_node begin_block flush_measures latest add_entry

    pub visit_circuit : Bool → Circuit → State → State
    visit_circuit late done s = flush_measures s
    visit_circuit late (op n c) s = visit_circuit late c (visit_node late n s)
    visit_circuit late (control_flow n bs c) s =
        visit_circuit late c (begin_block (visit_blocks late bs (enter_control_flow n s)))

    pub visit_blocks : Bool → Blocks → State → State
    visit_blocks late no_block s = s
    visit_blocks late (block c bs) s =
        visit_blocks late bs (visit_circuit late c (begin_block (in_conditional s)))

  -- The analysis of a whole circuit: `_init_run`, then `_visit_block` of the top-level block.
  unfoldable pub analyse : Bool → Circuit → State
  unfolding init_run begin_block visit_circuit
  analyse late c = visit_circuit late c (begin_block init_run)
