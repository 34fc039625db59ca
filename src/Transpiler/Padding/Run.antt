-- ===== src/Transpiler/Padding/Run.antt =====
-- The padding of a whole circuit: in every block, the operations of every wire follow each other.
use qiskit_ibm_provider.Common.{
  subst, ℕ, ◌≡◌, ◌⊎◌, refl, sym, Bool, true, false, Option, none, some, List, if◌then◌else◌,
  Bool-cases, inl, inr, true≢false,
}
use qiskit_ibm_provider.Transpiler.Padding.{
  control, ControlNode, Circuit, done, op, control_flow, Blocks, no_block, block, Last, State, Pad,
  apply_scheduled_op,
}
use qiskit_ibm_provider.Transpiler.Padding.Visits.{
  finds_wires, visit_node, is_fast, last_of_control, terminate_block, begin_dag, end_dag, leave_dag,
  begin_control, end_fast_path, assigned_idx, end_control, visit_circuit, visit_blocks, init_run,
  run,
}
use qiskit_ibm_provider.Transpiler.Padding.Tiling.{tiled_end, IsFilling, IsDistinct}
use qiskit_ibm_provider.Transpiler.Padding.Ends.{
  Padded, with_prev-Padded, untimed-Padded, barrier-Padded, Fits, terminate_block-running,
  terminate_block-ended, block_end-Padded,
}
use qiskit_ibm_provider.Transpiler.Padding.Nodes.{visit_node-Padded}

-- The time of a control-flow node fits: it is in the open block, or no block is open and it starts at
-- 0. No wire comes twice in it, and the test for the fast path raises no KeyError.
pub record FitsControl (o : Bool) (n : ControlNode) (s : State) : Type 0 where
  pub fits_block : ((o ≡ true) × (n.in_block ≡ s.current_block_idx)) ⊎ ((o ≡ false) × (n.start ≡ 0))
  pub fits_wires : IsDistinct n.control_qubits
  pub fits_test : finds_wires n s ≡ true

module _ (pad : Pad) (root : List ℕ) where
  abbrev inner_wires : ControlNode → Blocks → State → List ℕ
  inner_wires n bs s = if is_fast n bs s then n.control_qubits else root

  abbrev begun : ControlNode → Blocks → State → State
  begun n bs s = begin_control pad n (is_fast n bs s) s

  abbrev ended_control : ControlNode → Blocks → State → State
  ended_control n bs s =
      end_control n (is_fast n bs s) bs
        (visit_blocks pad root (inner_wires n bs s) bs (begun n bs s))

  -- The times of the nodes of a circuit fit, each in the state in which it is visited.
  unfoldable mutual
    pub FitsCircuit : Bool → Circuit → State → Type 0
    FitsCircuit o done s = Unit
    FitsCircuit o (op n c) s = Fits o n s × FitsCircuit true c (visit_node pad n s)
    FitsCircuit o (control_flow n bs c) s =
        FitsControl o n s
        × FitsBlocks (inner_wires n bs s) bs (begun n bs s)
        × FitsCircuit false c (ended_control n bs s)

    pub FitsBlocks : List ℕ → Blocks → State → Type 0
    FitsBlocks wires no_block s = Unit
    FitsBlocks wires (block c bs) s =
        FitsCircuit false c (begin_dag wires s)
        × FitsBlocks wires bs
            (leave_dag s (end_dag pad (visit_circuit pad root c (begin_dag wires s))))

begin_dag-Padded :
    (wires : List ℕ) (s : State)
    → IsDistinct wires
    → Padded false s
    → Padded false (begin_dag wires s)
begin_dag-Padded wires s d g = record {
  tiled = g.tiled;
  fresh = g.fresh;
  distinct = d;
  running = λ h. absurd (true≢false (sym h));
  ended = λ h. (refl, (g.ended refl).1);
}

leave_dag-Padded :
    (o : Bool) (before s : State)
    → IsDistinct before.dag_qubits
    → Padded o s
    → Padded o (leave_dag before s)
leave_dag-Padded o before s d g = record {
  tiled = g.tiled;
  fresh = g.fresh;
  distinct = d;
  running = g.running;
  ended = g.ended;
}

end_fast_path-Padded :
    (p : Option Last) (block_idx time : ℕ) (s : State)
    → Padded false s
    → Padded false (end_fast_path p block_idx time s)
unfolding end_fast_path
end_fast_path-Padded none block_idx time s g = g
end_fast_path-Padded (some l) block_idx time s g = elim (Bool-cases l.is_fast_path) [
  | inl h ↦ rw h (barrier-Padded false block_idx time l true s g)
  | inr h ↦ rw h g
]

end_control-Padded :
    (o : Bool) (n : ControlNode) (fast : Bool) (bs : Blocks) (s : State)
    → Padded o s
    → Padded o (end_control n fast bs s)
unfolding end_control
end_control-Padded o n fast bs s g =
    let wires = if fast then n.control_qubits else s.dag_qubits in
    let b = assigned_idx n.in_block 0 bs in
    with_prev-Padded o (some (last_of_control n fast))
      (apply_scheduled_op control b n.start 0 wires s)
      (untimed-Padded o control b n.start wires s refl g)

module _ (pad : Pad) (filling : IsFilling pad) (root : List ℕ)
    (root_distinct : IsDistinct root) where
  begin_control-Padded :
      (o : Bool) (n : ControlNode) (fast : Bool) (s : State)
      → FitsControl o n s
      → Padded o s
      → Padded false (begin_control pad n fast s)
  unfolding begin_control
  begin_control-Padded o n fast s f g =
      barrier-Padded false n.in_block n.start (last_of_control n fast) false
        (terminate_block pad n.start n.in_block s)
        (elim f.fits_block [
          | inl (is_open, here) ↦
              rw here
                (terminate_block-running pad filling n.start s (subst (λ b. Padded b s) is_open g))
          | inr (is_ended, at_zero) ↦
              terminate_block-ended pad filling n.start n.in_block s at_zero
                (subst (λ b. Padded b s) is_ended g)
        ])

  end_dag-Padded : (o : Bool) (s : State) → Padded o s → Padded false (end_dag pad s)
  unfolding end_dag
  end_dag-Padded o s g =
      end_fast_path-Padded s.prev_node s.current_block_idx s.block_duration
        (terminate_block pad s.block_duration s.current_block_idx s)
        (block_end-Padded pad filling o s g)

  inner_wires-IsDistinct :
      (o : Bool) (n : ControlNode) (bs : Blocks) (s : State)
      → FitsControl o n s
      → IsDistinct (inner_wires pad root n bs s)
  inner_wires-IsDistinct o n bs s f = elim (Bool-cases (is_fast n bs s)) [
    | inl h ↦ rw h f.fits_wires
    | inr h ↦ rw h root_distinct
  ]

  mutual
    unfolding visit_circuit FitsCircuit

    visit_circuit-Padded :
        (o : Bool) (c : Circuit) (s : State)
        → FitsCircuit pad root o c s
        → Padded o s
        → (r : Bool) × Padded r (visit_circuit pad root c s)
    visit_circuit-Padded o done s f g = (o, g)
    visit_circuit-Padded o (op n c) s (f, fs) g =
        visit_circuit-Padded true c (visit_node pad n s) fs
          (visit_node-Padded pad filling o n s f g)
    visit_circuit-Padded o (control_flow n bs c) s (f, fb, fs) g =
        let fast = is_fast n bs s in
        let s1 = begin_control pad n fast s in
        let wires = inner_wires pad root n bs s in
        let g1 = begin_control-Padded o n fast s f g in
        let g2 = visit_blocks-Padded wires bs s1 (inner_wires-IsDistinct o n bs s f) fb g1 in
        visit_circuit-Padded false c (ended_control pad root n bs s) fs
          (end_control-Padded false n fast bs (visit_blocks pad root wires bs s1) g2)

    visit_blocks-Padded :
        (wires : List ℕ) (bs : Blocks) (s : State)
        → IsDistinct wires
        → FitsBlocks pad root wires bs s
        → Padded false s
        → Padded false (visit_blocks pad root wires bs s)
    visit_blocks-Padded wires no_block s d f g = g
    visit_blocks-Padded wires (block c bs) s d (f, fs) g =
        let s0 = begin_dag wires s in
        let (o, g1) = visit_circuit-Padded false c s0 f (begin_dag-Padded wires s d g) in
        let s1 = visit_circuit pad root c s0 in
        visit_blocks-Padded wires bs (leave_dag s (end_dag pad s1)) d fs
          (leave_dag-Padded false s (end_dag pad s1) g.distinct (end_dag-Padded o s1 g1))

  init_run-Padded : Padded false (init_run root)
  unfolding init_run tiled_end
  init_run-Padded = record {
    tiled = λ q b. (0, refl);
    fresh = λ q b less. refl;
    distinct = root_distinct;
    running = λ h. absurd (true≢false (sym h));
    ended = λ h. (refl, λ q. refl);
  }

  -- After the padding of a whole circuit, the operations of each wire in each block follow each other:
  -- the first starts at 0, and each of the others when the one before ends. `_pad` fills the intervals
  -- that it is given, no wire comes twice, and each node fits when it is visited: an operation is in a
  -- later block, or in the open one and not before its wires are idle; a control-flow node is in the
  -- open block, or no block is open and it starts at 0. The test for the fast path does not come to the
  -- wires of a measurement inside a control-flow block, where it raises KeyError.
  pub run-tiled :
      (c : Circuit) (q b : ℕ)
      → FitsCircuit pad root false c (begin_dag root (init_run root))
      → (t : ℕ) × (tiled_end q b (run pad root c).added ≡ some t)
  unfolding run
  run-tiled c q b f =
      let s0 = begin_dag root (init_run root) in
      let g0 = begin_dag-Padded root (init_run root) root_distinct init_run-Padded in
      let (o, g1) = visit_circuit-Padded false c s0 f g0 in
      (end_dag-Padded o (visit_circuit pad root c s0) g1).tiled q b
