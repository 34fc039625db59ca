-- ===== src/Transpiler/Padding/Nodes.antt =====
-- A node that is visited keeps the invariant of the padding.
use qiskit_ibm_provider.Common.{
  subst, ℕ, ◌+◌, ◌≤◌, ◌≡◌, ◌∙◌, refl, sym, ap, Bool, true, false, ◌&&◌, some, ◌∷◌, ◌==◌, arith,
  Bool-cases, inl, inr, true≢false,
}
use qiskit_ibm_provider.Transpiler.Schedule.{mem}
use qiskit_ibm_provider.Transpiler.Padding.{
  of_node, Node, Added, State, Pad, is_delay, apply_scheduled_op, last_of_node,
}
use qiskit_ibm_provider.Transpiler.Padding.Visits.{
  begin_node, pad_wires, touch, visit_generic, visit_node,
}
use qiskit_ibm_provider.Transpiler.Padding.Tiling.{
  tiled_end, tiled_end-skip, tiled_end-next, IsFilling, IsDistinct,
}
use qiskit_ibm_provider.Transpiler.Padding.Ends.{
  Padded, Padded-other, with_prev-Padded, Fits, Idle, begin_node-Padded,
}
use qiskit_ibm_provider.Transpiler.Padding.Wires.{
  pad_wires-frame, pad_wires-elsewhere, pad_wires-idle_other, pad_wires-Filled,
}

module _ (pad : Pad) (filling : IsFilling pad) where
  abbrev entry : Node → State → Added
  entry n s = record {
    origin = of_node n.kind;
    dag = s.block_dag;
    in_block = n.in_block;
    start = n.start;
    duration = n.duration;
    qubits = n.qubits;
  }

  abbrev padded_wires : Node → State → State
  padded_wires n s = pad_wires pad n n.qubits s

  -- After the wires are padded, the node is added.
  abbrev with_node : Node → State → State
  with_node n s = record s {
    added = entry n s ∷ (padded_wires n s).added;
    idle_after = (padded_wires n s).idle_after;
  }

  entry-next :
      (n : Node) (s : State) (q : ℕ)
      → s.current_block_idx ≡ n.in_block
      → IsDistinct n.qubits
      → Idle n s
      → Padded true s
      → mem q n.qubits ≡ true
      → (tiled_end q n.in_block (with_node n s).added ≡ some (n.start + n.duration))
        × ((with_node n s).idle_after q ≡ n.start + n.duration)
  entry-next n s q here d idle g m =
      let (filled, after) =
        pad_wires-Filled pad filling n q n.qubits s d m
          (subst (λ b. tiled_end q b s.added ≡ some (s.idle_after q)) here (g.running refl q).0)
          (idle q m) in
      (
        tiled_end-next q n.in_block (entry n s) (padded_wires n s).added n.start (ground (arith, m))
            filled refl,
        after,
      )

  entry-elsewhere :
      (n : Node) (s : State) (q b : ℕ)
      → (n.in_block == b) && mem q n.qubits ≡ false
      → tiled_end q b (with_node n s).added ≡ tiled_end q b s.added
  entry-elsewhere n s q b h =
      tiled_end-skip q b (entry n s) (padded_wires n s).added (ground (arith, h))
      ∙ pad_wires-elsewhere pad filling n q b n.qubits s h

  with_node-Padded :
      (n : Node) (s : State)
      → s.current_block_idx ≡ n.in_block
      → n.start + n.duration ≤ s.block_duration
      → IsDistinct n.qubits
      → Idle n s
      → Padded true s
      → Padded true (with_node n s)
  with_node-Padded n s here long d idle g = record {
    tiled = λ q b. elim (Bool-cases ((n.in_block == b) && mem q n.qubits)) [
      | inr h ↦ ((g.tiled q b).0, entry-elsewhere n s q b h ∙ (g.tiled q b).1)
      | inl h ↦
          let same : n.in_block ≡ b = ground (arith, h) in
          (
            n.start + n.duration,
            subst (λ c. tiled_end q c (with_node n s).added ≡ some (n.start + n.duration)) same
                (entry-next n s q here d idle g (ground (arith, h))).0,
          )
    ];
    fresh = λ q b less. entry-elsewhere n s q b (ground (arith, here, less)) ∙ g.fresh q b less;
    distinct = g.distinct;
    running = λ e q. elim (Bool-cases (mem q n.qubits)) [
      | inl m ↦
          let (filled, after) = entry-next n s q here d idle g m in
          (
            subst (λ c. tiled_end q c (with_node n s).added ≡ some (n.start + n.duration))
                  (sym here) filled
                ∙ ap some (sym after),
            omega (arith, after, long),
          )
      | inr m ↦
          let kept = pad_wires-idle_other pad filling n q n.qubits s m in
          (
            entry-elsewhere n s q s.current_block_idx (ground (arith, m))
                ∙ (g.running refl q).0
                ∙ ap some (sym kept),
            omega (arith, kept, (g.running refl q).1),
          )
    ];
    ended = λ h. absurd (true≢false h);
  }

  -- The node with its padding is added to the circuit.
  add_node-Padded :
      (n : Node) (s : State)
      → s.current_block_idx ≡ n.in_block
      → n.start + n.duration ≤ s.block_duration
      → IsDistinct n.qubits
      → Idle n s
      → Padded true s
      → Padded true (
          apply_scheduled_op
            (of_node n.kind)
            n.in_block
            n.start
            n.duration
            n.qubits
            (padded_wires n s))
  unfolding apply_scheduled_op
  add_node-Padded n s here long d idle g =
      subst (Padded true)
        (sym (
          ap (apply_scheduled_op (of_node n.kind) n.in_block n.start n.duration n.qubits)
            (pad_wires-frame pad filling n n.qubits s)))
        (with_node-Padded n s here long d idle g)

  begin_node-block : (n : Node) (s : State) → (begin_node pad n s).current_block_idx ≡ n.in_block
  unfolding begin_node
  begin_node-block n s = refl

  begin_node-long :
      (n : Node) (s : State) → n.start + n.duration ≤ (begin_node pad n s).block_duration
  unfolding begin_node
  begin_node-long n s = omega arith

  visit_generic-Padded :
      (o : Bool) (n : Node) (s : State)
      → Fits o n s
      → Padded o s
      → Padded true (visit_generic pad n s)
  unfolding visit_generic
  visit_generic-Padded o n s f g =
      let s1 = begin_node pad n s in
      let (g1, idle) = begin_node-Padded pad filling o n s f g in
      let s2 =
        apply_scheduled_op (of_node n.kind) n.in_block n.start n.duration n.qubits
          (padded_wires n s1) in
      Padded-other true s2 s2.conditional_block s2.prev_node (touch n s2).last_node_to_touch
        (touch n s2).dirty_qubits s2.block_dag s2.dag_count
        (add_node-Padded n s1 (begin_node-block n s) (begin_node-long n s) f.fits_wires idle g1)

  pub visit_node-Padded :
      (o : Bool) (n : Node) (s : State) → Fits o n s → Padded o s → Padded true (visit_node pad n s)
  unfolding visit_node
  visit_node-Padded o n s f g = elim (Bool-cases (is_delay n.kind)) [
    | inl d ↦ rw d (
        with_prev-Padded true (some (last_of_node n)) (begin_node pad n s)
          (begin_node-Padded pad filling o n s f g).0)
    | inr d ↦ rw d (
        with_prev-Padded true (some (last_of_node n)) (visit_generic pad n s)
          (visit_generic-Padded o n s f g))
  ]
