-- ===== src/Transpiler/Padding/Sequence.antt =====
-- A circuit without control flow, padded by
-- qiskit_ibm_provider/transpiler/passes/scheduling/block_base_padder.py: the nodes fit one after the
-- other.
use qiskit_ibm_provider.Common.{
  ℕ, ◌+◌, ◌≤◌, ◌≡◌, ◌⊎◌, refl, sym, ap, ◌∙◌, Bool, true, List, [], ◌∷◌, if◌then◌else◌, ltb, All,
  Pairs, All-weaken, All-and, Bool-cases, arith, inl, inr,
}
use qiskit_ibm_provider.Transpiler.Schedule.{mem}
use qiskit_ibm_provider.Transpiler.Padding.{
  Node, Circuit, done, op, State, Pad, is_delay, add_terminating_barrier, apply_scheduled_op,
}
use qiskit_ibm_provider.Transpiler.Padding.Visits.{
  begin_node, enter_block, terminate_block, visit_generic, visit_node,
}
use qiskit_ibm_provider.Transpiler.Padding.Tiling.{IsFilling}
use qiskit_ibm_provider.Transpiler.Padding.Ends.{Fits}
use qiskit_ibm_provider.Transpiler.Padding.Wires.{
  pad_wires-idle_other, pad_wires-idle_same, pad_wires-frame,
}
use qiskit_ibm_provider.Transpiler.Padding.Run.{FitsCircuit}

-- The node `m` may be visited after `n`.
abbrev pub After : Node → Node → Type 0
After n m =
    (n.in_block ≤ m.in_block)
    × ((q : ℕ)
        → mem q n.qubits ≡ true
        → mem q m.qubits ≡ true
        → n.in_block ≡ m.in_block
        → n.start + n.duration ≤ m.start)

-- The circuit of a list of nodes.
abbrev pub circuit_of : List Node → Circuit
circuit_of [] = done
circuit_of (n ∷ ns) = op n (circuit_of ns)

module _ (pad : Pad) (filling : IsFilling pad) where
  begin_node-idle :
      (n : Node) (s : State) (q : ℕ)
      → (begin_node pad n s).idle_after q
        ≡ (if ltb s.current_block_idx n.in_block then 0 else s.idle_after q)
  unfolding begin_node enter_block terminate_block add_terminating_barrier apply_scheduled_op
  begin_node-idle n s q = ground arith

  visit_node-block : (n : Node) (s : State) → (visit_node pad n s).current_block_idx ≡ n.in_block
  unfolding visit_node visit_generic apply_scheduled_op begin_node
  visit_node-block n s = elim (Bool-cases (is_delay n.kind)) [
    | inl d ↦ rw d refl
    | inr d ↦ rw d (
        ap (λ t. t.current_block_idx) (pad_wires-frame pad filling n n.qubits (begin_node pad n s)))
  ]

  -- A wire is idle after the node, if it is one of the node's, or as it was.
  visit_node-idle :
      (n : Node) (s : State) (q : ℕ)
      → ((mem q n.qubits ≡ true) × ((visit_node pad n s).idle_after q ≡ n.start + n.duration))
        ⊎ ((visit_node pad n s).idle_after q ≡ (begin_node pad n s).idle_after q)
  unfolding visit_node visit_generic apply_scheduled_op
  visit_node-idle n s q = elim (Bool-cases (is_delay n.kind)) [
    | inl d ↦ inr (rw d)
    | inr d ↦ elim (Bool-cases (mem q n.qubits)) [
      | inl m ↦ inl (m, rw d (pad_wires-idle_same pad filling n q n.qubits (begin_node pad n s) m))
      | inr m ↦ inr (rw d (pad_wires-idle_other pad filling n q n.qubits (begin_node pad n s) m))
    ]
  ]

  next-Fits :
      (o : Bool) (n m : Node) (s : State)
      → Fits o m s
      → After n m
      → Fits true m (visit_node pad n s)
  next-Fits o n m s f (le, apart) = record {
    fits_time = elim (Bool-cases (ltb n.in_block m.in_block)) [
      | inl k ↦ inl (rw (visit_node-block n s) (ground arith))
      | inr k ↦
          let same : n.in_block ≡ m.in_block = ground arith in
          inr (
            sym same ∙ sym (visit_node-block n s),
            refl,
            λ q mq. elim (visit_node-idle n s q) [
              | inl (mn, e) ↦ rw e (apart q mn mq same)
              | inr e ↦ rw e (
                  rw (begin_node-idle n s q)
                    (elim (Bool-cases (ltb s.current_block_idx n.in_block)) [
                      | inl c ↦ rw c (omega arith)
                      | inr c ↦ rw c (elim f.fits_time [
                        | inl less ↦ absurd (ground arith)
                        | inr (_, _, idle) ↦ idle q mq
                      ])
                    ]))
            ],
          )
    ];
    fits_wires = f.fits_wires;
  }

  -- Nodes of which the later ones come after the earlier ones fit one after the other.
  pub circuit_of-FitsCircuit :
      (root : List ℕ) (o : Bool) (ns : List Node) (s : State)
      → All (λ n. Fits o n s) ns
      → Pairs After ns
      → FitsCircuit pad root o (circuit_of ns) s
  unfolding FitsCircuit
  circuit_of-FitsCircuit root o [] s fs ps = tt
  circuit_of-FitsCircuit root o (n ∷ ns) s (f, fs) (p, ps) = (
    f,
    circuit_of-FitsCircuit root true ns (visit_node pad n s)
        (All-weaken _ _ (λ m (fm, after). next-Fits o n m s fm after) ns (All-and _ _ ns fs p)) ps,
  )
