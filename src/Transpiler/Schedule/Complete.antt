-- ===== src/Transpiler/Schedule/Complete.antt =====
-- The schedule of a circuit has each of its nodes, in the order of the visits.
use qiskit_ibm_provider.Common.{
  refl, some, ℕ, ◌≡◌, ◌∙◌, ap, Bool, true, ◌&&◌, List, [], ◌∷◌, map, if◌then◌else◌, max, Bool-cases,
  inl, inr,
}
use qiskit_ibm_provider.Transpiler.Schedule.{
  Kind, generic, measure, reset, Node, Circuit, done, op, control_flow, Blocks, no_block, block,
  Entry, State, overlaps, latest, group_start, flush_measures, begin_block, add_entry, check_flush,
  visit_generic, retime, add_measure, visit_measure, visit_reset, visit_kind, visit_node,
  enter_control_flow, in_conditional, visit_circuit, visit_blocks, init_run, analyse,
}

-- The nodes of the entries, the last visited first.
abbrev pub scheduled : State → List Node
scheduled s = map (λ e. e.node) s.entries

-- The nodes of a circuit put on the list of those before, those inside the blocks included.
unfoldable mutual
  pub nodes_onto : Circuit → List Node → List Node
  nodes_onto done ns = ns
  nodes_onto (op n c) ns = nodes_onto c (n ∷ ns)
  nodes_onto (control_flow n bs c) ns = nodes_onto c (block_nodes_onto bs (n ∷ ns))

  pub block_nodes_onto : Blocks → List Node → List Node
  block_nodes_onto no_block ns = ns
  block_nodes_onto (block c bs) ns = block_nodes_onto bs (nodes_onto c ns)

retime-nodes :
    (d : ℕ → List ℕ → ℕ) (g b t0 : ℕ) (es : List Entry)
    → map (λ e. e.node) (map (retime d g b t0) es) ≡ map (λ e. e.node) es
unfolding retime
retime-nodes d g b t0 [] = refl
retime-nodes d g b t0 (e ∷ es) = ap (λ ns. e.node ∷ ns) (retime-nodes d g b t0 es)

unconditional-scheduled :
    (late : Bool) (s : State)
    → scheduled (if late && s.control_flow_block then begin_block s else s) ≡ scheduled s
unfolding begin_block flush_measures
unconditional-scheduled late s = elim (Bool-cases (late && s.control_flow_block)) [
  | inl c ↦ rw c refl
  | inr c ↦ rw c refl
]

check_flush-scheduled : (n : Node) (s : State) → scheduled (check_flush n s) ≡ scheduled s
unfolding check_flush begin_block flush_measures
check_flush-scheduled n s = elim (Bool-cases (overlaps s.group_no s.entries n.qubits)) [
  | inr h ↦ rw h refl
  | inl h ↦ rw h (elim (Bool-cases s.has_reset) [ inl r ↦ rw r refl | inr r ↦ rw r refl ])
]

visit_generic-scheduled :
    (late : Bool) (n : Node) (s : State) → scheduled (visit_generic late n s) ≡ n ∷ scheduled s
unfolding visit_generic add_entry
visit_generic-scheduled late n s =
    let s1 = if late && s.control_flow_block then begin_block s else s in
    ap (λ ns. n ∷ ns) (check_flush-scheduled n s1 ∙ unconditional-scheduled late s)

module _ (d : ℕ → List ℕ → ℕ) where
  add_measure-scheduled :
      (n : Node) (t0 : ℕ) (s : State) → scheduled (add_measure d n t0 s) ≡ n ∷ scheduled s
  unfolding add_measure
  add_measure-scheduled n t0 s =
      let e : Entry = record {
        node = n;
        in_block = s.block_idx;
        start = t0;
        stop = t0;
        group = some s.group_no;
      } in
      retime-nodes d s.group_no s.block_idx t0 (e ∷ s.entries)

  visit_measure-scheduled :
      (n : Node) (s : State) → scheduled (visit_measure d n s) ≡ n ∷ scheduled s
  unfolding visit_measure begin_block flush_measures
  visit_measure-scheduled n s = elim (Bool-cases (overlaps s.group_no s.entries n.qubits)) [
    | inl h ↦ rw h (elim (Bool-cases s.has_reset) [
      | inl r ↦ rw r (add_measure-scheduled n 0 (begin_block s))
      | inr r ↦ rw r (add_measure-scheduled n (latest s.qubit_times n.qubits) (flush_measures s))
    ])
    | inr h ↦
        let t0 = max (latest s.qubit_times n.qubits) (group_start s.group_no s.entries) in
        rw h (add_measure-scheduled n t0 s)
  ]

  visit_kind-scheduled :
      (k : Kind) (late : Bool) (n : Node) (s : State)
      → scheduled (visit_kind d k late n s) ≡ n ∷ scheduled s
  unfolding visit_kind visit_reset
  visit_kind-scheduled generic late n s = visit_generic-scheduled late n s
  visit_kind-scheduled measure late n s = visit_measure-scheduled n s
  visit_kind-scheduled reset late n s = visit_measure-scheduled n (record s { has_reset = true })

  mutual
    unfolding visit_circuit visit_node nodes_onto begin_block flush_measures add_entry

    visit_circuit-scheduled :
        (late : Bool) (c : Circuit) (s : State)
        → scheduled (visit_circuit d late c s) ≡ nodes_onto c (scheduled s)
    visit_circuit-scheduled late done s = refl
    visit_circuit-scheduled late (op n c) s =
        visit_circuit-scheduled late c (visit_node d late n s)
        ∙ ap (nodes_onto c) (visit_kind-scheduled n.kind late n s)
    visit_circuit-scheduled late (control_flow n bs c) s =
        visit_circuit-scheduled late c
          (begin_block (visit_blocks d late bs (enter_control_flow n s)))
        ∙ ap (nodes_onto c) (visit_blocks-scheduled late bs (enter_control_flow n s))

    visit_blocks-scheduled :
        (late : Bool) (bs : Blocks) (s : State)
        → scheduled (visit_blocks d late bs s) ≡ block_nodes_onto bs (scheduled s)
    visit_blocks-scheduled late no_block s = refl
    visit_blocks-scheduled late (block c bs) s =
        let s1 = begin_block (in_conditional s) in
        visit_blocks-scheduled late bs (visit_circuit d late c s1)
        ∙ ap (block_nodes_onto bs) (visit_circuit-scheduled late c s1)

  -- The schedule has every node of the circuit and of the blocks inside it once, in the order in
  -- which they are visited, and nothing else.
  pub scheduled-analyse :
      (late : Bool) (c : Circuit) → scheduled (analyse d late c) ≡ nodes_onto c []
  unfolding analyse init_run begin_block flush_measures
  scheduled-analyse late c = visit_circuit-scheduled late c (begin_block init_run)
