-- ===== src/Transpiler/Schedule/Flat.antt =====
-- A circuit without control flow, scheduled by qiskit_ibm_provider/transpiler/passes/scheduling/scheduler.py:
-- the nodes are visited block by block.
use qiskit_ibm_provider.Common.{
  ℕ, ◌≤◌, ◌≡◌, refl, max, some, Bool, true, false, ◌&&◌, List, [], ◌∷◌, if◌then◌else◌, All, Pairs,
  All-weaken, All-map, All-and, Pairs-map, arith,
}
use qiskit_ibm_provider.Transpiler.Schedule.{
  Kind, generic, measure, reset, Node, Circuit, done, op, Entry, State, is_current, latest,
  flush_measures, begin_block, check_flush, wires_latest, add_at, add_entry, add_measure, retime,
  visit_generic, group_start, visit_measure, visit_reset, visit_kind, visit_node, visit_circuit,
  init_run, analyse,
}
use qiskit_ibm_provider.Transpiler.Schedule.Invariant.{Good, flush_measures-Good, begin_block-Good}
use qiskit_ibm_provider.Transpiler.Schedule.Order.{visit_kind-Good, flags-Good, init_run-Timed}

-- The circuit of a list of nodes.
abbrev pub flat : List Node → Circuit
flat [] = done
flat (n ∷ ns) = op n (flat ns)

-- The newer entry `e` is in no earlier block.
abbrev pub NotBefore : Entry → Entry → Type 0
NotBefore e e' = e'.in_block ≤ e.in_block

-- The entry is in a block of the circuit, and its times are an interval.
abbrev pub IsPlaced : Entry → Type 0
IsPlaced e = (1 ≤ e.in_block) × (e.start ≤ e.stop)

record Ordered (s : State) : Type 0 where
  later : Pairs NotBefore s.entries
  blocks : All (λ e. e.in_block ≤ s.block_idx) s.entries
  placed : All IsPlaced s.entries
  begun : 1 ≤ s.block_idx

-- The current measurements are of this block.
abbrev Current : State → Type 0
Current s = All (λ e. is_current s.group_no e ≡ true → e.in_block ≡ s.block_idx) s.entries

begin_block-Ordered : (s : State) → Ordered s → Ordered (begin_block s)
unfolding begin_block flush_measures
begin_block-Ordered s o = record {
  later = o.later;
  blocks = All-weaken _ _ (λ e le. omega arith) s.entries o.blocks;
  placed = o.placed;
  begun = omega arith;
}

flush_measures-Ordered : (s : State) → Ordered s → Ordered (flush_measures s)
unfolding flush_measures
flush_measures-Ordered s o = record {
  later = o.later;
  blocks = o.blocks;
  placed = o.placed;
  begun = o.begun;
}

flags-Ordered :
    (r c : Bool) (s : State)
    → Ordered s
    → Ordered (record s { has_reset = r; control_flow_block = c })
flags-Ordered r c s o = record {
  later = o.later;
  blocks = o.blocks;
  placed = o.placed;
  begun = o.begun;
}

choice-Ordered :
    (test : Bool) (s t : State) → Ordered s → Ordered t → Ordered (if test then s else t)
choice-Ordered true s t h k = h
choice-Ordered false s t h k = k

add_at-Ordered : (n : Node) (t0 : ℕ) (s : State) → Ordered s → Ordered (add_at t0 n s)
unfolding add_entry
add_at-Ordered n t0 s o = record {
  later = (o.blocks, o.later);
  blocks = (omega arith, o.blocks);
  placed = ((o.begun, omega arith), o.placed);
  begun = o.begun;
}

check_flush-Ordered : (n : Node) (s : State) → Ordered s → Ordered (check_flush n s)
unfolding check_flush
check_flush-Ordered n s o =
    choice-Ordered _ _ s
      (choice-Ordered _ _ _ (begin_block-Ordered s o) (flush_measures-Ordered s o)) o

visit_generic-Ordered :
    (late : Bool) (n : Node) (s : State) → Ordered s → Ordered (visit_generic late n s)
unfolding visit_generic
visit_generic-Ordered late n s o =
    let s1 = if late && s.control_flow_block then begin_block s else s in
    let s2 = check_flush n s1 in
    add_at-Ordered n (wires_latest n s2) s2
      (check_flush-Ordered n s1 (choice-Ordered _ _ s (begin_block-Ordered s o) o))

module _ (d : ℕ → List ℕ → ℕ) where
  retime-block :
      (g b t0 : ℕ) (e : Entry)
      → (is_current g e ≡ true → e.in_block ≡ b)
      → (retime d g b t0 e).in_block ≡ e.in_block
  unfolding retime
  retime-block g b t0 e h = ground arith

  retime-IsPlaced :
      (g b t0 : ℕ) (e : Entry)
      → (is_current g e ≡ true → e.in_block ≡ b)
      → IsPlaced e
      → IsPlaced (retime d g b t0 e)
  unfolding retime
  retime-IsPlaced g b t0 e h p = ground arith

  add_measure-Ordered :
      (n : Node) (t0 : ℕ) (s : State) → Current s → Ordered s → Ordered (add_measure d n t0 s)
  unfolding add_measure
  add_measure-Ordered n t0 s current o =
      let g = s.group_no in
      let b = s.block_idx in
      let joined : List Entry =
        record { node = n; in_block = b; start = t0; stop = t0; group = some g } ∷ s.entries in
      let here : All (λ e. is_current g e ≡ true → e.in_block ≡ b) joined = (λ h. refl, current) in
      record {
        later =
            Pairs-map (λ e. is_current g e ≡ true → e.in_block ≡ b) NotBefore NotBefore
              (retime d g b t0)
              (λ e e' h h' le.
                omega (arith, le, retime-block g b t0 e h, retime-block g b t0 e' h'))
              joined here (o.blocks, o.later);
        blocks =
            All-map (λ e. e.in_block ≤ b) (retime d g b t0)
              (λ e (h, le). omega (arith, le, retime-block g b t0 e h)) joined
              (All-and _ _ joined here (omega arith, o.blocks));
        placed =
            All-map IsPlaced (retime d g b t0) (λ e (h, p). retime-IsPlaced g b t0 e h p) joined
              (All-and _ _ joined here ((o.begun, omega arith), o.placed));
        begun = o.begun;
      }

  visit_measure-Ordered :
      (n : Node) (s : State) → Good s → Ordered s → Ordered (visit_measure d n s)
  unfolding visit_measure
  visit_measure-Ordered n s g o =
      let t0 = max (latest s.qubit_times n.qubits) (group_start s.group_no s.entries) in
      choice-Ordered _ _ (add_measure d n t0 s)
        (choice-Ordered _ (add_measure d n 0 (begin_block s))
          (add_measure d n (latest s.qubit_times n.qubits) (flush_measures s))
          (add_measure-Ordered n 0 (begin_block s) (begin_block-Good s g.timed).current
            (begin_block-Ordered s o))
          (add_measure-Ordered n (latest s.qubit_times n.qubits) (flush_measures s)
            (flush_measures-Good s g.timed).current (flush_measures-Ordered s o)))
        (add_measure-Ordered n t0 s g.current o)

  visit_kind-Ordered :
      (k : Kind) (late : Bool) (n : Node) (s : State)
      → Good s
      → Ordered s
      → Ordered (visit_kind d k late n s)
  unfolding visit_kind visit_reset
  visit_kind-Ordered generic late n s g o = visit_generic-Ordered late n s o
  visit_kind-Ordered measure late n s g o = visit_measure-Ordered n s g o
  visit_kind-Ordered reset late n s g o =
      let s1 = record s { has_reset = true } in
      let s2 = visit_measure d n s1 in
      flags-Ordered s2.has_reset true s2 (
        visit_measure-Ordered n s1 (flags-Good true s.control_flow_block s g)
          (flags-Ordered true s.control_flow_block s o))

  visit_flat-Ordered :
      (late : Bool) (ns : List Node) (s : State)
      → Good s
      → Ordered s
      → Ordered (visit_circuit d late (flat ns) s)
  unfolding visit_circuit visit_node
  visit_flat-Ordered late [] s g o = flush_measures-Ordered s o
  visit_flat-Ordered late (n ∷ ns) s g o =
      visit_flat-Ordered late ns (visit_node d late n s) (visit_kind-Good d n.kind late n s g)
        (visit_kind-Ordered n.kind late n s g o)

  analyse-Ordered : (late : Bool) (ns : List Node) → Ordered (analyse d late (flat ns))
  unfolding analyse init_run begin_block flush_measures
  analyse-Ordered late ns =
      visit_flat-Ordered late ns (begin_block init_run) (begin_block-Good init_run init_run-Timed)
        (record { later = tt; blocks = tt; placed = tt; begun = omega arith })

  -- The nodes of a circuit without control flow are placed in blocks that do not go back, the first
  -- of them in block 1 or later, and none stops before it starts.
  pub analyse-flat :
      (late : Bool) (ns : List Node)
      → Pairs NotBefore (analyse d late (flat ns)).entries
        × All IsPlaced (analyse d late (flat ns)).entries
  analyse-flat late ns = ((analyse-Ordered late ns).later, (analyse-Ordered late ns).placed)
