-- ===== src/Transpiler/Schedule/Order.antt =====
-- The schedule of a whole circuit: what every visit keeps, and what holds at the end.
use qiskit_ibm_provider.Common.{
  ℕ, ◌+◌, ◌≤◌, ◌≡◌, max, sym, ◌∙◌, Bool, true, false, ◌&&◌, List, if◌then◌else◌, All, Pairs,
  All-weaken, Bool-cases, arith, true≢false, inl, inr,
}
use qiskit_ibm_provider.Transpiler.Schedule.{
  Kind, generic, measure, reset, Node, Circuit, done, op, control_flow, Blocks, no_block, block,
  Entry, State, is_current, latest, overlaps, flush_measures, begin_block, check_flush,
  wires_latest, add_at, visit_generic, group_start, visit_measure, visit_reset, visit_kind,
  visit_node, enter_control_flow, in_conditional, visit_circuit, visit_blocks, init_run, analyse,
}
use qiskit_ibm_provider.Transpiler.Schedule.Retime.{Apart, Tied}
use qiskit_ibm_provider.Transpiler.Schedule.Invariant.{
  Timed, Good, Clear, After, none_current, latest-mem, flush_measures-Good, begin_block-Good,
  add_entry-Timed, add_entry-Good,
}
use qiskit_ibm_provider.Transpiler.Schedule.Groups.{
  StartBy, group_start-StartBy, overlaps-Clear, flush_measures-Clear, begin_block-Clear,
  check_flush-Good, add_measure-Good,
}

pub flags-Good :
    (r c : Bool) (s : State) → Good s → Good (record s { has_reset = r; control_flow_block = c })
flags-Good r c s g = record {
  timed = record {
    apart = g.timed.apart;
    tied = g.timed.tied;
    covered = g.timed.covered;
    blocks = g.timed.blocks;
    groups = g.timed.groups;
    ends = g.timed.ends;
  };
  closed = g.closed;
  current = g.current;
}

After-wires_latest : (n : Node) (s : State) → After n (wires_latest n s) s
After-wires_latest n s q m = omega (arith, latest-mem s.qubit_times q n.qubits m)

add_at-Good : (n : Node) (s : State) → Good s → Clear n s → Good (add_at (wires_latest n s) n s)
add_at-Good n s g clear =
    let t0 = wires_latest n s in
    add_entry-Good n t0 (t0 + n.duration) s (omega arith) (After-wires_latest n s) clear g

unconditional-Good :
    (late : Bool) (s : State)
    → Good s
    → Good (if late && s.control_flow_block then begin_block s else s)
unconditional-Good late s g = elim (Bool-cases (late && s.control_flow_block)) [
  | inl c ↦ rw c (begin_block-Good s g.timed)
  | inr c ↦ rw c g
]

visit_generic-Good : (late : Bool) (n : Node) (s : State) → Good s → Good (visit_generic late n s)
unfolding visit_generic
visit_generic-Good late n s g =
    let s1 = if late && s.control_flow_block then begin_block s else s in
    let (good, clear) = check_flush-Good n s1 (unconditional-Good late s g) in
    add_at-Good n (check_flush n s1) good clear

StartBy-none : (g t : ℕ) (es : List Entry) → All (λ e. is_current g e ≡ false) es → StartBy g t es
StartBy-none g t es = All-weaken _ _ (λ e h c. absurd (true≢false (sym c ∙ h))) es

conditional-Timed : (s : State) → Timed s → Timed (in_conditional s)
conditional-Timed s t = record {
  apart = t.apart;
  tied = t.tied;
  covered = t.covered;
  blocks = t.blocks;
  groups = t.groups;
  ends = t.ends;
}

pub init_run-Timed : Timed (init_run)
unfolding init_run
init_run-Timed = record { apart = tt; tied = tt; covered = tt; blocks = tt; groups = tt; ends = tt }

module _ (d : ℕ → List ℕ → ℕ) where
  visit_measure-Good : (n : Node) (s : State) → Good s → Good (visit_measure d n s)
  unfolding visit_measure begin_block flush_measures
  visit_measure-Good n s g =
      let none = none_current s.group_no s.entries g.timed.groups in
      let after : After n (latest s.qubit_times n.qubits) s =
        λ q m. latest-mem s.qubit_times q n.qubits m in
      elim (Bool-cases (overlaps s.group_no s.entries n.qubits)) [
        | inl h ↦ rw h (elim (Bool-cases s.has_reset) [
          | inl r ↦ rw r (
              add_measure-Good d n 0 (begin_block s) (begin_block-Clear n s g.timed)
                (λ q m. omega arith) (StartBy-none _ _ s.entries none) (begin_block-Good s g.timed))
          | inr r ↦ rw r (
              add_measure-Good d n (latest s.qubit_times n.qubits) (flush_measures s)
                (flush_measures-Clear n s g.timed) after (StartBy-none _ _ s.entries none)
                (flush_measures-Good s g.timed))
        ])
        | inr h ↦
            let t0 = max (latest s.qubit_times n.qubits) (group_start s.group_no s.entries) in
            rw h (
              add_measure-Good d n t0 s (overlaps-Clear n s h)
                (λ q m. omega (arith, latest-mem s.qubit_times q n.qubits m))
                (group_start-StartBy s.group_no t0 s.entries (omega arith)) g)
      ]

  visit_reset-Good : (n : Node) (s : State) → Good s → Good (visit_reset d n s)
  unfolding visit_reset
  visit_reset-Good n s g =
      let s1 = record s { has_reset = true } in
      let s2 = visit_measure d n s1 in
      flags-Good s2.has_reset true s2
        (visit_measure-Good n s1 (flags-Good true s.control_flow_block s g))

  pub visit_kind-Good :
      (k : Kind) (late : Bool) (n : Node) (s : State) → Good s → Good (visit_kind d k late n s)
  unfolding visit_kind
  visit_kind-Good generic late n s g = visit_generic-Good late n s g
  visit_kind-Good measure late n s g = visit_measure-Good n s g
  visit_kind-Good reset late n s g = visit_reset-Good n s g

  mutual
    unfolding visit_circuit visit_node

    visit_circuit-Good :
        (late : Bool) (c : Circuit) (s : State) → Good s → Good (visit_circuit d late c s)
    visit_circuit-Good late done s g = flush_measures-Good s g.timed
    visit_circuit-Good late (op n c) s g =
        visit_circuit-Good late c (visit_node d late n s) (visit_kind-Good n.kind late n s g)
    visit_circuit-Good late (control_flow n bs c) s g =
        let t = wires_latest n s in
        let entered = add_entry-Timed n t t s (omega arith) (After-wires_latest n s) g.timed in
        let s1 = visit_blocks d late bs (enter_control_flow n s) in
        visit_circuit-Good late c (begin_block s1)
          (begin_block-Good s1 (visit_blocks-Timed late bs (enter_control_flow n s) entered))

    visit_blocks-Timed :
        (late : Bool) (bs : Blocks) (s : State) → Timed s → Timed (visit_blocks d late bs s)
    visit_blocks-Timed late no_block s t = t
    visit_blocks-Timed late (block c bs) s t =
        let s1 = begin_block (in_conditional s) in
        let good = begin_block-Good (in_conditional s) (conditional-Timed s t) in
        visit_blocks-Timed late bs (visit_circuit d late c s1)
          (visit_circuit-Good late c s1 good).timed

  analyse-Good : (late : Bool) (c : Circuit) → Good (analyse d late c)
  unfolding analyse
  analyse-Good late c =
      visit_circuit-Good late c (begin_block (init_run))
        (begin_block-Good (init_run) init_run-Timed)

  -- After all the visits of a circuit, two operations of one block that have a qubit in common do not
  -- overlap in time: the one that is visited later starts when the other has stopped, or after. This
  -- holds of both schedulers, before the late one pushes the operations to the ends of their blocks.
  pub operations-Apart : (late : Bool) (c : Circuit) → Pairs Apart (analyse d late c).entries
  operations-Apart late c = (analyse-Good late c).timed.apart

  -- The measurements and resets of one group stand in one block and start at the same time.
  pub measurements_together : (late : Bool) (c : Circuit) → Pairs Tied (analyse d late c).entries
  measurements_together late c = (analyse-Good late c).timed.tied

  -- No operation stops after the time that is kept as the end of its block.
  operations_before_block_end :
      (late : Bool) (c : Circuit)
      → All (λ e. e.stop ≤ (analyse d late c).max_block_t1 e.in_block) (analyse d late c).entries
  operations_before_block_end late c = (analyse-Good late c).timed.ends
