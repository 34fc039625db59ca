-- ===== src/Transpiler/Padding/Scheduled.antt =====
-- The two passes together: a circuit without control flow that
-- qiskit_ibm_provider/transpiler/passes/scheduling/scheduler.py has scheduled is padded by
-- qiskit_ibm_provider/transpiler/passes/scheduling/block_base_padder.py.
use qiskit_ibm_provider.Common.{
  ℕ, ◌-◌, ◌≤◌, ◌≡◌, sym, subst, Bool, false, some, List, [], ◌∷◌, All, Pairs, All-weaken, All-and,
  arith, inl, map,
}
use qiskit_ibm_provider.Transpiler.Schedule
use qiskit_ibm_provider.Transpiler.Schedule.{Entry, mem, analyse}
use qiskit_ibm_provider.Transpiler.Schedule.Complete.{nodes_onto, scheduled-analyse}
use qiskit_ibm_provider.Transpiler.Schedule.Retime.{Apart}
use qiskit_ibm_provider.Transpiler.Schedule.Order.{operations-Apart}
use qiskit_ibm_provider.Transpiler.Schedule.Flat.{flat, NotBefore, IsPlaced, analyse-flat}
use qiskit_ibm_provider.Transpiler.Padding.{Kind, Node, Circuit, Pad}
use qiskit_ibm_provider.Transpiler.Padding.Visits.{begin_dag, init_run, run}
use qiskit_ibm_provider.Transpiler.Padding.Tiling.{tiled_end, IsDistinct, IsFilling}
use qiskit_ibm_provider.Transpiler.Padding.Ends.{Fits}
use qiskit_ibm_provider.Transpiler.Padding.Run.{FitsCircuit, run-tiled}
use qiskit_ibm_provider.Transpiler.Padding.Sequence.{After, circuit_of, circuit_of-FitsCircuit}

-- What the padding asks of an operation that the schedule has not.
abbrev pub Label : Type 0
Label = Entry → Kind × Bool

-- The node that the padding finds for an entry of the schedule. Its duration is the time between the
-- start and the stop that the schedule has.
abbrev pub timed : Label → Entry → Node
timed label e = record {
  kind = (label e).0;
  conditional = (label e).1;
  qubits = e.node.qubits;
  clbits = e.node.clbits;
  in_block = e.in_block;
  start = e.start;
  duration = e.stop - e.start;
}

-- The nodes of the entries, of which the newest comes first, in the order of the visits.
abbrev pub timed_onto : Label → List Entry → List Node → List Node
timed_onto label [] ns = ns
timed_onto label (e ∷ es) ns = timed_onto label es (timed label e ∷ ns)

timed_onto-All :
    (P : Node → Type 0) (label : Label) (es : List Entry) (ns : List Node)
    → All (λ e. P (timed label e)) es
    → All P ns
    → All P (timed_onto label es ns)
timed_onto-All P label [] ns ps qs = qs
timed_onto-All P label (e ∷ es) ns (p, ps) qs =
    timed_onto-All P label es (timed label e ∷ ns) ps (p, qs)

-- The newer entry `e` may be visited after `e'`.
abbrev Newer : Label → Entry → Entry → Type 0
Newer label e e' = After (timed label e') (timed label e)

timed_onto-After :
    (label : Label) (es : List Entry) (ns : List Node)
    → Pairs (Newer label) es
    → Pairs After ns
    → All (λ e. All (After (timed label e)) ns) es
    → Pairs After (timed_onto label es ns)
timed_onto-After label [] ns ps qs rs = qs
timed_onto-After label (e ∷ es) ns (p, ps) qs (r, rs) =
    timed_onto-After label es (timed label e ∷ ns) ps (r, qs) (All-and _ _ es p rs)

entry-Newer :
    (label : Label) (e e' : Entry) → IsPlaced e' → NotBefore e e' → Apart e e' → Newer label e e'
entry-Newer label e e' (_, le) not_before apart = (
  not_before,
  λ q m m' same. let sep : e'.stop ≤ e.start = apart q m' m (sym same) in omega (arith, le, sep),
)

entries-Newer :
    (label : Label) (es : List Entry)
    → All IsPlaced es
    → Pairs NotBefore es
    → Pairs Apart es
    → Pairs (Newer label) es
entries-Newer label [] ps ns aps = tt
entries-Newer label (e ∷ es) (p, ps) (n, ns) (a, aps) = (
  All-weaken _ _
      (λ e' (placed, (not_before, apart)). entry-Newer label e e' placed not_before apart) es
      (All-and _ _ es ps (All-and _ _ es n a)),
  entries-Newer label es ps ns aps,
)

All-nodes_onto :
    (P : Schedule.Node → Type 0) (ns ms : List Schedule.Node)
    → All P ns
    → All P ms
    → All P (nodes_onto (flat ns) ms)
unfolding nodes_onto
All-nodes_onto P [] ms ps qs = qs
All-nodes_onto P (n ∷ ns) ms (p, ps) qs = All-nodes_onto P ns (n ∷ ms) ps (p, qs)

All-of_map :
    {A B : Type 0} (P : B → Type 0) (f : A → B) (xs : List A)
    → All P (map f xs)
    → All (λ x. P (f x)) xs
All-of_map P f [] ps = tt
All-of_map P f (x ∷ xs) (p, ps) = (p, All-of_map P f xs ps)

module _ (pad : Pad) (filling : IsFilling pad) (d : ℕ → List ℕ → ℕ) (label : Label) where
  -- The operations that the schedule of a circuit without control flow has, in the order of the visits.
  abbrev pub scheduled_ops : List Schedule.Node → Circuit
  scheduled_ops ns = circuit_of (timed_onto label (analyse d false (flat ns)).entries [])

  entries-IsDistinct :
      (ns : List Schedule.Node)
      → All (λ n. IsDistinct n.qubits) ns
      → All (λ e. IsDistinct e.node.qubits) (analyse d false (flat ns)).entries
  entries-IsDistinct ns ds =
      All-of_map (λ n. IsDistinct n.qubits) (λ e. e.node) (analyse d false (flat ns)).entries
        (subst (All (λ n. IsDistinct n.qubits)) (sym (scheduled-analyse d false (flat ns)))
          (All-nodes_onto (λ n. IsDistinct n.qubits) ns [] ds tt))

  scheduled-FitsCircuit :
      (root : List ℕ) (ns : List Schedule.Node)
      → All (λ n. IsDistinct n.qubits) ns
      → FitsCircuit pad root false (scheduled_ops ns) (begin_dag root (init_run root))
  unfolding init_run
  scheduled-FitsCircuit root ns ds =
      let es = (analyse d false (flat ns)).entries in
      let s0 = begin_dag root (init_run root) in
      let (later, placed) = analyse-flat d false ns in
      circuit_of-FitsCircuit pad filling root false (timed_onto label es []) s0
        (timed_onto-All (λ n. Fits false n s0) label es []
          (All-weaken _ _ (λ e ((first, _), ws). record { fits_time = inl first; fits_wires = ws })
            es (All-and _ _ es placed (entries-IsDistinct ns ds)))
          tt)
        (timed_onto-After label es []
          (entries-Newer label es placed later (operations-Apart d false (flat ns))) tt
          (All-weaken IsPlaced _ (λ e placed_e. tt) es placed))

  -- The padding of a circuit without control flow, with the blocks, times and durations that the early
  -- scheduler has given its nodes: the operations of each wire in each block follow each other, the
  -- first starts at 0 and each of the others when the one before ends. `_pad` fills the intervals that it is given, and no wire comes
  -- twice in the circuit or in a node.
  pub scheduled-tiled :
      (root : List ℕ) (ns : List Schedule.Node) (q b : ℕ)
      → IsDistinct root
      → All (λ n. IsDistinct n.qubits) ns
      → (t : ℕ) × (tiled_end q b (run pad root (scheduled_ops ns)).added ≡ some t)
  scheduled-tiled root ns q b wires ds =
      run-tiled pad filling root wires (scheduled_ops ns) q b (scheduled-FitsCircuit root ns ds)
