-- ===== src/Transpiler/Padding/Ends.antt =====
-- The invariant of the padding, and the end of a block.
use qiskit_ibm_provider.Common.{
  subst, ℕ, ◌≤◌, ◌<◌, ◌≡◌, ◌∙◌, ◌⊎◌, refl, sym, ap, max, Bool, true, false, ◌&&◌, ◌||◌, Option,
  some, List, [], ◌∷◌, ◌==◌, ltb, arith, Bool-cases, inl, inr, true≢false,
}
use qiskit_ibm_provider.Transpiler.Schedule.{mem}
use qiskit_ibm_provider.Transpiler.Padding.{
  Origin, end_barrier, Last, Touch, Node, Added, State, Pad, apply_scheduled_op, needs_barrier,
  add_terminating_barrier, last_of_node,
}
use qiskit_ibm_provider.Transpiler.Padding.Visits.{
  pad_between, pad_until_block_end, terminate_block, enter_block, begin_node,
}
use qiskit_ibm_provider.Transpiler.Padding.Tiling.{
  takes_time, tiled_end, tiled_end-skip, IsFilling, IsDistinct, pad_until_block_end-frame,
  pad_until_block_end-elsewhere, pad_until_block_end-tiled_end,
}

-- The operations of each wire in each block follow each other without a gap. While a block is open,
-- each wire has been filled up to the time after which it is idle; when it has been ended, that time
-- is 0 again.
pub record Padded (running_block : Bool) (s : State) : Type 0 where
  pub tiled : (q b : ℕ) → (t : ℕ) × (tiled_end q b s.added ≡ some t)
  pub fresh : (q b : ℕ) → s.current_block_idx < b → tiled_end q b s.added ≡ some 0
  pub distinct : IsDistinct s.dag_qubits
  pub running :
      running_block ≡ true
      → (q : ℕ)
      → (tiled_end q s.current_block_idx s.added ≡ some (s.idle_after q))
        × (s.idle_after q ≤ s.block_duration)
  pub ended : running_block ≡ false → (s.block_duration ≡ 0) × ((q : ℕ) → s.idle_after q ≡ 0)

-- What the invariant does not read may change.
pub Padded-other :
    (o : Bool) (s : State) (c : Bool) (p : Option Last) (l : ℕ → Option Touch) (d : ℕ → Bool)
    (dag count : ℕ)
    → Padded o s
    → Padded o (record s {
      conditional_block = c;
      prev_node = p;
      last_node_to_touch = l;
      dirty_qubits = d;
      block_dag = dag;
      dag_count = count;
    })
Padded-other o s c p l d dag count g = record {
  tiled = g.tiled;
  fresh = g.fresh;
  distinct = g.distinct;
  running = g.running;
  ended = g.ended;
}

pub with_prev-Padded :
    (o : Bool) (p : Option Last) (s : State) → Padded o s → Padded o (record s { prev_node = p })
with_prev-Padded o p s g =
    Padded-other o s s.conditional_block p s.last_node_to_touch s.dirty_qubits s.block_dag
      s.dag_count g

pub untimed-Padded :
    (o : Bool) (origin : Origin) (block_idx t : ℕ) (qubits : List ℕ) (s : State)
    → takes_time origin ≡ false
    → Padded o s
    → Padded o (apply_scheduled_op origin block_idx t 0 qubits s)
unfolding apply_scheduled_op
untimed-Padded o origin block_idx t qubits s h g =
    let a : Added = record {
      origin = origin;
      dag = s.block_dag;
      in_block = block_idx;
      start = t;
      duration = 0;
      qubits = qubits;
    } in
    let skip = λ (q b : ℕ). tiled_end-skip q b a s.added (rw h refl) in
    record {
      tiled = λ q b. ((g.tiled q b).0, skip q b ∙ (g.tiled q b).1);
      fresh = λ q b less. skip q b ∙ g.fresh q b less;
      distinct = g.distinct;
      running = λ e q. (skip q s.current_block_idx ∙ (g.running e q).0, (g.running e q).1);
      ended = g.ended;
    }

pub barrier-Padded :
    (o : Bool) (block_idx t : ℕ) (l : Last) (force : Bool) (s : State)
    → Padded o s
    → Padded o (add_terminating_barrier block_idx t l force s)
unfolding add_terminating_barrier
barrier-Padded o block_idx t l force s g =
    elim (Bool-cases (force || needs_barrier s.prev_node l s)) [
      | inl h ↦ rw h (untimed-Padded o end_barrier block_idx t s.dag_qubits s refl g)
      | inr h ↦ rw h g
    ]

pub barrier-current :
    (block_idx t : ℕ) (l : Last) (force : Bool) (s : State)
    → (add_terminating_barrier block_idx t l force s).current_block_idx ≡ s.current_block_idx
unfolding add_terminating_barrier apply_scheduled_op
barrier-current block_idx t l force s = elim (Bool-cases (force || needs_barrier s.prev_node l s)) [
  | inl h ↦ rw h refl
  | inr h ↦ rw h refl
]

-- The time of a node fits: it is in a later block, or it is in the open block and starts when its
-- wires are idle. No wire comes twice in it.
pub record Fits (o : Bool) (n : Node) (s : State) : Type 0 where
  pub fits_time :
      (s.current_block_idx < n.in_block)
      ⊎ ((n.in_block ≡ s.current_block_idx)
          × (o ≡ true)
          × ((q : ℕ) → mem q n.qubits ≡ true → s.idle_after q ≤ n.start))
  pub fits_wires : IsDistinct n.qubits

abbrev pub Idle : Node → State → Type 0
Idle n s = (q : ℕ) → mem q n.qubits ≡ true → s.idle_after q ≤ n.start

module _ (pad : Pad) (filling : IsFilling pad) where
  terminate_block-frame :
      (t_end block_idx : ℕ) (s : State)
      → terminate_block pad t_end block_idx s ≡ record s {
        block_duration = 0;
        idle_after = λ bit. 0;
        added = (pad_until_block_end pad t_end block_idx s.dag_qubits s).added;
      }
  unfolding terminate_block
  terminate_block-frame t_end block_idx s =
      ap (λ (t : State). record t { block_duration = 0; idle_after = λ bit. 0 })
        (pad_until_block_end-frame pad filling t_end block_idx s.dag_qubits s)

  -- The end of an open block: each of its wires is filled up to the time, and the others are left.
  pub terminate_block-running :
      (t_end : ℕ) (s : State)
      → Padded true s
      → Padded false (terminate_block pad t_end s.current_block_idx s)
  terminate_block-running t_end s g =
      let elsewhere = λ (q b : ℕ).
        pad_until_block_end-elsewhere pad filling q b t_end s.current_block_idx s.dag_qubits s in
      subst (Padded false) (sym (terminate_block-frame t_end s.current_block_idx s)) (record {
        tiled = λ q b. elim (Bool-cases ((s.current_block_idx == b) && mem q s.dag_qubits)) [
          | inl h ↦
              let here : s.current_block_idx ≡ b = ground arith in
              let m : mem q s.dag_qubits ≡ true = ground (arith, h) in
              (
                max (s.idle_after q) t_end,
                subst
                    (λ c.
                      tiled_end q c
                        (pad_until_block_end pad t_end s.current_block_idx s.dag_qubits s).added
                      ≡ some (max (s.idle_after q) t_end))
                    here
                    (pad_until_block_end-tiled_end pad filling q t_end s.current_block_idx
                      s.dag_qubits s g.distinct m (g.running refl q).0),
              )
          | inr h ↦ ((g.tiled q b).0, elsewhere q b h ∙ (g.tiled q b).1)
        ];
        fresh = λ q b less. elsewhere q b (ground arith) ∙ g.fresh q b less;
        distinct = g.distinct;
        running = λ h. absurd (true≢false (sym h));
        ended = λ h. (refl, λ q. refl);
      })

  pad_until_zero :
      (block_idx : ℕ) (bits : List ℕ) (s : State) → pad_until_block_end pad 0 block_idx bits s ≡ s
  unfolding pad_until_block_end pad_between
  pad_until_zero block_idx [] s = refl
  pad_until_zero block_idx (bit ∷ bits) s =
      let no_time : ltb (s.idle_after bit) 0 ≡ false = ground arith in
      rw no_time (pad_until_zero block_idx bits s)

  pub terminate_block-ended :
      (t_end block_idx : ℕ) (s : State)
      → t_end ≡ 0
      → Padded false s
      → Padded false (terminate_block pad t_end block_idx s)
  unfolding terminate_block
  terminate_block-ended t_end block_idx s zero_time g =
      rw (zero_time, pad_until_zero block_idx s.dag_qubits s)
        (record {
          tiled = g.tiled;
          fresh = g.fresh;
          distinct = g.distinct;
          running = λ h. absurd (true≢false (sym h));
          ended = λ h. (refl, λ q. refl);
        })

  -- A block is ended at its duration, whether it is open or has been ended before.
  pub block_end-Padded :
      (o : Bool) (s : State)
      → Padded o s
      → Padded false (terminate_block pad s.block_duration s.current_block_idx s)
  block_end-Padded true s g = terminate_block-running s.block_duration s g
  block_end-Padded false s g =
      terminate_block-ended s.block_duration s.current_block_idx s (g.ended refl).0 g

  later-Padded :
      (o : Bool) (n : Node) (s : State)
      → s.current_block_idx < n.in_block
      → Padded o s
      → Padded true (begin_node pad n s) × Idle n (begin_node pad n s)
  unfolding begin_node enter_block
  later-Padded o n s less g =
      let yes : ltb s.current_block_idx n.in_block ≡ true = ground arith in
      let s1 = terminate_block pad s.block_duration s.current_block_idx s in
      let g1 = block_end-Padded o s g in
      let s2 = add_terminating_barrier n.in_block n.start (last_of_node n) false s1 in
      let g2 = barrier-Padded false n.in_block n.start (last_of_node n) false s1 g1 in
      let current : s2.current_block_idx ≡ s.current_block_idx =
        barrier-current n.in_block n.start (last_of_node n) false s1
        ∙ ap (λ (t : State). t.current_block_idx)
            (terminate_block-frame s.block_duration s.current_block_idx s) in
      let idle = (g2.ended refl).1 in
      rw yes (
        record {
          tiled = g2.tiled;
          fresh = λ q b more. g2.fresh q b (omega (arith, current));
          distinct = g2.distinct;
          running = λ h q. (
            g2.fresh q n.in_block (omega (arith, current)) ∙ ap some (sym (idle q)),
            omega (arith, idle q),
          );
          ended = λ h. absurd (true≢false h);
        },
        λ q m. omega (arith, idle q),
      )

  same-Padded :
      (n : Node) (s : State)
      → n.in_block ≡ s.current_block_idx
      → Idle n s
      → Padded true s
      → Padded true (begin_node pad n s) × Idle n (begin_node pad n s)
  unfolding begin_node enter_block
  same-Padded n s same idle g =
      let no : ltb s.current_block_idx n.in_block ≡ false = ground arith in
      rw no (
        record {
          tiled = g.tiled;
          fresh = λ q b less. g.fresh q b (omega arith);
          distinct = g.distinct;
          running = λ h q. (
            subst (λ c. tiled_end q c s.added ≡ some (s.idle_after q)) (sym same)
                (g.running refl q).0,
            omega (arith, (g.running refl q).1),
          );
          ended = λ h. absurd (true≢false h);
        },
        idle,
      )

  pub begin_node-Padded :
      (o : Bool) (n : Node) (s : State)
      → Fits o n s
      → Padded o s
      → Padded true (begin_node pad n s) × Idle n (begin_node pad n s)
  begin_node-Padded o n s f g = elim f.fits_time [
    | inl less ↦ later-Padded o n s less g
    | inr (same, is_open, idle) ↦ same-Padded n s same idle (subst (λ b. Padded b s) is_open g)
  ]

  -- At the end of an open block, each wire of the circuit is filled exactly up to the duration of the
  -- block.
  block_end-filled :
      (q : ℕ) (s : State)
      → Padded true s
      → mem q s.dag_qubits ≡ true
      → tiled_end q s.current_block_idx
          (terminate_block pad s.block_duration s.current_block_idx s).added
        ≡ some s.block_duration
  unfolding terminate_block
  block_end-filled q s g m =
      pad_until_block_end-tiled_end pad filling q s.block_duration s.current_block_idx s.dag_qubits
        s g.distinct m (g.running refl q).0
      ∙ ap some (omega (arith, (g.running refl q).1))
