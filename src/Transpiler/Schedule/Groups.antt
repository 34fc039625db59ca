-- ===== src/Transpiler/Schedule/Groups.antt =====
-- The invariant of the scheduling analysis, for the measurements that are grouped.
use qiskit_ibm_provider.Common.{
  subst, refl, some, ℕ, ◌+◌, ◌≤◌, ◌≡◌, sym, ◌∙◌, true, false, List, [], ◌∷◌, map, ◌==◌, All, Pairs,
  All-map, All-and, All-weaken, Pairs-map, Pairs-weaken, All-of_any, Bool-cases, arith, true≢false,
  inl, inr,
}
use qiskit_ibm_provider.Transpiler.Schedule.{
  Node, Entry, State, mem, intersects, is_group, is_current, overlaps, flush_measures, begin_block,
  check_flush, group_start, retime, retimed_end, add_measure,
}
use qiskit_ibm_provider.Transpiler.Schedule.Retime.{
  Apart, Closed, Movable, retime-still, retime-moved, Covered-retimed, Aparts-retime, Ties-retime,
}
use qiskit_ibm_provider.Transpiler.Schedule.Invariant.{
  none_current, GroupBelow, Timed, Good, Clear, After, flush_measures-Good, begin_block-Good,
  raise_time-le, raise_time-here,
}

intersects-shared :
    (q : ℕ) (qs rs : List ℕ) → mem q qs ≡ true → mem q rs ≡ true → intersects qs rs ≡ true
intersects-shared q [] rs m k = absurd cc
intersects-shared q (r ∷ qs) rs m k = elim (Bool-cases (q == r)) [
  | inl e ↦ let same : q ≡ r = ground arith in ground (arith, subst (λ x. mem x rs ≡ true) same k)
  | inr e ↦ let rest = intersects-shared q qs rs (ground arith) k in ground (arith, rest)
]

pub overlaps-Clear :
    (n : Node) (s : State) → overlaps s.group_no s.entries n.qubits ≡ false → Clear n s
unfolding overlaps
overlaps-Clear n s h =
    All-weaken _ _ (λ e k q m m'. ground (arith, intersects-shared q e.node.qubits n.qubits m' m))
      s.entries (All-of_any _ s.entries h)

none_current-Clear :
    (n : Node) (s : State) → All (λ e. is_current s.group_no e ≡ false) s.entries → Clear n s
none_current-Clear n s = All-weaken _ _ (λ e h q m m'. h) s.entries

pub flush_measures-Clear : (n : Node) (s : State) → Timed s → Clear n (flush_measures s)
unfolding flush_measures
flush_measures-Clear n s t =
    none_current-Clear n (flush_measures s) (none_current s.group_no s.entries t.groups)

pub begin_block-Clear : (n : Node) (s : State) → Timed s → Clear n (begin_block s)
unfolding begin_block flush_measures
begin_block-Clear n s t =
    none_current-Clear n (begin_block s) (none_current s.group_no s.entries t.groups)

pub check_flush-Good :
    (n : Node) (s : State) → Good s → Good (check_flush n s) × Clear n (check_flush n s)
unfolding check_flush
check_flush-Good n s g = elim (Bool-cases (overlaps s.group_no s.entries n.qubits)) [
  | inr h ↦ rw h (g, overlaps-Clear n s h)
  | inl h ↦ rw h (elim (Bool-cases s.has_reset) [
    | inl r ↦ rw r (begin_block-Good s g.timed, begin_block-Clear n s g.timed)
    | inr r ↦ rw r (flush_measures-Good s g.timed, flush_measures-Clear n s g.timed)
  ])
]

-- The current measurements start at `t` at the latest.
abbrev pub StartBy : ℕ → ℕ → List Entry → Type 0
StartBy g t es = All (λ e. is_current g e ≡ true → e.start ≤ t) es

pub group_start-StartBy : (g t : ℕ) (es : List Entry) → group_start g es ≤ t → StartBy g t es
unfolding group_start
group_start-StartBy g t [] h = tt
group_start-StartBy g t (e ∷ es) h = elim (Bool-cases (is_current g e)) [
  | inl c ↦ (λ _. ground arith, group_start-StartBy g t es (ground arith))
  | inr c ↦ (λ k. absurd (true≢false (sym k ∙ c)), group_start-StartBy g t es (ground arith))
]

module _ (d : ℕ → List ℕ → ℕ) where
  retimed_end-next :
      (g b t0 c : ℕ) (e : Entry) (es : List Entry) (times : ℕ → ℕ)
      → retimed_end d g b t0 es times c ≤ retimed_end d g b t0 (e ∷ es) times c
  unfolding retimed_end
  retimed_end-next g b t0 c e es times =
      let more = raise_time-le b (t0 + d b e.node.qubits) c (retimed_end d g b t0 es times) in
      ground (arith, more)

  retimed_end-le :
      (g b t0 c : ℕ) (es : List Entry) (times : ℕ → ℕ) → times c ≤ retimed_end d g b t0 es times c
  unfolding retimed_end
  retimed_end-le g b t0 c [] times = omega arith
  retimed_end-le g b t0 c (e ∷ es) times =
      omega (arith, retimed_end-le g b t0 c es times, retimed_end-next g b t0 c e es times)

  retimed_end-itself :
      (g b t0 : ℕ) (e : Entry) (es : List Entry) (times : ℕ → ℕ)
      → (is_current g e ≡ false → e.stop ≤ times e.in_block)
      → (retime d g b t0 e).stop ≤ retimed_end d g b t0 (e ∷ es) times (retime d g b t0 e).in_block
  unfolding retimed_end
  retimed_end-itself g b t0 e es times h = elim (Bool-cases (is_current g e)) [
    | inl c ↦
        let (block, _, stop) = retime-moved d g b t0 e c in
        rw (block, stop, c)
          (raise_time-here b (t0 + d b e.node.qubits) (retimed_end d g b t0 es times))
    | inr c ↦
        let (block, _, stop) = retime-still d g b t0 e c in
        rw (block, stop) (omega (arith, h c, retimed_end-le g b t0 e.in_block (e ∷ es) times))
  ]

  -- The times of the blocks cover the measurements that have moved.
  retimed_end-covers :
      (g b t0 : ℕ) (es : List Entry) (times : ℕ → ℕ)
      → All (λ e. is_current g e ≡ false → e.stop ≤ times e.in_block) es
      → All (λ e. e.stop ≤ retimed_end d g b t0 es times e.in_block) (map (retime d g b t0) es)
  retimed_end-covers g b t0 [] times h = tt
  retimed_end-covers g b t0 (e ∷ es) times (h, hs) = (
    retimed_end-itself g b t0 e es times h,
    All-weaken _ _ (λ e' k. omega (arith, k, retimed_end-next g b t0 e'.in_block e es times))
        (map (retime d g b t0) es) (retimed_end-covers g b t0 es times hs),
  )

  retime-blocks :
      (g b t0 : ℕ) (es : List Entry)
      → All (λ e. e.in_block ≤ b) es
      → All (λ e. e.in_block ≤ b) (map (retime d g b t0) es)
  unfolding retime
  retime-blocks g b t0 es = All-map _ (retime d g b t0) (λ e le. ground arith) es

  -- The entries with the new measurement, before it is moved to its time.
  abbrev joined : Node → ℕ → State → List Entry
  joined n t0 s =
      record { node = n; in_block = s.block_idx; start = t0; stop = t0; group = some s.group_no }
      ∷ s.entries

  joined-Movable :
      (n : Node) (t0 : ℕ) (s : State)
      → StartBy s.group_no t0 s.entries
      → Good s
      → All (Movable d s.group_no s.block_idx t0) (joined n t0 s)
  joined-Movable n t0 s early g = (
    λ _. (refl, omega arith),
    All-weaken _ _ (λ e (h, k) c. (k c, h c)) s.entries (All-and _ _ s.entries early g.current),
  )

  joined-Apart :
      (n : Node) (t0 : ℕ) (s : State) → After n t0 s → Good s → Pairs Apart (joined n t0 s)
  joined-Apart n t0 s after g = (
    All-weaken _ _ (λ e cover q m m' same. omega (arith, after q m, cover q m' (sym same)))
        s.entries g.timed.covered,
    g.timed.apart,
  )

  is_group-itself : {A : Type 0} (g : ℕ) → is_group g (some g) ≡ false → A
  is_group-itself g h = absurd (true≢false (ground arith))

  retime-groups :
      (g b t0 h : ℕ) (es : List Entry)
      → All (GroupBelow h) es
      → All (GroupBelow h) (map (retime d g b t0) es)
  unfolding retime
  retime-groups g b t0 h es = All-map (GroupBelow h) (retime d g b t0) (λ e below. below) es

  retime-Closed :
      (g b t0 : ℕ) (es : List Entry)
      → All (Movable d g b t0) es
      → Pairs (Closed g) es
      → Pairs (Closed g) (map (retime d g b t0) es)
  unfolding retime
  retime-Closed g b t0 es = Pairs-map _ _ (Closed g) (retime d g b t0) (λ e e' _ _ k. k) es

  retime-current :
      (g b t0 : ℕ) (es : List Entry)
      → All (λ e. is_current g e ≡ true → e.in_block ≡ b) (map (retime d g b t0) es)
  unfolding retime
  retime-current g b t0 [] = tt
  retime-current g b t0 (e ∷ es) = (λ c. rw c refl, retime-current g b t0 es)

  pub add_measure-Good :
      (n : Node) (t0 : ℕ) (s : State)
      → Clear n s
      → After n t0 s
      → StartBy s.group_no t0 s.entries
      → Good s
      → Good (add_measure d n t0 s)
  unfolding add_measure
  add_measure-Good n t0 s clear after early g =
      let es = joined n t0 s in
      let movable = joined-Movable n t0 s early g in
      let apart = joined-Apart n t0 s after g in
      let closed : Pairs (Closed s.group_no) es = (clear, g.closed) in
      record {
        timed = record {
          apart = Aparts-retime d s.group_no s.block_idx t0 es movable closed apart;
          tied = Ties-retime d s.group_no s.block_idx t0 es movable (
            All-weaken _ _ (λ e _ h. is_group-itself s.group_no h) s.entries early,
            Pairs-weaken _ _ (λ e e' h _. h) s.entries g.timed.tied,
          );
          covered =
              Covered-retimed d s.group_no s.block_idx t0 es s.qubit_times closed apart movable (
                λ h. is_group-itself s.group_no h,
                All-weaken _ _ (λ e h _. h) s.entries g.timed.covered,
              );
          blocks = retime-blocks s.group_no s.block_idx t0 es (omega arith, g.timed.blocks);
          groups =
              retime-groups s.group_no s.block_idx t0 s.group_no es
                (λ h k. ground arith, g.timed.groups);
          ends = retimed_end-covers s.group_no s.block_idx t0 es s.max_block_t1 (
            λ h. is_group-itself s.group_no h,
            All-weaken _ _ (λ e h _. h) s.entries g.timed.ends,
          );
        };
        closed = retime-Closed s.group_no s.block_idx t0 es movable closed;
        current = retime-current s.group_no s.block_idx t0 es;
      }
