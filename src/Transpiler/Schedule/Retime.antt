-- ===== src/Transpiler/Schedule/Retime.antt =====
-- What the last loop of `_visit_measure` keeps true of the entries it does not move.
use qiskit_ibm_provider.Common.{
  ap, Pairs-map, Pairs-and, subst, true≢false, refl, sym, ◌∙◌, ℕ, ◌+◌, ◌≤◌, ◌≡◌, true, false, some,
  List, [], ◌∷◌, map, All, Pairs, All-weaken, Bool-cases, arith, inl, inr,
}
use qiskit_ibm_provider.Transpiler.Schedule.{
  is_group, Entry, mem, is_current, set_times, retime, retimed,
}

-- The newer entry `e` starts after `e'` has stopped.
abbrev pub Apart : Entry → Entry → Type 0
Apart e e' =
    (q : ℕ)
    → mem q e.node.qubits ≡ true
    → mem q e'.node.qubits ≡ true
    → e.in_block ≡ e'.in_block
    → e'.stop ≤ e.start

-- Measurements of one group start at the same time of the same block.
abbrev pub Tied : Entry → Entry → Type 0
Tied e e' =
    (h : ℕ)
    → e.group ≡ some h
    → e'.group ≡ some h
    → (e.in_block ≡ e'.in_block) × (e.start ≡ e'.start)

-- No current measurement `e'` is older than an entry `e` of its qubits.
abbrev pub Closed : ℕ → Entry → Entry → Type 0
Closed g e e' =
    (q : ℕ) → mem q e.node.qubits ≡ true → mem q e'.node.qubits ≡ true → is_current g e' ≡ false

-- The times of the qubits of `e` are not before its stop.
abbrev pub Covered : ℕ → (ℕ → ℕ) → Entry → Type 0
Covered b times e = (q : ℕ) → mem q e.node.qubits ≡ true → e.in_block ≡ b → e.stop ≤ times q

module _ (d : ℕ → List ℕ → ℕ) (g b t0 : ℕ) where
  pub retime-still :
      (e : Entry)
      → is_current g e ≡ false
      → ((retime d g b t0 e).in_block ≡ e.in_block)
        × ((retime d g b t0 e).start ≡ e.start)
        × ((retime d g b t0 e).stop ≡ e.stop)
  unfolding retime
  retime-still e h = rw h (refl, refl, refl)

  pub retime-moved :
      (e : Entry)
      → is_current g e ≡ true
      → ((retime d g b t0 e).in_block ≡ b)
        × ((retime d g b t0 e).start ≡ t0)
        × ((retime d g b t0 e).stop ≡ t0 + d b e.node.qubits)
  unfolding retime
  retime-moved e h = rw h (refl, refl, refl)

  retimed_frame :
      (es : List Entry) (times : ℕ → ℕ) (q : ℕ)
      → All (λ e. mem q e.node.qubits ≡ true → is_current g e ≡ false) es
      → retimed d g b t0 es times q ≡ times q
  unfolding retimed set_times
  retimed_frame [] times q h = refl
  retimed_frame (e ∷ es) times q (h, hs) = elim (Bool-cases (is_current g e)) [
    | inr k ↦ rw k (retimed_frame es times q hs)
    | inl k ↦ rw k (elim (Bool-cases (mem q e.node.qubits)) [
      | inl m ↦ absurd (true≢false (sym k ∙ h m))
      | inr m ↦ rw m (retimed_frame es times q hs)
    ])
  ]

  -- A current measurement stands in this block and starts at `t0` at the latest.
  abbrev pub Movable : Entry → Type 0
  Movable e = is_current g e ≡ true → (e.in_block ≡ b) × (e.start ≤ t0)

  Covered-retime_under :
      (e e' : Entry) (times : ℕ → ℕ)
      → is_current g e ≡ true
      → Movable e
      → Closed g e e'
      → Apart e e'
      → Covered b times (retime d g b t0 e')
      → Covered b (set_times e.node.qubits (t0 + d b e.node.qubits) times) (retime d g b t0 e')
  unfolding retime set_times
  Covered-retime_under e e' times c m closed sep cover q mq same =
      elim (Bool-cases (mem q e.node.qubits)) [
        | inr k ↦ rw k (cover q mq same)
        | inl k ↦
            let (block, _, stop) = retime-still e' (closed q k mq) in
            let (here, early) = m c in
            rw k (omega (arith, early, stop, sep q k mq (here ∙ sym same ∙ block)))
      ]

  Covered-All_under :
      (e : Entry) (es : List Entry) (times : ℕ → ℕ)
      → is_current g e ≡ true
      → Movable e
      → All (Closed g e) es
      → All (Apart e) es
      → All (Covered b times) (map (retime d g b t0) es)
      → All
          (Covered b (set_times e.node.qubits (t0 + d b e.node.qubits) times))
          (map (retime d g b t0) es)
  Covered-All_under e [] times c m closed sep cover = tt
  Covered-All_under e (e' ∷ es) times c m (closed, closeds) (sep, seps) (cover, covers) = (
    Covered-retime_under e e' times c m closed sep cover,
    Covered-All_under e es times c m closeds seps covers,
  )

  retimed-moved :
      (e : Entry) (es : List Entry) (times : ℕ → ℕ)
      → is_current g e ≡ true
      → retimed d g b t0 (e ∷ es) times
        ≡ set_times e.node.qubits (t0 + d b e.node.qubits) (retimed d g b t0 es times)
  unfolding retimed
  retimed-moved e es times c = rw c refl

  retimed-still :
      (e : Entry) (es : List Entry) (times : ℕ → ℕ)
      → is_current g e ≡ false
      → retimed d g b t0 (e ∷ es) times ≡ retimed d g b t0 es times
  unfolding retimed
  retimed-still e es times c = rw c refl

  Covered-moved_itself :
      (e : Entry) (times : ℕ → ℕ)
      → is_current g e ≡ true
      → Covered b (set_times e.node.qubits (t0 + d b e.node.qubits) times) (retime d g b t0 e)
  unfolding set_times retime
  Covered-moved_itself e times c q m h = rw (c, m) (omega arith)

  Covered-still_itself :
      (e : Entry) (es : List Entry) (times : ℕ → ℕ)
      → is_current g e ≡ false
      → All (Closed g e) es
      → Covered b times e
      → Covered b (retimed d g b t0 es times) (retime d g b t0 e)
  unfolding retime
  Covered-still_itself e es times c closed cover q m h =
      let (block, _, stop) = retime-still e c in
      let frame = retimed_frame es times q (All-weaken _ _ (λ e' k. k q m) es closed) in
      omega (arith, stop, frame, cover q m (sym block ∙ h))

  -- After the measurements have moved, the times of the qubits still cover the entries.
  pub Covered-retimed :
      (es : List Entry) (times : ℕ → ℕ)
      → Pairs (Closed g) es
      → Pairs Apart es
      → All Movable es
      → All (λ e. is_current g e ≡ false → Covered b times e) es
      → All (Covered b (retimed d g b t0 es times)) (map (retime d g b t0) es)
  Covered-retimed [] times closed sep m cover = tt
  Covered-retimed (e ∷ es) times (closed, closeds) (sep, seps) (m, ms) (cover, covers) =
      let rest = Covered-retimed es times closeds seps ms covers in
      elim (Bool-cases (is_current g e)) [
        | inl c ↦
            subst (λ T. All (Covered b T) (map (retime d g b t0) (e ∷ es)))
              (sym (retimed-moved e es times c))
              (
                Covered-moved_itself e (retimed d g b t0 es times) c,
                Covered-All_under e es (retimed d g b t0 es times) c m closed sep rest,
              )
        | inr c ↦
            subst (λ T. All (Covered b T) (map (retime d g b t0) (e ∷ es)))
              (sym (retimed-still e es times c))
              (Covered-still_itself e es times c closed (cover c), rest)
      ]

  Apart-retime :
      (e e' : Entry)
      → Movable e
      → Movable e'
      → Closed g e e' × Apart e e'
      → Apart (retime d g b t0 e) (retime d g b t0 e')
  unfolding retime
  Apart-retime e e' m m' (closed, apart) q mq mq' same =
      let (block', _, stop') = retime-still e' (closed q mq mq') in
      elim (Bool-cases (is_current g e)) [
        | inl c ↦
            let (block, start, _) = retime-moved e c in
            let (here, early) = m c in
            omega (arith, start, stop', early, apart q mq mq' (here ∙ sym block ∙ same ∙ block'))
        | inr c ↦
            let (block, start, _) = retime-still e c in
            omega (arith, start, stop', apart q mq mq' (sym block ∙ same ∙ block'))
      ]

  Tied-retime :
      (e e' : Entry)
      → (is_current g e ≡ false → Tied e e')
      → Tied (retime d g b t0 e) (retime d g b t0 e')
  unfolding retime
  Tied-retime e e' tied h k k' = elim (Bool-cases (is_current g e)) [
    | inl c ↦
        let (block, start, _) = retime-moved e c in
        let (block', start', _) = retime-moved e' (ap (is_group g) (k' ∙ sym k) ∙ c) in
        (block ∙ sym block', start ∙ sym start')
    | inr c ↦
        let (block, start, _) = retime-still e c in
        let (block', start', _) = retime-still e' (ap (is_group g) (k' ∙ sym k) ∙ c) in
        (block ∙ (tied c h k k').0 ∙ sym block', start ∙ (tied c h k k').1 ∙ sym start')
  ]

  pub Aparts-retime :
      (es : List Entry)
      → All Movable es
      → Pairs (Closed g) es
      → Pairs Apart es
      → Pairs Apart (map (retime d g b t0) es)
  Aparts-retime es m closed apart =
      Pairs-map Movable _ Apart (retime d g b t0) Apart-retime es m
        (Pairs-and (Closed g) Apart es closed apart)

  pub Ties-retime :
      (es : List Entry)
      → All Movable es
      → Pairs (λ e e'. is_current g e ≡ false → Tied e e') es
      → Pairs Tied (map (retime d g b t0) es)
  Ties-retime es m tied =
      Pairs-map Movable _ Tied (retime d g b t0) (λ e e' _ _. Tied-retime e e') es m tied
