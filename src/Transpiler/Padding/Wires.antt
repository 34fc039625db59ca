-- ===== src/Transpiler/Padding/Wires.antt =====
-- A node keeps the invariant of the padding: its wires are filled up to its start.
use qiskit_ibm_provider.Common.{
  subst, ℕ, ◌+◌, ◌≤◌, ◌≡◌, ◌∙◌, refl, sym, ap, true, false, ◌&&◌, some, List, [], ◌∷◌, ◌==◌, arith,
  Bool-cases, inl, inr,
}
use qiskit_ibm_provider.Transpiler.Schedule.{mem}
use qiskit_ibm_provider.Transpiler.Padding.{Node, State, Pad, set_idle}
use qiskit_ibm_provider.Transpiler.Padding.Visits.{pad_between, pad_wires}
use qiskit_ibm_provider.Transpiler.Padding.Tiling.{
  tiled_end, IsFilling, IsDistinct, pad_between-tiled_end, pad_between-elsewhere, pad_between-frame,
}

module _ (pad : Pad) (filling : IsFilling pad) (n : Node) where
  abbrev first : ℕ → State → State
  first bit s = pad_between pad n.in_block bit n.start false s

  -- The state after the first wire of the loop.
  abbrev after : ℕ → State → State
  after bit s = record (first bit s) {
    idle_after = set_idle bit (n.start + n.duration) (first bit s).idle_after;
  }

  first-idle : (bit : ℕ) (s : State) → (first bit s).idle_after ≡ s.idle_after
  first-idle bit s =
      ap (λ (t : State). t.idle_after)
        (pad_between-frame pad filling n.in_block bit n.start false s)

  after-idle_other :
      (bit q : ℕ) (s : State) → (q == bit) ≡ false → (after bit s).idle_after q ≡ s.idle_after q
  unfolding set_idle
  after-idle_other bit q s h = rw h (ap (λ (f : ℕ → ℕ). f q) (first-idle bit s))

  after-idle_same : (bit : ℕ) (s : State) → (after bit s).idle_after bit ≡ n.start + n.duration
  unfolding set_idle
  after-idle_same bit s = ground arith

  -- The loop changes the operations and the idle times only.
  pub pad_wires-frame :
      (bits : List ℕ) (s : State)
      → pad_wires pad n bits s ≡ record s {
        added = (pad_wires pad n bits s).added;
        idle_after = (pad_wires pad n bits s).idle_after;
      }
  unfolding pad_wires
  pad_wires-frame [] s = refl
  pad_wires-frame (bit ∷ bits) s =
      let s2 = pad_wires pad n bits (after bit s) in
      pad_wires-frame bits (after bit s)
      ∙ ap (λ (t : State). record t { added = s2.added; idle_after = s2.idle_after })
          (pad_between-frame pad filling n.in_block bit n.start false s)

  pub pad_wires-elsewhere :
      (q b : ℕ) (bits : List ℕ) (s : State)
      → (n.in_block == b) && mem q bits ≡ false
      → tiled_end q b (pad_wires pad n bits s).added ≡ tiled_end q b s.added
  unfolding pad_wires
  pad_wires-elsewhere q b [] s h = refl
  pad_wires-elsewhere q b (bit ∷ bits) s h =
      pad_wires-elsewhere q b bits (after bit s) (ground arith)
      ∙ pad_between-elsewhere pad filling q b n.in_block bit n.start false s (ground arith)

  pub pad_wires-idle_other :
      (q : ℕ) (bits : List ℕ) (s : State)
      → mem q bits ≡ false
      → (pad_wires pad n bits s).idle_after q ≡ s.idle_after q
  unfolding pad_wires
  pad_wires-idle_other q [] s h = refl
  pad_wires-idle_other q (bit ∷ bits) s h =
      pad_wires-idle_other q bits (after bit s) (ground arith)
      ∙ after-idle_other bit q s (ground arith)

  pub pad_wires-idle_same :
      (q : ℕ) (bits : List ℕ) (s : State)
      → mem q bits ≡ true
      → (pad_wires pad n bits s).idle_after q ≡ n.start + n.duration
  unfolding pad_wires
  pad_wires-idle_same q [] s h = absurd cc
  pad_wires-idle_same q (bit ∷ bits) s h = elim (Bool-cases (mem q bits)) [
    | inl m ↦ pad_wires-idle_same q bits (after bit s) m
    | inr m ↦
        let same : q ≡ bit = ground arith in
        pad_wires-idle_other q bits (after bit s) m
        ∙ subst (λ r. (after bit s).idle_after r ≡ n.start + n.duration) (sym same)
            (after-idle_same bit s)
  ]

  abbrev Filled : ℕ → State → Type 0
  Filled q s =
      (tiled_end q n.in_block s.added ≡ some n.start) × (s.idle_after q ≡ n.start + n.duration)

  first_wire-Filled :
      (bit : ℕ) (bits : List ℕ) (s : State)
      → mem bit bits ≡ false
      → tiled_end bit n.in_block s.added ≡ some (s.idle_after bit)
      → s.idle_after bit ≤ n.start
      → Filled bit (pad_wires pad n bits (after bit s))
  first_wire-Filled bit bits s once h idle = (
    pad_wires-elsewhere bit n.in_block bits (after bit s) (ground (arith, once))
        ∙ pad_between-tiled_end pad filling n.in_block bit n.start false s h
        ∙ ap some (omega (arith, idle)),
    pad_wires-idle_other bit bits (after bit s) once ∙ after-idle_same bit s,
  )

  -- Each wire of the node is filled up to its start.
  pub pad_wires-Filled :
      (q : ℕ) (bits : List ℕ) (s : State)
      → IsDistinct bits
      → mem q bits ≡ true
      → tiled_end q n.in_block s.added ≡ some (s.idle_after q)
      → s.idle_after q ≤ n.start
      → Filled q (pad_wires pad n bits s)
  unfolding pad_wires
  pad_wires-Filled q [] s d m h idle = absurd cc
  pad_wires-Filled q (bit ∷ bits) s (once, d) m h idle = elim (Bool-cases (q == bit)) [
    | inl e ↦
        let same : q ≡ bit = ground arith in
        subst (λ r. Filled r (pad_wires pad n bits (after bit s))) (sym same)
          (first_wire-Filled bit bits s once
            (subst (λ r. tiled_end r n.in_block s.added ≡ some (s.idle_after r)) same h)
            (subst (λ r. s.idle_after r ≤ n.start) same idle))
    | inr e ↦
        let kept = after-idle_other bit q s e in
        let before =
          pad_between-elsewhere pad filling q n.in_block n.in_block bit n.start false s
            (ground arith) in
        pad_wires-Filled q bits (after bit s) d (ground (arith, m))
          (before ∙ h ∙ ap some (sym kept)) (omega (arith, kept, idle))
  ]
