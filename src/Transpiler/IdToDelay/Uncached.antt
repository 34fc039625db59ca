-- ===== src/Transpiler/IdToDelay/Uncached.antt =====
-- The pass without its cache.
use qiskit_ibm_provider.Common.{
  ℕ, ◌≡◌, ◌∙◌, refl, sym, ap, ◌==◌, ◌||◌, Bool, true, false, none, some, if◌then◌else◌, arith,
  Bool-cases, Option-cases, inl, inr, true≢false,
}
use qiskit_ibm_provider.Transpiler.IdToDelay.{
  identity, delay, other, Circuit, done, op, control_flow, Blocks, no_block, block, Cache,
  put_cached, cached_time, get_duration, run_inner, run_blocks, run,
}

-- A circuit has an identity gate outside its control-flow operations.
mutual
  pub has_identity : Circuit → Bool
  has_identity done = false
  has_identity (op (identity q) c) = true
  has_identity (op (delay t q) c) = has_identity c
  has_identity (op (other g) c) = has_identity c
  has_identity (control_flow bs c) = has_identity c

  pub some_identity : Blocks → Bool
  some_identity no_block = false
  some_identity (block c bs) = has_identity c || some_identity bs

module _ (durations : ℕ → ℕ) where
  -- Identity gates become delays of the duration of their qubit; the blocks of a control-flow operation
  -- are replaced when one of them has an identity gate of its own, and else they stay as they are.
  mutual
    unfolding has_identity

    pub converted : Circuit → Circuit
    converted done = done
    converted (op (identity q) c) = op (delay (durations q) q) (converted c)
    converted (op (delay t q) c) = op (delay t q) (converted c)
    converted (op (other g) c) = op (other g) (converted c)
    converted (control_flow bs c) =
        let new = converted_blocks bs in
        control_flow (if some_identity bs then new else bs) (converted c)

    pub converted_blocks : Blocks → Blocks
    converted_blocks no_block = no_block
    converted_blocks (block c bs) = block (converted c) (converted_blocks bs)

  -- What is cached is what would be asked for.
  abbrev IsCorrect : Cache → Type 0
  IsCorrect cached = (q t : ℕ) → cached q ≡ some t → t ≡ durations q

  put_cached-IsCorrect :
      (q : ℕ) (cached : Cache) → IsCorrect cached → IsCorrect (put_cached q (durations q) cached)
  unfolding put_cached
  put_cached-IsCorrect q cached h r t k = elim (Bool-cases (r == q)) [
    | inl e ↦
        let same : r ≡ q = ground arith in
        let found : durations q ≡ t = ground arith in sym found ∙ ap durations (sym same)
    | inr e ↦ h r t (ground arith)
  ]

  get_duration-IsCorrect :
      (q : ℕ) (cached : Cache)
      → IsCorrect cached
      → ((get_duration durations q cached).0 ≡ durations q)
        × IsCorrect (get_duration durations q cached).1
  unfolding get_duration
  get_duration-IsCorrect q cached h = elim (Bool-cases (cached_time (cached q) == 0)) [
    | inl z ↦ rw z (refl, put_cached-IsCorrect q cached h)
    | inr z ↦ rw z (elim (Option-cases (cached q)) [
      | inl n ↦ absurd (true≢false (sym (ap (λ o. cached_time o == 0) n) ∙ z))
      | inr (t, k) ↦ (ap cached_time k ∙ h q t k, h)
    ])
  ]

  -- A run answers what the definitions without a cache say, and leaves a cache of such durations.
  abbrev Agree : {A : Type 0} → Bool × A × Cache → Bool → A → Type 0
  Agree r b a = (r.0 ≡ b) × (r.1 ≡ a) × IsCorrect r.2

  mutual
    unfolding run_inner converted has_identity

    run_inner-Agree :
        (c : Circuit) (cached : Cache)
        → IsCorrect cached
        → Agree (run_inner durations c cached) (has_identity c) (converted c)
    run_inner-Agree done cached h = (refl, refl, h)
    run_inner-Agree (op (identity q) c) cached h =
        let (time, kept) = get_duration-IsCorrect q cached h in
        let (_, rest, true_rest) = run_inner-Agree c (get_duration durations q cached).1 kept in
        (
          refl,
          ap (λ t. op (delay t q) (run_inner durations c (get_duration durations q cached).1).1)
                time
              ∙ ap (op (delay (durations q) q)) rest,
          true_rest,
        )
    run_inner-Agree (op (delay t q) c) cached h =
        let (m, rest, true_rest) = run_inner-Agree c cached h in
        (m, ap (op (delay t q)) rest, true_rest)
    run_inner-Agree (op (other g) c) cached h =
        let (m, rest, true_rest) = run_inner-Agree c cached h in
        (m, ap (op (other g)) rest, true_rest)
    run_inner-Agree (control_flow bs c) cached h =
        let (m, new, kept) = run_blocks-Agree bs cached h in
        let blocks = run_blocks durations bs cached in
        let (n, rest, true_rest) = run_inner-Agree c blocks.2 kept in
        (
          n,
          ap (λ b. control_flow (if b then blocks.1 else bs) (run_inner durations c blocks.2).1) m
              ∙ ap
                  (λ ds.
                    control_flow (if some_identity bs then ds else bs)
                      (run_inner durations c blocks.2).1)
                  new
              ∙ ap (control_flow (if some_identity bs then converted_blocks bs else bs)) rest,
          true_rest,
        )

    run_blocks-Agree :
        (bs : Blocks) (cached : Cache)
        → IsCorrect cached
        → Agree (run_blocks durations bs cached) (some_identity bs) (converted_blocks bs)
    run_blocks-Agree no_block cached h = (refl, refl, h)
    run_blocks-Agree (block c bs) cached h =
        let (m, new, kept) = run_inner-Agree c cached h in
        let first = run_inner durations c cached in
        let (n, news, true_rest) = run_blocks-Agree bs first.2 kept in
        let others = run_blocks durations bs first.2 in
        (
          ap (λ b. b || others.0) m ∙ ap (λ b. has_identity c || b) n,
          ap (λ d. block d others.1) new ∙ ap (block (converted c)) news,
          true_rest,
        )

  -- The pass with its cache answers what it answers without: each identity gate becomes a delay of the
  -- duration that the table has for the index of its qubit in the circuit in which the gate stands,
  -- which is not the qubit of the device inside a block; and the blocks of a control-flow operation are replaced when one of them has
  -- an identity gate outside further control flow; when none has, they stay as they are.
  pub run-converted : (c : Circuit) → run durations c ≡ converted c
  unfolding run
  run-converted c = (run_inner-Agree c (λ q. none) (λ q t h. absurd cc)).1
