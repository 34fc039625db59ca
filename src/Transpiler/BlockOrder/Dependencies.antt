-- ===== src/Transpiler/BlockOrder/Dependencies.antt =====
-- `block_order_op_nodes` yields no node before one that it depends on.
use qiskit_ibm_provider.Common.{
  ℕ, zero, suc, ◌≡◌, refl, sym, ◌∙◌, Bool, true, false, ◌||◌, not, List, [], ◌∷◌, ◌++◌, length, All,
  Pairs, All-weaken, All-and, true≢false, arith, Bool-cases, inl, inr,
}
use qiskit_ibm_provider.Common.Relations.{
  All-prefix, All-append, Pairs-append, All-filter, All-filtered, Pairs-filter,
}
use qiskit_ibm_provider.Transpiler.Schedule.{mem}
use qiskit_ibm_provider.Transpiler.BlockOrder.{
  Round, sort_nodes, emit, is_early, block_break, early, pushed, yielded, order_rounds,
  block_order_op_nodes,
}
use qiskit_ibm_provider.Transpiler.BlockOrder.Rounds.{
  nothing, deferred, measured, triggered, plain, sort_nodes-Sorts,
}
use qiskit_ibm_provider.Transpiler.BlockOrder.Classes.{
  Each, Crossed, Sorting, IsTransitive, Before, any-mem, any-subset, All-Sorts, Pairs-Sorts,
  Sorts-Crossed,
}

module _ (grouped trigger : ℕ → Bool) (descendants : ℕ → List ℕ) (predecessor : ℕ → ℕ → Bool) where
  abbrev Ordered : ℕ → ℕ → Type 0
  Ordered = Before grouped trigger descendants

  -- A node that ends the block is emitted.
  abbrev Ends : ℕ → Type 0
  Ends n = (grouped n || trigger n) ≡ true

  measures-Ends :
      {d ns : List ℕ} {r : Round}
      → Sorting grouped trigger descendants d ns r
      → All Ends r.yield_measures × All Ends r.yield_block_triggers
  measures-Ends nothing = (tt, tt)
  measures-Ends (deferred n _ s) = measures-Ends s
  measures-Ends (measured n _ g s) = let (m, t) = measures-Ends s in ((rw g refl, m), t)
  measures-Ends (triggered n _ g s) = let (m, t) = measures-Ends s in (m, (ground arith, t))
  measures-Ends (plain n _ s) = measures-Ends s

  -- What an early node depends on is early.
  early-up :
      (r : Round) (x y : ℕ)
      → IsTransitive grouped trigger descendants
      → is_early grouped trigger descendants predecessor r x ≡ true
      → is_early grouped trigger descendants predecessor r y ≡ false
      → Ordered x y
  unfolding is_early
  early-up r x y trans h k = elim (Bool-cases (mem x (descendants y))) [
    | inr m ↦ m
    | inl m ↦
        let p : ℕ → Bool = λ d.
          emit grouped trigger descendants predecessor d r.yield_measures r.yield_block_triggers in
        absurd (
          true≢false
            (sym (any-subset p (descendants x) (descendants y) (λ z w. trans z x y w m) h) ∙ k))
  ]

  -- A node that is not early depends on no node that ends the block.
  late-Ends :
      (r : Round) (m y : ℕ)
      → Ends m
      → is_early grouped trigger descendants predecessor r y ≡ false
      → Ordered m y
  unfolding is_early emit
  late-Ends r m y e k = elim (Bool-cases (mem m (descendants y))) [
    | inr h ↦ h
    | inl h ↦
        let p : ℕ → Bool = λ d.
          emit grouped trigger descendants predecessor d r.yield_measures r.yield_block_triggers in
        absurd (true≢false (sym (any-mem p m (descendants y) h (ground (arith, e))) ∙ k))
  ]

  abbrev early_nodes : Round → List ℕ
  early_nodes r = early grouped trigger descendants predecessor r

  abbrev late_nodes : Round → List ℕ
  late_nodes r = pushed grouped trigger descendants predecessor r

  abbrev yielded_nodes : Round → List ℕ
  yielded_nodes r = yielded grouped trigger descendants predecessor r

  false_of_not : (b : Bool) → not b ≡ true → b ≡ false
  false_of_not true h = absurd cc
  false_of_not false h = refl

  not_early-late_nodes :
      (r : Round)
      → All (λ n. is_early grouped trigger descendants predecessor r n ≡ false) (late_nodes r)
  not_early-late_nodes r =
      All-weaken _ _ (λ n h. false_of_not (is_early grouped trigger descendants predecessor r n) h)
        (late_nodes r)
        (All-filtered (λ n. not (is_early grouped trigger descendants predecessor r n)) r.to_push)

  Pairs-yielded_nodes :
      (r : Round)
      → Crossed grouped trigger descendants r
      → Each grouped trigger descendants (Pairs Ordered) r
      → Pairs Ordered (yielded_nodes r)
  Pairs-yielded_nodes r c e =
      let f = is_early grouped trigger descendants predecessor r in
      Pairs-append Ordered (early_nodes r) (r.yield_measures ++ r.yield_block_triggers)
        (Pairs-filter Ordered f r.to_push e.push)
        (Pairs-append Ordered r.yield_measures r.yield_block_triggers e.measures e.triggers
          c.triggers.measures)
        (All-filter _ f r.to_push (
          All-weaken _ _
            (λ x (m, t). All-append (Ordered x) r.yield_measures r.yield_block_triggers m t)
            r.to_push (All-and _ _ r.to_push c.measures.push c.triggers.push)))

  next-Pairs :
      (r : Round)
      → Crossed grouped trigger descendants r
      → Each grouped trigger descendants (Pairs Ordered) r
      → Pairs Ordered (late_nodes r ++ r.next_nodes)
  next-Pairs r c e =
      let f : ℕ → Bool = λ n. not (is_early grouped trigger descendants predecessor r n) in
      Pairs-append Ordered (late_nodes r) r.next_nodes (Pairs-filter Ordered f r.to_push e.push)
        e.next (All-filter _ f r.to_push c.next.push)

  -- What is yielded depends on nothing that is kept for the next round.
  before_next-yielded_nodes :
      (r : Round)
      → IsTransitive grouped trigger descendants
      → Crossed grouped trigger descendants r
      → All Ends r.yield_measures × All Ends r.yield_block_triggers
      → All (λ x. All (Ordered x) (late_nodes r ++ r.next_nodes)) (yielded_nodes r)
  before_next-yielded_nodes r trans c (ends_m, ends_t) =
      let f = is_early grouped trigger descendants predecessor r in
      let late = not_early-late_nodes r in
      let join = λ (x : ℕ) (k : All (Ordered x) (late_nodes r)) (l : All (Ordered x) r.next_nodes).
        All-append (Ordered x) (late_nodes r) r.next_nodes k l in
      let before_late = λ (m : ℕ) (e : Ends m).
        All-weaken _ (Ordered m) (λ y k. late-Ends r m y e k) (late_nodes r) late in
      All-append _ (early_nodes r) (r.yield_measures ++ r.yield_block_triggers)
        (All-weaken _ _
          (λ x (h, k).
            join x (All-weaken _ (Ordered x) (λ y l. early-up r x y trans h l) (late_nodes r) late)
              k)
          (early_nodes r)
          (All-and _ _ (early_nodes r) (All-filtered f r.to_push)
            (All-filter _ f r.to_push c.next.push)))
        (All-append _ r.yield_measures r.yield_block_triggers
          (All-weaken _ _ (λ m (e, k). join m (before_late m e) k) r.yield_measures
            (All-and _ _ r.yield_measures ends_m c.next.measures))
          (All-weaken _ _ (λ m (e, k). join m (before_late m e) k) r.yield_block_triggers
            (All-and _ _ r.yield_block_triggers ends_t c.next.triggers)))

  All-order_rounds :
      (P : ℕ → Type 0) (fuel : ℕ) (ns : List ℕ)
      → All P ns
      → All P (order_rounds grouped trigger descendants predecessor fuel ns)
  unfolding order_rounds
  All-order_rounds P zero ns ps = tt
  All-order_rounds P (suc fuel) [] ps = tt
  All-order_rounds P (suc fuel) (n ∷ ns) ps =
      let r = sort_nodes grouped trigger descendants predecessor [] (n ∷ ns) in
      let e =
        All-Sorts grouped trigger descendants P
          (sort_nodes-Sorts grouped trigger descendants predecessor [] (n ∷ ns)) ps in
      let f = is_early grouped trigger descendants predecessor r in
      let late = All-filter P (λ m. not (f m)) r.to_push e.push in
      let out =
        All-append P (early_nodes r) (r.yield_measures ++ r.yield_block_triggers)
          (All-filter P f r.to_push e.push)
          (All-append P r.yield_measures r.yield_block_triggers e.measures e.triggers) in
      let rest =
        All-order_rounds P fuel (late_nodes r ++ r.next_nodes)
          (All-append P (late_nodes r) r.next_nodes late e.next) in
      elim (Bool-cases (block_break grouped trigger descendants predecessor r)) [
        | inl b ↦ rw b (All-append P (yielded_nodes r) _ out rest)
        | inr b ↦ rw b (All-append P (yielded_nodes r) (late_nodes r) out late)
      ]

  Pairs-order_rounds :
      (fuel : ℕ) (ns : List ℕ)
      → IsTransitive grouped trigger descendants
      → ((x : ℕ) → Ordered x x)
      → Pairs Ordered ns
      → Pairs Ordered (order_rounds grouped trigger descendants predecessor fuel ns)
  unfolding order_rounds
  Pairs-order_rounds zero ns trans irr rs = tt
  Pairs-order_rounds (suc fuel) [] trans irr rs = tt
  Pairs-order_rounds (suc fuel) (n ∷ ns) trans irr rs =
      let r = sort_nodes grouped trigger descendants predecessor [] (n ∷ ns) in
      let s = sort_nodes-Sorts grouped trigger descendants predecessor [] (n ∷ ns) in
      let c = Sorts-Crossed grouped trigger descendants trans irr s (λ x y _ h. h) rs in
      let e = Pairs-Sorts grouped trigger descendants Ordered s rs in
      let out = Pairs-yielded_nodes r c e in
      let next = next-Pairs r c e in
      let cross = before_next-yielded_nodes r trans c (measures-Ends s) in
      elim (Bool-cases (block_break grouped trigger descendants predecessor r)) [
        | inl b ↦ rw b (
            Pairs-append Ordered (yielded_nodes r) _ out
              (Pairs-order_rounds fuel (late_nodes r ++ r.next_nodes) trans irr next)
              (All-weaken _ _
                (λ x h. All-order_rounds (Ordered x) fuel (late_nodes r ++ r.next_nodes) h)
                (yielded_nodes r) cross))
        | inr b ↦ rw b (
            Pairs-append Ordered (yielded_nodes r) (late_nodes r) out
              (Pairs-filter Ordered _ r.to_push e.push)
              (All-weaken _ _ (λ x h. All-prefix (Ordered x) (late_nodes r) r.next_nodes h)
                (yielded_nodes r) cross))
      ]

  -- When the nodes stand in a topological order, the order that is yielded is topological too: no
  -- node comes before one that it depends on. `descendants` is transitive, and no node is its own
  -- descendant.
  pub block_order_op_nodes-topological :
      (nodes : List ℕ)
      → IsTransitive grouped trigger descendants
      → ((x : ℕ) → Ordered x x)
      → Pairs Ordered nodes
      → Pairs Ordered (block_order_op_nodes grouped trigger descendants predecessor nodes)
  unfolding block_order_op_nodes
  block_order_op_nodes-topological nodes trans irr rs =
      Pairs-order_rounds (length nodes) nodes trans irr rs
