-- ===== src/Transpiler/BlockOrder/Complete.antt =====
-- `block_order_op_nodes` yields every node once: the loop has enough rounds, and no node is lost.
use qiskit_ibm_provider.Common.{
  ap, ℕ, zero, suc, ◌+◌, ◌≤◌, ◌≡◌, refl, Bool, true, false, ◌&&◌, not, List, [], ◌∷◌, ◌++◌, filter,
  length, length-append, arith, Bool-cases, inl, inr,
}
use qiskit_ibm_provider.Transpiler.BlockOrder.{
  Round, is_empty, sort_nodes, is_early, block_break, pushed, yielded, order_rounds,
  block_order_op_nodes,
}
use qiskit_ibm_provider.Transpiler.BlockOrder.Rounds.{
  count, count-append, count-filter, length-filter, Sorts, nothing, deferred, measured, triggered,
  plain, sort_nodes-Sorts, count-Sorts, length-Sorts,
}

break-length :
    (ms ts : List ℕ) → not (is_empty ms && is_empty ts) ≡ true → 1 ≤ length ms + length ts
break-length [] [] h = absurd cc
break-length [] (t ∷ ts) h = omega arith
break-length (m ∷ ms) ts h = omega arith

trigger_breaks : {A : Type 0} (ms : List ℕ) → not (is_empty ms && false) ≡ false → A
trigger_breaks [] h = absurd cc
trigger_breaks (m ∷ ms) h = absurd cc

module _ (grouped trigger : ℕ → Bool) (descendants : ℕ → List ℕ) (predecessor : ℕ → ℕ → Bool) where
  no_break-next :
      {ns : List ℕ} {r : Round}
      → Sorts grouped trigger descendants [] ns r
      → block_break grouped trigger descendants predecessor r ≡ false
      → r.next_nodes ≡ []
  unfolding block_break
  no_break-next nothing h = refl
  no_break-next (deferred n m s) h = absurd cc
  no_break-next (measured n m g s) h = absurd cc
  no_break-next (triggered {r = r} n m t s) h = trigger_breaks r.yield_measures h
  no_break-next (plain n m s) h = no_break-next s h

  yielded-count :
      (x : ℕ) (r : Round)
      → count x (yielded grouped trigger descendants predecessor r)
          + count x (pushed grouped trigger descendants predecessor r)
        ≡ count x r.to_push + count x r.yield_measures + count x r.yield_block_triggers
  yielded-count x r =
      let p = is_early grouped trigger descendants predecessor r in
      omega (
        arith,
        count-filter x p r.to_push,
        count-append x (filter p r.to_push) (r.yield_measures ++ r.yield_block_triggers),
        count-append x r.yield_measures r.yield_block_triggers,
      )

  -- The nodes of the next round are fewer.
  next-length :
      (ns : List ℕ) {r : Round}
      → Sorts grouped trigger descendants [] ns r
      → block_break grouped trigger descendants predecessor r ≡ true
      → length (pushed grouped trigger descendants predecessor r ++ r.next_nodes) + 1 ≤ length ns
  unfolding block_break
  next-length ns {r} s h =
      let p = is_early grouped trigger descendants predecessor r in
      omega (
        arith,
        length-Sorts grouped trigger descendants s,
        length-filter (λ n. not (p n)) r.to_push,
        length-append (filter (λ n. not (p n)) r.to_push) r.next_nodes,
        break-length r.yield_measures r.yield_block_triggers h,
      )

  count-order_rounds :
      (x fuel : ℕ) (ns : List ℕ)
      → length ns ≤ fuel
      → count x (order_rounds grouped trigger descendants predecessor fuel ns) ≡ count x ns
  unfolding order_rounds
  count-order_rounds x zero [] h = refl
  count-order_rounds x zero (n ∷ ns) h = absurd (omega arith)
  count-order_rounds x (suc fuel) [] h = refl
  count-order_rounds x (suc fuel) (n ∷ ns) h =
      let r = sort_nodes grouped trigger descendants predecessor [] (n ∷ ns) in
      let s = sort_nodes-Sorts grouped trigger descendants predecessor [] (n ∷ ns) in
      let parts = count-Sorts grouped trigger descendants x s in
      let out = yielded-count x r in
      let first = yielded grouped trigger descendants predecessor r in
      let late = pushed grouped trigger descendants predecessor r in
      elim (Bool-cases (block_break grouped trigger descendants predecessor r)) [
        | inl b ↦
            let rest =
              order_rounds grouped trigger descendants predecessor fuel (late ++ r.next_nodes) in
            rw b (
              omega (
                arith,
                parts,
                out,
                count-append x first rest,
                count-append x late r.next_nodes,
                count-order_rounds x fuel (late ++ r.next_nodes)
                    (omega (arith, h, next-length (n ∷ ns) s b)),
              ))
        | inr b ↦
            let none = no_break-next s b in
            rw b (omega (arith, parts, out, count-append x first late, ap (count x) none))
      ]

  -- Each node is yielded as often as it stands in the topological order of the graph: none is lost
  -- and none comes twice, in as many rounds as there are nodes.
  pub count-block_order_op_nodes :
      (x : ℕ) (nodes : List ℕ)
      → count x (block_order_op_nodes grouped trigger descendants predecessor nodes) ≡ count x nodes
  unfolding block_order_op_nodes
  count-block_order_op_nodes x nodes = count-order_rounds x (length nodes) nodes (omega arith)
