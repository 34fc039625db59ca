-- ===== src/Transpiler/BlockOrder/Tests.antt =====
-- `block_order_op_nodes` on a small graph.
use qiskit_ibm_provider.Common.{
  ℕ, zero, suc, ◌≡◌, refl, Bool, true, false, List, [], ◌∷◌, Pairs, ◌==◌,
}
use qiskit_ibm_provider.Transpiler.Schedule.{mem}
use qiskit_ibm_provider.Transpiler.BlockOrder.{
  block_order_op_nodes, order_rounds, sort_nodes, is_early, emit, block_break,
}
use qiskit_ibm_provider.Transpiler.BlockOrder.Rounds.{count}
use qiskit_ibm_provider.Transpiler.BlockOrder.Complete.{count-block_order_op_nodes}
use qiskit_ibm_provider.Transpiler.BlockOrder.Classes.{Before}
use qiskit_ibm_provider.Transpiler.BlockOrder.Dependencies.{block_order_op_nodes-topological}

-- Node 0 is a gate on its own, 1 a measurement, 2 a gate after it, 3 a measurement.
abbrev measurement : ℕ → Bool
measurement n = elim (n == 1) [ true ↦ true | false ↦ n == 3 ]

abbrev no_trigger : ℕ → Bool
no_trigger n = false

abbrev after_1 : ℕ → List ℕ
after_1 (suc zero) = 2 ∷ []
after_1 _ = []

abbrev directly : ℕ → ℕ → Bool
directly (suc (suc zero)) (suc zero) = true
directly _ _ = false

abbrev in_order : List ℕ
in_order = 0 ∷ 1 ∷ 2 ∷ 3 ∷ []

-- Both measurements come first, then the gates.
order_of_nodes :
    block_order_op_nodes measurement no_trigger after_1 directly in_order ≡ 1 ∷ 3 ∷ 0 ∷ 2 ∷ []
unfolding block_order_op_nodes order_rounds sort_nodes is_early emit block_break
order_of_nodes = refl

count-block_order_op_nodes_example :
    count 2 (block_order_op_nodes measurement no_trigger after_1 directly in_order)
    ≡ count 2 in_order
count-block_order_op_nodes_example =
    count-block_order_op_nodes measurement no_trigger after_1 directly 2 in_order

after_1-transitive :
    (x y z : ℕ) → mem x (after_1 y) ≡ true → mem y (after_1 z) ≡ true → mem x (after_1 z) ≡ true
after_1-transitive x (suc zero) (suc zero) h k = absurd cc
after_1-transitive x zero z h k = absurd cc
after_1-transitive x (suc zero) zero h k = absurd cc
after_1-transitive x (suc zero) (suc (suc z)) h k = absurd cc
after_1-transitive x (suc (suc y)) z h k = absurd cc

after_1-acyclic : (x : ℕ) → Before measurement no_trigger after_1 x x
after_1-acyclic zero = refl
after_1-acyclic (suc zero) = refl
after_1-acyclic (suc (suc n)) = refl

block_order_op_nodes-topological_example :
    Pairs
      (Before measurement no_trigger after_1)
      (block_order_op_nodes measurement no_trigger after_1 directly in_order)
block_order_op_nodes-topological_example =
    block_order_op_nodes-topological measurement no_trigger after_1 directly in_order
      after_1-transitive after_1-acyclic
      ((refl, (refl, (refl, tt))), ((refl, (refl, tt)), ((refl, tt), (tt, tt))))
