-- ===== src/Transpiler/BlockOrder.antt =====
-- `block_order_op_nodes` of qiskit_ibm_provider/transpiler/passes/scheduling/utils.py. A node is its
-- number in the graph; the questions to the graph, which is not in the repository, are parameters.
mod Tests
pub mod Classes
pub mod Dependencies
pub mod Complete
pub mod Rounds
use qiskit_ibm_provider.Common.{
  ℕ, zero, suc, ◌+◌, Bool, true, false, ◌||◌, ◌&&◌, not, List, [], ◌∷◌, ◌++◌, filter, if◌then◌else◌,
  ◌==◌, any, length,
}
use qiskit_ibm_provider.Transpiler.Schedule.{mem}

-- The lists that one round of the loop fills.
pub record Round : Type 0 where
  pub next_nodes : List ℕ
  pub to_push : List ℕ
  pub yield_measures : List ℕ
  pub yield_block_triggers : List ℕ

abbrev empty_round : Round
empty_round = record {
  next_nodes = [];
  to_push = [];
  yield_measures = [];
  yield_block_triggers = [];
}

abbrev is_empty : List ℕ → Bool
is_empty [] = true
is_empty (n ∷ ns) = false

-- `descendants` are the operations that depend on a node, `is_predecessor n m` tells whether `m` is a
-- direct predecessor of `n`.
module _ (is_grouped_measure is_block_trigger : ℕ → Bool) (descendants : ℕ → List ℕ)
    (is_predecessor : ℕ → ℕ → Bool) where
  -- The first loop of a round; `deferred` is `next_nodes_set`.
  unfoldable pub sort_nodes : List ℕ → List ℕ → Round
  sort_nodes deferred [] = empty_round
  sort_nodes deferred (n ∷ ns) =
      let later = mem n deferred in
      let grouped = is_grouped_measure n in
      let trigger = is_block_trigger n in
      let rest =
        sort_nodes
          (if not later && (grouped || trigger) then descendants n ++ deferred else deferred) ns in
      if later
      then record rest { next_nodes = n ∷ rest.next_nodes }
      else if grouped
      then record rest { yield_measures = n ∷ rest.yield_measures }
      else if trigger
      then record rest { yield_block_triggers = n ∷ rest.yield_block_triggers }
      else record rest { to_push = n ∷ rest.to_push }

  -- `_emit`
  unfoldable pub emit : ℕ → List ℕ → List ℕ → Bool
  emit n measures triggers =
      any (is_predecessor n) measures
      || any (is_predecessor n) triggers
      || (is_grouped_measure n || is_block_trigger n)

  -- The node is yielded before the measurements of the round.
  unfoldable pub is_early : Round → ℕ → Bool
  unfolding emit
  is_early r n = any (λ d. emit d r.yield_measures r.yield_block_triggers) (descendants n)

  abbrev pub early : Round → List ℕ
  early r = filter (is_early r) r.to_push

  abbrev pub pushed : Round → List ℕ
  pushed r = filter (λ n. not (is_early r n)) r.to_push

  unfoldable pub block_break : Round → Bool
  block_break r = not (is_empty r.yield_measures && is_empty r.yield_block_triggers)

  -- The nodes that a round yields before it looks at `block_break`.
  abbrev pub yielded : Round → List ℕ
  yielded r = early r ++ (r.yield_measures ++ r.yield_block_triggers)

  -- The `while` loop, of at most as many rounds as the first argument says.
  unfoldable pub order_rounds : ℕ → List ℕ → List ℕ
  unfolding sort_nodes is_early block_break
  order_rounds zero ns = []
  order_rounds (suc fuel) [] = []
  order_rounds (suc fuel) (n ∷ ns) =
      let r = sort_nodes [] (n ∷ ns) in
      let rest = order_rounds fuel (pushed r ++ r.next_nodes) in
      yielded r ++ (if block_break r then rest else pushed r)

  unfoldable pub block_order_op_nodes : List ℕ → List ℕ
  unfolding order_rounds
  block_order_op_nodes nodes = order_rounds (length nodes) nodes
