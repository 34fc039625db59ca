-- ===== src/Transpiler/BlockOrder/Rounds.antt =====
-- What one round of `block_order_op_nodes` does with the nodes: none is lost, and each list keeps
-- their order.
use qiskit_ibm_provider.Common.{
  ℕ, suc, ◌+◌, ◌≤◌, ◌≡◌, Bool, true, false, not, List, [], ◌∷◌, ◌++◌, filter, if◌then◌else◌, ◌==◌,
  length, arith, Bool-cases, inl, inr,
}
use qiskit_ibm_provider.Transpiler.Schedule.{mem}
use qiskit_ibm_provider.Transpiler.BlockOrder.{Round, empty_round, sort_nodes}

-- How often a node stands in a list.
abbrev pub count : ℕ → List ℕ → ℕ
count x [] = 0
count x (n ∷ ns) = let rest = count x ns in if x == n then suc rest else rest

pub count-append : (x : ℕ) (ms ns : List ℕ) → count x (ms ++ ns) ≡ count x ms + count x ns
count-append x [] ns = omega arith
count-append x (m ∷ ms) ns = ground (arith, count-append x ms ns)

pub count-filter :
    (x : ℕ) (p : ℕ → Bool) (ns : List ℕ)
    → count x (filter p ns) + count x (filter (λ n. not (p n)) ns) ≡ count x ns
count-filter x p [] = omega arith
count-filter x p (n ∷ ns) = elim (Bool-cases (p n)) [
  | inl h ↦ rw h (ground (arith, count-filter x p ns))
  | inr h ↦ rw h (ground (arith, count-filter x p ns))
]

pub length-filter : (p : ℕ → Bool) (ns : List ℕ) → length (filter p ns) ≤ length ns
length-filter p [] = omega arith
length-filter p (n ∷ ns) = ground (arith, length-filter p ns)

module _ (grouped trigger : ℕ → Bool) (descendants : ℕ → List ℕ) where
  -- The first loop of a round as a relation, of which the four branches are the constructors.
  pub data Sorts : List ℕ → List ℕ → Round → Type 0 where
    nothing : {d : List ℕ} → Sorts d [] empty_round
    deferred :
        {d ns : List ℕ} {r : Round} (n : ℕ)
        → mem n d ≡ true
        → Sorts d ns r
        → Sorts d (n ∷ ns) (record r { next_nodes = n ∷ r.next_nodes })
    measured :
        {d ns : List ℕ} {r : Round} (n : ℕ)
        → mem n d ≡ false
        → grouped n ≡ true
        → Sorts (descendants n ++ d) ns r
        → Sorts d (n ∷ ns) (record r { yield_measures = n ∷ r.yield_measures })
    triggered :
        {d ns : List ℕ} {r : Round} (n : ℕ)
        → mem n d ≡ false
        → trigger n ≡ true
        → Sorts (descendants n ++ d) ns r
        → Sorts d (n ∷ ns) (record r { yield_block_triggers = n ∷ r.yield_block_triggers })
    plain :
        {d ns : List ℕ} {r : Round} (n : ℕ)
        → mem n d ≡ false
        → Sorts d ns r
        → Sorts d (n ∷ ns) (record r { to_push = n ∷ r.to_push })

  pub sort_nodes-Sorts :
      (p : ℕ → ℕ → Bool) (d ns : List ℕ)
      → Sorts d ns (sort_nodes grouped trigger descendants p d ns)
  unfolding sort_nodes
  sort_nodes-Sorts p d [] = nothing
  sort_nodes-Sorts p d (n ∷ ns) = elim (Bool-cases (mem n d)) [
    | inl h ↦ rw h (deferred n h (sort_nodes-Sorts p d ns))
    | inr h ↦ rw h (elim (Bool-cases (grouped n)) [
      | inl g ↦ rw g (measured n h g (sort_nodes-Sorts p (descendants n ++ d) ns))
      | inr g ↦ rw g (elim (Bool-cases (trigger n)) [
        | inl t ↦ rw t (triggered n h t (sort_nodes-Sorts p (descendants n ++ d) ns))
        | inr t ↦ rw t (plain n h (sort_nodes-Sorts p d ns))
      ])
    ])
  ]

  pub count-Sorts :
      (x : ℕ) {d ns : List ℕ} {r : Round}
      → Sorts d ns r
      → count x r.next_nodes
          + count x r.to_push
          + count x r.yield_measures
          + count x r.yield_block_triggers
        ≡ count x ns
  count-Sorts x nothing = omega arith
  count-Sorts x (deferred n h s) = ground (arith, count-Sorts x s)
  count-Sorts x (measured n h g s) = ground (arith, count-Sorts x s)
  count-Sorts x (triggered n h t s) = ground (arith, count-Sorts x s)
  count-Sorts x (plain n h s) = ground (arith, count-Sorts x s)

  pub length-Sorts :
      {d ns : List ℕ} {r : Round}
      → Sorts d ns r
      → length r.next_nodes
          + length r.to_push
          + length r.yield_measures
          + length r.yield_block_triggers
        ≡ length ns
  length-Sorts nothing = omega arith
  length-Sorts (deferred n h s) = omega (arith, length-Sorts s)
  length-Sorts (measured n h g s) = omega (arith, length-Sorts s)
  length-Sorts (triggered n h t s) = omega (arith, length-Sorts s)
  length-Sorts (plain n h s) = omega (arith, length-Sorts s)
