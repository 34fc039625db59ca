-- ===== src/Transpiler/BlockOrder/Classes.antt =====
-- How the nodes of the four lists of a round of `block_order_op_nodes` depend on each other.
use qiskit_ibm_provider.Common.{
  subst, ◌⊎◌, ℕ, ◌≡◌, refl, sym, ◌∙◌, Bool, true, false, List, [], ◌∷◌, ◌++◌, ◌==◌, any, All, Pairs,
  All-weaken, All-and, true≢false, arith, Bool-cases, inl, inr,
}
use qiskit_ibm_provider.Transpiler.Schedule.{mem}
use qiskit_ibm_provider.Transpiler.BlockOrder.{Round}
use qiskit_ibm_provider.Transpiler.BlockOrder.Rounds.{
  Sorts, nothing, deferred, measured, triggered, plain,
}

mem-append_left : (x : ℕ) (xs ys : List ℕ) → mem x xs ≡ true → mem x (xs ++ ys) ≡ true
mem-append_left x [] ys h = absurd cc
mem-append_left x (z ∷ xs) ys h = elim (Bool-cases (x == z)) [
  | inl k ↦ rw k refl
  | inr k ↦ rw k (mem-append_left x xs ys (ground (arith, h)))
]

mem-append_right : (x : ℕ) (xs ys : List ℕ) → mem x ys ≡ true → mem x (xs ++ ys) ≡ true
mem-append_right x [] ys h = h
mem-append_right x (z ∷ xs) ys h = ground (arith, mem-append_right x xs ys h)

mem-append_cases :
    (x : ℕ) (xs ys : List ℕ) → mem x (xs ++ ys) ≡ true → (mem x xs ≡ true) ⊎ (mem x ys ≡ true)
mem-append_cases x [] ys h = inr h
mem-append_cases x (z ∷ xs) ys h = elim (Bool-cases (x == z)) [
  | inl k ↦ inl (rw k refl)
  | inr k ↦ elim (mem-append_cases x xs ys (ground (arith, h))) [
    | inl m ↦ inl (ground (arith, m))
    | inr m ↦ inr m
  ]
]

-- A test that holds of a member holds of one of the list.
pub any-mem : (p : ℕ → Bool) (m : ℕ) (xs : List ℕ) → mem m xs ≡ true → p m ≡ true → any p xs ≡ true
any-mem p m [] k h = absurd cc
any-mem p m (x ∷ xs) k h = elim (Bool-cases (m == x)) [
  | inl e ↦
      let same : m ≡ x = ground arith in
      let here : p x ≡ true = subst (λ z. p z ≡ true) same h in rw here refl
  | inr e ↦ ground (arith, any-mem p m xs (ground arith) h)
]

pub any-subset :
    (p : ℕ → Bool) (xs ys : List ℕ)
    → ((z : ℕ) → mem z xs ≡ true → mem z ys ≡ true)
    → any p xs ≡ true
    → any p ys ≡ true
any-subset p [] ys sub h = absurd cc
any-subset p (x ∷ xs) ys sub h = elim (Bool-cases (p x)) [
  | inl k ↦ any-mem p x ys (sub x (ground arith)) k
  | inr k ↦ any-subset p xs ys (λ z m. sub z (ground arith)) (ground arith)
]

module _ (grouped trigger : ℕ → Bool) (descendants : ℕ → List ℕ) where
  abbrev pub Sorting : List ℕ → List ℕ → Round → Type 0
  Sorting = Sorts grouped trigger descendants

  -- What holds of all four lists of a round.
  pub record Each (P : List ℕ → Type 0) (r : Round) : Type 0 where
    pub next : P r.next_nodes
    pub push : P r.to_push
    pub measures : P r.yield_measures
    pub triggers : P r.yield_block_triggers

  pub All-Sorts :
      (P : ℕ → Type 0) {d ns : List ℕ} {r : Round} → Sorting d ns r → All P ns → Each (All P) r
  All-Sorts P nothing ps = record { next = tt; push = tt; measures = tt; triggers = tt }
  All-Sorts P (deferred n _ s) (p, ps) =
      let e = All-Sorts P s ps in
      record { next = (p, e.next); push = e.push; measures = e.measures; triggers = e.triggers }
  All-Sorts P (measured n _ _ s) (p, ps) =
      let e = All-Sorts P s ps in
      record { next = e.next; push = e.push; measures = (p, e.measures); triggers = e.triggers }
  All-Sorts P (triggered n _ _ s) (p, ps) =
      let e = All-Sorts P s ps in
      record { next = e.next; push = e.push; measures = e.measures; triggers = (p, e.triggers) }
  All-Sorts P (plain n _ s) (p, ps) =
      let e = All-Sorts P s ps in
      record { next = e.next; push = (p, e.push); measures = e.measures; triggers = e.triggers }

  pub Pairs-Sorts :
      (R : ℕ → ℕ → Type 0) {d ns : List ℕ} {r : Round}
      → Sorting d ns r
      → Pairs R ns
      → Each (Pairs R) r
  Pairs-Sorts R nothing rs = record { next = tt; push = tt; measures = tt; triggers = tt }
  Pairs-Sorts R (deferred n _ s) (r, rs) =
      let e = Pairs-Sorts R s rs in
      record {
        next = ((All-Sorts (R n) s r).next, e.next);
        push = e.push;
        measures = e.measures;
        triggers = e.triggers;
      }
  Pairs-Sorts R (measured n _ _ s) (r, rs) =
      let e = Pairs-Sorts R s rs in
      record {
        next = e.next;
        push = e.push;
        measures = ((All-Sorts (R n) s r).measures, e.measures);
        triggers = e.triggers;
      }
  Pairs-Sorts R (triggered n _ _ s) (r, rs) =
      let e = Pairs-Sorts R s rs in
      record {
        next = e.next;
        push = e.push;
        measures = e.measures;
        triggers = ((All-Sorts (R n) s r).triggers, e.triggers);
      }
  Pairs-Sorts R (plain n _ s) (r, rs) =
      let e = Pairs-Sorts R s rs in
      record {
        next = e.next;
        push = ((All-Sorts (R n) s r).push, e.push);
        measures = e.measures;
        triggers = e.triggers;
      }

  abbrev Outside : List ℕ → ℕ → Type 0
  Outside d x = mem x d ≡ false

  Outside-tail : (x : ℕ) (c d : List ℕ) → Outside (c ++ d) x → Outside d x
  Outside-tail x c d h = elim (Bool-cases (mem x d)) [
    | inl k ↦ absurd (true≢false (sym (mem-append_right x c d k) ∙ h))
    | inr k ↦ k
  ]

  Outside-head : (x : ℕ) (c d : List ℕ) → Outside (c ++ d) x → Outside c x
  Outside-head x c d h = elim (Bool-cases (mem x c)) [
    | inl k ↦ absurd (true≢false (sym (mem-append_left x c d k) ∙ h))
    | inr k ↦ k
  ]

  -- What holds of the nodes that a round does not defer.
  pub record Kept (P : ℕ → Type 0) (r : Round) : Type 0 where
    pub push : All P r.to_push
    pub measures : All P r.yield_measures
    pub triggers : All P r.yield_block_triggers

  Kept-weaken : (P Q : ℕ → Type 0) {r : Round} → ((x : ℕ) → P x → Q x) → Kept P r → Kept Q r
  Kept-weaken P Q {r} h k = record {
    push = All-weaken P Q h r.to_push k.push;
    measures = All-weaken P Q h r.yield_measures k.measures;
    triggers = All-weaken P Q h r.yield_block_triggers k.triggers;
  }

  Kept-Outside : {d ns : List ℕ} {r : Round} → Sorting d ns r → Kept (Outside d) r
  Kept-Outside nothing = record { push = tt; measures = tt; triggers = tt }
  Kept-Outside (deferred n _ s) =
      let k = Kept-Outside s in
      record { push = k.push; measures = k.measures; triggers = k.triggers }
  Kept-Outside {d = d} (measured n h _ s) =
      let k = Kept-weaken _ (Outside d) (λ x. Outside-tail x (descendants n) d) (Kept-Outside s) in
      record { push = k.push; measures = (h, k.measures); triggers = k.triggers }
  Kept-Outside {d = d} (triggered n h _ s) =
      let k = Kept-weaken _ (Outside d) (λ x. Outside-tail x (descendants n) d) (Kept-Outside s) in
      record { push = k.push; measures = k.measures; triggers = (h, k.triggers) }
  Kept-Outside (plain n h s) =
      let k = Kept-Outside s in
      record { push = (h, k.push); measures = k.measures; triggers = k.triggers }

  -- The node `x` does not depend on `y`.
  abbrev pub Before : ℕ → ℕ → Type 0
  Before x y = mem x (descendants y) ≡ false

  -- No node that is kept depends on one of `ys`.
  abbrev pub Ahead : List ℕ → Round → Type 0
  Ahead ys r = Kept (λ x. All (Before x) ys) r

  abbrev pub IsTransitive : Type 0
  IsTransitive =
      (x y z : ℕ)
      → mem x (descendants y) ≡ true
      → mem y (descendants z) ≡ true
      → mem x (descendants z) ≡ true

  abbrev pub Upward : List ℕ → Type 0
  Upward d = (x y : ℕ) → mem x (descendants y) ≡ true → mem y d ≡ true → mem x d ≡ true

  Upward-append : (n : ℕ) (d : List ℕ) → IsTransitive → Upward d → Upward (descendants n ++ d)
  Upward-append n d trans up x y h k = elim (mem-append_cases y (descendants n) d k) [
    | inl m ↦ mem-append_left x (descendants n) d (trans x y n h m)
    | inr m ↦ mem-append_right x (descendants n) d (up x y h m)
  ]

  Upward-Before : (n x : ℕ) (d : List ℕ) → Upward d → mem n d ≡ true → Outside d x → Before x n
  Upward-Before n x d up m out = elim (Bool-cases (mem x (descendants n))) [
    | inl k ↦ absurd (true≢false (sym (up x n k m) ∙ out))
    | inr k ↦ k
  ]

  Kept-and : (P Q : ℕ → Type 0) {r : Round} → Kept P r → Kept Q r → Kept (λ x. P x × Q x) r
  Kept-and P Q {r} k l = record {
    push = All-and P Q r.to_push k.push l.push;
    measures = All-and P Q r.yield_measures k.measures l.measures;
    triggers = All-and P Q r.yield_block_triggers k.triggers l.triggers;
  }

  abbrev keep_deferred :
      {P : ℕ → Type 0} {r : Round} (n : ℕ)
      → Kept P r
      → Kept P (record r { next_nodes = n ∷ r.next_nodes })
  keep_deferred n k = record { push = k.push; measures = k.measures; triggers = k.triggers }

  abbrev keep_measure :
      {P : ℕ → Type 0} {r : Round} (n : ℕ)
      → P n
      → Kept P r
      → Kept P (record r { yield_measures = n ∷ r.yield_measures })
  keep_measure n p k = record { push = k.push; measures = (p, k.measures); triggers = k.triggers }

  abbrev keep_trigger :
      {P : ℕ → Type 0} {r : Round} (n : ℕ)
      → P n
      → Kept P r
      → Kept P (record r { yield_block_triggers = n ∷ r.yield_block_triggers })
  keep_trigger n p k = record { push = k.push; measures = k.measures; triggers = (p, k.triggers) }

  abbrev keep_push :
      {P : ℕ → Type 0} {r : Round} (n : ℕ)
      → P n
      → Kept P r
      → Kept P (record r { to_push = n ∷ r.to_push })
  keep_push n p k = record { push = (p, k.push); measures = k.measures; triggers = k.triggers }

  -- No node that is kept depends on one that ends the block or is deferred.
  pub record Crossed (r : Round) : Type 0 where
    pub next : Ahead r.next_nodes r
    pub measures : Ahead r.yield_measures r
    pub triggers : Ahead r.yield_block_triggers r

  pub Sorts-Crossed :
      IsTransitive
      → ((x : ℕ) → Before x x)
      → {d ns : List ℕ} {r : Round} → Sorting d ns r
      → Upward d
      → Pairs Before ns
      → Crossed r
  Sorts-Crossed trans irr nothing up rs = record {
    next = record { push = tt; measures = tt; triggers = tt };
    measures = record { push = tt; measures = tt; triggers = tt };
    triggers = record { push = tt; measures = tt; triggers = tt };
  }
  Sorts-Crossed trans irr {d = d} (deferred {r = r} n m s) up (_, rs) =
      let c = Sorts-Crossed trans irr s up rs in
      let new = Kept-weaken _ (λ x. Before x n) (λ x. Upward-Before n x d up m) (Kept-Outside s) in
      record {
        next = keep_deferred n (Kept-and _ _ new c.next);
        measures = keep_deferred n c.measures;
        triggers = keep_deferred n c.triggers;
      }
  Sorts-Crossed trans irr {d = d} (measured {r = r} n _ _ s) up (ahead, rs) =
      let c = Sorts-Crossed trans irr s (Upward-append n d trans up) rs in
      let new =
        Kept-weaken _ (λ x. Before x n) (λ x. Outside-head x (descendants n) d) (Kept-Outside s) in
      let e = All-Sorts (Before n) s ahead in
      record {
        next = keep_measure n e.next c.next;
        measures = keep_measure n (irr n, e.measures) (Kept-and _ _ new c.measures);
        triggers = keep_measure n e.triggers c.triggers;
      }
  Sorts-Crossed trans irr {d = d} (triggered {r = r} n _ _ s) up (ahead, rs) =
      let c = Sorts-Crossed trans irr s (Upward-append n d trans up) rs in
      let new =
        Kept-weaken _ (λ x. Before x n) (λ x. Outside-head x (descendants n) d) (Kept-Outside s) in
      let e = All-Sorts (Before n) s ahead in
      record {
        next = keep_trigger n e.next c.next;
        measures = keep_trigger n e.measures c.measures;
        triggers = keep_trigger n (irr n, e.triggers) (Kept-and _ _ new c.triggers);
      }
  Sorts-Crossed trans irr (plain {r = r} n _ s) up (ahead, rs) =
      let c = Sorts-Crossed trans irr s up rs in
      let e = All-Sorts (Before n) s ahead in
      record {
        next = keep_push n e.next c.next;
        measures = keep_push n e.measures c.measures;
        triggers = keep_push n e.triggers c.triggers;
      }
