-- ===== src/Transpiler/Schedule/Invariant.antt =====
-- The invariant of the scheduling analysis, for what a visit is made of: a flush, a new block, and a
-- new entry.
use qiskit_ibm_provider.Common.{
  refl, ℕ, suc, ◌≤◌, ◌<◌, ◌≡◌, sym, ◌∙◌, true, false, List, [], ◌∷◌, ◌==◌, All, Pairs, All-and,
  All-weaken, Bool-cases, arith, true≢false, inl, inr,
}
use qiskit_ibm_provider.Transpiler.Schedule.{
  Node, Entry, State, mem, is_current, latest, set_times, raise_time, flush_measures, begin_block,
  add_entry,
}
use qiskit_ibm_provider.Transpiler.Schedule.Retime.{Apart, Tied, Closed, Covered}

-- The number of the group of `e` is at most `g`.
abbrev pub GroupBelow : ℕ → Entry → Type 0
GroupBelow g e = (h : ℕ) → g < h → is_current h e ≡ false

-- The times of `s` are those of its entries.
pub record Timed (s : State) : Type 0 where
  pub apart : Pairs Apart s.entries
  pub tied : Pairs Tied s.entries
  pub covered : All (Covered s.block_idx s.qubit_times) s.entries
  pub blocks : All (λ e. e.in_block ≤ s.block_idx) s.entries
  pub groups : All (GroupBelow s.group_no) s.entries
  pub ends : All (λ e. e.stop ≤ s.max_block_t1 e.in_block) s.entries

-- The current measurements are of this block, and nothing has been scheduled on their qubits since.
pub record Good (s : State) : Type 0 where
  pub timed : Timed s
  pub closed : Pairs (Closed s.group_no) s.entries
  pub current : All (λ e. is_current s.group_no e ≡ true → e.in_block ≡ s.block_idx) s.entries

-- The node has no qubit in common with a current measurement.
abbrev pub Clear : Node → State → Type 0
Clear n s =
    All
      (λ e.
        (q : ℕ)
        → mem q n.qubits ≡ true
        → mem q e.node.qubits ≡ true
        → is_current s.group_no e ≡ false)
      s.entries

pub none_current :
    (g : ℕ) (es : List Entry) → All (GroupBelow g) es → All (λ e. is_current (suc g) e ≡ false) es
none_current g es = All-weaken _ _ (λ e below. below (suc g) (omega arith)) es

Closed-none_current :
    (g : ℕ) (es : List Entry) → All (λ e. is_current g e ≡ false) es → Pairs (Closed g) es
Closed-none_current g [] h = tt
Closed-none_current g (e ∷ es) (h, hs) =
    (All-weaken _ _ (λ e' k q _ _. k) es hs, Closed-none_current g es hs)

pub flush_measures-Good : (s : State) → Timed s → Good (flush_measures s)
unfolding flush_measures
flush_measures-Good s t =
    let none = none_current s.group_no s.entries t.groups in
    record {
      timed = record {
        apart = t.apart;
        tied = t.tied;
        covered = t.covered;
        blocks = t.blocks;
        groups = All-weaken _ _ (λ e below h k. below h (omega arith)) s.entries t.groups;
        ends = t.ends;
      };
      closed = Closed-none_current (suc s.group_no) s.entries none;
      current = All-weaken _ _ (λ e h k. absurd (true≢false (sym k ∙ h))) s.entries none;
    }

pub begin_block-Good : (s : State) → Timed s → Good (begin_block s)
unfolding begin_block flush_measures
begin_block-Good s t =
    flush_measures-Good
      (record s {
        block_idx = suc s.block_idx;
        control_flow_block = false;
        qubit_times = λ q. 0;
        clbit_times = λ c. 0;
      })
      (record {
        apart = t.apart;
        tied = t.tied;
        covered = All-weaken _ _ (λ e le q m same. absurd (omega arith)) s.entries t.blocks;
        blocks = All-weaken _ _ (λ e le. omega arith) s.entries t.blocks;
        groups = t.groups;
        ends = t.ends;
      })

-- What comes before the time of each of the node's qubits.
abbrev pub After : Node → ℕ → State → Type 0
After n t s = (q : ℕ) → mem q n.qubits ≡ true → s.qubit_times q ≤ t

pub latest-mem : (times : ℕ → ℕ) (q : ℕ) (qs : List ℕ) → mem q qs ≡ true → times q ≤ latest times qs
unfolding latest
latest-mem times q [] h = absurd cc
latest-mem times q (r ∷ qs) h = elim (Bool-cases (q == r)) [
  | inl e ↦ ground arith
  | inr e ↦ omega (arith, latest-mem times q qs (ground arith))
]

Covered-set_times :
    (b t : ℕ) (qs : List ℕ) (times : ℕ → ℕ) (e : Entry)
    → e.in_block ≤ b
    → ((q : ℕ) → mem q qs ≡ true → times q ≤ t)
    → Covered b times e
    → Covered b (set_times qs t times) e
unfolding set_times
Covered-set_times b t qs times e le after cover q m same = elim (Bool-cases (mem q qs)) [
  | inl k ↦ rw k (omega (arith, after q k, cover q m same))
  | inr k ↦ rw k (cover q m same)
]

pub set_times-mem :
    (q t : ℕ) (qs : List ℕ) (times : ℕ → ℕ) → mem q qs ≡ true → t ≤ set_times qs t times q
unfolding set_times
set_times-mem q t qs times m = rw m (omega arith)

pub raise_time-le : (b t c : ℕ) (times : ℕ → ℕ) → times c ≤ raise_time b t times c
unfolding raise_time
raise_time-le b t c times = ground arith

pub raise_time-here : (b t : ℕ) (times : ℕ → ℕ) → t ≤ raise_time b t times b
unfolding raise_time
raise_time-here b t times = ground arith

pub add_entry-Timed :
    (n : Node) (t0 t1 : ℕ) (s : State)
    → t0 ≤ t1
    → After n t0 s
    → Timed s
    → Timed (add_entry n t0 t1 s)
unfolding add_entry
add_entry-Timed n t0 t1 s le after t = record {
  apart = (
    All-weaken _ _ (λ e cover q m m' same. omega (arith, after q m, cover q m' (sym same)))
        s.entries t.covered,
    t.apart,
  );
  tied = (All-weaken _ _ (λ e _ h k k'. absurd cc) s.entries t.blocks, t.tied);
  covered = (
    λ q m _. set_times-mem q t1 n.qubits s.qubit_times m,
    All-weaken _ _
        (λ e (below, cover).
          Covered-set_times s.block_idx t1 n.qubits s.qubit_times e below
            (λ q m. omega (arith, le, after q m)) cover)
        s.entries (All-and _ _ s.entries t.blocks t.covered),
  );
  blocks = (omega arith, t.blocks);
  groups = (λ h k. refl, t.groups);
  ends = (
    raise_time-here s.block_idx t1 s.max_block_t1,
    All-weaken _ _
        (λ e end. omega (arith, end, raise_time-le s.block_idx t1 e.in_block s.max_block_t1))
        s.entries t.ends,
  );
}

pub add_entry-Good :
    (n : Node) (t0 t1 : ℕ) (s : State)
    → t0 ≤ t1
    → After n t0 s
    → Clear n s
    → Good s
    → Good (add_entry n t0 t1 s)
unfolding add_entry
add_entry-Good n t0 t1 s le after clear g = record {
  timed = add_entry-Timed n t0 t1 s le after g.timed;
  closed = (clear, g.closed);
  current = (λ k. refl, g.current);
}
