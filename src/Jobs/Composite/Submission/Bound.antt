-- ===== src/Jobs/Composite/Submission/Bound.antt =====
-- How many moves the submission takes.
use qiskit_ibm_provider.Common.{
  ℕ, suc, ◌+◌, ◌*◌, ◌≤◌, ◌≡◌, refl, sym, ap, Bool, true, false, some, List, [], ◌∷◌, if◌then◌else◌,
  map, length, arith, Bool-cases, Option-cases, inl, inr,
}
use qiskit_ibm_provider.Jobs.Composite.SubJobs.{SubJob}
use qiskit_ibm_provider.Jobs.Composite.Submission.{
  Phase, waiting, checking, requesting, finishing, over, Thread, Pool, Move, limit_reached, move,
  after_move, wake_next, move_at, wakes, cancel, thread_moves, user_cancels, step, submit_thread,
  submit_circuits,
}
use qiskit_ibm_provider.Jobs.Composite.Submission.Progress.{move_at_cases, threads_of, set_event}

-- How many moves a thread still has before it ends, unless the job limit is met.
unfoldable pub rank : Phase → ℕ
rank waiting = 4
rank checking = 3
rank requesting = 2
rank finishing = 1
rank over = 0

unfoldable pub effort : List Thread → ℕ
unfolding rank
effort [] = 0
effort (t ∷ ts) = rank t.phase + effort ts

abbrev pub is_limit : Move → Bool
is_limit limit_reached = true
is_limit _ = false

-- What a move that meets the job limit adds: it moves a thread back, and counts itself.
abbrev limit_cost : Move → ℕ
limit_cost m = if is_limit m then 2 else 0

limit_cost_other : (m : Move) → is_limit m ≡ false → limit_cost m ≡ 0
limit_cost_other m h = ground arith

-- From `p` to `q` by `n` moves, `k` more moves that meet the job limit, and cancellations.
pub data Runs (p : Pool) : ℕ → ℕ → Pool → Type 0 where
  stay : Runs p 0 0 p
  moves :
      {n k : ℕ} {q r : Pool}
      → Runs p n k q
      → (i : ℕ) (m : Move) → is_limit m ≡ false
      → step (thread_moves i m) q ≡ some r
      → Runs p (suc n) k r
  meets_limit :
      {n k : ℕ} {q r : Pool}
      → Runs p n k q
      → (i : ℕ) → step (thread_moves i limit_reached) q ≡ some r
      → Runs p n (suc k) r
  cancels : {n k : ℕ} {q r : Pool} → Runs p n k q → step user_cancels q ≡ some r → Runs p n k r

move-rank :
    (c : Bool) (m : Move) (t u : Thread)
    → move c m t ≡ some u
    → rank u.phase + 1 ≤ rank t.phase + limit_cost m
unfolding move rank
move-rank c m t u h = ground arith

move_at-effort :
    (c : Bool) (m : Move) (i : ℕ) (ts us : List Thread)
    → move_at c m i ts ≡ some us
    → effort us + 1 ≤ effort ts + limit_cost m
unfolding move_at effort
move_at-effort c m i [] us h = absurd cc
move_at-effort c m i (t ∷ ts) us h = elim (move_at_cases c m i t ts us h) [
  | inl (u, e, same, _) ↦ rw same (omega (arith, move-rank c m t u e))
  | inr (j, vs, _, e, same) ↦ rw same (omega (arith, move_at-effort c m j ts vs e))
]

effort-wake_next : (ts : List Thread) → effort (wake_next ts) ≡ effort ts
unfolding effort wake_next
effort-wake_next [] = refl
effort-wake_next (t ∷ ts) = ground (arith, effort-wake_next ts)

effort-set_events : (ts : List Thread) → effort (map set_event ts) ≡ effort ts
unfolding effort
effort-set_events [] = refl
effort-set_events (t ∷ ts) = omega (arith, effort-set_events ts)

after_move-effort :
    (c : Bool) (m : Move) (i : ℕ) (p q : Pool)
    → after_move c m (move_at c m i p.threads) ≡ some q
    → effort q.threads + 1 ≤ effort p.threads + limit_cost m
after_move-effort c m i p q h = elim (Option-cases (move_at c m i p.threads)) [
  | inl e ↦ (let g = rw e at h in absurd cc)
  | inr (us, e) ↦ elim (Bool-cases (wakes m)) [
    | inl w ↦
        rw (sym (ap threads_of (rw (e, w) at h)))
          (omega (arith, effort-wake_next us, move_at-effort c m i p.threads us e))
    | inr w ↦ rw (sym (ap threads_of (rw (e, w) at h))) (move_at-effort c m i p.threads us e)
  ]
]

step-effort :
    (m : Move) (i : ℕ) (p q : Pool)
    → step (thread_moves i m) p ≡ some q
    → effort q.threads + 1 ≤ effort p.threads + limit_cost m
unfolding step
step-effort m i p q h = after_move-effort p.user_cancelled m i p q h

cancels-effort : (p q : Pool) → step user_cancels p ≡ some q → effort q.threads ≡ effort p.threads
unfolding step cancel
cancels-effort p q h = rw (sym (ap threads_of h)) (effort-set_events p.threads)

Runs-effort :
    (p : Pool) {n k : ℕ} (q : Pool) → Runs p n k q → n + effort q.threads ≤ effort p.threads + k
Runs-effort p q stay = omega arith
Runs-effort p r (moves {n} {k} {q} before i m other e) =
    omega (arith, Runs-effort p q before, step-effort m i q r e, limit_cost_other m other)
Runs-effort p r (meets_limit {n} {k} {q} before i e) =
    omega (arith, Runs-effort p q before, step-effort limit_reached i q r e)
Runs-effort p r (cancels {n} {k} {q} before e) =
    omega (arith, Runs-effort p q before, cancels-effort q r e)

effort_of_new : (ss : List SubJob) → effort (map submit_thread ss) ≡ 4 * length ss
unfolding effort submit_thread
effort_of_new [] = refl
effort_of_new (s ∷ ss) = omega (arith, effort_of_new ss)

effort-submit_circuits :
    (s : SubJob) (ss : List SubJob) → effort (submit_circuits s ss).threads ≡ 4 * (1 + length ss)
unfolding submit_circuits submit_thread effort
effort-submit_circuits s ss = omega (arith, effort_of_new ss)

-- The submission ends: from `_submit_circuits` on, besides the answers that the job limit is reached,
-- the threads make at most four moves for each sub-job and one more for each of those answers, in any
-- order and with cancellations in between.
pub submission_moves_le :
    {n k : ℕ} (s : SubJob) (ss : List SubJob) (q : Pool)
    → Runs (submit_circuits s ss) n k q
    → n ≤ 4 * (1 + length ss) + k
submission_moves_le s ss q runs =
    omega (arith, Runs-effort (submit_circuits s ss) q runs, effort-submit_circuits s ss)
