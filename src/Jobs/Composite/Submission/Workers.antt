-- ===== src/Jobs/Composite/Submission/Workers.antt =====
-- The submission with the workers of the executor: `ThreadPoolExecutor` runs the tasks in the order in
-- which they were submitted, each of them when a worker is free.
use qiskit_ibm_provider.Common.{
  ℕ, suc, ◌+◌, ◌≤◌, ◌≡◌, ◌≢◌, refl, sym, ap, Bool, true, false, some, List, [], ◌∷◌, if◌then◌else◌,
  any, all, map, not, ◌⊎◌, arith, Bool-cases, Option-cases, inl, inr, ltb,
}
use qiskit_ibm_provider.Jobs.Composite.SubJobs.{
  SubJob, with_event, with_job, with_submit_error, with_future,
}
use qiskit_ibm_provider.Jobs.Composite.Submission.{
  Thread, Pool, Move, limit_reached, move, after_move, wake_next, move_at, wakes, cancel,
  thread_moves, user_cancels, step, submit_thread, submit_circuits,
}
use qiskit_ibm_provider.Jobs.Composite.Submission.Progress.{
  is_over, is_active, Sound, Live, move_at_cases, move_at-Live, set_event, set_events-Live,
  submit_circuits-Live, is_active-moves, threads_of,
}

-- How many threads have ended.
unfoldable pub over_count : List Thread → ℕ
over_count [] = 0
over_count (t ∷ ts) = let rest = over_count ts in if is_over t then suc rest else rest

-- The task of the i-th sub-job is running or has run.
abbrev pub has_worker : ℕ → ℕ → List Thread → Bool
has_worker workers i ts = ltb i (workers + over_count ts)

-- From `p` to a pool by moves of threads that have a worker, and by cancellations.
pub data Executes (workers : ℕ) (p : Pool) : Pool → Type 0 where
  begin : Executes workers p p
  runs :
      {q r : Pool}
      → Executes workers p q
      → (i : ℕ) (m : Move) → has_worker workers i q.threads ≡ true
      → step (thread_moves i m) q ≡ some r
      → Executes workers p r
  cancels :
      {q r : Pool} → Executes workers p q → step user_cancels q ≡ some r → Executes workers p r

abbrev any_woken : List Thread → Bool
any_woken ts = any (λ t. t.sub.event) ts

-- The sub-jobs are woken up in their order.
abbrev Woken : List Thread → Type 0
Woken [] = Unit
Woken (t ∷ ts) = (t.sub.event ≡ false → any_woken ts ≡ false) × Woken ts

wake_next-Woken : (ts : List Thread) → Woken ts → Woken (wake_next ts)
unfolding wake_next with_event
wake_next-Woken [] h = tt
wake_next-Woken (t ∷ ts) h = elim (Bool-cases t.sub.event) [
  | inl e ↦ rw e ((λ k. absurd cc), wake_next-Woken ts h.1)
  | inr e ↦ rw e ((λ k. absurd cc), h.1)
]

move-same_event :
    (c : Bool) (m : Move) (t u : Thread) → move c m t ≡ some u → u.sub.event ≡ t.sub.event
unfolding move with_job with_submit_error with_future
move-same_event c m t u k = ground arith

move_at-any_woken :
    (c : Bool) (m : Move) (i : ℕ) (ts us : List Thread)
    → move_at c m i ts ≡ some us
    → any_woken us ≡ any_woken ts
unfolding move_at
move_at-any_woken c m i [] us k = absurd cc
move_at-any_woken c m i (t ∷ ts) us k = elim (move_at_cases c m i t ts us k) [
  | inl (u, e, same, _) ↦ rw (same, move-same_event c m t u e) refl
  | inr (j, vs, _, e, same) ↦ rw (same, move_at-any_woken c m j ts vs e) refl
]

move_at-Woken :
    (c : Bool) (m : Move) (i : ℕ) (ts us : List Thread)
    → Woken ts
    → move_at c m i ts ≡ some us
    → Woken us
unfolding move_at
move_at-Woken c m i [] us h k = absurd cc
move_at-Woken c m i (t ∷ ts) us h k = elim (move_at_cases c m i t ts us k) [
  | inl (u, e, same, _) ↦ rw same (rw (move-same_event c m t u e) h.0, h.1)
  | inr (j, vs, _, e, same) ↦
      rw same (rw (move_at-any_woken c m j ts vs e) h.0, move_at-Woken c m j ts vs h.1 e)
]

set_events-Woken : (ts : List Thread) → Woken (map set_event ts)
unfolding with_event
set_events-Woken [] = tt
set_events-Woken (t ∷ ts) = ((λ k. absurd cc), set_events-Woken ts)

-- No event of a sub-job is set, as when it is new.
abbrev pub asleep : List SubJob → Bool
asleep ss = not (any (λ s. s.event) ss)

submit_threads-Woken :
    (ss : List SubJob)
    → asleep ss ≡ true
    → (any_woken (map submit_thread ss) ≡ false) × Woken (map submit_thread ss)
unfolding submit_thread with_future
submit_threads-Woken [] h = (refl, tt)
submit_threads-Woken (s ∷ ss) h =
    let (none_woken, rest) = submit_threads-Woken ss (ground arith) in
    (ground arith, ((λ k. none_woken), rest))

-- What the moves keep.
abbrev Steady : List Thread → Type 0
Steady ts = Live ts × Woken ts

after_move-Woken :
    (c : Bool) (m : Move) (i : ℕ) (p q : Pool)
    → Woken p.threads
    → after_move c m (move_at c m i p.threads) ≡ some q
    → Woken q.threads
after_move-Woken c m i p q h k = elim (Option-cases (move_at c m i p.threads)) [
  | inl e ↦ (let g = rw e at k in absurd cc)
  | inr (us, e) ↦
      let kept = move_at-Woken c m i p.threads us h e in
      elim (Bool-cases (wakes m)) [
        | inl w ↦ rw (sym (ap threads_of (rw (e, w) at k))) (wake_next-Woken us kept)
        | inr w ↦ rw (sym (ap threads_of (rw (e, w) at k))) kept
      ]
]

Executes-Steady :
    {workers : ℕ} (p q : Pool) → Steady p.threads → Executes workers p q → Steady q.threads
unfolding step cancel
Executes-Steady p q h begin = h
Executes-Steady p r h (runs {q} before i m worker e) =
    let (live, woken) = Executes-Steady p q h before in
    (
      move_at-Live q.user_cancelled m i q r live e,
      after_move-Woken q.user_cancelled m i q r woken e,
    )
Executes-Steady p r h (cancels {q} before e) =
    rw (sym (ap threads_of e)) (set_events-Live q.threads, set_events-Woken q.threads)

-- The threads before one that has not ended have ended, and it can move.
abbrev Moves : Bool → List Thread → Type 0
Moves c ts =
    (i : ℕ) × (m : Move) × (us : List Thread) × (move_at c m i ts ≡ some us)
    × (m ≢ limit_reached)
    × (i ≤ over_count ts)

over_woken : (t : Thread) → Sound t → is_over t ≡ true → t.sub.event ≡ true
over_woken t h e = ground (arith, h)

active_woken : (ts : List Thread) → any_woken ts ≡ false → any is_active ts ≡ false
active_woken [] h = refl
active_woken (t ∷ ts) h = ground (arith, active_woken ts)

next_Moves :
    (c : Bool) (t : Thread) (ts : List Thread) → is_over t ≡ true → Moves c ts → Moves c (t ∷ ts)
unfolding move_at over_count
next_Moves c t ts e (i, m, us, moves, other, before) =
    (suc i, m, t ∷ us, rw (moves, move_at) refl, other, rw e (omega (arith, before)))

first_Moves : (c : Bool) (ts : List Thread) → Steady ts → (all is_over ts ≡ true) ⊎ Moves c ts
unfolding move_at over_count
first_Moves c [] h = inl refl
first_Moves c (t ∷ ts) (((sound, sounds), live), (woken, wokens)) = elim (Bool-cases (is_over t)) [
  | inl e ↦
      let set = over_woken t sound e in
      elim (first_Moves c ts ((sounds, λ b. ground (arith, live)), wokens)) [
        | inl rest ↦ inl (rw (e, rest) refl)
        | inr rest ↦ inr (next_Moves c t ts e rest)
      ]
  | inr e ↦ elim (Bool-cases t.sub.event) [
    | inl set ↦
        let (m, u, moves, other) = is_active-moves c t.phase t.sub (ground arith) in
        inr (0, m, u ∷ ts, rw (moves, move_at) refl, other, omega arith)
    | inr unset ↦ let none_active = active_woken ts (woken unset) in absurd (ground (arith, live))
  ]
]

-- The submission does not get stuck, whatever the number of workers, as long as nothing is run again:
-- in every state that comes of `_submit_circuits` for new sub-jobs by moves of threads that have a
-- worker, in any order, and by cancellations, every thread has ended or one that has a worker can
-- move, and not only by meeting the job limit again. There is at least one worker, and the executor
-- runs the tasks in their order.
pub submission_not_stuck :
    (workers : ℕ) (s : SubJob) (ss : List SubJob) (q : Pool)
    → 1 ≤ workers
    → asleep ss ≡ true
    → Executes workers (submit_circuits s ss) q
    → (all is_over q.threads ≡ true)
      ⊎ ((i : ℕ) × (m : Move) × (r : Pool) × (has_worker workers i q.threads ≡ true)
          × (step (thread_moves i m) q ≡ some r)
          × (m ≢ limit_reached))
unfolding step submit_circuits submit_thread with_event with_future
submission_not_stuck workers s ss q enough new reached =
    let (asleep_threads, rest) = submit_threads-Woken ss new in
    let steady =
      Executes-Steady (submit_circuits s ss) q (submit_circuits-Live s ss, ((λ k. absurd cc), rest))
        reached in
    elim (first_Moves q.user_cancelled q.threads steady) [
      | inl done ↦ inl done
      | inr (i, m, us, moves, other, before) ↦ inr (
        i,
        m,
        record {
          user_cancelled = q.user_cancelled;
          threads = if wakes m then wake_next us else us;
        },
        ground (arith, before),
        rw moves refl,
        other,
      )
    ]
