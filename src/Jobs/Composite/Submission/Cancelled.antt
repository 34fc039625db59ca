-- ===== src/Jobs/Composite/Submission/Cancelled.antt =====
-- What becomes of the submission after a cancellation.
use qiskit_ibm_provider.Common.{
  ℕ, zero, suc, ◌≡◌, refl, sym, true, none, some, List, [], ◌∷◌, map, All, arith, Bool-cases,
  Option-cases, Result-cases, some_injective, inl, inr, ◌≢◌,
}
use qiskit_ibm_provider.Jobs.Composite.SubJobs.{CircuitJob}
use qiskit_ibm_provider.Jobs.Composite.Submission.{
  requesting, Thread, Pool, Move, accepted, move, after_move, wake_next, move_at, wakes, cancel,
  rerun_loop, is_failed, rerun_failed, Action, thread_moves, user_cancels, user_reruns, step,
  Reaches, start, next,
}
use qiskit_ibm_provider.Jobs.Composite.Submission.Progress.{move_at_cases, set_event}

-- The user has cancelled, and no thread is in a request.
abbrev pub NoRequest : Thread → Type 0
NoRequest t = t.phase ≢ requesting

pub record IsQuiet (p : Pool) : Type 0 where
  pub is_cancelled : p.user_cancelled ≡ true
  pub no_request : All NoRequest p.threads

move-NoRequest : (m : Move) (t u : Thread) → NoRequest t → move true m t ≡ some u → NoRequest u
unfolding move
move-NoRequest m t u h k = ground arith

move_at-NoRequest :
    (m : Move) (i : ℕ) (ts us : List Thread)
    → All NoRequest ts
    → move_at true m i ts ≡ some us
    → All NoRequest us
unfolding move_at
move_at-NoRequest m i [] us h k = absurd cc
move_at-NoRequest m i (t ∷ ts) us h k = elim (move_at_cases true m i t ts us k) [
  | inl (u, e, same, _) ↦ rw same (move-NoRequest m t u h.0 e, h.1)
  | inr (j, vs, _, e, same) ↦ rw same (h.0, move_at-NoRequest m j ts vs h.1 e)
]

wake_next-NoRequest : (ts : List Thread) → All NoRequest ts → All NoRequest (wake_next ts)
unfolding wake_next
wake_next-NoRequest [] h = tt
wake_next-NoRequest (t ∷ ts) h = elim (Bool-cases t.sub.event) [
  | inl e ↦ rw e (h.0, wake_next-NoRequest ts h.1)
  | inr e ↦ rw e (h.0, h.1)
]

set_events-NoRequest : (ts : List Thread) → All NoRequest ts → All NoRequest (map set_event ts)
set_events-NoRequest [] h = tt
set_events-NoRequest (t ∷ ts) h = (h.0, set_events-NoRequest ts h.1)

rerun_loop-NoRequest : (ts : List Thread) → All NoRequest ts → All NoRequest (rerun_loop ts).1
unfolding rerun_loop
rerun_loop-NoRequest [] h = tt
rerun_loop-NoRequest (t ∷ ts) h = elim (Result-cases (is_failed t.sub)) [
  | inl (b, e) ↦ rw (e, rerun_loop) (ground (arith, h.0), rerun_loop-NoRequest ts h.1)
  | inr (x, e) ↦ rw (e, rerun_loop) h
]

rerun_failed-NoRequest :
    (p : Pool) → All NoRequest p.threads → All NoRequest (rerun_failed p).threads
unfolding rerun_failed
rerun_failed-NoRequest p h = elim (Bool-cases (rerun_loop p.threads).0) [
  | inl e ↦ rw e (rerun_loop-NoRequest p.threads h)
  | inr e ↦ rw e (wake_next-NoRequest (rerun_loop p.threads).1 (rerun_loop-NoRequest p.threads h))
]

pool-IsQuiet :
    (ts : List Thread) → All NoRequest ts → IsQuiet (record { user_cancelled = true; threads = ts })
pool-IsQuiet ts h = record { is_cancelled = refl; no_request = h }

after_move-IsQuiet :
    (m : Move) (i : ℕ) (ts : List Thread) (q : Pool)
    → All NoRequest ts
    → after_move true m (move_at true m i ts) ≡ some q
    → IsQuiet q
after_move-IsQuiet m i ts q h k = elim (Option-cases (move_at true m i ts)) [
  | inl e ↦ (let g = rw e at k in absurd cc)
  | inr (us, e) ↦
      let kept = move_at-NoRequest m i ts us h e in
      elim (Bool-cases (wakes m)) [
        | inl w ↦
            rw (sym (some_injective _ _ (rw (e, w) at k)))
              (pool-IsQuiet (wake_next us) (wake_next-NoRequest us kept))
        | inr w ↦ rw (sym (some_injective _ _ (rw (e, w) at k))) (pool-IsQuiet us kept)
      ]
]

step-IsQuiet : (a : Action) (p q : Pool) → IsQuiet p → step a p ≡ some q → IsQuiet q
unfolding step cancel rerun_failed
step-IsQuiet (thread_moves i m) p q h k =
    after_move-IsQuiet m i p.threads q h.no_request (rw h.is_cancelled at k)
step-IsQuiet user_cancels p q h k =
    rw (sym (some_injective _ _ k))
      (pool-IsQuiet (map set_event p.threads) (set_events-NoRequest p.threads h.no_request))
step-IsQuiet user_reruns p q h k =
    rw (sym (some_injective _ _ k))
      (record { is_cancelled = h.is_cancelled; no_request = rerun_failed-NoRequest p h.no_request })

Reaches-IsQuiet : (p q : Pool) → IsQuiet p → Reaches p q → IsQuiet q
Reaches-IsQuiet p q h start = h
Reaches-IsQuiet p r h (next {q} before a e) = step-IsQuiet a q r (Reaches-IsQuiet p q h before) e

no_accepted :
    (j : CircuitJob) (i : ℕ) (ts : List Thread)
    → All NoRequest ts
    → move_at true (accepted j) i ts ≡ none
unfolding move_at move
no_accepted j i [] h = refl
no_accepted j zero (t ∷ ts) h = ground (arith, h.0)
no_accepted j (suc i) (t ∷ ts) h = rw (no_accepted j i ts h.1) refl

-- Once the user has cancelled and no request is under way, no job is submitted any more, whatever
-- happens afterwards: not by the threads, and not after `rerun_failed` either.
pub cancelled_submits_nothing :
    (p q : Pool) (i : ℕ) (j : CircuitJob)
    → IsQuiet p
    → Reaches p q
    → step (thread_moves i (accepted j)) q ≡ none
unfolding step
cancelled_submits_nothing p q i j quiet reached =
    let h = Reaches-IsQuiet p q quiet reached in
    rw h.is_cancelled (rw (no_accepted j i q.threads h.no_request) refl)
