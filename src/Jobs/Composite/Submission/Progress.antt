-- ===== src/Jobs/Composite/Submission/Progress.antt =====
-- While a thread waits for its event, another one is active, which will wake it up.
use qiskit_ibm_provider.Common.{
  ℕ, zero, suc, ◌≡◌, ◌≢◌, refl, sym, ap, Bool, true, false, Option, none, some, List, [], ◌∷◌, any,
  All, map, not, ◌&&◌, ◌⊎◌, arith, Bool-cases, Option-cases, inl, inr,
}
use qiskit_ibm_provider.Jobs.Composite.SubJobs.{
  SubJob, with_event, with_job, with_submit_error, with_future,
}
use qiskit_ibm_provider.Jobs.Composite.Submission.{
  Phase, waiting, checking, requesting, finishing, over, Thread, Pool, Move, wake, check, finish,
  failed, limit_reached, move, after_move, wake_next, move_at, wakes, submit_thread,
  submit_circuits,
}

abbrev pub is_over : Thread → Bool
is_over t = elim t.phase [ over ↦ true | _ ↦ false ]

-- The thread waits for an event that is not set.
abbrev pub is_blocked : Thread → Bool
is_blocked t = not t.sub.event

-- The thread has been woken up and has not ended.
abbrev pub is_active : Thread → Bool
is_active t = t.sub.event && not (is_over t)

-- A thread whose event is not set still waits for it.
abbrev pub Sound : Thread → Type 0
Sound t = t.sub.event ≡ false → t.phase ≡ waiting

-- While a thread is blocked another one is active, which will wake it up.
abbrev pub Live : List Thread → Type 0
Live ts = All Sound ts × (any is_blocked ts ≡ true → any is_active ts ≡ true)

wake_next-Sound : (ts : List Thread) → All Sound ts → All Sound (wake_next ts)
unfolding wake_next with_event
wake_next-Sound [] h = tt
wake_next-Sound (t ∷ ts) h = elim (Bool-cases t.sub.event) [
  | inl e ↦ rw e ((λ k. absurd cc), wake_next-Sound ts h.1)
  | inr e ↦ rw e ((λ k. absurd cc), h.1)
]

wake_next-active :
    (ts : List Thread)
    → All Sound ts
    → any is_blocked (wake_next ts) ≡ true
    → any is_active (wake_next ts) ≡ true
unfolding wake_next with_event
wake_next-active [] h k = cc
wake_next-active (t ∷ ts) h k = ground (arith, wake_next-active ts)

wake_next-Live : (ts : List Thread) → All Sound ts → Live (wake_next ts)
wake_next-Live ts h = (wake_next-Sound ts h, wake_next-active ts h)

-- Only a thread whose event is set moves, and the event stays set.
pub move-event :
    (c : Bool) (m : Move) (t u : Thread) → Sound t → move c m t ≡ some u → u.sub.event ≡ true
unfolding move with_job with_submit_error with_future
move-event c m t u h k = ground arith

move-is_active :
    (c : Bool) (m : Move) (t u : Thread)
    → Sound t
    → wakes m ≡ false
    → move c m t ≡ some u
    → is_active u ≡ true
unfolding move with_job with_submit_error with_future
move-is_active c m t u h w k = ground arith

-- What a move of the i-th thread gives.
pub move_at_cases :
    (c : Bool) (m : Move) (i : ℕ) (t : Thread) (ts us : List Thread)
    → move_at c m i (t ∷ ts) ≡ some us
    → ((u : Thread) × (move c m t ≡ some u) × (us ≡ u ∷ ts) × (i ≡ 0))
      ⊎ ((j : ℕ) × (vs : List Thread) × (i ≡ suc j) × (move_at c m j ts ≡ some vs) × (us ≡ t ∷ vs))
unfolding move_at
move_at_cases c m zero t ts us h = elim (Option-cases (move c m t)) [
  | inl e ↦ (let k = rw (e, move_at) at h in absurd cc)
  | inr (u, e) ↦ inl (u, e, (let k = rw (e, move_at) at h in cc), refl)
]
move_at_cases c m (suc j) t ts us h = elim (Option-cases (move_at c m j ts)) [
  | inl e ↦ (let k = rw (e, move_at) at h in absurd cc)
  | inr (vs, e) ↦ inr (j, vs, refl, e, (let k = rw (e, move_at) at h in cc))
]

pub move_at-Sound :
    (c : Bool) (m : Move) (i : ℕ) (ts us : List Thread)
    → All Sound ts
    → move_at c m i ts ≡ some us
    → All Sound us
unfolding move_at
move_at-Sound c m i [] us h k = absurd cc
move_at-Sound c m i (t ∷ ts) us h k = elim (move_at_cases c m i t ts us k) [
  | inl (u, e, same, _) ↦ rw same ((λ f. absurd (let g = move-event c m t u h.0 e in cc)), h.1)
  | inr (j, vs, _, e, same) ↦ rw same (h.0, move_at-Sound c m j ts vs h.1 e)
]

move_at-is_active :
    (c : Bool) (m : Move) (i : ℕ) (ts us : List Thread)
    → All Sound ts
    → wakes m ≡ false
    → move_at c m i ts ≡ some us
    → any is_active us ≡ true
unfolding move_at
move_at-is_active c m i [] us h w k = absurd cc
move_at-is_active c m i (t ∷ ts) us h w k = elim (move_at_cases c m i t ts us k) [
  | inl (u, e, same, _) ↦ rw (same, move-is_active c m t u h.0 w e) refl
  | inr (j, vs, _, e, same) ↦
      (let rest = move_at-is_active c m j ts vs h.1 w e in rw same (ground arith))
]

abbrev pub threads_of : Option Pool → List Thread
threads_of none = []
threads_of (some p) = p.threads

pub move_at-Live :
    (c : Bool) (m : Move) (i : ℕ) (p q : Pool)
    → Live p.threads
    → after_move c m (move_at c m i p.threads) ≡ some q
    → Live q.threads
move_at-Live c m i p q h k = elim (Option-cases (move_at c m i p.threads)) [
  | inl e ↦ (let g = rw e at k in absurd cc)
  | inr (us, e) ↦
      let sound = move_at-Sound c m i p.threads us h.0 e in
      elim (Bool-cases (wakes m)) [
        | inl w ↦ rw (sym (ap threads_of (rw (e, w) at k))) (wake_next-Live us sound)
        | inr w ↦
            rw (sym (ap threads_of (rw (e, w) at k)))
              (sound, λ _. move_at-is_active c m i p.threads us h.0 w e)
      ]
]

abbrev pub set_event : Thread → Thread
set_event t = record { sub = with_event true t.sub; phase = t.phase }

set_events-Sound : (ts : List Thread) → All Sound (map set_event ts)
unfolding with_event
set_events-Sound [] = tt
set_events-Sound (t ∷ ts) = ((λ f. absurd cc), set_events-Sound ts)

set_events-not_blocked : (ts : List Thread) → any is_blocked (map set_event ts) ≡ false
unfolding with_event
set_events-not_blocked [] = refl
set_events-not_blocked (t ∷ ts) = set_events-not_blocked ts

pub set_events-Live : (ts : List Thread) → Live (map set_event ts)
set_events-Live ts = (set_events-Sound ts, λ f. absurd (let g = set_events-not_blocked ts in cc))

submit_threads-Sound : (ss : List SubJob) → All Sound (map submit_thread ss)
unfolding submit_thread
submit_threads-Sound [] = tt
submit_threads-Sound (s ∷ ss) = ((λ _. refl), submit_threads-Sound ss)

pub submit_circuits-Live : (s : SubJob) (ss : List SubJob) → Live (submit_circuits s ss).threads
unfolding submit_circuits submit_thread with_event with_future
submit_circuits-Live s ss = (((λ _. refl), submit_threads-Sound ss), λ _. refl)

-- A thread that has been woken up and has not ended can move.
pub is_active-moves :
    (c : Bool) (phase : Phase) (s : SubJob)
    → is_active (record { sub = s; phase = phase }) ≡ true
    → (m : Move) × (u : Thread) × (move c m (record { sub = s; phase = phase }) ≡ some u)
      × (m ≢ limit_reached)
unfolding move
is_active-moves c waiting s h = (wake, record { sub = s; phase = checking }, ground arith, λ e. cc)
is_active-moves c checking s h = (check, _, refl, λ e. cc)
is_active-moves c requesting s h = (failed "", _, refl, λ e. cc)
is_active-moves c finishing s h = (finish, _, refl, λ e. cc)
is_active-moves c over s h = absurd (ground arith)
