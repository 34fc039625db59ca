-- ===== src/Jobs/Composite/Submission.antt =====
-- The threads that submit the sub-jobs: the second loop of `_submit_circuits`, `_async_submit`,
-- `cancel` and `rerun_failed` of qiskit_ibm_provider/job/ibm_composite_job.py. A thread moves from one
-- phase to the next, and the moves of the threads may come in any order.
pub mod Progress
pub mod Bound
pub mod Cancelled
pub mod Workers
use qiskit_ibm_provider.Common.{
  Result, ok, raise, ℕ, zero, suc, String, Bool, true, false, Option, none, some, List, [], ◌∷◌,
  if◌then◌else◌, is_some, map, ◌||◌, get_elem?, ◌+◌, ◌≡◌,
}
use qiskit_ibm_provider.Jobs.Status.{JobStatus, initializing, error, cancelled}
use qiskit_ibm_provider.Jobs.Composite.Report.{map_ok}
use qiskit_ibm_provider.Jobs.Composite.SubJobs.{
  CircuitJob, SubJob, Future, pending, finished, job, submit_error, reset, with_event, with_job,
  with_submit_error, with_future,
}

-- Where the thread of a sub-job stands: at `event.wait()`, at the test of `_user_cancelled`, in
-- `_submit_job`, in the `finally` block, or at its end.
pub data Phase : Type 0 where
  waiting checking requesting finishing over : Phase

pub record Thread : Type 0 where
  pub sub : SubJob
  pub phase : Phase

pub record Pool : Type 0 where
  pub user_cancelled : Bool
  pub threads : List Thread

-- One move of a thread. `accepted` and the four after it are what the request answers: a job;
-- IBMBackendJobLimitError, after which the loop goes on; that error, after which the question for the
-- jobs on the server raises an exception; another exception; or a job whose cancellation, asked for
-- since the user has cancelled, raises an exception.
pub data Move : Type 0 where
  wake check finish : Move
  accepted : CircuitJob → Move
  limit_reached listing_raises : Move
  failed : String → Move
  cancel_raises : Move

abbrev at_phase : Phase → SubJob → Thread
at_phase p s = record { sub = s; phase = p }

-- The thread after the move, if the move is possible.
unfoldable pub move : Bool → Move → Thread → Option Thread
move user_cancelled m t = elim t.phase [
  | waiting ↦ elim m [
    | wake ↦ if t.sub.event then some (at_phase checking t.sub) else none
    | _ ↦ none
  ]
  | checking ↦ elim m [
    | check ↦ some (at_phase (if user_cancelled then finishing else requesting) t.sub)
    | _ ↦ none
  ]
  | requesting ↦ elim m [
    | accepted j ↦ some (at_phase finishing (with_job j t.sub))
    | limit_reached ↦ some (at_phase checking t.sub)
    | listing_raises ↦ some (at_phase finishing t.sub)
    | failed e ↦ some (at_phase finishing (with_submit_error e t.sub))
    | cancel_raises ↦ if user_cancelled then some (at_phase finishing t.sub) else none
    | _ ↦ none
  ]
  | finishing ↦ elim m [ finish ↦ some (at_phase over (with_future finished t.sub)) | _ ↦ none ]
  | over ↦ none
]

-- Wake up the next submit: the first event that is not set is set.
unfoldable pub wake_next : List Thread → List Thread
wake_next [] = []
wake_next (t ∷ ts) =
    let rest = wake_next ts in
    if t.sub.event then t ∷ rest else at_phase t.phase (with_event true t.sub) ∷ ts

-- The move of the i-th thread.
unfoldable pub move_at : Bool → Move → ℕ → List Thread → Option (List Thread)
unfolding move
move_at c m i [] = none
move_at c m zero (t ∷ ts) = elim (move c m t) [ none ↦ none | some u ↦ some (u ∷ ts) ]
move_at c m (suc i) (t ∷ ts) = elim (move_at c m i ts) [ none ↦ none | some us ↦ some (t ∷ us) ]

abbrev pub wakes : Move → Bool
wakes finish = true
wakes _ = false

abbrev pub after_move : Bool → Move → Option (List Thread) → Option Pool
after_move c m none = none
after_move c m (some ts) =
    some (record { user_cancelled = c; threads = if wakes m then wake_next ts else ts })

-- `cancel`: the flag is set, and all pending job submits are woken up.
unfoldable pub cancel : Pool → Pool
cancel p = record {
  user_cancelled = true;
  threads = map (λ t. at_phase t.phase (with_event true t.sub)) p.threads;
}

abbrev is_rerun : JobStatus → Bool
is_rerun error = true
is_rerun cancelled = true
is_rerun _ = false

-- The test of `rerun_failed`; the status is asked for only when there is no submit error.
unfoldable pub is_failed : SubJob → Result String Bool
is_failed s = elim (submit_error s) [
  | some e ↦ ok true
  | none ↦ elim (job s) [ none ↦ ok false | some j ↦ map_ok is_rerun j.status ]
]

abbrev pub restarted : Thread → Thread
restarted t = at_phase waiting (with_future pending (reset t.sub))

-- The loop of `rerun_failed`, and whether it ends with an exception: then the sub-jobs from that one
-- on are left as they were.
unfoldable pub rerun_loop : List Thread → Bool × List Thread
unfolding is_failed
rerun_loop [] = (false, [])
rerun_loop (t ∷ ts) =
    let rest = rerun_loop ts in
    elim (is_failed t.sub) [
      | raise e ↦ (true, t ∷ ts)
      | ok failed_before ↦ (rest.0, (if failed_before then restarted t else t) ∷ rest.1)
    ]

-- `rerun_failed`, the threads.
unfoldable pub rerun_failed : Pool → Pool
unfolding rerun_loop wake_next
rerun_failed p =
    let (raised, ts) = rerun_loop p.threads in
    record { user_cancelled = p.user_cancelled; threads = if raised then ts else wake_next ts }

-- What happens to the threads.
pub data Action : Type 0 where
  thread_moves : ℕ → Move → Action
  user_cancels user_reruns : Action

unfoldable pub step : Action → Pool → Option Pool
unfolding move_at wake_next cancel rerun_failed
step (thread_moves i m) p = after_move p.user_cancelled m (move_at p.user_cancelled m i p.threads)
step user_cancels p = some (cancel p)
step user_reruns p = some (rerun_failed p)

-- The pools that come of a pool.
pub data Reaches (p : Pool) : Pool → Type 0 where
  start : Reaches p p
  next : {q r : Pool} → Reaches p q → (a : Action) → step a q ≡ some r → Reaches p r

unfoldable pub submit_thread : SubJob → Thread
submit_thread s = at_phase waiting (with_future pending s)

-- The threads of `_submit_circuits`: the first job is told that it can be submitted. For no
-- sub-job the code raises IndexError.
unfoldable pub submit_circuits : SubJob → List SubJob → Pool
unfolding submit_thread
submit_circuits s ss = record {
  user_cancelled = false;
  threads = submit_thread (with_event true s) ∷ map submit_thread ss;
}
