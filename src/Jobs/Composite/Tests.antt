-- ===== src/Jobs/Composite/Tests.antt =====
-- The theorems on composite jobs, applied to concrete jobs.
use mathlib.Core.List.{Memᴰ}
use qiskit_ibm_provider.Common.{
  ℕ, ◌+◌, ◌*◌, String, ◌≡◌, ◌≢◌, ◌≤◌, ◌⊎◌, refl, true, Option, none, some, List, [], ◌∷◌, All, all,
  ok, raise, length, arith,
}
use qiskit_ibm_provider.Jobs.Status.{JobStatus, done}
use qiskit_ibm_provider.Jobs.Composite.SubJobs.{
  CircuitJob, Qobj, SubJob, finished, job, is_pending, sub_job, has_pending_submit, with_event,
  with_future,
}
use qiskit_ibm_provider.Jobs.Composite.Assembly.{
  circuit_sub_job, assemble_all, invalid_state, circuit_sub_job-out_of_range,
}
use qiskit_ibm_provider.Jobs.Composite.Refresh.{
  CompositeJob, first_exception, refresh, is_settled, status_of, with_the_status, job_queue_info,
  queue_info,
}
use qiskit_ibm_provider.Jobs.Composite.Refresh.Precedence.{IsDecided, refresh-IsDecided}
use qiskit_ibm_provider.Jobs.Composite.Refresh.Position.{IsQueued, shown, queue_info_last_queued}
use qiskit_ibm_provider.Jobs.Composite.Submission.{
  Pool, Move, wake, check, limit_reached, accepted, thread_moves, user_reruns, step, start, next,
  submit_circuits, submit_thread, cancel, rerun_failed, move, move_at,
}
use qiskit_ibm_provider.Jobs.Composite.Submission.Progress.{is_over}
use qiskit_ibm_provider.Jobs.Composite.Submission.Workers.{
  has_worker, begin, cancels, submission_not_stuck,
}
use qiskit_ibm_provider.Jobs.Composite.Assembly
use qiskit_ibm_provider.Jobs.Composite.Refresh.LastQueued.{NoLater}
use qiskit_ibm_provider.Jobs.Composite.Submission.Bound.{stay, moves, submission_moves_le}
use qiskit_ibm_provider.Jobs.Composite.Submission.Cancelled.{IsQuiet, cancelled_submits_nothing}
use qiskit_ibm_provider.Jobs.Composite.Callback.{
  Reporter, Call, Report, reports, close_calls_silent,
}
use qiskit_ibm_provider.Jobs.Tags.{Indexes}

-- Circuits are texts, and a Qobj has them as headers.
abbrev assemble : List String → Qobj
assemble cs = record { headers = cs }

abbrev numbered_job : ℕ → CircuitJob
numbered_job k = record {
  job_id = "id";
  status = ok done;
  queue_position = some k;
  queue_info = ok none;
  error_message = ok "";
  scheduling_mode = none;
}

circuit_sub_job-out_of_range_example :
    circuit_sub_job (assemble_all assemble (("a" ∷ "b" ∷ []) ∷ ("c" ∷ []) ∷ [])) 3
    ≡ raise (invalid_state 3 2)
circuit_sub_job-out_of_range_example =
    circuit_sub_job-out_of_range assemble ("a" ∷ "b" ∷ []) (("c" ∷ []) ∷ []) 3
      (omega arith, (omega arith, tt)) (omega arith)

-- A sub-job whose circuit job has the status and the position in the queue.
abbrev submitted : JobStatus → Option ℕ → SubJob
submitted status position = record {
  start_index = 0;
  end_index = 1;
  job_index = 0;
  total_jobs = 2;
  qobj = none;
  stored_job = some (record {
    job_id = "id";
    status = ok status;
    queue_position = position;
    queue_info = ok (some (record { position = position; estimated_complete_time = none }));
    error_message = ok "";
    scheduling_mode = some "fairshare";
  });
  event = true;
  stored_error = none;
  future = some finished;
}

abbrev two_queued : CompositeJob
two_queued = record {
  status = JobStatus.initializing;
  job_error_msg = none;
  queue_info = none;
  sub_jobs = submitted JobStatus.queued (some 4) ∷ submitted JobStatus.queued (some 2) ∷ [];
}

refresh-IsDecided_example : IsDecided two_queued (refresh two_queued)
unfolding has_pending_submit is_pending is_settled first_exception status_of job
refresh-IsDecided_example =
    refresh-IsDecided two_queued (submitted JobStatus.queued (some 4))
      (submitted JobStatus.queued (some 2) ∷ []) refl refl refl refl

two_queued-IsQueued : IsQueued two_queued
unfolding has_pending_submit is_pending is_settled first_exception status_of job
two_queued-IsQueued = record {
  no_pending = refl;
  not_settled = refl;
  no_exception = refl;
  no_initializing = refl;
  no_validating = refl;
  some_queued = refl;
}

queue_info_last_queued_example :
    (s : SubJob) × Memᴰ s two_queued.sub_jobs
    × (status_of s ≡ ok JobStatus.queued)
    × All (λ t. NoLater t s) (with_the_status JobStatus.queued two_queued.sub_jobs)
    × (queue_info two_queued ≡ shown two_queued (job_queue_info s))
queue_info_last_queued_example = queue_info_last_queued two_queued two_queued-IsQueued

abbrev new_part : SubJob
new_part = sub_job 0 1 0 2 none none

abbrev two_threads : Pool
two_threads = submit_circuits new_part (sub_job 2 3 1 2 none none ∷ [])

submission_not_stuck_example :
    (all is_over (cancel two_threads).threads ≡ true)
    ⊎ ((i : ℕ) × (m : Move) × (r : Pool) × (has_worker 1 i (cancel two_threads).threads ≡ true)
        × (step (thread_moves i m) (cancel two_threads) ≡ some r)
        × (m ≢ limit_reached))
unfolding step sub_job
submission_not_stuck_example =
    submission_not_stuck 1 new_part (sub_job 2 3 1 2 none none ∷ []) (cancel two_threads)
      (omega arith) refl (cancels begin refl)

submission_moves_le_example : 2 ≤ 4 * (1 + length (sub_job 2 3 1 2 none none ∷ [])) + 0
unfolding step submit_circuits submit_thread move_at move with_event with_future sub_job
submission_moves_le_example =
    submission_moves_le new_part (sub_job 2 3 1 2 none none ∷ []) _
      (moves (moves stay 0 wake refl refl) 0 check refl refl)

abbrev a_job : CircuitJob
a_job = record {
  job_id = "id";
  status = ok done;
  queue_position = none;
  queue_info = ok none;
  error_message = ok "";
  scheduling_mode = none;
}

cancelled_two-IsQuiet : IsQuiet (cancel two_threads)
unfolding cancel submit_circuits submit_thread
cancelled_two-IsQuiet = record { is_cancelled = refl; no_request = ((λ e. cc), ((λ e. cc), tt)) }

cancelled_submits_nothing_example :
    step (thread_moves 0 (accepted a_job)) (rerun_failed (cancel two_threads)) ≡ none
unfolding step
cancelled_submits_nothing_example =
    cancelled_submits_nothing (cancel two_threads) (rerun_failed (cancel two_threads)) 0 a_job
      cancelled_two-IsQuiet (next start user_reruns refl)

-- Two calls within the wait value of ten, the second one with a change of the status.
abbrev reporter : Reporter
reporter = record {
  job_statuses = [];
  last_reported_stat = none;
  last_reported_time = 100;
  user_wait_value = some 10;
}

abbrev two_calls : List Call
two_calls =
    record { cur_time = 106; job_id = "id"; job_status = JobStatus.queued; queue_info = none }
    ∷ record { cur_time = 112; job_id = "id"; job_status = done; queue_info = none }
    ∷ []

close_calls_silent_example :
    (xs : List (Option Report)) × (reports two_calls reporter ≡ some xs) × All (λ x. x ≡ none) xs
close_calls_silent_example =
    close_calls_silent two_calls reporter 10 refl
      (omega arith, omega arith, (omega arith, omega arith, tt))

-- The second of two sub-jobs, and the first one.
abbrev second_part : Indexes × CircuitJob
second_part = (record { job_index = 1; total_jobs = 2; start_index = 300; end_index = 412 }, a_job)

abbrev first_part : Indexes × CircuitJob
first_part = (record { job_index = 0; total_jobs = 2; start_index = 0; end_index = 299 }, a_job)
