-- ===== src/Jobs/Composite/Refresh/Position.antt =====
-- What `queue_info` and `queue_position` of a composite job answer.
use mathlib.Core.List.{Memᴰ}
use qiskit_ibm_provider.Common.{
  String, Option, none, ℕ, ◌≡◌, ◌≢◌, refl, Bool, true, false, some, All, Result, ok, raise, arith,
  if◌then◌else◌,
}
use qiskit_ibm_provider.Jobs.Status.{initializing, validating, queued}
use qiskit_ibm_provider.Jobs.Queue.{QueueInfo}
use qiskit_ibm_provider.Jobs.Composite.SubJobs.{SubJob, has_pending_submit}
use qiskit_ibm_provider.Jobs.Composite.Refresh.LastQueued.{NoLater, last_queued_latest}
use qiskit_ibm_provider.Jobs.Composite.Refresh.{
  CompositeJob, RefreshError, Refreshed, call_error, first_exception, keep_queue_info,
  answer_queue_info, refresh_sub_jobs_answered, with_status, with_queue_info, status_of, has_status,
  with_the_status, refresh_by_statuses, is_settled, refresh, job_queue_info, queue_info,
  queue_position, read_position, then_read_position,
}

-- The submissions have ended, the status is not settled, and a queued sub-job decides it.
pub record IsQueued (c : CompositeJob) : Type 0 where
  pub no_pending : has_pending_submit c.sub_jobs ≡ false
  pub not_settled : is_settled c ≡ false
  pub no_exception : first_exception c.sub_jobs ≡ none
  pub no_initializing : has_status initializing c.sub_jobs ≡ false
  pub no_validating : has_status validating c.sub_jobs ≡ false
  pub some_queued : has_status queued c.sub_jobs ≡ true

-- The queue information is answered and kept, or its exception is raised; the status is QUEUED.
abbrev pub shown :
    CompositeJob
    → Result String (Option QueueInfo)
    → Result RefreshError (Option QueueInfo) × CompositeJob
shown c (ok q) = (ok q, with_queue_info q (with_status queued c))
shown c (raise e) = (raise (call_error e), with_status queued c)

answer-keep_queue_info :
    (c : CompositeJob) (r : Result String (Option QueueInfo))
    → answer_queue_info (keep_queue_info (with_status queued c) r) ≡ shown c r
answer-keep_queue_info c (ok q) = refl
answer-keep_queue_info c (raise e) = refl

-- When the calls of `status` raise nothing and queued sub-jobs decide the status of a composite job,
-- `queue_info` asks a queued sub-job for its queue information, such that no queued sub-job has a later
-- position. The positions are those that the jobs have kept from earlier questions; one that is not
-- known, as before the first question, counts as the last. The answer is returned and kept, or its
-- exception is raised, and the status is QUEUED.
pub queue_info_last_queued :
    (c : CompositeJob)
    → IsQueued c
    → (s : SubJob) × Memᴰ s c.sub_jobs
      × (status_of s ≡ ok queued)
      × All (λ t. NoLater t s) (with_the_status queued c.sub_jobs)
      × (queue_info c ≡ shown c (job_queue_info s))
unfolding queue_info refresh refresh_by_statuses
queue_info_last_queued c h =
    let (s, found, member, is_queued, latest) = last_queued_latest c.sub_jobs h.some_queued in
    (
      s,
      member,
      is_queued,
      latest,
      rw
          (
            h.no_pending,
            h.not_settled,
            refresh_sub_jobs_answered c h.no_exception,
            h.no_initializing,
            h.no_validating,
            h.some_queued,
            found,
          )
          (answer-keep_queue_info c (job_queue_info s)),
    )

read_position_none : (c d : CompositeJob) (n : ℕ) → read_position c ≢ (ok (some n), d)
read_position_none c d n h = ground arith

then_read_position_none :
    (r : Refreshed) (d : CompositeJob) (n : ℕ) → then_read_position r ≢ (ok (some n), d)
then_read_position_none (ok x, c) d n h = read_position_none c d n h
then_read_position_none (raise e, c) d n h = cc

-- `queue_position` never answers a position, whatever the state of the job: it answers None or
-- raises.
queue_position_unknown :
    (again : Bool) (c d : CompositeJob) (n : ℕ) → queue_position again c ≢ (ok (some n), d)
unfolding queue_position
queue_position_unknown again c d n h =
    then_read_position_none (if again then refresh c else (ok tt, c)) d n h
