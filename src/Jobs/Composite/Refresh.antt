-- ===== src/Jobs/Composite/Refresh.antt =====
-- The status of a composite job: `_update_status_queue_info_error`, `queue_position` and `queue_info`
-- of qiskit_ibm_provider/job/ibm_composite_job.py.
pub mod Precedence
pub mod LastQueued
pub mod Position
use qiskit_ibm_provider.Common.{
  ◌≡◌, refl, ℕ, String, Bool, true, false, Option, none, some, List, [], ◌∷◌, if◌then◌else◌,
  is_some, any, not, ◌&&◌, ◌||◌, Result, ok, raise, ltb,
}
use qiskit_ibm_provider.Common.Sort.{sorted, last?}
use qiskit_ibm_provider.Jobs.Status.{
  JobStatus, initializing, validating, queued, running, error, cancelled, done, same_status,
}
use qiskit_ibm_provider.Jobs.Queue.{QueueInfo, queue_pos}
use qiskit_ibm_provider.Jobs.Composite.SubJobs.{
  CircuitJob, SubJob, job, submit_error, has_pending_submit,
}
use qiskit_ibm_provider.Jobs.Composite.Report.{error_report}

-- The attributes of the composite job that the refresh reads and writes.
pub record CompositeJob : Type 0 where
  pub status : JobStatus
  pub job_error_msg : Option String
  pub queue_info : Option QueueInfo
  pub sub_jobs : List SubJob

pub data RefreshError : Type 0 where
  invalid_status : RefreshError  -- IBMJobInvalidStateError
  index_error : RefreshError  -- IndexError
  attribute_error : RefreshError  -- AttributeError
  call_error : String → RefreshError  -- what a method of a sub-job's job raises

abbrev pub with_status : JobStatus → CompositeJob → CompositeJob
with_status stat c = record {
  status = stat;
  job_error_msg = c.job_error_msg;
  queue_info = c.queue_info;
  sub_jobs = c.sub_jobs;
}

abbrev pub with_queue_info : Option QueueInfo → CompositeJob → CompositeJob
with_queue_info q c = record {
  status = c.status;
  job_error_msg = c.job_error_msg;
  queue_info = q;
  sub_jobs = c.sub_jobs;
}

abbrev pub with_error_msg : String → CompositeJob → CompositeJob
with_error_msg text c = record {
  status = c.status;
  job_error_msg = some text;
  queue_info = c.queue_info;
  sub_jobs = c.sub_jobs;
}

-- What the refresh answers or raises, and the job that it leaves.
abbrev pub Refreshed : Type 0
Refreshed = Result RefreshError (Unit {0}) × CompositeJob

-- The key of `statuses` under which a sub-job is put.
unfoldable pub status_of : SubJob → Result String JobStatus
status_of s = elim (job s) [
  | some j ↦ j.status
  | none ↦ ok (if is_some (submit_error s) then error else initializing)
]

-- What the first call of `status` that raises an exception raises.
unfoldable pub first_exception : List SubJob → Option String
unfolding status_of
first_exception [] = none
first_exception (s ∷ ss) =
    let rest = first_exception ss in elim (status_of s) [ raise e ↦ some e | ok stat ↦ rest ]

abbrev pub is_status : JobStatus → Result String JobStatus → Bool
is_status stat (ok t) = same_status t stat
is_status stat (raise e) = false

-- `stat in statuses`
abbrev pub has_status : JobStatus → List SubJob → Bool
has_status stat subs = any (λ s. is_status stat (status_of s)) subs

-- `statuses[stat]`
unfoldable pub with_the_status : JobStatus → List SubJob → List SubJob
unfolding status_of
with_the_status stat [] = []
with_the_status stat (s ∷ ss) =
    let rest = with_the_status stat ss in if is_status stat (status_of s) then s ∷ rest else rest

-- `sub_j.job.queue_position()`
abbrev pub job_queue_position : SubJob → Option ℕ
job_queue_position s = elim (job s) [ some j ↦ j.queue_position | none ↦ none ]

-- `sub_j.job.queue_info()`
abbrev pub job_queue_info : SubJob → Result String (Option QueueInfo)
job_queue_info s = elim (job s) [ some j ↦ j.queue_info | none ↦ ok none ]

-- Comparing the keys `(position is None, position)`.
unfoldable pub position_after : Option ℕ → Option ℕ → Bool
position_after none none = false
position_after none (some b) = true
position_after (some a) none = false
position_after (some a) (some b) = ltb b a

abbrev pub queued_after : SubJob → SubJob → Bool
queued_after s t = position_after (job_queue_position s) (job_queue_position t)

-- `last_queued`; `none` is the IndexError of an empty list.
unfoldable pub last_queued : List SubJob → Option SubJob
unfolding with_the_status sorted
last_queued subs = last? (sorted queued_after (with_the_status queued subs))

abbrev pub keep_queue_info : CompositeJob → Result String (Option QueueInfo) → Refreshed
keep_queue_info c (raise e) = (raise (call_error e), c)
keep_queue_info c (ok q) = (ok tt, with_queue_info q c)

abbrev pub set_queue_info : CompositeJob → Option SubJob → Refreshed
set_queue_info c none = (raise index_error, c)
set_queue_info c (some s) = keep_queue_info c (job_queue_info s)

abbrev pub keep_error : CompositeJob → Result String String → Refreshed
keep_error c (raise e) = (raise (call_error e), c)
keep_error c (ok text) = (ok tt, with_error_msg text c)

abbrev pub set_error : CompositeJob → List SubJob → Refreshed
set_error c [] = (raise index_error, c)
set_error c (s ∷ ss) = keep_error c (error_report s ss)

-- From the statuses of the sub-jobs on.
unfoldable pub refresh_by_statuses : CompositeJob → Refreshed
unfolding with_the_status
refresh_by_statuses c =
    let subs = c.sub_jobs in
    if has_status initializing subs
    then (ok tt, with_status initializing c)
    else if has_status validating subs
    then (ok tt, with_status validating c)
    else if has_status queued subs
    then set_queue_info (with_status queued c) (last_queued subs)
    else if has_status running subs
    then (ok tt, with_status running c)
    else if has_status error subs
    then set_error (with_status error c) (with_the_status error subs)
    else if has_status cancelled subs
    then (ok tt, with_status cancelled c)
    else if has_status done subs
    then (ok tt, with_status done c)
    else (raise invalid_status, c)

-- The loop over the sub-jobs, in which each call of `status` may raise, and what comes after it.
unfoldable pub refresh_sub_jobs : CompositeJob → Refreshed
unfolding first_exception refresh_by_statuses
refresh_sub_jobs c = elim (first_exception c.sub_jobs) [
  | some e ↦ (raise (call_error e), c)
  | none ↦ refresh_by_statuses c
]

pub refresh_sub_jobs_answered :
    (c : CompositeJob)
    → first_exception c.sub_jobs ≡ none
    → refresh_sub_jobs c ≡ refresh_by_statuses c
unfolding refresh_sub_jobs
refresh_sub_jobs_answered c h = rw (h, refresh_sub_jobs) refl

-- The status that is not looked up again.
unfoldable pub is_settled : CompositeJob → Bool
is_settled c = elim c.status [
  | cancelled ↦ true
  | done ↦ true
  | error ↦ is_some c.job_error_msg
  | _ ↦ false
]

-- `_update_status_queue_info_error`
unfoldable pub refresh : CompositeJob → Refreshed
unfolding refresh_sub_jobs is_settled
refresh c =
    if has_pending_submit c.sub_jobs
    then (ok tt, with_status initializing c)
    else if is_settled c
    then (ok tt, c)
    else refresh_sub_jobs c

abbrev if_queued : CompositeJob → CompositeJob
if_queued c = if same_status c.status queued then c else with_queue_info none c

-- `queue_info`: the answer and the job after it.
abbrev pub answer_queue_info : Refreshed → Result RefreshError (Option QueueInfo) × CompositeJob
answer_queue_info (raise e, c) = (raise e, c)
answer_queue_info (ok x, c) = (ok (if_queued c).queue_info, if_queued c)

unfoldable pub queue_info : CompositeJob → Result RefreshError (Option QueueInfo) × CompositeJob
unfolding refresh
queue_info c = answer_queue_info (refresh c)

-- `queue_position` reads the attribute `queue_position` of the QueueInfo, which has none.
abbrev pub read_position : CompositeJob → Result RefreshError (Option ℕ) × CompositeJob
read_position c =
    if same_status c.status queued
    then elim c.queue_info [ none ↦ (ok none, c) | some q ↦ (raise attribute_error, c) ]
    else (ok none, with_queue_info none c)

abbrev pub then_read_position : Refreshed → Result RefreshError (Option ℕ) × CompositeJob
then_read_position (raise e, c) = (raise e, c)
then_read_position (ok x, c) = read_position c

unfoldable pub queue_position : Bool → CompositeJob → Result RefreshError (Option ℕ) × CompositeJob
unfolding refresh
queue_position again c = then_read_position (if again then refresh c else (ok tt, c))
