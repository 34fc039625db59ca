-- ===== src/Jobs/Composite/SubJobs.antt =====
-- `SubJob` of qiskit_ibm_provider/job/sub_job.py: the part of a composite job that one circuit job
-- runs. Setting an attribute gives the changed record.
use qiskit_ibm_provider.Common.{
  Result, ℕ, String, Bool, true, false, Option, none, some, List, any, if◌then◌else◌,
}
use qiskit_ibm_provider.Jobs.Status.{JobStatus}
use qiskit_ibm_provider.Jobs.Queue.{QueueInfo}

-- What the methods of an IBMCircuitJob answer or raise while a method of the composite job runs. An
-- exception is its text. `queue_position` answers what an earlier question has kept.
pub record CircuitJob : Type 0 where
  pub job_id : String
  pub status : Result String JobStatus
  pub queue_position : Option ℕ
  pub queue_info : Result String (Option QueueInfo)
  pub error_message : Result String String
  pub scheduling_mode : Option String

-- A Qobj, by the headers of its experiments.
pub record Qobj : Type 0 where
  pub headers : List String

-- The submission of a sub-job in the thread pool.
pub data Future : Type 0 where
  pending finished : Future

pub record SubJob : Type 0 where
  pub start_index : ℕ
  pub end_index : ℕ
  pub job_index : ℕ
  pub total_jobs : ℕ
  pub qobj : Option Qobj
  pub stored_job : Option CircuitJob  -- _job
  pub event : Bool  -- whether it is set
  pub stored_error : Option String  -- _submit_error
  pub future : Option Future

-- `self.future and not self.future.done()`
unfoldable pub is_pending : Option Future → Bool
is_pending none = false
is_pending (some pending) = true
is_pending (some finished) = false

-- The getters of `job` and `submit_error`: nothing while the submission runs.
unfoldable pub job : SubJob → Option CircuitJob
unfolding is_pending
job s = if is_pending s.future then none else s.stored_job

unfoldable pub submit_error : SubJob → Option String
unfolding is_pending
submit_error s = if is_pending s.future then none else s.stored_error

unfoldable pub sub_job : ℕ → ℕ → ℕ → ℕ → Option Qobj → Option CircuitJob → SubJob
sub_job start_index end_index job_index total qobj job = record {
  start_index = start_index;
  end_index = end_index;
  job_index = job_index;
  total_jobs = total;
  qobj = qobj;
  stored_job = job;
  event = false;
  stored_error = none;
  future = none;
}

unfoldable pub reset : SubJob → SubJob
reset s = record {
  start_index = s.start_index;
  end_index = s.end_index;
  job_index = s.job_index;
  total_jobs = s.total_jobs;
  qobj = s.qobj;
  stored_job = none;
  event = false;
  stored_error = none;
  future = none;
}

-- `_has_pending_submit`
unfoldable pub has_pending_submit : List SubJob → Bool
unfolding is_pending
has_pending_submit subs = any (λ s. is_pending s.future) subs

-- Setting one attribute.
unfoldable pub with_event : Bool → SubJob → SubJob
with_event e s = record {
  start_index = s.start_index;
  end_index = s.end_index;
  job_index = s.job_index;
  total_jobs = s.total_jobs;
  qobj = s.qobj;
  stored_job = s.stored_job;
  event = e;
  stored_error = s.stored_error;
  future = s.future;
}

unfoldable pub with_job : CircuitJob → SubJob → SubJob
with_job j s = record {
  start_index = s.start_index;
  end_index = s.end_index;
  job_index = s.job_index;
  total_jobs = s.total_jobs;
  qobj = s.qobj;
  stored_job = some j;
  event = s.event;
  stored_error = s.stored_error;
  future = s.future;
}

unfoldable pub with_submit_error : String → SubJob → SubJob
with_submit_error e s = record {
  start_index = s.start_index;
  end_index = s.end_index;
  job_index = s.job_index;
  total_jobs = s.total_jobs;
  qobj = s.qobj;
  stored_job = s.stored_job;
  event = s.event;
  stored_error = some e;
  future = s.future;
}

unfoldable pub with_future : Future → SubJob → SubJob
with_future f s = record {
  start_index = s.start_index;
  end_index = s.end_index;
  job_index = s.job_index;
  total_jobs = s.total_jobs;
  qobj = s.qobj;
  stored_job = s.stored_job;
  event = s.event;
  stored_error = s.stored_error;
  future = some f;
}
