-- ===== src/Jobs/Queue.antt =====
-- The job that is last to finish: `last_job_stat_pos` of qiskit_ibm_provider/job/utils.py, over the
-- parts of qiskit_ibm_provider/job/queueinfo.py that it reads. Times are numbers of seconds, and
-- `sorted` is that of Common/Sort.
pub mod Order
use qiskit_ibm_provider.Common.{
  ◌<◌, ℕ, zero, String, Bool, true, false, Option, none, some, List, [], ◌∷◌, if◌then◌else◌, ◌==◌,
  ltb, last_of,
}
use qiskit_ibm_provider.Common.Sort.{sorted, last?}
use qiskit_ibm_provider.Jobs.Status.{JobStatus, job_status_to_int}

pub record QueueInfo : Type 0 where
  pub position : Option ℕ
  pub estimated_complete_time : Option ℕ

-- `int(position_in_queue) if position_in_queue else None`: position 0 is false.
unfoldable pub position_of : Option ℕ → Option ℕ
position_of none = none
position_of (some p) = if p == 0 then none else some p

-- QueueInfo.__init__, the attributes that are read here.
unfoldable pub queue_info : Option ℕ → Option ℕ → QueueInfo
unfolding position_of
queue_info position_in_queue estimated_completion_time = record {
  position = position_of position_in_queue;
  estimated_complete_time = estimated_completion_time;
}

pub record JobStatusQueueInfo : Type 0 where
  pub status : JobStatus
  pub queue_info : Option QueueInfo

abbrev pub queue_pos : Option QueueInfo → Option ℕ
queue_pos none = none
queue_pos (some q) = q.position

abbrev pub est_comp : Option QueueInfo → Option ℕ
est_comp none = none
est_comp (some q) = q.estimated_complete_time

-- An unknown number is later than each that is known.
abbrev pub Earlier : Option ℕ → Option ℕ → Type 0
Earlier none b = ⊥
Earlier (some a) none = Unit
Earlier (some a) (some b) = a < b

-- What comparing `(x is None, x)` with `(y is None, y)` gives: None comes last.
pub data Side : Type 0 where
  before same after : Side

abbrev pub compare_numbers : ℕ → ℕ → Side
compare_numbers a b = if ltb a b then before else if a == b then same else after

abbrev pub compare_optional : Option ℕ → Option ℕ → Side
compare_optional none none = same
compare_optional none (some b) = after
compare_optional (some a) none = before
compare_optional (some a) (some b) = compare_numbers a b

abbrev pub or_next : Side → Side → Side
or_next before s = before
or_next same s = s
or_next after s = after

-- The tuple (-status, pos is None, pos, est is None, est).
pub record SortKey : Type 0 where
  pub stage : ℕ
  pub pos : Option ℕ
  pub est : Option ℕ

unfoldable pub sort_3_keys : JobStatusQueueInfo → SortKey
sort_3_keys elem = record {
  stage = job_status_to_int elem.status;
  pos = queue_pos elem.queue_info;
  est = est_comp elem.queue_info;
}

-- The comparison of two such tuples; `stage` stands there with a minus.
unfoldable pub compare_keys : SortKey → SortKey → Side
compare_keys a b =
    or_next (compare_numbers b.stage a.stage)
      (or_next (compare_optional a.pos b.pos) (compare_optional a.est b.est))

abbrev pub is_after : Side → Bool
is_after after = true
is_after _ = false

-- The test by which the jobs are sorted.
abbrev pub comes_after : JobStatusQueueInfo → JobStatusQueueInfo → Bool
comes_after a b = is_after (compare_keys (sort_3_keys a) (sort_3_keys b))

-- `sorted(jobs, key=sort_3_keys)[-1]`; the empty list raises IndexError: `none`.
unfoldable pub last_job_stat_pos : List JobStatusQueueInfo → Option JobStatusQueueInfo
unfolding sorted
last_job_stat_pos jobs = last? (sorted comes_after jobs)
