-- ===== src/Jobs/Composite/Callback.antt =====
-- Reporting status changes to the user's callback: `_status_callback` of
-- qiskit_ibm_provider/job/ibm_composite_job.py. Times are those of `time.time()`, as natural numbers
-- that do not go back.
use qiskit_ibm_provider.Common.{
  ℕ, ◌-◌, ◌+◌, ◌<◌, ◌≤◌, ◌≡◌, refl, String, Bool, true, false, not, ◌&&◌, Option, none, some, List,
  [], ◌∷◌, if◌then◌else◌, leb, ◌==◌, All, str_eq, arith, Bool-cases, inl, inr,
}
use qiskit_ibm_provider.Common.Dict.{Dict, insert}
use qiskit_ibm_provider.Jobs.Status.{JobStatus, same_status}
use qiskit_ibm_provider.Jobs.Queue.{QueueInfo, JobStatusQueueInfo, queue_pos, last_job_stat_pos}
use qiskit_ibm_provider.Jobs.Queue.Order.{last_job_stat_pos_latest}

pub record Reporter : Type 0 where
  pub job_statuses : Dict JobStatusQueueInfo
  pub last_reported_stat : Option (JobStatus × Option ℕ)  -- `none` for (None, None)
  pub last_reported_time : ℕ
  pub user_wait_value : Option ℕ

-- A call of the callback, with the time at which it reads the clock.
pub record Call : Type 0 where
  pub cur_time : ℕ
  pub job_id : String
  pub job_status : JobStatus
  pub queue_info : Option QueueInfo

-- What the user's callback is called with.
abbrev pub Report : Type 0
Report = JobStatus × Option QueueInfo

abbrev pub values : {V : Type 0} → Dict V → List V
values [] = []
values ((k, v) ∷ d) = v ∷ values d

abbrev same_position : Option ℕ → Option ℕ → Bool
same_position none none = true
same_position (some a) (some b) = a == b
same_position _ _ = false

unfoldable pub same_stat : Option (JobStatus × Option ℕ) → JobStatus → Option ℕ → Bool
same_stat none status pos = false
same_stat (some (s, p)) status pos = same_status s status && same_position p pos

unfoldable pub is_due : Reporter → ℕ → JobStatus → Option ℕ → Bool
unfolding same_stat
is_due r cur_time status pos = elim r.user_wait_value [
  | none ↦ not (same_stat r.last_reported_stat status pos)
  | some wait ↦ leb wait (cur_time - r.last_reported_time)
]

abbrev with_statuses : Dict JobStatusQueueInfo → ℕ → Reporter → JobStatusQueueInfo → Reporter
with_statuses d cur_time r e = record {
  job_statuses = d;
  last_reported_stat = some (e.status, queue_pos e.queue_info);
  last_reported_time = cur_time;
  user_wait_value = r.user_wait_value;
}

abbrev updated_statuses : Call → Reporter → Dict JobStatusQueueInfo
updated_statuses c r =
    insert c.job_id (record { status = c.job_status; queue_info = c.queue_info }) r.job_statuses

abbrev report_of : Reporter → ℕ → JobStatusQueueInfo → Option Report
report_of r cur_time e =
    if is_due r cur_time e.status (queue_pos e.queue_info)
    then some (e.status, e.queue_info)
    else none

-- The report, if one is due, and the attributes afterwards; `none` is the IndexError of an empty list
-- of statuses.
unfoldable pub status_callback : Call → Reporter → Option (Option Report × Reporter)
unfolding is_due
status_callback c r =
    let d = updated_statuses c r in
    elim (last_job_stat_pos (values d)) [
      | none ↦ none
      | some e ↦ some (report_of r c.cur_time e, with_statuses d c.cur_time r e)
    ]

abbrev cons_report : Option Report → Option (List (Option Report)) → Option (List (Option Report))
cons_report x none = none
cons_report x (some xs) = some (x ∷ xs)

-- The reports of a sequence of calls.
unfoldable pub reports : List Call → Reporter → Option (List (Option Report))
unfolding status_callback
reports [] r = some []
reports (c ∷ cs) r = elim (status_callback c r) [
  | none ↦ none
  | some (x, after) ↦ cons_report x (reports cs after)
]

-- Each call comes less than `wait` after the one before and not before it, the first one after `last`.
abbrev pub AreClose : ℕ → ℕ → List Call → Type 0
AreClose wait last [] = Unit
AreClose wait last (c ∷ cs) =
    (last ≤ c.cur_time) × (c.cur_time < last + wait) × AreClose wait c.cur_time cs

values-insert :
    {V : Type 0} (k : String) (v : V) (d : Dict V)
    → (x : V) × (xs : List V) × (values (insert k v d) ≡ x ∷ xs)
unfolding insert
values-insert k v [] = (v, [], refl)
values-insert k v ((j, w) ∷ d) = elim (Bool-cases (str_eq j k)) [
  | inl e ↦ (v, values d, rw e refl)
  | inr e ↦ (w, values (insert k v d), rw e refl)
]

not_due :
    (r : Reporter) (cur_time wait : ℕ) (e : JobStatusQueueInfo)
    → r.user_wait_value ≡ some wait
    → r.last_reported_time ≤ cur_time
    → cur_time < r.last_reported_time + wait
    → is_due r cur_time e.status (queue_pos e.queue_info) ≡ false
unfolding is_due
not_due r cur_time wait e w lo h = rw (w, is_due) (ground arith)

-- A call is answered, and not too early ones with no report.
close_call :
    (c : Call) (r : Reporter) (wait : ℕ)
    → r.user_wait_value ≡ some wait
    → r.last_reported_time ≤ c.cur_time
    → c.cur_time < r.last_reported_time + wait
    → (after : Reporter) × (status_callback c r ≡ some (none, after))
      × (after.user_wait_value ≡ some wait)
      × (after.last_reported_time ≡ c.cur_time)
unfolding status_callback is_due
close_call c r wait w lo h =
    let (x, xs, nonempty) =
      values-insert c.job_id (record { status = c.job_status; queue_info = c.queue_info })
        r.job_statuses in
    let (e, found, _, _) = last_job_stat_pos_latest x xs in
    (
      with_statuses (updated_statuses c r) c.cur_time r e,
      rw (nonempty, status_callback) (rw found (rw (not_due r c.cur_time wait e w lo h) refl)),
      w,
      refl,
    )

-- With a wait value, calls of which each comes less than that after the one before are all answered,
-- and none of them reaches the user's callback, however long it goes on and whatever statuses they
-- bring: the time of the last report is set by every call.
pub close_calls_silent :
    (cs : List Call) (r : Reporter) (wait : ℕ)
    → r.user_wait_value ≡ some wait
    → AreClose wait r.last_reported_time cs
    → (xs : List (Option Report)) × (reports cs r ≡ some xs) × All (λ x. x ≡ none) xs
unfolding reports
close_calls_silent [] r wait w h = ([], refl, tt)
close_calls_silent (c ∷ cs) r wait w h =
    let (after, answered, same, time) = close_call c r wait w h.0 h.1 in
    let (xs, later, silent) = close_calls_silent cs after wait same (rw time h.2) in
    (none ∷ xs, rw (answered, reports) (rw later refl), (refl, silent))
