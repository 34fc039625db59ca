-- ===== src/Jobs/Tests.antt =====
-- The theorems on statuses, queues, retries and tags, applied to concrete values.
use mathlib.Core.List.{Memᴰ}
use qiskit_ibm_provider.Common.{
  ℕ, String, ◌≡◌, none, some, List, [], ◌∷◌, All, Result, ok, raise, if◌then◌else◌, ltb, str_eq,
}
use qiskit_ibm_provider.Jobs.Status.{JobStatus, done}
use qiskit_ibm_provider.Jobs.Queue.{JobStatusQueueInfo, queue_info, last_job_stat_pos}
use qiskit_ibm_provider.Jobs.Queue.Order.{NoLater, last_job_stat_pos_latest}
use qiskit_ibm_provider.Jobs.Retry.{
  JobError, job_api_error, auto_retry, first_answer, auto_retry-first_answer,
}
use qiskit_ibm_provider.Jobs.Tags.{
  Indexes, find_circuit_indexes, submit_tags, user_tags, find_circuit_indexes-submit_tags,
}

abbrev upper : String → String
upper s = if str_eq s "cancelled - ran too long" then "CANCELLED - RAN TOO LONG" else s

abbrev first_in_queue : JobStatusQueueInfo
first_in_queue = record { status = JobStatus.queued; queue_info = some (queue_info (some 1) none) }

abbrev third_in_queue : JobStatusQueueInfo
third_in_queue = record { status = JobStatus.queued; queue_info = some (queue_info (some 3) none) }

abbrev three_jobs : List JobStatusQueueInfo
three_jobs = first_in_queue ∷ third_in_queue ∷ record { status = done; queue_info = none } ∷ []

last_job_stat_pos_latest_example :
    (r : JobStatusQueueInfo) × (last_job_stat_pos three_jobs ≡ some r)
    × Memᴰ r three_jobs
    × All (λ k. NoLater k r) three_jobs
last_job_stat_pos_latest_example =
    last_job_stat_pos_latest first_in_queue
      (third_in_queue ∷ record { status = done; queue_info = none } ∷ [])

-- Two server errors, then an answer.
abbrev third_time : ℕ → Result JobError ℕ
third_time i = if ltb i 2 then raise job_api_error else ok 7

auto_retry-first_answer_example :
    auto_retry third_time 3 0 (some 3) ≡ some (first_answer third_time 2 0)
auto_retry-first_answer_example = auto_retry-first_answer third_time 2 0

abbrev never : ℕ → Result JobError ℕ
never i = raise job_api_error

abbrev second_part : Indexes
second_part = record { job_index = 1; total_jobs = 2; start_index = 300; end_index = 412 }

find_circuit_indexes-submit_tags_example :
    find_circuit_indexes (
      submit_tags
        (user_tags ("mine" ∷ "ibm_composite_job_x" ∷ []))
        second_part
        "ibm_composite_job_7_")
    ≡ some second_part
find_circuit_indexes-submit_tags_example =
    find_circuit_indexes-submit_tags ("mine" ∷ "ibm_composite_job_x" ∷ []) second_part
      "ibm_composite_job_7_"
