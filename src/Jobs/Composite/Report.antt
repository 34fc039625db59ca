-- ===== src/Jobs/Composite/Report.antt =====
-- The texts and counts that a composite job reports of its sub-jobs: `_build_error_report`,
-- `scheduling_mode` and the counts of `report` of qiskit_ibm_provider/job/ibm_composite_job.py.
use Prim.Native.String.{◌++◌}
use qiskit_ibm_provider.Common.{
  Result, ok, raise, ℕ, String, Bool, false, Option, none, some, List, [], ◌∷◌, str_eq,
  if◌then◌else◌, is_some, ◌+◌, ◌-◌, ◌≡◌, refl, length, Bool-cases, Option-cases, inl, inr, any,
}
use qiskit_ibm_provider.Common.Decimal.{decimal}
use qiskit_ibm_provider.Jobs.Status.{JobStatus, running, error, cancelled, done, same_status}
use qiskit_ibm_provider.Jobs.Composite.SubJobs.{
  CircuitJob, SubJob, job, submit_error, has_pending_submit,
}

abbrev pub map_ok : {E A B : Type 0} → (A → B) → Result E A → Result E B
map_ok f (ok a) = ok (f a)
map_ok f (raise e) = raise e

-- What follows the circuits in the text of a failed sub-job.
abbrev reason : Option String → Option CircuitJob → Result String String
reason (some e) _ = ok ("Job submit failed: " ++ e)
reason none (some j) =
    map_ok (λ text. "Job " ++ (j.job_id ++ (" failed: " ++ text))) j.error_message
reason none none = ok ""

unfoldable pub error_text : SubJob → Result String String
error_text s =
    map_ok
      (λ text.
        "Circuits " ++ (decimal s.start_index ++ ("-" ++ (decimal s.end_index ++ (": " ++ text)))))
      (reason (submit_error s) (job s))

-- `"\n".join(texts)`
unfoldable pub join_lines : String → List String → String
join_lines text [] = text
join_lines text (next ∷ texts) = text ++ ("\n" ++ join_lines next texts)

-- The text of the report for the texts of one failed sub-job or more.
unfoldable pub joined : String → List String → String
unfolding join_lines
joined text [] = text
joined text (next ∷ texts) = "The following circuits failed:\n" ++ join_lines text (next ∷ texts)

abbrev then_text : Result String String → Result String (List String) → Result String (List String)
then_text (raise e) rest = raise e
then_text (ok text) rest = map_ok (λ texts. text ∷ texts) rest

unfoldable pub error_texts : List SubJob → Result String (List String)
unfolding error_text
error_texts [] = ok []
error_texts (s ∷ ss) = then_text (error_text s) (error_texts ss)

abbrev then_report : Result String String → Result String (List String) → Result String String
then_report (raise e) rest = raise e
then_report (ok text) rest = map_ok (joined text) rest

-- The text that `_build_error_report` sets, or what `error_message` of a job raises; it is called for
-- one failed sub-job or more.
unfoldable pub error_report : SubJob → List SubJob → Result String String
unfolding error_text joined error_texts
error_report s ss = then_report (error_text s) (error_texts ss)

-- `_get_circuit_jobs`
unfoldable pub circuit_jobs : List SubJob → List CircuitJob
circuit_jobs [] = []
circuit_jobs (s ∷ ss) =
    let rest = circuit_jobs ss in elim (job s) [ some j ↦ j ∷ rest | none ↦ rest ]

-- The loop of `scheduling_mode` over the circuit jobs, from the mode found so far; an empty text
-- is false.
unfoldable pub mode_from : Option String → List CircuitJob → Option String
mode_from mode [] = mode
mode_from mode (j ∷ js) =
    let same = mode_from mode js in
    elim j.scheduling_mode [
      | none ↦ same
      | some m ↦
          let changed = mode_from (some m) js in
          if str_eq m "fairshare" then some "fairshare" else if str_eq m "" then same else changed
    ]

unfoldable pub scheduling_mode : List SubJob → Option String
unfolding mode_from
scheduling_mode subs = if has_pending_submit subs then none else mode_from none (circuit_jobs subs)

abbrev pub is_fairshare : Option String → Bool
is_fairshare none = false
is_fairshare (some m) = str_eq m "fairshare"

mode_from-is_fairshare :
    (mode : Option String) (js : List CircuitJob)
    → is_fairshare mode ≡ false
    → is_fairshare (mode_from mode js) ≡ any (λ j. is_fairshare j.scheduling_mode) js
unfolding mode_from
mode_from-is_fairshare mode [] h = h
mode_from-is_fairshare mode (j ∷ js) h = elim (Option-cases j.scheduling_mode) [
  | inl e ↦ rw e (mode_from-is_fairshare mode js h)
  | inr (m, e) ↦ elim (Bool-cases (str_eq m "fairshare")) [
    | inl f ↦ rw (e, f) refl
    | inr f ↦ elim (Bool-cases (str_eq m "")) [
      | inl g ↦ rw (e, f, g) (mode_from-is_fairshare mode js h)
      | inr g ↦ rw (e, f, g) (mode_from-is_fairshare (some m) js f)
    ]
  ]
]

-- Once every submission has ended, the scheduling mode is fairshare if and only if one of the
-- sub-jobs has that mode.
scheduling_mode-is_fairshare :
    (subs : List SubJob)
    → has_pending_submit subs ≡ false
    → is_fairshare (scheduling_mode subs)
      ≡ any (λ j. is_fairshare j.scheduling_mode) (circuit_jobs subs)
unfolding scheduling_mode
scheduling_mode-is_fairshare subs h = rw h (mode_from-is_fairshare none (circuit_jobs subs) refl)

-- The numbers of the summary of `report`.
pub record Summary : Type 0 where
  pub total : ℕ
  pub successful : ℕ
  pub failed : ℕ
  pub cancelled_jobs : ℕ
  pub running_jobs : ℕ
  pub pending_jobs : ℕ

abbrev then_status :
    Result String JobStatus → Result String (List JobStatus) → Result String (List JobStatus)
then_status (raise e) rest = raise e
then_status (ok stat) rest = map_ok (λ stats. stat ∷ stats) rest

-- The statuses of the circuit jobs, each of them asked for once.
unfoldable pub statuses : List CircuitJob → Result String (List JobStatus)
statuses [] = ok []
statuses (j ∷ js) = then_status j.status (statuses js)

-- How many of the statuses are this one.
unfoldable pub status_count : JobStatus → List JobStatus → ℕ
status_count stat [] = 0
status_count stat (t ∷ ts) =
    let rest = status_count stat ts in if same_status t stat then 1 + rest else rest

-- How many sub-jobs were not submitted because of an error.
unfoldable pub submit_errors : List SubJob → ℕ
submit_errors [] = 0
submit_errors (s ∷ ss) =
    let rest = submit_errors ss in if is_some (submit_error s) then 1 + rest else rest

-- The last number is `len(self._sub_jobs) - non_pending_count`; were it negative, it would be 0 here.
unfoldable pub summary_of : List SubJob → List JobStatus → Summary
unfolding status_count submit_errors
summary_of subs stats =
    let failed_count = status_count error stats + submit_errors subs in
    let non_pending =
      status_count done stats
      + failed_count
      + status_count cancelled stats
      + status_count running stats in
    record {
      total = length subs;
      successful = status_count done stats;
      failed = failed_count;
      cancelled_jobs = status_count cancelled stats;
      running_jobs = status_count running stats;
      pending_jobs = length subs - non_pending;
    }

unfoldable pub summary : List SubJob → Result String Summary
unfolding summary_of statuses circuit_jobs
summary subs = map_ok (summary_of subs) (statuses (circuit_jobs subs))
