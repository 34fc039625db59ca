-- ===== src/Jobs/Composite/Gather.antt =====
-- Combining the results of the sub-jobs: `_gather_results` of
-- qiskit_ibm_provider/job/ibm_composite_job.py, with `SubJob.result` of
-- qiskit_ibm_provider/job/sub_job.py. `gather_results` is what follows the results of the sub-jobs.
pub mod Sources
use qiskit_ibm_provider.Common.{
  ℕ, zero, suc, ◌+◌, ◌-◌, ◌≡◌, ◌≤◌, refl, ap, String, Bool, true, false, Option, none, some, List,
  [], ◌∷◌, ◌++◌, if◌then◌else◌, not, ◌&&◌, is_some, any, All, map, length, get_elem?, length-append,
  Result, ok, raise, arith, Bool-cases, Option-cases, inl, inr,
}
use qiskit_ibm_provider.Jobs.Status.{JobStatus, done, same_status}
use qiskit_ibm_provider.Jobs.Composite.SubJobs.{Qobj, SubJob, job}

-- The settings are the values of "shots", "meas_level", "seed" and "meas_return".
pub record ExperimentResult : Type 0 where
  pub success : Bool
  pub outcome : String  -- data
  pub status : String
  pub settings : List (Option String)
  pub header : Option String

pub record JobResult : Type 0 where
  pub job_id : String
  pub success : Bool
  pub status : String
  pub results : List ExperimentResult

pub data GatherError : Type 0 where
  index_error : GatherError  -- IndexError
  type_error : GatherError  -- TypeError

-- The template for a circuit without result.
unfoldable pub template : List (Option String) → Option String → ExperimentResult
template settings header = record {
  success = false;
  outcome = "";
  status = "ERROR";
  settings = settings;
  header = header;
}

-- The results made up for `n` circuits of a sub-job, from its `i`-th on, and the header that the
-- template has afterwards. `headers` are those of the Qobj's experiments, none of them if there is no
-- Qobj: then the header stays what it was.
abbrev pub Filled : Type 0
Filled = Result GatherError (List ExperimentResult × Option String)

abbrev pub cons_result : ExperimentResult → Filled → Filled
cons_result x (raise e) = raise e
cons_result x (ok (xs, header)) = ok (x ∷ xs, header)

unfoldable pub fill : List (Option String) → List String → Option String → ℕ → ℕ → Filled
unfolding template
fill settings headers header i zero = ok ([], header)
fill settings [] header i (suc n) =
    cons_result (template settings header) (fill settings [] header (suc i) n)
fill settings (h ∷ hs) header i (suc n) = elim (get_elem? (h ∷ hs) i) [
  | none ↦ raise index_error
  | some g ↦ cons_result (template settings (some g)) (fill settings (h ∷ hs) (some g) (suc i) n)
]

abbrev pub headers_of : Option Qobj → List String
headers_of none = []
headers_of (some q) = q.headers

-- How many circuits a sub-job has: `range(end_index - start_index + 1)`.
abbrev pub circuit_count : SubJob → ℕ
circuit_count s = s.end_index + 1 - s.start_index

abbrev pub prepend :
    List ExperimentResult
    → Result GatherError (List ExperimentResult)
    → Result GatherError (List ExperimentResult)
prepend xs (ok ys) = ok (xs ++ ys)
prepend xs (raise e) = raise e

-- The results of one sub-job, and the header of the template.
unfoldable pub sub_results :
    List (Option String) → Option String → SubJob → Option (List ExperimentResult) → Filled
unfolding fill
sub_results settings header s (some xs) = ok (xs, header)
sub_results settings header s none = fill settings (headers_of s.qobj) header 0 (circuit_count s)

-- The last loop, over the sub-jobs with their results.
unfoldable pub combine :
    List (Option String)
    → Option String
    → List (SubJob × Option (List ExperimentResult))
    → Result GatherError (List ExperimentResult)
unfolding sub_results
combine settings header [] = ok []
combine settings header ((s, r) ∷ rest) = elim (sub_results settings header s r) [
  | raise e ↦ raise e
  | ok (xs, after) ↦ prepend xs (combine settings after rest)
]

-- The first result of a sub-job.
unfoldable pub good_result :
    List (SubJob × Option (List ExperimentResult)) → Option (List ExperimentResult)
good_result [] = none
good_result ((s, some xs) ∷ rest) = some xs
good_result ((s, none) ∷ rest) = good_result rest

abbrev pub is_missing : SubJob × Option (List ExperimentResult) → Bool
is_missing x = not (is_some x.1)

abbrev pub combined_result : String → JobStatus → List ExperimentResult → JobResult
combined_result job_id status xs = record {
  job_id = job_id;
  success = same_status status done;
  status = if same_status status done then "COMPLETED" else "PARTIAL COMPLETED";
  results = xs;
}

abbrev combined :
    String
    → JobStatus
    → Result GatherError (List ExperimentResult)
    → Result GatherError (Option JobResult)
combined job_id status (raise e) = raise e
combined job_id status (ok xs) = ok (some (combined_result job_id status xs))

abbrev pub gather_from :
    String
    → JobStatus
    → List (SubJob × Option (List ExperimentResult))
    → Option (List ExperimentResult)
    → Result GatherError (Option JobResult)
gather_from job_id status parts none = ok none
gather_from job_id status parts (some []) = raise index_error
gather_from job_id status parts (some (x ∷ xs)) =
    combined job_id status (combine x.settings none parts)

-- `_gather_results`; `cached` is the result that is held, unless it is to be refreshed.
unfoldable pub gather_results :
    Option JobResult
    → String
    → JobStatus
    → Bool
    → List (SubJob × Option (List ExperimentResult))
    → Result GatherError (Option JobResult)
unfolding combine good_result
gather_results (some r) job_id status partial parts = ok (some r)
gather_results none job_id status partial parts =
    if not partial && any is_missing parts
    then ok none
    else gather_from job_id status parts (good_result parts)

-- `SubJob.result`: it gives `IBMCircuitJob.result` the argument `partial`, which that method does not
-- have.
unfoldable pub sub_job_result : SubJob → Result GatherError (Option (List ExperimentResult))
sub_job_result s = if is_some (job s) then raise type_error else ok none

-- `job_results`, each with its sub-job.
abbrev pub Parts : Type 0
Parts = Result GatherError (List (SubJob × Option (List ExperimentResult)))

abbrev pub cons_part : SubJob → Result GatherError (Option (List ExperimentResult)) → Parts → Parts
cons_part s (raise e) rest = raise e
cons_part s (ok r) (raise e) = raise e
cons_part s (ok r) (ok rest) = ok ((s, r) ∷ rest)

unfoldable pub job_results : List SubJob → Parts
unfolding sub_job_result
job_results [] = ok []
job_results (s ∷ ss) = cons_part s (sub_job_result s) (job_results ss)

abbrev pub then_gather : String → JobStatus → Bool → Parts → Result GatherError (Option JobResult)
unfolding gather_results
then_gather job_id status partial (raise e) = raise e
then_gather job_id status partial (ok parts) = gather_results none job_id status partial parts

-- `_gather_results` of a composite job with its sub-jobs.
unfoldable pub gather :
    Option JobResult
    → String
    → JobStatus
    → Bool
    → List SubJob
    → Result GatherError (Option JobResult)
unfolding job_results gather_results
gather (some r) job_id status partial subs = ok (some r)
gather none job_id status partial subs = then_gather job_id status partial (job_results subs)
