-- ===== src/Jobs/Composite/Gather/Sources.antt =====
-- What `_gather_results` of qiskit_ibm_provider/job/ibm_composite_job.py answers, given what
-- `SubJob.result` of qiskit_ibm_provider/job/sub_job.py does.
use qiskit_ibm_provider.Common.{◌≡◌, Bool, none, is_some, ok, raise}
use qiskit_ibm_provider.Jobs.Composite.SubJobs.{SubJob, job}
use qiskit_ibm_provider.Jobs.Composite.Gather.{Parts, good_result}

abbrev pub has_job : SubJob → Bool
has_job s = is_some (job s)

-- The sub-jobs have no results.
abbrev Nothing : Parts → Type 0
Nothing (raise e) = ⊥
Nothing (ok parts) = good_result parts ≡ none
