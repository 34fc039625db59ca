-- ===== src/Jobs/Composite.antt =====
-- Jobs that are split into sub-jobs: qiskit_ibm_provider/job/sub_job.py and
-- qiskit_ibm_provider/job/ibm_composite_job.py.
pub mod SubJobs
pub mod Assembly
pub mod Refresh
pub mod Report
pub mod Submission
pub mod Gather
pub mod Callback
pub mod Restore
mod Tests
