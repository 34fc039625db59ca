-- ===== src/Jobs.antt =====
-- The jobs: qiskit_ibm_provider/job.
pub mod Status
pub mod Queue
pub mod Retry
pub mod Tags
pub mod Circuit
pub mod Composite
mod Tests
