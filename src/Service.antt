-- ===== src/Service.antt =====
-- The jobs and the hubs of an account: qiskit_ibm_provider/ibm_backend_service.py and
-- qiskit_ibm_provider/ibm_provider.py.
pub mod Pages
pub mod Hubs
pub mod Listing
mod Tests
