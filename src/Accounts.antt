-- ===== src/Accounts.antt =====
-- Saved accounts (qiskit_ibm_provider/accounts): the account record, the JSON file of saved
-- configurations, and the manager. The proofs are in the modules below.
pub mod Account
pub mod Storage
pub mod Manager
pub mod Migrate
pub mod RoundTrip
pub mod Delete
mod Tests
