-- ===== src/Transpiler.antt =====
-- The passes for dynamic circuits: qiskit_ibm_provider/transpiler/passes.
pub mod Schedule
pub mod BlockOrder
pub mod Padding
pub mod Durations
pub mod IdToDelay
mod Tests
