-- ===== src/Triage.antt =====
-- Triage of a broken ledger: what a model proposes, and the gate that stands before the ledger.
pub mod Schema
pub mod Gate
pub mod Applied
pub mod Bench
pub mod Budget
pub mod Sweep
mod Tests
