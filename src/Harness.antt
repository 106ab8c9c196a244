-- ===== src/Harness.antt =====
-- harness/: the chaos harness that drives the ledger, and the ground truth that it holds it to.
pub mod Events
pub mod Faults
pub mod Proxy
pub mod Runner
pub mod Scenarios
mod Tests
