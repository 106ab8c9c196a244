-- ===== src/Worker.antt =====
-- The worker: what is done with a queued event.
pub mod Handlers
pub mod Tasks
mod Tests
