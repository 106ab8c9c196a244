-- ===== src/Recon.antt =====
-- ledgerproof/recon/: the ledger against what another source says that it should hold.
pub mod Breaks
pub mod Snapshot
pub mod Expected
pub mod Live
pub mod Pages
mod Tests
