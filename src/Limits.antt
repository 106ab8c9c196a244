-- ===== src/Limits.antt =====
-- ledgerproof/limits: `Shed` is shed.py, `Gcra` is gcra.py.
pub mod Shed
pub mod Gcra
mod Tests
