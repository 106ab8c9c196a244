-- ===== src/Ledger.antt =====
-- ledgerproof/ledger: the append-only ledger. `Schema` is the database of migrations/001, 002 and
-- 004; `Post` is post.py; `Balances` is accounts.py and balances.py; `Invariant` is invariant.py.
pub mod Schema
pub mod Post
pub mod Balances
pub mod Invariant
pub mod History
pub mod Replay
pub mod Retry
mod Tests
