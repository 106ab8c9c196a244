-- ===== src/Stripe.antt =====
-- ledgerproof/stripe_io: `Mapping` is mapping.py, `Signature` is signature.py, `Client` is client.py.
pub mod Mapping
pub mod Signature
pub mod Client
mod Tests
