-- ===== src/Ingest.antt =====
-- The ingress of webhooks: the table of events, the deduper, and the endpoint with its backpressure.
pub mod Events
pub mod Dedupe
pub mod Webhook
pub mod Backpressure
mod Tests
