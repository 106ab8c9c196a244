-- ===== src/Lib.antt =====
-- LedgerProof, a double-entry payments ledger fed by Stripe's webhooks. This library models the
-- program's own logic, file by file, and proves what makes it correct.
--
-- A signed webhook reaches the endpoint (src/ledgerproof/ingest/app.py), which records the
-- event in the table stripe_events (ingest/dedupe.py) and tells a queue of it. The worker
-- (worker/handlers.py) maps the event to a transaction (stripe_io/mapping.py) and posts it
-- (ledger/post.py); the database's constraints and deferred triggers (migrations/) refuse
-- duplicates and unbalanced transactions, and ledger/invariant.py checks the whole. In front of
-- the endpoint stand a rate limiter (limits/gcra.py) and a load shedder (limits/shed.py).
--
-- Where each part is modelled:
--   Base: shared names, Boolean tests, lists, integers, results with exceptions, text, JSON
--     values and text-keyed dicts. Base/Text/Decimal and Base/Text/Padded: reading back the
--     digits that an integer is printed with. Base/Float: the rounding of Python's floats.
--     Base/Names: lists of texts without repetition. Base/Dict/Same: equality of dicts.
--   Ledger/Schema: migrations/001_ledger.sql, 002_seed_accounts.sql and 004_hardening.sql:
--     the tables, the unique and foreign keys, assert_txn_balanced, assert_txn_min_entries
--     and the view account_balances. An INSERT or a COMMIT is a function from a database to
--     an error or a database.
--   Ledger/Post: src/ledgerproof/ledger/post.py, `_attempt` (attempt) and `post_transaction`;
--     other writers, serialization failures and the jitter drawn are the parameter Env.
--     Ledger/Balances: accounts.py and balances.py; Ledger/Balances/Seeds: what a posted
--     transaction moves on the seeded chart. Ledger/Invariant: invariant.py.
--   Stripe/Mapping: src/ledgerproof/stripe_io/mapping.py, every function, over JSON values;
--     uuid5 is a parameter, and each exception of a malformed payload is a value.
--   Limits/Gcra: src/ledgerproof/limits/gcra.py, the limiter's check with each failure of
--     Redis, and in Limits/Gcra/Lock the loop that acquires the lock. Limits/Shed:
--     limits/shed.py.
--   Stripe/Signature: stripe_io/signature.py, `sign` and `verify`, over lists of codes; the
--     HMAC is a parameter.
--   Stripe/Client: stripe_io/client.py, `_request` with its retries; Stripe's answers and the
--     jitter are parameters.
--   Ingest/Backpressure: `classify` and the middleware of ingest/app.py.
--   Ingest/Events: migrations/003_stripe_events.sql. Ingest/Dedupe:
--     src/ledgerproof/ingest/dedupe.py. Ingest/Webhook: the POST handler of ingest/app.py;
--     the signature's check, json.loads, the queue and what other requests do in the middle
--     of a request are parameters.
--   Worker/Handlers: src/ledgerproof/worker/handlers.py, `handle_event`, `_resolve_fee` and
--     `_mark_status`, with the Stripe client as a parameter. Worker/Tasks: worker/tasks.py,
--     `process_event` and its retries, on max_retries + 1 rounds of fuel.
--   Triage/Schema and Triage/Gate: src/ledgerproof/triage/schema.py, `repair_is_balanced`,
--     and triage/agent.py, `approve_and_apply`; the new id and the time are parameters.
--     Triage/Bench: triage/bench.py, what a repair restores, `score` (Score) and `aggregate`
--     (Metrics). Triage/Budget: the costs and the guard of triage/bench.py, in dollars as
--     floats. Triage/Sweep: scripts/run_sweep.py, `collect` and the loop of `main`; what the
--     batches answer is a parameter.
--   Recon/Breaks, Recon/Snapshot and Recon/Expected: src/ledgerproof/recon/breaks.py and
--     recon/reconciler.py, `_load_ledger` and `reconcile_expected`. Recon/Pages and
--     Recon/Live: `_iter_balance_transactions` and `reconcile_stripe`, with Stripe's pages as
--     a parameter.
--   Harness/Events: harness/events.py, the makers of fixtures with the changes of balances
--     that each expects, and `serialize`. Harness/Faults: harness/faults.py, `plan` of every
--     fault. Harness/Scenarios: harness/scenarios.py, `generate`, with the random numbers as
--     a parameter. Harness/Runner: harness/runner.py, what `run_scenario` observes (Observe)
--     and `detect_breaks`. Harness/Proxy: harness/proxy.py, the faults on a live request, the
--     plan for it (Live), and the buffer of REORDER (Reorderer) as turns in any order.
--
-- Bounds and fuel: the loop of post_transaction has max_attempts + 1 rounds of fuel and ends
-- within max_attempts attempts; the loop that acquires the lock has 26 rounds, which its
-- timeout of 50 ms and its sleeps of at least 2 ms make enough. The loop over Stripe's pages
-- has fuel, with a theorem of how much is enough; slices of a body and digits of a number have
-- a round for each byte and each unit. Amounts are integers with the range of BIGINT checked by
-- the INSERT. A float that is neither negative nor infinite is a whole number of 2 ^ -1074 and
-- each operation rounds to 53 bits; results of 2 ^ 1024 and above are not represented. The
-- rates and means that triage/bench.py reports stay unrounded, as what they divide.
--
-- Not modelled: Celery's delivery (ingest/queue.py), the form encoding of the Stripe client's
-- parameters (stripe_io/client.py), of triage/ the prompts, the request's body, the schema of
-- the answers, the loading of cases and the split into train and test (triage/prompts.py,
-- triage/batch.py and parts of triage/agent.py and triage/bench.py), metrics, settings, and of
-- the harness the ids and labels of scenarios, the processes and databases of a test stack, and
-- the sending, waiting and logging of its proxy and runner. The texts in words that a break or
-- a plan carries are left out. The append-only triggers are left out since no modelled
-- statement updates or deletes a row of the ledger.
pub mod Base
pub mod Ledger
pub mod Stripe
pub mod Limits
pub mod Ingest
pub mod Worker
pub mod Recon
pub mod Triage
pub mod Harness
