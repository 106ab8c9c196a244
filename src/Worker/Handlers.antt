-- ===== src/Worker/Handlers.antt =====
-- ledgerproof/worker/handlers.py. uuid5, the Stripe client and the other writers of the ledger are
-- parameters; an event is one that the endpoint has accepted, so `id` and `type` are texts.
pub mod Once
pub mod Replay
use ledger_proof.Base.{
  ℕ, String, Bool, true, false, not, Option, none, some, List, [], ◌∷◌, any, str_eq, if◌then◌else◌,
  Result, ok, err, ◌>>=◌,
}
use ledger_proof.Base.Int.{ℤ}
use ledger_proof.Base.Json.{Value, obj, str, Fields, get}
use ledger_proof.Ledger.Schema.{Db, Error, unique_violation, transactions_pkey}
use ledger_proof.Ledger.Post.{
  LedgerTransaction, PostOutcome, posted, duplicate, Env, Posting, post_transaction,
}
use ledger_proof.Stripe.Mapping.{
  Raised, missing_fee, subscript, get_attr, to_int, as_number, data_of, money_movement_object_id,
  build_transaction,
}
use ledger_proof.Ingest.Events.{
  Status, processed, no_money_moved, EventRow, EventTable, same_id, insert_event, update_status,
}
use ledger_proof.Ingest.Dedupe.{Event}

abbrev pub handled_event_types : List String
handled_event_types =
    "charge.succeeded" ∷ "charge.refunded" ∷ "charge.dispute.created" ∷ "payout.paid"
    ∷ "invoice.payment_failed" ∷ []

-- The GETs of `_resolve_fee`: a balance transaction, and a charge with its own expanded.
pub data StripeGet : Type 0 where
  balance_transaction charge : String → StripeGet

-- What leaves `handle_event` as an exception; `stuck` is a `post_transaction` out of fuel.
pub data Failure : Type 0 where
  mapping : Raised → Failure
  ledger : Error → Failure
  stripe : Failure
  stuck : Failure

abbrev pub Client : Type 0
Client = StripeGet → Option Value

pub data Handled : Type 0 where
  posted_event duplicate_event no_money ignored : Handled

-- What the worker changes.
pub record Books : Type 0 where
  pub db : Db
  pub events : EventTable

abbrev raised {ℓ} : {A : Type ℓ} → Result Raised A → Result Failure A
raised (ok a) = ok a
raised (err e) = err (mapping e)

abbrev fetched : Option Value → Result Failure Value
fetched (some v) = ok v
fetched none = err stripe

-- The charge's id, for a charge.succeeded.
abbrev charge_id : Event → Result Failure (Option String)
charge_id event = do
  data_obj ← raised (get_attr (data_of event.fields) "object")
  id ← raised (get_attr (elim data_obj [ none ↦ obj Fields.end | some o ↦ o ]) "id")
  ok (elim id [
    | some (str s) ↦ if str_eq event.type "charge.succeeded" then some s else none
    | _ ↦ none
  ])

-- The fee of an expanded balance transaction, or the first exception again.
abbrev charge_fee_of : Value → Option String → Result Failure ℤ
charge_fee_of c asked = do
  bt ← raised (get_attr c "balance_transaction")
  elim bt [
    | some (obj fs) ↦ do fee ← raised (subscript (obj fs) "fee"); raised (to_int fee)
    | _ ↦ err (mapping (missing_fee asked))
  ]

unfoldable pub resolve_fee : Client → Event → Option String → Result Failure ℤ
unfolding get_attr subscript to_int
resolve_fee client event (some id) = do
  bt ← fetched (client (balance_transaction id))
  fee ← raised (subscript bt "fee")
  raised (as_number fee)
resolve_fee client event none = do
  id ← charge_id event
  elim id [
    | some s ↦ do c ← fetched (client (charge s)); charge_fee_of c none
    | none ↦ err (mapping (missing_fee none))
  ]

-- The INSERT of `_mark_status`: no row has the id, and a row with the object's key stays as it is.
abbrev logged : EventTable → EventRow → EventTable
logged rows r = elim (insert_event rows r) [ ok rows' ↦ rows' | err key ↦ rows ]

unfoldable pub mark_status : EventTable → Event → Status → Result Raised EventTable
unfolding insert_event update_status
mark_status rows event status =
    let inserted = (do
      object_id ← money_movement_object_id event.fields
      ok (
          logged rows (record {
            id = event.id;
            event_type = event.type;
            object_id = object_id;
            payload = event.fields;
            status = status;
          }))) in
    if any (same_id event.id) rows
    then ok (update_status (same_id event.id) status rows)
    else inserted

abbrev marked : Books → Event → Status → Handled → Result Failure Handled × Books
marked b event status answer = elim (mark_status b.events event status) [
  | ok rows ↦ (ok answer, record b { events = rows })
  | err e ↦ (err (mapping e), b)
]

-- The outcome of a posting: a taken primary key is a duplicate too.
abbrev pub posting_outcome : Result Error PostOutcome → Result Error PostOutcome
posting_outcome (err (unique_violation transactions_pkey)) = ok duplicate
posting_outcome r = r

abbrev pub answer : PostOutcome → Handled
answer posted = posted_event
answer duplicate = duplicate_event

-- What follows `post_transaction`.
unfoldable pub after_posting : EventTable → Event → Posting → Result Failure Handled × Books
after_posting rows event p = elim (posting_outcome p.result) [
  | ok outcome ↦ marked (record { db = p.db; events = rows }) event processed (answer outcome)
  | err e ↦ (err (ledger e), record { db = p.db; events = rows })
]

unfoldable pub post_built : Env → Event → LedgerTransaction → Books → Result Failure Handled × Books
post_built env event t b = elim (post_transaction env 5 t b.db) [
  | none ↦ (err stuck, b)
  | some p ↦ after_posting b.events event p
]

module _ (uuid5 : String → ℕ) where
  -- `build_transaction`, once more with the fee where the payload lacks it.
  unfoldable pub built : Option Client → Event → Result Failure (Option LedgerTransaction)
  built client event = elim (build_transaction uuid5 event.fields none) [
    | ok t ↦ ok t
    | err (missing_fee id) ↦ elim client [
      | none ↦ err (mapping (missing_fee id))
      | some c ↦ do
        fee ← resolve_fee c event id
        raised (build_transaction uuid5 event.fields (some fee))
    ]
    | err e ↦ err (mapping e)
  ]

  unfoldable pub handle_event : Env → Option Client → Event → Books → Result Failure Handled × Books
  unfolding mark_status
  handle_event env client event b =
      if not (any (str_eq event.type) handled_event_types)
      then marked b event no_money_moved ignored
      else elim (built client event) [
        | err e ↦ (err e, b)
        | ok none ↦ marked b event no_money_moved no_money
        | ok (some t) ↦ post_built env event t b
      ]
