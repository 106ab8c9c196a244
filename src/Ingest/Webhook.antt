-- ===== src/Ingest/Webhook.antt =====
-- The endpoint of ledgerproof/ingest/app.py. The body's size, `verify` and `json.loads` are
-- parameters, and so are the failures of the queue and of the database in a request and what other
-- requests and the worker do to the events while the queue is told.
pub mod Outcomes
use ledger_proof.Base.{
  ℕ, ◌*◌, String, Bool, true, false, ◌&&◌, not, Option, none, some, List, [], ◌∷◌, ◌++◌, Result, ok,
  err, ltb, if◌then◌else◌,
}
use ledger_proof.Base.Json.{Value, obj, str, Fields, get}
use ledger_proof.Stripe.Mapping.{Raised}
use ledger_proof.Ingest.Events.{Status, EventTable, is_non_terminal}
use ledger_proof.Ingest.Dedupe.{Event, DedupeResult, check_and_record, mark_queued}

abbrev pub max_body_bytes : ℕ
max_body_bytes = 512 * 1024

-- The responses; `unhandled` is an exception that leaves the handler, which the server answers by 500.
pub data Response : Type 0 where
  body_too_large invalid_signature invalid_json not_an_event : Response
  enqueue_failed unhandled : Response
  queued_reply duplicate_reply : Response

unfoldable pub status_code : Response → ℕ
status_code body_too_large = 400
status_code invalid_signature = 400
status_code invalid_json = 400
status_code not_an_event = 400
status_code enqueue_failed = 500
status_code unhandled = 500
status_code queued_reply = 200
status_code duplicate_reply = 200

-- What the ingress changes: the table of events and the queue's messages.
pub record Ingress : Type 0 where
  pub events : EventTable
  pub queue : List Fields

-- What may go wrong in a request, and what others do to the table while the queue is told.
pub record World : Type 0 where
  pub record_fails : Bool
  pub enqueue_fails : Bool
  pub mark_fails : Bool
  pub others : EventTable → EventTable

-- The envelope's checks.
unfoldable pub envelope : Value → Option Event
unfolding get
envelope (obj fs) = elim (get fs "id") [
  | some (str id) ↦ elim (get fs "type") [
    | some (str type) ↦ some (record { id = id; type = type; fields = fs })
    | _ ↦ none
  ]
  | _ ↦ none
]
envelope _ = none

-- Once the queue has been told, and before `mark_queued`.
abbrev pub told : World → Fields → Ingress → Ingress
told w payload s = record { events = w.others s.events; queue = s.queue ++ payload ∷ [] }

-- `enqueue(payload)`, and `mark_queued(id)` after it.
unfoldable pub tell : World → Fields → String → Ingress → Response × Ingress
tell w payload id s =
    if w.enqueue_fails
    then (enqueue_failed, s)
    else if w.mark_fails
    then (unhandled, told w payload s)
    else (
      queued_reply,
      record (told w payload s) { events = mark_queued id (told w payload s).events },
    )

-- `not result.new`, of the three fields of the result.
unfoldable pub recover :
    World → Option String → Option Status → Option Fields → Ingress → Response × Ingress
recover w (some id) (some status) (some payload) s =
    if is_non_terminal status then tell w payload id s else (duplicate_reply, s)
recover w _ _ _ s = (duplicate_reply, s)

-- What follows `check_and_record`.
unfoldable pub deduped : World → Event → DedupeResult → Ingress → Response × Ingress
deduped w event result s =
    if not result.new
    then recover w result.existing_id result.existing_status result.existing_payload s
    else tell w event.fields event.id s

unfoldable pub record_event : World → Event → Ingress → Response × Ingress
record_event w event s =
    if w.record_fails then (unhandled, s) else elim (check_and_record s.events event) [
      | err e ↦ (unhandled, s)
      | ok (result, rows) ↦ deduped w event result (record s { events = rows })
    ]

unfoldable pub handle_json : World → Option Value → Ingress → Response × Ingress
handle_json w none s = (invalid_json, s)
handle_json w (some v) s = elim (envelope v) [
  | none ↦ (not_an_event, s)
  | some event ↦ record_event w event s
]

module _ {Body : Type 0} (size : Body → ℕ) (verify : Body → String → Bool)
    (loads : Body → Option Value) where
  unfoldable pub webhook : World → Body → String → Ingress → Response × Ingress
  webhook w raw sig_header s =
      if ltb max_body_bytes (size raw)
      then (body_too_large, s)
      else if not (verify raw sig_header)
      then (invalid_signature, s)
      else handle_json w (loads raw) s
