-- ===== src/Ingest/Dedupe.antt =====
-- ledgerproof/ingest/dedupe.py: `Deduper`. An event is the object that the endpoint has parsed, with
-- its `id` and `type`, which the endpoint has found to be texts.
use ledger_proof.Base.{
  String, Bool, true, false, ◌&&◌, Option, none, some, find_first, Result, ok, err, ◌>>=◌,
}
use ledger_proof.Base.Json.{Fields}
use ledger_proof.Stripe.Mapping.{Raised, money_movement_object_id}
use ledger_proof.Ingest.Events.{
  Status, received, queued, EventRow, EventTable, same_id, same_object, insert_event, update_status,
  is_received,
}

pub record Event : Type 0 where
  pub id : String
  pub type : String
  pub fields : Fields

pub record DedupeResult : Type 0 where
  pub new : Bool
  pub existing_id : Option String
  pub existing_status : Option Status
  pub existing_payload : Option Fields

abbrev pub recorded : DedupeResult
recorded = record {
  new = true;
  existing_id = none;
  existing_status = none;
  existing_payload = none;
}

abbrev pub blocked_by : Option EventRow → DedupeResult
blocked_by none = record {
  new = false;
  existing_id = none;
  existing_status = none;
  existing_payload = none;
}
blocked_by (some r) = record {
  new = false;
  existing_id = some r.id;
  existing_status = some r.status;
  existing_payload = some r.payload;
}

-- The SELECT: a row with the id comes first, else one with the object's key.
unfoldable pub blocking_row : EventTable → Event → Option String → Option EventRow
blocking_row rows event object_id = elim (find_first (same_id event.id) rows) [
  | some r ↦ some r
  | none ↦ find_first (same_object event.type object_id) rows
]

abbrev pub received_row : Event → Option String → EventRow
received_row event object_id = record {
  id = event.id;
  event_type = event.type;
  object_id = object_id;
  payload = event.fields;
  status = received;
}

abbrev pub judged : EventTable → Event → Option String → DedupeResult × EventTable
judged rows event object_id = elim (insert_event rows (received_row event object_id)) [
  | ok rows' ↦ (recorded, rows')
  | err key ↦ (blocked_by (blocking_row rows event object_id), rows)
]

-- An exception of `money_movement_object_id` leaves before the connection is made.
unfoldable pub check_and_record : EventTable → Event → Result Raised (DedupeResult × EventTable)
unfolding insert_event blocking_row
check_and_record rows event = do
  object_id ← money_movement_object_id event.fields
  ok (judged rows event object_id)

unfoldable pub mark_queued : String → EventTable → EventTable
mark_queued id rows = update_status (λ r. same_id id r && is_received r.status) queued rows
