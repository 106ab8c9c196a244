-- ===== src/Ingest/Tests.antt =====
-- Requests to the endpoint of ingest/app.py, and its theorems at them.
use ledger_proof.Base.{◌*◌, ℕ, String, Bool, true, false, Option, some, [], ◌∷◌, ◌≡◌, refl}
use ledger_proof.Base.Json.{Value, str, arr, nil, obj, Fields, end, field, get}
use ledger_proof.Stripe.Mapping.{money_movement_object_id, object_id, get_attr}
use ledger_proof.Base.{leb, none}
use ledger_proof.Limits.Shed.{critical, LoadShedder, new_shedder, should_shed}
use ledger_proof.Limits.Gcra.{Answers, acquired, clock}
use ledger_proof.Ingest.Backpressure.{
  Request, Guards, shedding, classify, backpressure, shed_first, webhook_shed_last,
}
use ledger_proof.Ingest.Events.{queued, EventRow, insert_event, update_status}
use ledger_proof.Ingest.Dedupe.{Event, check_and_record, mark_queued}
use ledger_proof.Ingest.Webhook.{
  enqueue_failed, unhandled, queued_reply, status_code, Ingress, World, tell, deduped, record_event,
  envelope, handle_json, webhook,
}
use ledger_proof.Ingest.Webhook.Outcomes.Delivery.{Delivered, accepted-Delivered}
use ledger_proof.Ingest.Webhook.Outcomes.Retry.{Healthy, Sent, retry_delivers}

abbrev charge : Fields
charge = field "id" (str "evt_1") (
    field "type" (str "charge.succeeded")
      (field "data" (obj (field "object" (obj (field "id" (str "ch_1") end)) end)) end))

-- Its `data` is a list.
abbrev odd : Fields
odd = field "id" (str "evt_2") (field "type" (str "charge.succeeded") (field "data" (arr nil) end))

abbrev size : String → ℕ
size raw = 100

abbrev signed : String → String → Bool
signed raw header = true

abbrev load : String → Option Value
load raw = some (obj charge)

abbrev load_odd : String → Option Value
load_odd raw = some (obj odd)

abbrev fine : World
fine = record { record_fails = false; enqueue_fails = false; mark_fails = false; others = λ t. t }

abbrev broker_down : World
broker_down = record {
  record_fails = false;
  enqueue_fails = true;
  mark_fails = false;
  others = λ t. t;
}

abbrev nothing : Ingress
nothing = record { events = []; queue = [] }

abbrev charge_row : EventRow
charge_row = record {
  id = "evt_1";
  event_type = "charge.succeeded";
  object_id = some "ch_1";
  payload = charge;
  status = queued;
}

accepted :
    webhook size signed load fine "raw" "t=1" nothing
    ≡ (queued_reply, record { events = charge_row ∷ []; queue = charge ∷ [] })
unfolding webhook handle_json envelope record_event check_and_record money_movement_object_id
    object_id get_attr get insert_event deduped tell mark_queued update_status
accepted = refl

fine_code : status_code (webhook size signed load fine "raw" "t=1" nothing).0 ≡ 200
unfolding webhook handle_json envelope record_event check_and_record money_movement_object_id
    object_id get_attr get insert_event deduped tell status_code
fine_code = refl

-- A signed envelope whose `data` is not an object is answered by 500, through an AttributeError.
odd_data : (webhook size signed load_odd fine "raw" "t=1" nothing).0 ≡ unhandled
unfolding webhook handle_json envelope record_event check_and_record money_movement_object_id
    get_attr get
odd_data = refl

accepted-Delivered_example :
    (event : Event) × (v : Value) × (signed "raw" "t=1" ≡ true)
    × (load "raw" ≡ some v)
    × (envelope v ≡ some event)
    × Delivered event nothing (webhook size signed load fine "raw" "t=1" nothing).1
accepted-Delivered_example = accepted-Delivered size signed load fine "raw" "t=1" nothing fine_code

down : (webhook size signed load broker_down "raw" "t=1" nothing).0 ≡ enqueue_failed
unfolding webhook handle_json envelope record_event check_and_record money_movement_object_id
    object_id get_attr get insert_event deduped tell
down = refl

fine-Healthy : Healthy fine
fine-Healthy = record { records = refl; enqueues = refl; marks = refl }

retry_delivers_example :
    let failed = webhook size signed load broker_down "raw" "t=1" nothing in
    (failed.1.queue ≡ []) × Sent failed.1 (webhook size signed load fine "raw" "t=1" failed.1)
retry_delivers_example =
    retry_delivers size signed load broker_down fine "raw" "t=1" nothing down fine-Healthy

-- All four tiers are shed.
abbrev drowning : LoadShedder
drowning = record new_shedder { level = 4 }

abbrev guarded : Guards
guarded = record { shedder = some drowning; limiter = none; store = λ key. none }

abbrev webhook_request : Request
webhook_request = record {
  synthetic = false;
  method = "POST";
  path = "/webhook";
  client = "10.0.0.1";
}

abbrev health_request : Request
health_request = record {
  synthetic = false;
  method = "GET";
  path = "/healthz";
  client = "10.0.0.2";
}

abbrev prompt : ℕ × ℕ → ℕ → Bool
prompt t e = leb (e * 1000) (clock t)

abbrev clean : ℕ × ℕ → Answers
clean t = record { lock = acquired; time = some t; get_fails = false; set_fails = false }

is_money : classify webhook_request ≡ critical
unfolding classify
is_money = refl

money_shed : (backpressure prompt guarded none webhook_request (clean (1, 0))).0 ≡ shedding critical
unfolding backpressure shed_first classify should_shed
money_shed = refl

webhook_shed_last_example :
    ((backpressure prompt guarded none health_request (clean (2, 0))).0
      ≡ shedding (classify health_request))
    × ((backpressure prompt guarded none health_request (clean (2, 0))).1.store ≡ guarded.store)
webhook_shed_last_example =
    webhook_shed_last prompt guarded drowning none webhook_request health_request (clean (1, 0))
      (clean (2, 0)) refl is_money money_shed
