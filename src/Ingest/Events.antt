-- ===== src/Ingest/Events.antt =====
-- The table `stripe_events` of migrations/003_stripe_events.sql (004_hardening.sql lets the application
-- update its status only). An event is taken after the endpoint's check of its envelope.
pub mod Keys
use ledger_proof.Base.{
  ℕ, String, Bool, true, false, ◌&&◌, ◌||◌, Option, none, some, List, [], ◌∷◌, ◌++◌, any, str_eq,
  sql_eq, if◌then◌else◌, find_first, map, Result, ok, err,
}
use ledger_proof.Base.Json.{Fields}

pub data Status : Type 0 where
  received queued processed no_money_moved failed : Status

pub record EventRow : Type 0 where
  pub id : String
  pub event_type : String
  pub object_id : Option String
  pub payload : Fields
  pub status : Status

abbrev pub EventTable : Type 0
EventTable = List EventRow

-- Which unique constraint refuses an insert.
pub data EventKey : Type 0 where
  stripe_events_pkey stripe_events_object_dedupe : EventKey

abbrev pub same_id : String → EventRow → Bool
same_id id r = str_eq r.id id

-- `event_type = %s AND object_id = %s`: NULL is equal to nothing.
abbrev pub same_object : String → Option String → EventRow → Bool
same_object event_type object_id r = str_eq r.event_type event_type && sql_eq r.object_id object_id

unfoldable pub insert_event : EventTable → EventRow → Result EventKey EventTable
insert_event rows r =
    if any (same_id r.id) rows
    then err stripe_events_pkey
    else if any (same_object r.event_type r.object_id) rows
    then err stripe_events_object_dedupe
    else ok (rows ++ r ∷ [])

-- UPDATE ... SET status, of the rows that the test picks.
unfoldable pub update_status : (EventRow → Bool) → Status → EventTable → EventTable
update_status picked status rows =
    map (λ r. if picked r then record r { status = status } else r) rows

abbrev pub is_received : Status → Bool
is_received received = true
is_received _ = false

-- `NON_TERMINAL_STATUSES` of ingest/app.py.
abbrev pub is_non_terminal : Status → Bool
is_non_terminal received = true
is_non_terminal queued = true
is_non_terminal _ = false
