-- ===== src/Ingest/Webhook/Outcomes.antt =====
-- What the endpoint of ingest/app.py has done by the time it answers.
pub mod Delivery
pub mod Retry
use ledger_proof.Base.{
  String, Bool, true, false, ◌||◌, ◌&&◌, not, Option, none, some, List, [], ◌∷◌, ◌++◌, any,
  find_first, ◌≡◌, ◌≢◌, refl, ap, arith, Bool-cases, Option-cases, inl, inr, ◌⊎◌, Result, ok, err,
  eq_refl, ok_injective, sym, ◌∙◌, subst, if◌then◌else◌, Result-cases,
}
use ledger_proof.Base.Json.{Fields}
use ledger_proof.Stripe.Mapping.{Raised, money_movement_object_id}
use ledger_proof.Ingest.Events.{
  Status, EventRow, EventTable, EventKey, same_id, same_object, insert_event, is_non_terminal,
}
use ledger_proof.Ingest.Events.Keys.{
  find_first-any, find_first-inv, insert_event-inv, insert_event-blocked,
}
use ledger_proof.Ingest.Dedupe.{
  Event, DedupeResult, blocking_row, received_row, judged, check_and_record, mark_queued, recorded,
  blocked_by,
}
use ledger_proof.Ingest.Webhook.{
  Response, enqueue_failed, unhandled, queued_reply, duplicate_reply, Ingress, World, tell, recover,
  deduped, record_event,
}

-- A row of the table that the event cannot be inserted beside.
pub record Blocks (rows : EventTable) (event : Event) (r : EventRow) : Type 0 where
  pub object_id : Option String
  pub derived : money_movement_object_id event.fields ≡ ok object_id
  pub matches : (same_id event.id r || same_object event.type object_id r) ≡ true
  pub found : blocking_row rows event object_id ≡ some r
  pub present : (before after : EventTable) × (rows ≡ before ++ r ∷ after)

-- How a request with this event ends, from state `s`.
pub data Outcome (w : World) (event : Event) (s : Ingress) : Response × Ingress → Type 0 where
  not_recorded :
      (w.record_fails ≡ true) ⊎ ((e : Raised) × (money_movement_object_id event.fields ≡ err e))
      → Outcome w event s (unhandled, s)
  told_new :
      (object_id : Option String)
      → money_movement_object_id event.fields ≡ ok object_id
      → any (same_id event.id) s.events ≡ false
      → any (same_object event.type object_id) s.events ≡ false
      → Outcome w event s (
          tell w event.fields event.id
            (record s { events = s.events ++ received_row event object_id ∷ [] }))
  told_again :
      (r : EventRow)
      → Blocks s.events event r
      → is_non_terminal r.status ≡ true
      → Outcome w event s (tell w r.payload r.id s)
  answered_duplicate :
      (r : EventRow)
      → Blocks s.events event r
      → is_non_terminal r.status ≡ false
      → Outcome w event s (duplicate_reply, s)

right_true : (a : Bool) {b : Bool} → b ≡ true → (a || b) ≡ true
right_true a h = ground arith

left_true : (b : Bool) {a : Bool} → a ≡ true → (a || b) ≡ true
left_true b h = ground arith

blocking_row-Blocks :
    (rows : EventTable) (event : Event) (o : Option String)
    → money_movement_object_id event.fields ≡ ok o
    → (any (same_id event.id) rows ≡ true) ⊎ (any (same_object event.type o) rows ≡ true)
    → (r : EventRow) × (blocking_row rows event o ≡ some r) × Blocks rows event r
unfolding blocking_row
blocking_row-Blocks rows event o derived blocked =
    elim (Option-cases (find_first (same_id event.id) rows)) [
      | inl none_found ↦
          let by_object : any (same_object event.type o) rows ≡ true = (elim blocked [
            | inl id_taken ↦ absurd (
                let (r, found) = find_first-any (same_id event.id) rows id_taken in
                let both = sym found ∙ none_found in cc)
            | inr taken ↦ taken
          ]) in
          let (r, found) = find_first-any (same_object event.type o) rows by_object in
          let (passes, place) = find_first-inv (same_object event.type o) rows found in
          let is : blocking_row rows event o ≡ some r = rw (none_found, blocking_row) found in
          (
            r,
            is,
            record {
              object_id = o;
              derived = derived;
              matches = right_true _ passes;
              found = is;
              present = place;
            },
          )
      | inr there ↦
          let (r, found) = there in
          let (passes, place) = find_first-inv (same_id event.id) rows found in
          let is : blocking_row rows event o ≡ some r = rw (found, blocking_row) refl in
          (
            r,
            is,
            record {
              object_id = o;
              derived = derived;
              matches = left_true _ passes;
              found = is;
              present = place;
            },
          )
    ]

module _ (w : World) (event : Event) (s : Ingress) where
  blocked-Outcome :
      (r : EventRow)
      → Blocks s.events event r
      → Outcome w event s (deduped w event (blocked_by (some r)) s)
  unfolding deduped recover
  blocked-Outcome r blocks = elim (Bool-cases (is_non_terminal r.status)) [
    | inl open_row ↦ rw open_row (told_again r blocks open_row)
    | inr terminal ↦ rw terminal (answered_duplicate r blocks terminal)
  ]

  abbrev goes : DedupeResult × EventTable → Response × Ingress
  goes j = deduped w event j.0 (record s { events = j.1 })

  inserted-Outcome :
      (o : Option String) (rows' : EventTable)
      → money_movement_object_id event.fields ≡ ok o
      → insert_event s.events (received_row event o) ≡ ok rows'
      → Outcome w event s (goes (recorded, rows'))
  unfolding deduped
  inserted-Outcome o rows' derived done =
      let (id_free, free, grown) = insert_event-inv s.events (received_row event o) done in
      rw grown (told_new o derived id_free free)

  judged-Outcome :
      (o : Option String)
      → money_movement_object_id event.fields ≡ ok o
      → Outcome w event s (goes (judged s.events event o))
  judged-Outcome o derived = elim (Result-cases (insert_event s.events (received_row event o))) [
    | inl inserted ↦
        let (rows', done) = inserted in
        let is : judged s.events event o ≡ (recorded, rows') = rw (done, judged) refl in
        subst (λ (j : DedupeResult × EventTable). Outcome w event s (goes j)) (sym is)
          (inserted-Outcome o rows' derived done)
    | inr refused ↦
        let (key, done) = refused in
        let (r, found, blocks) =
          blocking_row-Blocks s.events event o derived
            (insert_event-blocked s.events (received_row event o) done) in
        let is : judged s.events event o ≡ (blocked_by (some r), s.events) =
          rw (done, judged) (rw found refl) in
        subst (λ (j : DedupeResult × EventTable). Outcome w event s (goes j)) (sym is)
          (blocked-Outcome r blocks)
  ]

  pub record_event-Outcome : Outcome w event s (record_event w event s)
  unfolding check_and_record record_event deduped recover tell
  record_event-Outcome = elim (Bool-cases w.record_fails) [
    | inl broken ↦
        let is : record_event w event s ≡ (unhandled, s) = rw (broken, record_event) refl in
        subst (λ (r : Response × Ingress). Outcome w event s r) (sym is) (not_recorded (inl broken))
    | inr works ↦ elim (Result-cases (money_movement_object_id event.fields)) [
      | inl derives ↦
          let (o, derived) = derives in
          let is : record_event w event s ≡ goes (judged s.events event o) =
            rw (works, record_event) (rw derived refl) in
          subst (λ (r : Response × Ingress). Outcome w event s r) (sym is)
            (judged-Outcome o derived)
      | inr raises ↦
          let (e, raised) = raises in
          let is : record_event w event s ≡ (unhandled, s) =
            rw (works, record_event) (rw raised refl) in
          subst (λ (r : Response × Ingress). Outcome w event s r) (sym is)
            (not_recorded (inr (e, raised)))
    ]
  ]
