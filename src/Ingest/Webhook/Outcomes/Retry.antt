-- ===== src/Ingest/Webhook/Outcomes/Retry.antt =====
-- What Stripe's retry of a failed delivery does at the endpoint of ingest/app.py.
use ledger_proof.Base.{
  ℕ, String, Bool, true, false, Option, some, [], ◌∷◌, ◌++◌, any, ◌≡◌, refl, ap, arith, inl, inr,
  ok, eq_refl, ok_injective, sym, ◌∙◌, subst,
}
use ledger_proof.Base.Json.{Value, Fields}
use ledger_proof.Stripe.Mapping.{money_movement_object_id}
use ledger_proof.Ingest.Events.{EventRow, EventTable, same_id, is_non_terminal}
use ledger_proof.Ingest.Events.Keys.{find_first-append}
use ledger_proof.Ingest.Dedupe.{Event, blocking_row, received_row}
use ledger_proof.Ingest.Webhook.{
  Response, enqueue_failed, queued_reply, status_code, Ingress, World, webhook,
}
use ledger_proof.Ingest.Webhook.Outcomes.{
  Outcome, not_recorded, told_new, told_again, answered_duplicate, record_event-Outcome,
}
use ledger_proof.Ingest.Webhook.Outcomes.Delivery.{
  rejected, accepted, webhook-Gate, Told, queue_down, unmarked, marked, tell-Told,
}

-- A request in which nothing fails.
pub record Healthy (w : World) : Type 0 where
  pub records : w.record_fails ≡ false
  pub enqueues : w.enqueue_fails ≡ false
  pub marks : w.mark_fails ≡ false

-- A state in which the event is recorded as not processed, or not at all.
pub data Open (event : Event) (s : Ingress) : Type 0 where
  waiting :
      (o : Option String) (r : EventRow)
      → money_movement_object_id event.fields ≡ ok o
      → blocking_row s.events event o ≡ some r
      → is_non_terminal r.status ≡ true
      → Open event s

-- The queue is told of one event, and the answer is 200.
pub Sent : Ingress → Response × Ingress → Type 0
Sent s r = (r.0 ≡ queued_reply) × ((payload : Fields) × (r.1.queue ≡ s.queue ++ payload ∷ []))

told-Sent :
    {w : World} {payload : Fields} {id : String} {s : Ingress} {r : Response × Ingress}
    → Healthy w
    → Told w payload id s r
    → (r.0 ≡ queued_reply) × (r.1.queue ≡ s.queue ++ payload ∷ [])
told-Sent healthy (queue_down broken) = absurd (let no_way = sym healthy.enqueues ∙ broken in cc)
told-Sent healthy (unmarked late) = absurd (let no_way = sym healthy.marks ∙ late in cc)
told-Sent healthy marked = (refl, refl)

failed_leaves :
    {w : World} {payload : Fields} {id : String} {s : Ingress} {r : Response × Ingress}
    → Told w payload id s r
    → r.0 ≡ enqueue_failed
    → r.1 ≡ s
failed_leaves (queue_down broken) failed = refl
failed_leaves (unmarked late) failed = cc
failed_leaves marked failed = cc

Open-Sent :
    {w : World} {event : Event} {s : Ingress} {r : Response × Ingress}
    → Healthy w
    → Open event s
    → Outcome w event s r
    → Sent s r
unfolding Sent
Open-Sent healthy (waiting o row derived found waits) (not_recorded (inl broken)) =
    absurd (let no_way = sym healthy.records ∙ broken in cc)
Open-Sent healthy (waiting o row derived found waits) (not_recorded (inr (e, raised))) =
    absurd (let no_way = sym derived ∙ raised in cc)
Open-Sent {w} {event} healthy (waiting o row derived found waits) (told_new o' d' id_free free) =
    let (answer, queue) = told-Sent healthy (tell-Told w event.fields event.id _) in
    (answer, (event.fields, queue))
Open-Sent {w} {event} {s} healthy (waiting o row derived found waits) (told_again r blocks waits') =
    let (answer, queue) = told-Sent healthy (tell-Told w r.payload r.id s) in
    (answer, (r.payload, queue))
Open-Sent {w} {event} {s} healthy (waiting o row derived found waits)
      (answered_duplicate r blocks terminal) =
    absurd (
      let same_key : o ≡ blocks.object_id = ok_injective (sym derived ∙ blocks.derived) in
      let same_row = sym found ∙ ap (blocking_row s.events event) same_key ∙ blocks.found in cc)

appended_found :
    (rows : EventTable) (event : Event) (o : Option String)
    → any (same_id event.id) rows ≡ false
    → blocking_row (rows ++ received_row event o ∷ []) event o ≡ some (received_row event o)
unfolding blocking_row
appended_found rows event o id_free =
    rw
      (
        find_first-append (same_id event.id) rows (received_row event o) id_free (eq_refl event.id),
        blocking_row,
      )
      refl

failed-Open :
    {w : World} {event : Event} {s : Ingress} {r : Response × Ingress}
    → Outcome w event s r
    → r.0 ≡ enqueue_failed
    → Open event r.1 × (r.1.queue ≡ s.queue)
failed-Open (not_recorded why) failed = cc
failed-Open {w} {event} {s} (told_new o derived id_free free) failed =
    let recorded_state : Ingress = record s { events = s.events ++ received_row event o ∷ [] } in
    let same = failed_leaves (tell-Told w event.fields event.id recorded_state) failed in
    subst (λ (x : Ingress). Open event x × (x.queue ≡ s.queue)) (sym same)
      (
        waiting o (received_row event o) derived (appended_found s.events event o id_free) refl,
        refl,
      )
failed-Open {w} {event} {s} (told_again r blocks waits) failed =
    let same = failed_leaves (tell-Told w r.payload r.id s) failed in
    subst (λ (x : Ingress). Open event x × (x.queue ≡ s.queue)) (sym same)
      (waiting blocks.object_id r blocks.derived blocks.found waits, refl)
failed-Open (answered_duplicate r blocks terminal) failed = cc

-- When the queue could not be told of an event, nothing is added to it, and the same request
-- again, in which nothing fails, is answered as queued and tells the queue of exactly one
-- payload.
pub retry_delivers :
    {Body : Type 0} (size : Body → ℕ) (verify : Body → String → Bool) (loads : Body → Option Value)
    (w w' : World) (raw : Body) (sig_header : String) (s : Ingress)
    → let handler = webhook size verify loads in
      let failed = handler w raw sig_header s in
      failed.0 ≡ enqueue_failed
      → Healthy w'
      → (failed.1.queue ≡ s.queue) × Sent failed.1 (handler w' raw sig_header failed.1)
unfolding status_code
retry_delivers size verify loads w w' raw sig_header s failed healthy =
    elim (webhook-Gate size verify loads raw sig_header) [
      | rejected r bad same ↦ absurd (
          let code = ap (λ (x : Response × Ingress). status_code x.0) (same w s) in
          omega (arith, bad, code, ap status_code failed))
      | accepted event v signed parsed enveloped same ↦
          let first = subst (Outcome w event s) (sym (same w s)) (record_event-Outcome w event s) in
          let (is_open, queue) = failed-Open first failed in
          let s' = (webhook size verify loads w raw sig_header s).1 in
          (
            queue,
            Open-Sent healthy is_open
                (subst (Outcome w' event s') (sym (same w' s')) (record_event-Outcome w' event s')),
          )
    ]
