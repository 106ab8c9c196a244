-- ===== src/Ingest/Webhook/Outcomes/Delivery.antt =====
-- What a response of the endpoint of ingest/app.py means for the event that was sent.
use ledger_proof.Base.{
  ℕ, String, Bool, true, false, Option, some, [], ◌∷◌, ◌++◌, ◌≡◌, refl, ap, arith, Bool-cases,
  Option-cases, inl, inr, sym, subst, ltb,
}
use ledger_proof.Base.Json.{Value, Fields}
use ledger_proof.Ingest.Events.{EventRow, is_non_terminal}
use ledger_proof.Ingest.Dedupe.{Event, mark_queued}
use ledger_proof.Ingest.Webhook.{
  Response, body_too_large, invalid_signature, invalid_json, not_an_event, enqueue_failed,
  unhandled, queued_reply, status_code, Ingress, World, tell, told, handle_json, record_event,
  envelope, webhook, max_body_bytes,
}
use ledger_proof.Ingest.Webhook.Outcomes.{
  Blocks, Outcome, not_recorded, told_new, told_again, answered_duplicate, record_event-Outcome,
}

-- A body is refused whatever the state, or its event is recorded.
pub data Gate {Body : Type 0} (verify : Body → String → Bool) (loads : Body → Option Value)
    (raw : Body) (sig_header : String) (handler : World → Ingress → Response × Ingress)
    : Type 0 where
  rejected :
      (r : Response)
      → status_code r ≡ 400
      → ((w : World) (s : Ingress) → handler w s ≡ (r, s))
      → Gate verify loads raw sig_header handler
  accepted :
      (event : Event) (v : Value)
      → verify raw sig_header ≡ true
      → loads raw ≡ some v
      → envelope v ≡ some event
      → ((w : World) (s : Ingress) → handler w s ≡ record_event w event s)
      → Gate verify loads raw sig_header handler

module _ {Body : Type 0} (size : Body → ℕ) (verify : Body → String → Bool)
    (loads : Body → Option Value) (raw : Body) (sig_header : String) where
  pub webhook-Gate :
      Gate verify loads raw sig_header (λ w s. webhook size verify loads w raw sig_header s)
  unfolding webhook status_code handle_json
  webhook-Gate = elim (Bool-cases (ltb max_body_bytes (size raw))) [
    | inl large ↦ rejected body_too_large refl (λ w s. rw large refl)
    | inr fits ↦ elim (Bool-cases (verify raw sig_header)) [
      | inl signed ↦ elim (Option-cases (loads raw)) [
        | inl garbled ↦ rejected invalid_json refl (λ w s. rw (fits, signed, garbled) refl)
        | inr read ↦
            let (v, parsed) = read in
            elim (Option-cases (envelope read.0)) [
              | inl other ↦
                  rejected not_an_event refl
                    (λ w s. rw (fits, signed, parsed) (rw (other, handle_json) refl))
              | inr is ↦
                  let (event, enveloped) = is in
                  accepted event v signed parsed enveloped
                    (λ w s. rw (fits, signed, parsed) (rw (enveloped, handle_json) refl))
            ]
      ]
      | inr unsigned ↦ rejected invalid_signature refl (λ w s. rw (fits, unsigned) refl)
    ]
  ]

-- What telling the queue does.
pub data Told (w : World) (payload : Fields) (id : String) (s : Ingress)
    : Response × Ingress → Type 0 where
  queue_down : w.enqueue_fails ≡ true → Told w payload id s (enqueue_failed, s)
  unmarked : w.mark_fails ≡ true → Told w payload id s (unhandled, told w payload s)
  marked : Told w payload id s (
    queued_reply,
    record (told w payload s) { events = mark_queued id (told w payload s).events },
  )

pub tell-Told :
    (w : World) (payload : Fields) (id : String) (s : Ingress)
    → Told w payload id s (tell w payload id s)
unfolding tell
tell-Told w payload id s = elim (Bool-cases w.enqueue_fails) [
  | inl broken ↦
      let is : tell w payload id s ≡ (enqueue_failed, s) = rw broken refl in
      subst (λ (r : Response × Ingress). Told w payload id s r) (sym is) (queue_down broken)
  | inr works ↦ elim (Bool-cases w.mark_fails) [
    | inl late ↦
        let is : tell w payload id s ≡ (unhandled, told w payload s) = rw (works, late) refl in
        subst (λ (r : Response × Ingress). Told w payload id s r) (sym is) (unmarked late)
    | inr works' ↦
        let is : tell w payload id s ≡ (
          queued_reply,
          record (told w payload s) { events = mark_queued id (told w payload s).events },
        ) =
          rw (works, works') refl in
        subst (λ (r : Response × Ingress). Told w payload id s r) (sym is) marked
  ]
]

-- What a 200 stands for: the queue has been told of the event, or of what was recorded in its place,
-- or nothing was done since what was recorded has been processed, or has failed for good.
pub data Delivered (event : Event) (s s' : Ingress) : Type 0 where
  by_itself : s'.queue ≡ s.queue ++ event.fields ∷ [] → Delivered event s s'
  by_record :
      (r : EventRow)
      → Blocks s.events event r
      → is_non_terminal r.status ≡ true
      → s'.queue ≡ s.queue ++ r.payload ∷ []
      → Delivered event s s'
  already :
      (r : EventRow)
      → Blocks s.events event r
      → is_non_terminal r.status ≡ false
      → s' ≡ s
      → Delivered event s s'

queue_told :
    {w : World} {payload : Fields} {id : String} {s : Ingress} {r : Response × Ingress}
    → Told w payload id s r
    → status_code r.0 ≡ 200
    → r.1.queue ≡ s.queue ++ payload ∷ []
unfolding status_code
queue_told (queue_down broken) fine = absurd (omega (arith, fine))
queue_told (unmarked late) fine = refl
queue_told marked fine = refl

delivers :
    {w : World} {event : Event} {s : Ingress} {r : Response × Ingress}
    → Outcome w event s r
    → status_code r.0 ≡ 200
    → Delivered event s r.1
unfolding status_code
delivers (not_recorded why) fine = absurd (omega (arith, fine))
delivers {w} {event} {s} (told_new o derived id_free free) fine =
    by_itself (queue_told (tell-Told w event.fields event.id _) fine)
delivers {w} {event} {s} (told_again r blocks waits) fine =
    by_record r blocks waits (queue_told (tell-Told w r.payload r.id s) fine)
delivers (answered_duplicate r blocks terminal) fine = already r blocks terminal refl

module _ {Body : Type 0} (size : Body → ℕ) (verify : Body → String → Bool)
    (loads : Body → Option Value) (w : World) (raw : Body) (sig_header : String) (s : Ingress) where
  -- A 200 never loses an event: it is answered only for a body whose signature verifies and which
  -- parses to an event, and then the queue has been told of that event, or of the payload of the
  -- row that stands in its place and has not been processed, or nothing was changed since that row
  -- is processed, moved no money or has failed for good.
  pub accepted-Delivered :
      let r = webhook size verify loads w raw sig_header s in
      status_code r.0 ≡ 200
      → (event : Event) × (v : Value) × (verify raw sig_header ≡ true)
        × (loads raw ≡ some v)
        × (envelope v ≡ some event)
        × Delivered event s r.1
  accepted-Delivered fine = elim (webhook-Gate size verify loads raw sig_header) [
    | rejected r bad same ↦
        absurd
          (omega (arith, bad, fine, ap (λ (x : Response × Ingress). status_code x.0) (same w s)))
    | accepted event v signed parsed enveloped same ↦ (
      event,
      v,
      signed,
      parsed,
      enveloped,
      delivers
          (subst (λ (x : Response × Ingress). Outcome w event s x) (sym (same w s))
            (record_event-Outcome w event s))
          fine,
    )
  ]
