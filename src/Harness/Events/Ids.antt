-- ===== src/Harness/Events/Ids.antt =====
-- The id of a fixture's event in harness/events.py, whatever its maker.
use ledger_proof.Base.{
  ℕ, String, ◌||◌, Option, List, is_some, Result, ok, err, ok_injective, ◌≡◌, sym, ap, Option-cases,
  inl, inr,
}
use ledger_proof.Base.Int.{ℤ}
use ledger_proof.Base.Json.{Fields, get}
use ledger_proof.Stripe.Mapping.{Raised, value_error}
use ledger_proof.Harness.Events.{EventFixture, Line, envelope}
use ledger_proof.Harness.Events.Makers.{
  fixture, make_charge_succeeded, make_charge_refunded, make_dispute_created, make_payout_paid,
  make_invoice_payment_failed,
}
use ledger_proof.Harness.Events.Numbered.{
  Maker, charge_succeeded, charge_refunded, dispute_created, payout_paid, invoice_payment_failed,
  maker_of, Overrides, id_for, call_maker, make,
}
use ledger_proof.Harness.Events.Built.{accepted, fixture-inv}
use ledger_proof.Harness.Faults.{event_id}

-- A fixture has the id of its event.
fixture-event_id :
    (id type kind : String) (object : Fields) (at : ℤ) (lines : List Line) {f : EventFixture}
    → fixture (envelope id type object at) kind lines ≡ ok f
    → event_id f ≡ id
unfolding event_id get envelope
fixture-event_id id type kind object at lines made =
    let (_, _, same) = fixture-inv (envelope id type object at) kind lines made in
    ap event_id (sym same)

call_maker-event_id :
    (clock : ℤ) (seq : ℕ) (created : Option ℤ) (o : Overrides) (k : Maker) {f : EventFixture}
    → call_maker clock seq created o k ≡ ok f
    → event_id f ≡ id_for "evt" seq
unfolding call_maker make_charge_succeeded make_charge_refunded make_dispute_created
    make_payout_paid make_invoice_payment_failed event_id get envelope
call_maker-event_id clock seq created o charge_succeeded made =
    fixture-event_id _ _ _ _ _ _ (accepted (is_some o.refunded) _ made)
call_maker-event_id clock seq created o charge_refunded made =
    fixture-event_id _ _ _ _ _ _ (accepted (is_some o.fee) _ made)
call_maker-event_id clock seq created o dispute_created made =
    fixture-event_id _ _ _ _ _ _ (accepted (is_some o.refunded) _ made)
call_maker-event_id clock seq created o payout_paid made =
    fixture-event_id _ _ _ _ _ _ (accepted (is_some o.fee || is_some o.refunded) _ made)
call_maker-event_id clock seq created o invoice_payment_failed made =
    ap event_id (sym (ok_injective (accepted (is_some o.fee || is_some o.refunded) _ made)))

pub make-event_id :
    (clock : ℤ) (seq : ℕ) (created : Option ℤ) (o : Overrides) (kind : String) {f : EventFixture}
    → make clock seq created o kind ≡ ok f
    → event_id f ≡ id_for "evt" seq
unfolding make
make-event_id clock seq created o kind made = elim (Option-cases (maker_of kind)) [
  | inl unknown ↦ absurd (raised (rw (unknown, make) at made))
  | inr (k, known) ↦ call_maker-event_id clock seq created o k (rw (known, make) at made)
]
  where
    raised : {f : EventFixture} → ¬ (◌≡◌ {A = Result Raised EventFixture} (err value_error) (ok f))
    raised same = cc
