-- ===== src/Harness/Events/Built.antt =====
-- The ground truth of harness/events.py against what stripe_io/mapping.py builds from the same event.
use ledger_proof.Base.{
  ℕ, String, subst, Bool, true, false, Option, none, some, List, [], ◌≡◌, refl, sym, ◌||◌, ap, ◌∙◌,
  inl, inr, Option-cases, Result, ok, err, >>=-inv, if◌then◌else◌, ok_injective, is_some,
}
use ledger_proof.Base.Int.{ℤ, pos, ◌+ℤ◌, +ℤ-zero, zero-+ℤ}
use ledger_proof.Base.Dict.{Dict, lookup}
use ledger_proof.Ledger.Schema.{Direction}
use ledger_proof.Ledger.Post.{LedgerTransaction}
use ledger_proof.Base.Json.{Fields, get}
use ledger_proof.Base.Text.{upper}
use ledger_proof.Stripe.Mapping.{
  Raised, type_error, value_error, build_transaction, build_handled, subscript, object_entries,
  entries_for, charge_fee, charge_bt, to_int, money_movement_object_id, get_attr, object_id,
  newest_refund, charge_entries, refund_entries, dispute_entries, payout_entries, dispute_fee,
  refund_amount, sum_fees,
}
use ledger_proof.Harness.Events.{
  EventFixture, Line, delta, normal_of, or_zero, now_or, envelope, balance_transaction,
}
use ledger_proof.Harness.Events.Makers.{
  fixture, charge_object, refund_object, dispute_object, payout_object, invoice_object,
  charge_lines, refund_lines, dispute_lines, payout_lines,
}
use ledger_proof.Ledger.Balances.Moves.{moved}
use ledger_proof.Harness.Events.Truth.{line_sum, added, moved-added, delta-lines}
use ledger_proof.Harness.Events.Makers.{
  make_charge_succeeded, make_charge_refunded, make_dispute_created, make_payout_paid,
  make_invoice_payment_failed,
}
use ledger_proof.Harness.Events.Numbered.{
  Maker, charge_succeeded, charge_refunded, dispute_created, payout_paid, invoice_payment_failed,
  maker_of, Overrides, default, id_for, call_maker, make,
}

-- What posting the transaction of a fixture moves is what the fixture says, in each account; or
-- the event makes no transaction and the fixture expects no change.
pub data Grounded (uuid5 : String → ℕ) (f : EventFixture) : Type 0 where
  moves :
      (t : LedgerTransaction)
      → build_transaction uuid5 f.event none ≡ ok (some t)
      → ((n : String) (normal : Direction)
          → normal_of n ≡ ok normal
          → moved n normal t.entries ≡ or_zero (lookup n f.expected_delta))
      → Grounded uuid5 f
  silent : build_transaction uuid5 f.event none ≡ ok none → f.expected_delta ≡ [] → Grounded uuid5 f

-- What is returned past a test that raises.
pub accepted :
    (refused : Bool) (r : Result Raised EventFixture) {f : EventFixture}
    → (if refused then err type_error else r) ≡ ok f
    → r ≡ ok f
accepted true r made = cc
accepted false r made = made

pub fixture-inv :
    (event : Fields) (kind : String) (lines : List Line) {f : EventFixture}
    → fixture event kind lines ≡ ok f
    → (expected : Dict ℤ) × (delta lines [] ≡ ok expected)
      × (record { event = event; kind = kind; expected_delta = expected } ≡ f)
fixture-inv event kind lines made =
    let (expected, added_up, same) = >>=-inv (delta lines []) _ made in
    (expected, added_up, ok_injective same)

-- A maker whose event is mapped to the entries of its own lines.
fixture-Grounded :
    (uuid5 : String → ℕ) (event : Fields) (kind cur : String) (lines : List Line)
    (t : LedgerTransaction) {f : EventFixture}
    → build_transaction uuid5 event none ≡ ok (some t)
    → t.entries ≡ added cur lines
    → fixture event kind lines ≡ ok f
    → Grounded uuid5 f
unfolding lookup
fixture-Grounded uuid5 event kind cur lines t built entries made =
    let (expected, added_up, same) = fixture-inv event kind lines made in
    subst (Grounded uuid5) same (
      moves t built λ n normal known.
        ap (moved n normal) entries
        ∙ moved-added n cur normal lines
        ∙ sym (delta-lines n normal lines [] known added_up ∙ zero-+ℤ (line_sum n normal lines)))

module _ (uuid5 : String → ℕ) where
  charge-built :
      (event_id charge_id currency : String) (amount fee at : ℤ)
      → (t : LedgerTransaction) × (build_transaction uuid5
            (envelope event_id "charge.succeeded"
              (charge_object charge_id amount fee at currency)
              at)
            none
          ≡ ok (some t))
        × (t.entries ≡ added (upper currency) (charge_lines amount fee))
  unfolding build_transaction build_handled subscript get envelope charge_object object_entries
      entries_for charge_fee charge_bt to_int balance_transaction money_movement_object_id get_attr
      object_id newest_refund charge_entries
  charge-built event_id charge_id currency amount fee at = (_, refl, refl)

  refund-built :
      (event_id charge_id refund_id currency : String) (amount refunded at : ℤ)
      → (t : LedgerTransaction) × (build_transaction uuid5
            (envelope event_id "charge.refunded"
              (refund_object charge_id refund_id amount refunded at currency)
              at)
            none
          ≡ ok (some t))
        × (t.entries ≡ added (upper currency) (refund_lines refunded))
  unfolding build_transaction build_handled subscript get envelope refund_object object_entries
      entries_for refund_amount money_movement_object_id get_attr object_id newest_refund
      refund_entries
  refund-built event_id charge_id refund_id currency amount refunded at = (_, refl, refl)

  dispute-built :
      (event_id dispute_id charge_id currency : String) (amount fee at : ℤ)
      → (t : LedgerTransaction) × (build_transaction uuid5
            (envelope event_id "charge.dispute.created"
              (dispute_object dispute_id charge_id amount fee at currency)
              at)
            none
          ≡ ok (some t))
        × (t.entries ≡ added (upper currency) (dispute_lines amount (fee +ℤ pos 0)))
  unfolding build_transaction build_handled subscript get envelope dispute_object object_entries
      entries_for dispute_fee sum_fees to_int balance_transaction money_movement_object_id get_attr
      object_id newest_refund dispute_entries
  dispute-built event_id dispute_id charge_id currency amount fee at = (_, refl, refl)

  payout-built :
      (event_id payout_id currency : String) (amount at : ℤ)
      → (t : LedgerTransaction) × (build_transaction uuid5
            (envelope event_id "payout.paid" (payout_object payout_id amount at currency) at)
            none
          ≡ ok (some t))
        × (t.entries ≡ added (upper currency) (payout_lines amount))
  unfolding build_transaction build_handled subscript get envelope payout_object object_entries
      entries_for money_movement_object_id get_attr object_id newest_refund payout_entries
  payout-built event_id payout_id currency amount at = (_, refl, refl)

  invoice-built :
      (event_id invoice_id currency : String) (amount at : ℤ)
      → build_transaction uuid5
          (envelope event_id "invoice.payment_failed"
            (invoice_object invoice_id amount at currency)
            at)
          none
        ≡ ok none
  unfolding build_transaction subscript get envelope invoice_object
  invoice-built event_id invoice_id currency amount at = refl

  call_maker-Grounded :
      (clock : ℤ) (seq : ℕ) (created : Option ℤ) (o : Overrides) (k : Maker) {f : EventFixture}
      → call_maker clock seq created o k ≡ ok f
      → Grounded uuid5 f
  unfolding call_maker make_charge_succeeded make_charge_refunded make_dispute_created
      make_payout_paid make_invoice_payment_failed
  call_maker-Grounded clock seq created o charge_succeeded made =
      let (t, built, entries) =
        charge-built (id_for "evt" seq) (id_for "ch" seq) (default o.currency "usd")
          (default o.amount (pos 1000)) (default o.fee (pos 59)) (now_or clock created) in
      fixture-Grounded uuid5 _ _ _ _ t built entries (accepted (is_some o.refunded) _ made)
  call_maker-Grounded clock seq created o charge_refunded made =
      let (t, built, entries) =
        refund-built (id_for "evt" seq) (id_for "ch" seq) (id_for "re" seq)
          (default o.currency "usd") (default o.amount (pos 1000)) (default o.refunded (pos 400))
          (now_or clock created) in
      fixture-Grounded uuid5 _ _ _ _ t built entries (accepted (is_some o.fee) _ made)
  call_maker-Grounded clock seq created o dispute_created made =
      let (t, built, entries) =
        dispute-built (id_for "evt" seq) (id_for "dp" seq) (id_for "ch" seq)
          (default o.currency "usd") (default o.amount (pos 2000)) (default o.fee (pos 1500))
          (now_or clock created) in
      fixture-Grounded uuid5 _ _ _ _ t built (rw +ℤ-zero at entries)
        (accepted (is_some o.refunded) _ made)
  call_maker-Grounded clock seq created o payout_paid made =
      let (t, built, entries) =
        payout-built (id_for "evt" seq) (id_for "po" seq) (default o.currency "usd")
          (default o.amount (pos 5000)) (now_or clock created) in
      fixture-Grounded uuid5 _ _ _ _ t built entries
        (accepted (is_some o.fee || is_some o.refunded) _ made)
  call_maker-Grounded clock seq created o invoice_payment_failed made =
      subst (Grounded uuid5) (ok_injective (accepted (is_some o.fee || is_some o.refunded) _ made))
        (silent
          (invoice-built (id_for "evt" seq) (id_for "in" seq) (default o.currency "usd")
            (default o.amount (pos 1000)) (now_or clock created))
          refl)

  -- For every kind, amount, fee, currency and number, the entries of the transaction that
  -- build_transaction makes of a fixture's event add up, for each account of the chart and on its
  -- normal side, to the change that the fixture expects, or it makes no transaction and the
  -- fixture expects no change; whether the ledger accepts the entries is not considered here.
  pub make-Grounded :
      (clock : ℤ) (seq : ℕ) (created : Option ℤ) (o : Overrides) (kind : String) {f : EventFixture}
      → make clock seq created o kind ≡ ok f
      → Grounded uuid5 f
  unfolding make
  make-Grounded clock seq created o kind made = elim (Option-cases (maker_of kind)) [
    | inl unknown ↦ absurd (raised (rw (unknown, make) at made))
    | inr (k, known) ↦ call_maker-Grounded clock seq created o k (rw (known, make) at made)
  ]
    where
      raised :
          {f : EventFixture} → ¬ (◌≡◌ {A = Result Raised EventFixture} (err value_error) (ok f))
      raised same = cc
