-- ===== src/Harness/Events/Makers.antt =====
-- harness/events.py: the five makers, one for each kind of event, over their keyword arguments.
use Prim.Native.String.{◌++◌ as joined}
use ledger_proof.Base.{String, true, false, Option, List, [], ◌∷◌, Result, ok, ◌>>=◌}
use ledger_proof.Base.Int.{ℤ, pos, ◌+ℤ◌, ◌-ℤ◌, leb_ℤ, neg}
use ledger_proof.Base.Json.{Value, null, bool, num, str, arr, obj, Fields, end, dict, array}
use ledger_proof.Ledger.Schema.{debit, credit}
use ledger_proof.Stripe.Mapping.{Raised}
use ledger_proof.Harness.Events.{
  EventFixture, Line, delta, now_or, sibling_id, envelope, balance_transaction,
}

abbrev refunds_url : String → String
refunds_url charge_id = joined "/v1/charges/" (joined charge_id "/refunds")

-- The fixture of an event, once its ground truth has been added up.
abbrev pub fixture : Fields → String → List Line → Result Raised EventFixture
fixture event kind entries = do
  expected ← delta entries []
  ok (record { event = event; kind = kind; expected_delta = expected })

abbrev pub charge_lines : ℤ → ℤ → List Line
charge_lines amount fee =
    ("stripe_balance", debit, amount -ℤ fee)
    ∷ ("processing_fees", debit, fee)
    ∷ ("revenue", credit, amount)
    ∷ []

unfoldable pub charge_object : String → ℤ → ℤ → ℤ → String → Fields
charge_object charge_id amount fee created currency = dict (
    ("id", str charge_id)
    ∷ ("object", str "charge")
    ∷ ("amount", num amount)
    ∷ ("amount_captured", num amount)
    ∷ ("amount_refunded", num (pos 0))
    ∷ ("application_fee_amount", null)
    ∷ (
      "balance_transaction",
      obj (
          balance_transaction (record {
            bt_id = sibling_id charge_id "txn";
            source = charge_id;
            amount = amount;
            fee = fee;
            created = created;
            currency = currency;
            reporting_category = "charge";
            bt_type = "charge";
          })),
    )
    ∷ ("captured", bool true)
    ∷ ("created", num created)
    ∷ ("currency", str currency)
    ∷ ("customer", str (sibling_id charge_id "cus"))
    ∷ ("description", str "LedgerProof chaos harness")
    ∷ ("disputed", bool false)
    ∷ ("failure_code", null)
    ∷ ("failure_message", null)
    ∷ ("livemode", bool false)
    ∷ ("metadata", obj end)
    ∷ ("paid", bool true)
    ∷ ("payment_intent", str (sibling_id charge_id "pi"))
    ∷ ("payment_method", str (sibling_id charge_id "pm"))
    ∷ (
      "payment_method_details",
      obj (
          dict (
            (
              "card",
              obj (
                  dict (
                    ("brand", str "visa")
                    ∷ ("country", str "US")
                    ∷ ("exp_month", num (pos 12))
                    ∷ ("exp_year", num (pos 2030))
                    ∷ ("funding", str "credit")
                    ∷ ("last4", str "4242")
                    ∷ ("network", str "visa")
                    ∷ [])),
            )
            ∷ ("type", str "card")
            ∷ [])),
    )
    ∷ ("refunded", bool false)
    ∷ (
      "refunds",
      obj (
          dict (
            ("object", str "list")
            ∷ ("data", arr (array []))
            ∷ ("has_more", bool false)
            ∷ ("total_count", num (pos 0))
            ∷ ("url", str (refunds_url charge_id))
            ∷ [])),
    )
    ∷ ("status", str "succeeded")
    ∷ [])

abbrev pub refund_lines : ℤ → List Line
refund_lines refunded =
    ("refunds_contra", debit, refunded) ∷ ("stripe_balance", credit, refunded) ∷ []

abbrev refund_json : String → String → ℤ → ℤ → String → Value
refund_json charge_id refund_id refunded created currency = obj (
    dict (
      ("id", str refund_id)
      ∷ ("object", str "refund")
      ∷ ("amount", num refunded)
      ∷ ("balance_transaction", str (sibling_id refund_id "txn"))
      ∷ ("charge", str charge_id)
      ∷ ("created", num created)
      ∷ ("currency", str currency)
      ∷ ("metadata", obj end)
      ∷ ("payment_intent", str (sibling_id charge_id "pi"))
      ∷ ("reason", null)
      ∷ ("receipt_number", null)
      ∷ ("status", str "succeeded")
      ∷ []))

unfoldable pub refund_object : String → String → ℤ → ℤ → ℤ → String → Fields
refund_object charge_id refund_id amount refunded created currency = dict (
    ("id", str charge_id)
    ∷ ("object", str "charge")
    ∷ ("amount", num amount)
    ∷ ("amount_captured", num amount)
    ∷ ("amount_refunded", num refunded)
    ∷ ("captured", bool true)
    ∷ ("created", num created)
    ∷ ("currency", str currency)
    ∷ ("customer", str (sibling_id charge_id "cus"))
    ∷ ("disputed", bool false)
    ∷ ("livemode", bool false)
    ∷ ("metadata", obj end)
    ∷ ("paid", bool true)
    ∷ ("payment_intent", str (sibling_id charge_id "pi"))
    ∷ ("refunded", bool (leb_ℤ amount refunded))
    ∷ (
      "refunds",
      obj (
          dict (
            ("object", str "list")
            ∷ ("data", arr (array (refund_json charge_id refund_id refunded created currency ∷ [])))
            ∷ ("has_more", bool false)
            ∷ ("total_count", num (pos 1))
            ∷ ("url", str (refunds_url charge_id))
            ∷ [])),
    )
    ∷ ("status", str "succeeded")
    ∷ [])

abbrev pub dispute_lines : ℤ → ℤ → List Line
dispute_lines amount fee =
    ("dispute_losses", debit, amount)
    ∷ ("processing_fees", debit, fee)
    ∷ ("stripe_balance", credit, amount +ℤ fee)
    ∷ []

unfoldable pub dispute_object : String → String → ℤ → ℤ → ℤ → String → Fields
dispute_object dispute_id charge_id amount fee created currency = dict (
    ("id", str dispute_id)
    ∷ ("object", str "dispute")
    ∷ ("amount", num amount)
    ∷ (
      "balance_transactions",
      arr (
          array (
            obj (
              balance_transaction (record {
                bt_id = sibling_id dispute_id "txn";
                source = dispute_id;
                amount = neg amount;
                fee = fee;
                created = created;
                currency = currency;
                reporting_category = "dispute";
                bt_type = "adjustment";
              }))
            ∷ [])),
    )
    ∷ ("charge", str charge_id)
    ∷ ("created", num created)
    ∷ ("currency", str currency)
    ∷ (
      "evidence_details",
      obj (
          dict (
            ("due_by", num (created +ℤ pos 604800))
            ∷ ("has_evidence", bool false)
            ∷ ("past_due", bool false)
            ∷ ("submission_count", num (pos 0))
            ∷ [])),
    )
    ∷ ("is_charge_refundable", bool false)
    ∷ ("livemode", bool false)
    ∷ ("metadata", obj end)
    ∷ ("payment_intent", str (sibling_id charge_id "pi"))
    ∷ ("reason", str "fraudulent")
    ∷ ("status", str "needs_response")
    ∷ [])

abbrev pub payout_lines : ℤ → List Line
payout_lines amount = ("bank", debit, amount) ∷ ("stripe_balance", credit, amount) ∷ []

unfoldable pub payout_object : String → ℤ → ℤ → String → Fields
payout_object payout_id amount created currency = dict (
    ("id", str payout_id)
    ∷ ("object", str "payout")
    ∷ ("amount", num amount)
    ∷ ("arrival_date", num (created +ℤ pos 172800))
    ∷ ("automatic", bool true)
    ∷ ("balance_transaction", str (sibling_id payout_id "txn"))
    ∷ ("created", num created)
    ∷ ("currency", str currency)
    ∷ ("description", str "STRIPE PAYOUT")
    ∷ ("destination", str (sibling_id payout_id "ba"))
    ∷ ("failure_code", null)
    ∷ ("failure_message", null)
    ∷ ("livemode", bool false)
    ∷ ("metadata", obj end)
    ∷ ("method", str "standard")
    ∷ ("reconciliation_status", str "completed")
    ∷ ("source_type", str "card")
    ∷ ("status", str "paid")
    ∷ ("type", str "bank_account")
    ∷ [])

unfoldable pub invoice_object : String → ℤ → ℤ → String → Fields
invoice_object invoice_id amount created currency = dict (
    ("id", str invoice_id)
    ∷ ("object", str "invoice")
    ∷ ("amount_due", num amount)
    ∷ ("amount_paid", num (pos 0))
    ∷ ("amount_remaining", num amount)
    ∷ ("attempt_count", num (pos 1))
    ∷ ("attempted", bool true)
    ∷ ("auto_advance", bool true)
    ∷ ("billing_reason", str "subscription_cycle")
    ∷ ("charge", null)
    ∷ ("collection_method", str "charge_automatically")
    ∷ ("created", num created)
    ∷ ("currency", str currency)
    ∷ ("customer", str (sibling_id invoice_id "cus"))
    ∷ ("livemode", bool false)
    ∷ ("metadata", obj end)
    ∷ ("next_payment_attempt", num (created +ℤ pos 3600))
    ∷ ("paid", bool false)
    ∷ ("payment_intent", str (sibling_id invoice_id "pi"))
    ∷ ("status", str "open")
    ∷ ("subscription", str (sibling_id invoice_id "sub"))
    ∷ ("subtotal", num amount)
    ∷ ("total", num amount)
    ∷ [])

-- The parameters that the makers share: event id, amounts, created and currency.
unfoldable pub make_charge_succeeded :
    ℤ → String → String → ℤ → ℤ → Option ℤ → String → Result Raised EventFixture
unfolding charge_object envelope
make_charge_succeeded clock event_id charge_id amount fee created currency =
    let at = now_or clock created in
    fixture
      (envelope event_id "charge.succeeded" (charge_object charge_id amount fee at currency) at)
      "charge_succeeded" (charge_lines amount fee)

unfoldable pub make_charge_refunded :
    ℤ → String → String → String → ℤ → ℤ → Option ℤ → String → Result Raised EventFixture
unfolding refund_object envelope
make_charge_refunded clock event_id charge_id refund_id amount refunded created currency =
    let at = now_or clock created in
    let object = refund_object charge_id refund_id amount refunded at currency in
    fixture (envelope event_id "charge.refunded" object at) "charge_refunded"
      (refund_lines refunded)

unfoldable pub make_dispute_created :
    ℤ → String → String → String → ℤ → ℤ → Option ℤ → String → Result Raised EventFixture
unfolding dispute_object envelope
make_dispute_created clock event_id dispute_id charge_id amount fee created currency =
    let at = now_or clock created in
    let object = dispute_object dispute_id charge_id amount fee at currency in
    fixture (envelope event_id "charge.dispute.created" object at) "dispute_created"
      (dispute_lines amount fee)

unfoldable pub make_payout_paid :
    ℤ → String → String → ℤ → Option ℤ → String → Result Raised EventFixture
unfolding payout_object envelope
make_payout_paid clock event_id payout_id amount created currency =
    let at = now_or clock created in
    fixture (envelope event_id "payout.paid" (payout_object payout_id amount at currency) at)
      "payout_paid" (payout_lines amount)

unfoldable pub make_invoice_payment_failed :
    ℤ → String → String → ℤ → Option ℤ → String → Result Raised EventFixture
unfolding invoice_object envelope
make_invoice_payment_failed clock event_id invoice_id amount created currency =
    let at = now_or clock created in
    let object = invoice_object invoice_id amount at currency in
    ok (record {
      event = envelope event_id "invoice.payment_failed" object at;
      kind = "invoice_payment_failed";
      expected_delta = [];
    })
