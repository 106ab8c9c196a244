-- ===== src/Stripe/Tests.antt =====
-- Events mapped by stripe_io/mapping.py, and its theorems at them.
use ledger_proof.Base.{ℕ, String, none, some, [], ◌∷◌, ◌≡◌, ◌≢◌, ◌↔◌, refl, ok, err}
use ledger_proof.Base.Int.{ℤ, pos, ◌-ℤ◌}
use ledger_proof.Base.Text.{upper}
use ledger_proof.Base.Json.{Value, null, num, str, arr, obj, nil, cons, Fields, end, field}
use ledger_proof.Ledger.Schema.{debit, credit, empty_db, unbalanced_transaction}
use ledger_proof.Ledger.Post.{Entry, LedgerTransaction, quiet, attempt}
use ledger_proof.Ledger.History.{empty_db-Sound}
use ledger_proof.Base.Text.{int_of_text, int_digits, strip, lstrip}
use ledger_proof.Stripe.Signature.{
  Text, default_tolerance, outside_tolerance, verify, split, scan, scan_item, scan_pair, partition,
  text_eq, judge,
}
use ledger_proof.Stripe.Signature.Accepts.{IsSigned, verify-IsSigned}
use ledger_proof.Base.{zero, suc, ◌+◌, arith}
use ledger_proof.Stripe.Client.{
  Reply, transport_error, response, HttpRequest, send, request_loop, after_reply, retryable, says,
  backoff_delay,
}
use ledger_proof.Stripe.Client.Retries.{IsBounded, send-IsBounded}
use ledger_proof.Stripe.Mapping.{
  missing_fee, money_movement_object_id, add, charge_entries, build_handled, build_transaction,
}
use ledger_proof.Stripe.Mapping.Balance.{IsMapped, build_transaction-IsMapped}
use ledger_proof.Stripe.Mapping.Posting.{mapped_never_unbalanced}

abbrev uuid : String → ℕ
uuid s = 7

abbrev envelope : String → String → Fields → Fields
envelope id kind o = field "id" (str id) (
    field "type" (str kind) (
      field "created" (num (pos 1700000000)) (field "data" (obj (field "object" (obj o) end)) end)))

abbrev charge_object : Value → Fields
charge_object bt = field "id" (str "ch_1") (
    field "currency" (str "usd")
      (field "amount" (num (pos 2000)) (field "balance_transaction" bt end)))

abbrev paid : Fields
paid = envelope "evt_1" "charge.succeeded" (charge_object (obj (field "fee" (num (pos 88)) end)))

abbrev entry : String → ℕ → Entry
entry n x = record { account_name = n; dir = debit; amount_minor = pos x; currency = "USD" }

abbrev paid_transaction : LedgerTransaction
paid_transaction = record {
  id = 7;
  occurred_at = pos 1700000000;
  entries =
      entry "stripe_balance" 1912
      ∷ entry "processing_fees" 88
      ∷ record { account_name = "revenue"; dir = credit; amount_minor = pos 2000; currency = "USD" }
      ∷ [];
  stripe_event_id = some "evt_1";
  stripe_object_id = some "ch_1";
  event_type = some "charge.succeeded";
  memo = none;
}

paid_maps : build_transaction uuid paid none ≡ ok (some paid_transaction)
unfolding build_transaction build_handled charge_entries add ◌-ℤ◌ upper
paid_maps = refl

-- A charge whose balance transaction has not been made yet needs a fetch.
unsettled_needs_fee :
    build_transaction uuid (envelope "evt_1" "charge.succeeded" (charge_object null)) none
    ≡ err (missing_fee none)
unfolding build_transaction build_handled upper
unsettled_needs_fee = refl

-- Two partial refunds: the newest refund's own amount and id, not the charge's.
abbrev refunded : Fields
refunded = envelope "evt_2" "charge.refunded" (
    field "id" (str "ch_1") (
      field "amount_refunded" (num (pos 900)) (
        field "refunds"
          (obj (
            field "data"
              (arr (cons (obj (field "id" (str "re_2") (field "amount" (num (pos 400)) end))) nil))
              end))
          end)))

refund_identity : money_movement_object_id refunded ≡ ok (some "re_2")
unfolding money_movement_object_id
refund_identity = refl

build_transaction-IsMapped_example : IsMapped uuid paid paid_transaction
build_transaction-IsMapped_example = build_transaction-IsMapped uuid paid none paid_maps

mapped_never_unbalanced_example :
    (attempt quiet empty_db paid_transaction).0 ≢ err (unbalanced_transaction 7)
mapped_never_unbalanced_example =
    mapped_never_unbalanced uuid paid none quiet empty_db 7 empty_db-Sound paid_maps

-- "t=5,v1=" and a signature, under a digest that is the payload itself.
abbrev echo : Text → Text → ℤ → Text
echo payload secret ts = payload

abbrev signed_header : Text
signed_header = 116 ∷ 61 ∷ 53 ∷ 44 ∷ 118 ∷ 49 ∷ 61 ∷ 97 ∷ []

header_accepted : verify echo (97 ∷ []) [] default_tolerance (pos 10) signed_header ≡ ok tt
unfolding verify split scan scan_item scan_pair partition text_eq int_of_text int_digits strip
    lstrip judge ◌-ℤ◌
header_accepted = refl

header_late :
    verify echo (97 ∷ []) [] default_tolerance (pos 306) signed_header ≡ err outside_tolerance
unfolding verify split scan scan_item scan_pair partition text_eq int_of_text int_digits strip
    lstrip judge ◌-ℤ◌
header_late = refl

verify-IsSigned_example :
    (verify echo (97 ∷ []) [] default_tolerance (pos 10) signed_header ≡ ok tt)
    ↔ IsSigned echo (97 ∷ []) [] default_tolerance (pos 10) (split signed_header)
verify-IsSigned_example = verify-IsSigned echo (97 ∷ []) [] default_tolerance (pos 10) signed_header

-- The network fails, Stripe says 503, and then the charge is made.
abbrev flaky : ℕ → Reply
flaky zero = transport_error
flaky (suc zero) = response (record {
  status_code = 503;
  idempotent_replayed = none;
  stripe_should_retry = none;
  request_id = none;
  json = none;
})
flaky n = response (record {
  status_code = 200;
  idempotent_replayed = some " True";
  stripe_should_retry = none;
  request_id = none;
  json = some (obj end);
})

abbrev create_charge : HttpRequest
create_charge = record {
  method = "POST";
  path = "/v1/charges";
  headers = ("Idempotency-Key", "k1") ∷ [];
  content = ("amount", "2000") ∷ [];
}

flaky_succeeds :
    ((send flaky (λ n. 500) 4 create_charge).outcome ≡ ok (obj end))
    × ((send flaky (λ n. 500) 4 create_charge).slept ≡ 250000 ∷ 500000 ∷ [])
    × ((send flaky (λ n. 500) 4 create_charge).replayed ≡ 1)
unfolding send request_loop after_reply retryable says backoff_delay strip lstrip text_eq
flaky_succeeds = (refl, refl, refl)

send-IsBounded_example :
    IsBounded flaky create_charge 0 (4 + 1) (send flaky (λ n. 500) 4 create_charge)
send-IsBounded_example = send-IsBounded flaky (λ n. 500) 4 create_charge (λ n. omega arith)
