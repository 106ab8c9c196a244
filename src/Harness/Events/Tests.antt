-- ===== src/Harness/Events/Tests.antt =====
-- The ground truth of harness/events.py at a concrete sale.
use ledger_proof.Base.{
  ℕ, ◌<◌, max, String, Option, ◌↔◌, true, false, ap, arith, ◌/◌, take, length, Bool-cases, inl, inr,
  none, some, [], ◌∷◌, ◌≡◌, ◌≢◌, refl, replicate, if◌then◌else◌, Result, ok, err, Every,
}
use mathlib.Core.List.Memᴰ.{head}
use ledger_proof.Base.Int.{pos, ◌-ℤ◌, ◌+ℤ◌}
use ledger_proof.Base.Json.{end}
use ledger_proof.Stripe.Mapping.{Raised, build_transaction}
use ledger_proof.Harness.Events.{EventFixture, delta, or_zero}
use ledger_proof.Harness.Events.Makers.{make_charge_succeeded}
use ledger_proof.Base.Dict.{lookup}
use ledger_proof.Harness.Events.Numbered.{Overrides, make}
use ledger_proof.Harness.Events.Built.{Grounded, make-Grounded}
use ledger_proof.Harness.Events.Posted.{fixture_posts}
use ledger_proof.Ledger.Schema.{Account, debit, empty_db}
use ledger_proof.Ledger.Balances.{balance_of}
use ledger_proof.Ledger.Post.{LedgerTransaction, quiet, attempt}

abbrev plain : Overrides
plain = record { amount = none; fee = some (pos 320); refunded = none; currency = some "eur" }

abbrev fixture_or_blank : Result Raised EventFixture → EventFixture
fixture_or_blank (ok f) = f
fixture_or_blank (err e) = record { event = end; kind = ""; expected_delta = [] }

sale : EventFixture
unfolding make make_charge_succeeded delta ◌-ℤ◌ lookup
sale = fixture_or_blank (make (pos 1700000000) 12 none plain "charge_succeeded")

make-Grounded_example : Grounded (λ _. 7) sale
unfolding make make_charge_succeeded delta ◌-ℤ◌ lookup sale
make-Grounded_example =
    make-Grounded (λ _. 7) (pos 1700000000) 12 none plain "charge_succeeded" refl

abbrev cash : Account
cash = record { id = 1; name = "stripe_balance"; kind = "asset"; normal = debit; currency = "USD" }

abbrev dollars : Overrides
dollars = record plain { currency = some "usd" }

dollar_sale : EventFixture
unfolding make make_charge_succeeded delta ◌-ℤ◌ lookup
dollar_sale = fixture_or_blank (make (pos 1700000000) 12 none dollars "charge_succeeded")

abbrev built_or_blank : Result Raised (Option LedgerTransaction) → LedgerTransaction
built_or_blank (ok (some t)) = t
built_or_blank _ = record {
  id = 0;
  occurred_at = pos 0;
  entries = [];
  stripe_event_id = none;
  stripe_object_id = none;
  event_type = none;
  memo = none;
}

abbrev seven : String → ℕ
seven name = 7

dollar_transaction : LedgerTransaction
unfolding dollar_sale build_transaction
dollar_transaction = built_or_blank (build_transaction seven dollar_sale.event none)

fixture_posts_example :
    balance_of cash (attempt quiet empty_db dollar_transaction).1.entries
    ≡ balance_of cash empty_db.entries
      +ℤ or_zero (lookup "stripe_balance" dollar_sale.expected_delta)
unfolding dollar_sale dollar_transaction attempt build_transaction make make_charge_succeeded delta
    ◌-ℤ◌ lookup ledger_proof.Stripe.Mapping.subscript ledger_proof.Stripe.Mapping.build_handled
    ledger_proof.Stripe.Mapping.add ledger_proof.Base.Text.upper
    ledger_proof.Harness.Events.balance_transaction ledger_proof.Stripe.Mapping.charge_entries
fixture_posts_example =
    fixture_posts seven (pos 1700000000) 12 none dollars "charge_succeeded" dollar_sale
      dollar_transaction quiet empty_db cash refl refl refl (head refl) refl
