-- ===== src/Harness/Events/Numbered.antt =====
-- harness/events.py: `make`, which derives every id from one number.
use Prim.Native.String.{◌++◌ as joined}
use ledger_proof.Base.{
  ℕ, String, ◌||◌, Option, none, some, is_some, Result, err, str_eq, if◌then◌else◌,
}
use ledger_proof.Base.Int.{ℤ, pos}
use ledger_proof.Base.Text.{padded}
use ledger_proof.Stripe.Mapping.{Raised, value_error, type_error}
use ledger_proof.Harness.Events.{EventFixture}
use ledger_proof.Harness.Events.Makers.{
  make_charge_succeeded, make_charge_refunded, make_dispute_created, make_payout_paid,
  make_invoice_payment_failed,
}

-- The keys of _MAKERS.
pub data Maker : Type 0 where
  charge_succeeded charge_refunded dispute_created payout_paid invoice_payment_failed : Maker

unfoldable pub maker_of : String → Option Maker
maker_of kind =
    if str_eq kind "charge_succeeded"
    then some charge_succeeded
    else if str_eq kind "charge_refunded"
    then some charge_refunded
    else if str_eq kind "dispute_created"
    then some dispute_created
    else if str_eq kind "payout_paid"
    then some payout_paid
    else if str_eq kind "invoice_payment_failed"
    then some invoice_payment_failed
    else none

-- The keyword arguments that a caller of `make` may add; an id is never one of them.
pub record Overrides : Type 0 where
  pub amount : Option ℤ
  pub fee : Option ℤ
  pub refunded : Option ℤ
  pub currency : Option String

abbrev pub default {ℓ} : {A : Type ℓ} → Option A → A → A
default none d = d
default (some a) d = a

-- `_ids_for`: an id of `prefix` for the number `seq`
unfoldable pub id_for : String → ℕ → String
id_for prefix seq = joined prefix (joined "_h" (padded 6 seq))

-- A maker that has no such parameter raises TypeError.
module _ (clock : ℤ) (seq : ℕ) (created : Option ℤ) (o : Overrides) where
  abbrev amount_or : ℕ → ℤ
  amount_or n = default o.amount (pos n)

  abbrev currency_or : String
  currency_or = default o.currency "usd"

  unfoldable pub call_maker : Maker → Result Raised EventFixture
  call_maker charge_succeeded =
      if is_some o.refunded
      then err type_error
      else make_charge_succeeded clock (id_for "evt" seq) (id_for "ch" seq) (amount_or 1000)
          (default o.fee (pos 59)) created currency_or
  call_maker charge_refunded =
      if is_some o.fee
      then err type_error
      else make_charge_refunded clock (id_for "evt" seq) (id_for "ch" seq) (id_for "re" seq)
          (amount_or 1000) (default o.refunded (pos 400)) created currency_or
  call_maker dispute_created =
      if is_some o.refunded
      then err type_error
      else make_dispute_created clock (id_for "evt" seq) (id_for "dp" seq) (id_for "ch" seq)
          (amount_or 2000) (default o.fee (pos 1500)) created currency_or
  call_maker payout_paid =
      if is_some o.fee || is_some o.refunded
      then err type_error
      else make_payout_paid clock (id_for "evt" seq) (id_for "po" seq) (amount_or 5000) created
          currency_or
  call_maker invoice_payment_failed =
      if is_some o.fee || is_some o.refunded
      then err type_error
      else make_invoice_payment_failed clock (id_for "evt" seq) (id_for "in" seq) (amount_or 1000)
          created currency_or

  unfoldable pub make : String → Result Raised EventFixture
  unfolding maker_of call_maker
  make kind = elim (maker_of kind) [ none ↦ err value_error | some k ↦ call_maker k ]
