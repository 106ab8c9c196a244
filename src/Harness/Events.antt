-- ===== src/Harness/Events.antt =====
-- harness/events.py: Stripe event fixtures, each with the change of every account's balance that
-- posting it should make. The clock that `_now` reads is a parameter.
pub mod Built
pub mod Ids
pub mod Makers
pub mod Numbered
pub mod Posted
pub mod Serialize
pub mod Truth
mod Tests
use Prim.Native.Char.{code}
use Prim.Native.String.{◌++◌ as joined}
use ledger_proof.Base.{
  ℕ, String, Bool, true, false, Option, none, some, List, [], ◌∷◌, ◌==◌, if◌then◌else◌, Result, ok,
  err, ◌>>=◌,
}
use ledger_proof.Base.Int.{ℤ, pos, ◌+ℤ◌, ◌-ℤ◌, ◌==ℤ◌, neg}
use ledger_proof.Base.Dict.{Dict, lookup, insert}
use ledger_proof.Base.Json.{Value, null, bool, num, str, arr, obj, Fields, get, dict, array}
use ledger_proof.Ledger.Schema.{Direction, debit, credit, dir_eq}
use ledger_proof.Stripe.Mapping.{Raised, key_error}

-- ACCOUNT_NORMALS
abbrev pub account_normals : Dict Direction
account_normals =
    ("stripe_balance", debit)
    ∷ ("bank", debit)
    ∷ ("processing_fees", debit)
    ∷ ("dispute_losses", debit)
    ∷ ("refunds_contra", debit)
    ∷ ("revenue", credit)
    ∷ ("customer_liability", credit)
    ∷ []

pub record EventFixture : Type 0 where
  pub event : Fields
  pub kind : String
  pub expected_delta : Dict ℤ

-- One entry of the list that `_delta` adds up: account, direction and amount.
abbrev pub Line : Type 0
Line = String × Direction × ℤ

-- ACCOUNT_NORMALS[account]
abbrev pub normal_of : String → Result Raised Direction
normal_of account = elim (lookup account account_normals) [
  | none ↦ err (key_error account)
  | some n ↦ ok n
]

abbrev pub toward : Direction → Direction → ℤ → ℤ
toward normal dir amount = if dir_eq dir normal then amount else neg amount

unfoldable pub signed_delta : String → Direction → ℤ → Result Raised ℤ
signed_delta account dir amount_minor = do
  normal ← normal_of account
  ok (toward normal dir amount_minor)

-- `totals.get(account, 0)`
abbrev pub or_zero : Option ℤ → ℤ
or_zero none = pos 0
or_zero (some n) = n

-- The loop of `_delta` over the entries, with `totals` so far.
unfoldable pub delta : List Line → Dict ℤ → Result Raised (Dict ℤ)
unfolding signed_delta
delta [] totals = ok totals
delta ((account, dir, amount) ∷ entries) totals =
    let counted : Result Raised (Dict ℤ) = (do
      moved ← signed_delta account dir amount
      delta entries (insert account (or_zero (lookup account totals) +ℤ moved) totals)) in
    let rest = delta entries totals in if amount ==ℤ pos 0 then rest else counted

-- `_now`
unfoldable pub now_or : ℤ → Option ℤ → ℤ
now_or clock none = clock
now_or clock (some created) = created

-- What stands after the first "_".
abbrev after_mark : String → Option String
after_mark String.[] = none
after_mark (String.◌∷◌ c s) = let rest = after_mark s in if code c == b'_' then some s else rest

-- `_sibling_id`
unfoldable pub sibling_id : String → String → String
sibling_id base prefix =
    joined prefix (joined "_" (elim (after_mark base) [ none ↦ base | some suffix ↦ suffix ]))

-- `_envelope`
unfoldable pub envelope : String → String → Fields → ℤ → Fields
envelope event_id event_type object created = dict (
    ("id", str event_id)
    ∷ ("object", str "event")
    ∷ ("api_version", str "2025-06-30.basil")
    ∷ ("created", num created)
    ∷ ("data", obj (dict (("object", obj object) ∷ [])))
    ∷ ("livemode", bool false)
    ∷ ("pending_webhooks", num (pos 1))
    ∷ ("request", obj (dict (("id", null) ∷ ("idempotency_key", null) ∷ [])))
    ∷ ("type", str event_type)
    ∷ [])

-- The keyword arguments of `_balance_transaction`, its id first.
pub record Settlement : Type 0 where
  pub bt_id : String
  pub source : String
  pub amount : ℤ
  pub fee : ℤ
  pub created : ℤ
  pub currency : String
  pub reporting_category : String
  pub bt_type : String

fee_line : ℤ → String → Value
fee_line fee currency = obj (
    dict (
      ("amount", num fee)
      ∷ ("application", null)
      ∷ ("currency", str currency)
      ∷ ("description", str "Stripe processing fees")
      ∷ ("type", str "stripe_fee")
      ∷ []))

-- `_balance_transaction`
unfoldable pub balance_transaction : Settlement → Fields
unfolding fee_line
balance_transaction s = dict (
    ("id", str s.bt_id)
    ∷ ("object", str "balance_transaction")
    ∷ ("amount", num s.amount)
    ∷ ("available_on", num (s.created +ℤ pos 172800))
    ∷ ("created", num s.created)
    ∷ ("currency", str s.currency)
    ∷ ("description", null)
    ∷ ("exchange_rate", null)
    ∷ ("fee", num s.fee)
    ∷ ("fee_details", arr (array (if s.fee ==ℤ pos 0 then [] else fee_line s.fee s.currency ∷ [])))
    ∷ ("net", num (s.amount -ℤ s.fee))
    ∷ ("reporting_category", str s.reporting_category)
    ∷ ("source", str s.source)
    ∷ ("status", str "available")
    ∷ ("type", str s.bt_type)
    ∷ [])
