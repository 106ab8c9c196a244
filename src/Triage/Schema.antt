-- ===== src/Triage/Schema.antt =====
-- ledgerproof/triage/schema.py: a verdict with its repair, and `repair_is_balanced`. Of a verdict's
-- fields in words only the memo is kept.
use ledger_proof.Base.{
  String, Bool, true, false, ◌||◌, not, Option, none, some, List, [], ◌∷◌, all, length, str_eq, ltb,
  if◌then◌else◌,
}
use ledger_proof.Base.Int.{ℤ, pos, ◌+ℤ◌, neg, ◌==ℤ◌}
use ledger_proof.Base.Dict.{Dict, lookup, insert}

pub record RepairEntry : Type 0 where
  pub account_name : String
  pub direction : String
  pub amount_minor : ℤ
  pub currency : String

pub data FaultClass : Type 0 where
  no_fault duplicate duplicate_object concurrent_duplicate reorder delay drop : FaultClass
  respond_500 tamper_body truncate_body stale_timestamp downgrade_scheme : FaultClass
  partial_write slow_loris : FaultClass

-- `value` of a fault class
abbrev pub value_of : FaultClass → String
value_of no_fault = "NONE"
value_of duplicate = "DUPLICATE"
value_of duplicate_object = "DUPLICATE_OBJECT"
value_of concurrent_duplicate = "CONCURRENT_DUPLICATE"
value_of reorder = "REORDER"
value_of delay = "DELAY"
value_of drop = "DROP"
value_of respond_500 = "RESPOND_500"
value_of tamper_body = "TAMPER_BODY"
value_of truncate_body = "TRUNCATE_BODY"
value_of stale_timestamp = "STALE_TIMESTAMP"
value_of downgrade_scheme = "DOWNGRADE_SCHEME"
value_of partial_write = "PARTIAL_WRITE"
value_of slow_loris = "SLOW_LORIS"

pub record Verdict : Type 0 where
  pub fault_class : FaultClass
  pub alternate_fault_classes : List FaultClass
  pub money_is_missing : Bool
  pub proposed_repair : List RepairEntry
  pub repair_memo : String

abbrev pub is_nil : List RepairEntry → Bool
is_nil [] = true
is_nil (e ∷ es) = false

-- `d.get(k, 0)`
abbrev pub or_none : Option ℤ → ℤ
or_none none = pos 0
or_none (some n) = n

-- `sign * entry.amount_minor`
unfoldable pub signed : RepairEntry → ℤ
signed e = if str_eq e.direction "debit" then e.amount_minor else neg e.amount_minor

-- The loop that fills `per_currency`; `none` is its `return False`.
unfoldable pub per_currency : List RepairEntry → Dict ℤ → Option (Dict ℤ)
per_currency [] nets = some nets
per_currency (e ∷ es) nets =
    let rest =
      per_currency es (insert e.currency (or_none (lookup e.currency nets) +ℤ signed e) nets) in
    if not (str_eq e.direction "debit" || str_eq e.direction "credit") then none else rest

abbrev pub is_zero : String × ℤ → Bool
is_zero (currency, net) = net ==ℤ pos 0

abbrev pub all_zero : Option (Dict ℤ) → Bool
all_zero none = false
all_zero (some nets) = all is_zero nets

unfoldable pub repair_is_balanced : List RepairEntry → Bool
repair_is_balanced entries =
    if ltb (length entries) 2 then false else all_zero (per_currency entries [])
