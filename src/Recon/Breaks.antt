-- ===== src/Recon/Breaks.antt =====
-- ledgerproof/recon/breaks.py: what a comparison can report. The text `detail`, which says the same
-- in words, is left out.
use ledger_proof.Base.{
  if◌then◌else◌, ℕ, String, Bool, true, false, ◌&&◌, Option, none, some, List, [], ◌∷◌,
}
use ledger_proof.Base.Int.{ℤ}
use ledger_proof.Ledger.Invariant.{CurrencyCheck, currency_ok}

pub data BreakKind : Type 0 where
  missing_in_ledger missing_in_source amount_mismatch fee_mismatch : BreakKind
  invariant_violation : BreakKind

pub record Break : Type 0 where
  pub kind : BreakKind
  pub object_id : Option String
  pub event_id : Option String
  pub expected_minor : Option ℤ
  pub actual_minor : Option ℤ

pub record ReconResult : Type 0 where
  pub breaks : List Break
  pub checked : ℕ
  pub invariant_ok : Bool

abbrev pub no_breaks : List Break → Bool
no_breaks [] = true
no_breaks (b ∷ bs) = false

-- `ReconResult.ok`
abbrev pub recon_ok : ReconResult → Bool
recon_ok r = no_breaks r.breaks && r.invariant_ok

-- `_invariant_breaks`
unfoldable pub invariant_breaks : List CurrencyCheck → List Break
unfolding currency_ok
invariant_breaks [] = []
invariant_breaks (c ∷ per_currency) =
    let rest = invariant_breaks per_currency in
    if currency_ok c
    then rest
    else record {
      kind = invariant_violation;
      object_id = none;
      event_id = none;
      expected_minor = some c.sum_credit_normal;
      actual_minor = some c.sum_debit_normal;
    }
      ∷ rest
