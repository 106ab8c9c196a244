-- ===== src/Ledger/Invariant.antt =====
-- ledgerproof/ledger/invariant.py: the global check that money is conserved, per currency.
pub mod Conservation
pub mod Safety
use Prim.Native.String.{compare}
use text.Mathlib.Text.{is_lt}
use ledger_proof.Base.{String, Bool, ◌&&◌, List, [], ◌∷◌, map, all, str_eq, if◌then◌else◌}
use ledger_proof.Base.Int.{ℤ, pos, ◌+ℤ◌, ◌-ℤ◌, ◌==ℤ◌}
use ledger_proof.Ledger.Schema.{Direction, debit, credit, dir_eq, Db}
use ledger_proof.Ledger.Balances.{BalanceRow, account_balances}

pub record CurrencyCheck : Type 0 where
  pub currency : String
  pub sum_debit_normal : ℤ
  pub sum_credit_normal : ℤ

unfoldable pub difference : CurrencyCheck → ℤ
difference c = c.sum_debit_normal -ℤ c.sum_credit_normal

-- `CurrencyCheck.ok`
unfoldable pub currency_ok : CurrencyCheck → Bool
unfolding difference
currency_ok c = difference c ==ℤ pos 0

-- `InvariantResult.ok`, over `per_currency`
unfoldable pub invariant_ok : List CurrencyCheck → Bool
invariant_ok per_currency = all currency_ok per_currency

-- GROUP BY currency, ORDER BY currency: the distinct currencies of the rows, in order.
abbrev insert_currency : String → List String → List String
insert_currency c [] = c ∷ []
insert_currency c (d ∷ ds) =
    if str_eq c d
    then d ∷ ds
    else if is_lt (compare c d)
    then c ∷ d ∷ ds
    else d ∷ insert_currency c ds

abbrev pub currencies : List BalanceRow → List String
currencies [] = []
currencies (r ∷ rows) = insert_currency r.currency (currencies rows)

-- COALESCE(SUM(CASE WHEN normal = n THEN balance_minor ELSE 0 END), 0) over one currency
unfoldable pub side : Direction → String → List BalanceRow → ℤ
side n c [] = pos 0
side n c (r ∷ rows) =
    (if str_eq r.currency c && dir_eq r.normal n then r.balance_minor else pos 0) +ℤ side n c rows

abbrev pub currency_check : List BalanceRow → String → CurrencyCheck
currency_check rows c = record {
  currency = c;
  sum_debit_normal = side debit c rows;
  sum_credit_normal = side credit c rows;
}

-- `check`
unfoldable pub check : Db → List CurrencyCheck
unfolding account_balances
check db =
    let rows = account_balances db.accounts db.entries in
    map (currency_check rows) (currencies rows)
