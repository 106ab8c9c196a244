-- ===== src/Ledger/Balances.antt =====
-- The view `account_balances` of migrations/001_ledger.sql, and its readers in
-- ledgerproof/ledger/accounts.py and balances.py. A row that a SELECT does not find is `none`.
pub mod Resolved
pub mod Named
pub mod Moves
pub mod Seeds
use ledger_proof.Base.{String, Option, none, some, List, [], ◌∷◌, str_eq, ◌==◌, if◌then◌else◌}
use ledger_proof.Base.Int.{ℤ, pos, ◌+ℤ◌, neg}
use ledger_proof.Base.Dict.{Dict, insert}
use ledger_proof.Ledger.Schema.{Direction, dir_eq, Account, EntryRow, Db}

-- CASE WHEN e.dir = a.normal THEN e.amount_minor ELSE -e.amount_minor END
unfoldable pub entry_effect : Direction → EntryRow → ℤ
unfolding neg
entry_effect normal e = if dir_eq e.dir normal then e.amount_minor else neg e.amount_minor

-- COALESCE(SUM(..), 0) over the entries that join one account
unfoldable pub balance_of : Account → List EntryRow → ℤ
unfolding entry_effect ◌+ℤ◌
balance_of a [] = pos 0
balance_of a (e ∷ es) =
    (if a.id == e.account_id then entry_effect a.normal e else pos 0) +ℤ balance_of a es

pub record BalanceRow : Type 0 where
  pub name : String
  pub normal : Direction
  pub currency : String
  pub balance_minor : ℤ

unfoldable pub account_balances : List Account → List EntryRow → List BalanceRow
account_balances [] es = []
account_balances (a ∷ accts) es =
    record {
      name = a.name;
      normal = a.normal;
      currency = a.currency;
      balance_minor = balance_of a es;
    }
    ∷ account_balances accts es

-- `all_accounts`: the dict of the accounts by name
unfoldable pub all_accounts : List Account → Dict Account → Dict Account
all_accounts [] d = d
all_accounts (a ∷ accts) d = all_accounts accts (insert a.name a d)

-- `get_account`: KeyError is `none`
unfoldable pub get_account : List Account → String → Option Account
get_account [] n = none
get_account (a ∷ accts) n = if str_eq a.name n then some a else get_account accts n

-- `all_balances`
unfoldable pub all_balances : List BalanceRow → Dict ℤ → Dict ℤ
all_balances [] d = d
all_balances (r ∷ rows) d = all_balances rows (insert r.name r.balance_minor d)

find_balance : List BalanceRow → String → Option ℤ
find_balance [] n = none
find_balance (r ∷ rows) n = if str_eq r.name n then some r.balance_minor else find_balance rows n

-- `balance`
unfoldable pub balance : Db → String → Option ℤ
unfolding find_balance account_balances balance_of
balance db n = find_balance (account_balances db.accounts db.entries) n
