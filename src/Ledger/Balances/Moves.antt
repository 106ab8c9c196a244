-- ===== src/Ledger/Balances/Moves.antt =====
-- What an attempt of ledger/post.py changes in the view `account_balances`.
use mathlib.Core.List.{Memᴰ}
use ledger_proof.Base.{
  ℕ, String, Option, none, some, List, [], ◌∷◌, ◌++◌, str_eq, if◌then◌else◌, ◌≡◌, refl, sym, ap,
  ◌∙◌, Every,
}
use ledger_proof.Base.Int.{ℤ, pos, ◌+ℤ◌, neg, int_laws, zero-+ℤ}
use ledger_proof.Base.Dict.{Dict, lookup}
use ledger_proof.Ledger.Schema.{Direction, dir_eq, Account, EntryRow, Db}
use ledger_proof.Ledger.Post.{Entry, LedgerTransaction}
use ledger_proof.Ledger.Post.Effects.{posted_rows, Went}
use ledger_proof.Ledger.Invariant.Conservation.{UniqueIds}
use ledger_proof.Ledger.Balances.{entry_effect, balance_of}
use ledger_proof.Ledger.Balances.Resolved.{IsFound, resolve-Found}
use ledger_proof.Ledger.Balances.Named.{UniqueNames, account_id-of}

-- What entries move in one account, by its name and normal side.
unfoldable pub moved : String → Direction → List Entry → ℤ
unfolding neg
moved n normal [] = pos 0
moved n normal (e ∷ es) =
    (if str_eq e.account_name n
      then (if dir_eq e.dir normal then e.amount_minor else neg e.amount_minor)
      else pos 0)
    +ℤ moved n normal es

pub balance_of-append :
    (a : Account) (xs ys : List EntryRow)
    → balance_of a (xs ++ ys) ≡ balance_of a xs +ℤ balance_of a ys
unfolding balance_of
balance_of-append a [] ys = sym (zero-+ℤ (balance_of a ys))
balance_of-append a (e ∷ xs) ys = rw (balance_of-append a xs ys) (omega int_laws)

module _ (db : Db) (t : ℕ) (ids : Dict ℕ) (a : Account) (unique : UniqueIds db.accounts)
    (names : UniqueNames db.accounts) (is_there : Memᴰ a db.accounts) where
  balance_of-posted :
      (es : List Entry)
      → Every (IsFound db.accounts ids) es
      → balance_of a (posted_rows t ids es) ≡ moved a.name a.normal es
  unfolding balance_of posted_rows moved entry_effect
  balance_of-posted [] h = refl
  balance_of-posted (e ∷ es) ((i, looked_up, found), rest) = rw looked_up (
      rw
        (
          account_id-of db.accounts a e.account_name i unique names is_there found,
          balance_of-posted es rest,
        )
        refl)

-- A transaction that was posted moves a balance by what its entries move.
pub posted-moved :
    (db : Db) (t : LedgerTransaction) (a : Account) {db' : Db}
    → UniqueIds db.accounts
    → UniqueNames db.accounts
    → Memᴰ a db.accounts
    → Went db t db'
    → balance_of a db'.entries ≡ balance_of a db.entries +ℤ moved a.name a.normal t.entries
unfolding lookup
posted-moved db t a unique names is_there w =
    let (_, found) =
      resolve-Found db.accounts t.entries [] (λ n i h. absurd (nothing h)) w.resolved in
    ap (λ (d : Db). balance_of a d.entries) w.result
    ∙ balance_of-append a db.entries (posted_rows t.id w.ids t.entries)
    ∙ ap (λ (x : ℤ). balance_of a db.entries +ℤ x)
        (balance_of-posted db t.id w.ids a unique names is_there t.entries found)
  where
    nothing : {i : ℕ} → ¬ (◌≡◌ {A = Option ℕ} none (some i))
    nothing h = cc
