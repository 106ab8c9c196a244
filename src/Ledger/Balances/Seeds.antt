-- ===== src/Ledger/Balances/Seeds.antt =====
-- The view `account_balances` of a ledger with the chart of accounts of 002_seed_accounts.sql.
use mathlib.Core.List.{Memᴰ}
use mathlib.Core.List.Memᴰ.{cases_cons}
use ledger_proof.Base.{List, [], ◌∷◌, ◌≡◌, refl, sym, subst, inl, inr, Every, ok}
use ledger_proof.Base.Int.{◌+ℤ◌}
use ledger_proof.Ledger.Schema.{Account, Db, seed_accounts}
use ledger_proof.Ledger.Post.{LedgerTransaction, Conflict, attempt, posted}
use ledger_proof.Ledger.Balances.{balance_of}
use ledger_proof.Ledger.Balances.Moves.{moved, posted-moved}
use ledger_proof.Ledger.Balances.Named.{UniqueNames}
use ledger_proof.Ledger.Invariant.Conservation.{UniqueIds}
use ledger_proof.Ledger.History.{attempt_cases}

pub Every-Memᴰ :
    (P : Account → Type 0) (a : Account) (accts : List Account) → Memᴰ a accts → Every P accts → P a
Every-Memᴰ P a [] m h = elim m [ ]
Every-Memᴰ P a (b ∷ accts) m h = elim (cases_cons m) [
  | inl same ↦ subst P (sym same) h.0
  | inr later ↦ Every-Memᴰ P a accts later h.1
]

seeds_unique : UniqueIds seed_accounts × UniqueNames seed_accounts
seeds_unique = (
  (refl, (refl, (refl, (refl, (refl, (refl, (refl, tt))))))),
  (refl, (refl, (refl, (refl, (refl, (refl, (refl, tt))))))),
)

-- A posted attempt moves the balance of an account by what its entries move there.
pub attempt-moved :
    (c : Conflict) (db : Db) (t : LedgerTransaction) (a : Account)
    → db.accounts ≡ seed_accounts
    → Memᴰ a seed_accounts
    → (attempt c db t).0 ≡ ok posted
    → balance_of a (attempt c db t).1.entries
      ≡ balance_of a db.entries +ℤ moved a.name a.normal t.entries
attempt-moved c db t a chart is_there went = elim (attempt_cases c db t) [
  | inl (_, unposted) ↦ absurd (unposted went)
  | inr (w, _) ↦
      let (ids, names) = seeds_unique in
      posted-moved db t a (subst UniqueIds (sym chart) ids) (subst UniqueNames (sym chart) names)
        (subst (λ (l : List Account). Memᴰ a l) (sym chart) is_there) w
]
