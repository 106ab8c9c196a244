-- ===== src/Ledger/Invariant/Conservation.antt =====
-- How one entry moves the two sides of the global check: lemmas about the sums of ledger/invariant.py
-- over the view of migrations/001_ledger.sql.
use ledger_proof.Base.{
  String, true, false, List, [], ◌∷◌, ◌++◌, ◌≡◌, refl, sym, ◌∙◌, ◌⊎◌, inl, inr, arith, str_eq, ◌==◌,
  &&-split, any, Every, Bool-cases, str_cases, eq_iff, if◌then◌else◌,
}
use ledger_proof.Base.Int.{ℤ, pos, ◌+ℤ◌, ==ℤ_iff, +ℤ-zero, +ℤ_cancel, neg, int_laws}
use ledger_proof.Ledger.Schema.{
  Direction, debit, credit, Account, EntryRow, has_account, sum_dir, groups_balanced,
}
use ledger_proof.Ledger.Balances.{entry_effect, balance_of, account_balances}
use ledger_proof.Ledger.Invariant.{side}

-- The primary key of `accounts`.
abbrev pub UniqueIds : List Account → Type 0
UniqueIds [] = Unit
UniqueIds (a ∷ accts) = (any (λ (b : Account). b.id == a.id) accts ≡ false) × UniqueIds accts

-- A debit counts up and a credit counts down, whatever the account.
abbrev pub signed : Direction → ℤ → ℤ
signed debit x = x
signed credit x = neg x

pub if_currency : String → String → ℤ → ℤ
if_currency c d x = if str_eq d c then x else pos 0

unfoldable pub signed_sum : String → List EntryRow → ℤ
signed_sum c [] = pos 0
signed_sum c (e ∷ es) = if_currency c e.currency (signed e.dir e.amount_minor) +ℤ signed_sum c es

-- Debit-normal less credit-normal, account by account.
gap : String → List Account → List EntryRow → ℤ
gap c [] es = pos 0
gap c (a ∷ accts) es =
    if_currency c a.currency (signed a.normal (balance_of a es)) +ℤ gap c accts es

-- What one entry adds to the gap.
hit : String → List Account → EntryRow → ℤ
hit c [] e = pos 0
hit c (a ∷ accts) e =
    if_currency c a.currency (if a.id == e.account_id then signed e.dir e.amount_minor else pos 0)
    +ℤ hit c accts e

side-gap :
    (c : String) (accts : List Account) (es : List EntryRow)
    → side debit c (account_balances accts es)
      ≡ side credit c (account_balances accts es) +ℤ gap c accts es
unfolding side gap account_balances if_currency
side-gap c [] es = omega int_laws
side-gap c (a ∷ accts) es = grind (int_laws, side-gap c accts es)

signed_zero : (d : Direction) → signed d (pos 0) ≡ pos 0
unfolding neg
signed_zero debit = refl
signed_zero credit = refl

if_currency-zero : (c d : String) → if_currency c d (pos 0) ≡ pos 0
unfolding if_currency
if_currency-zero c d = ground arith

pub if_currency-add :
    (c d : String) (x y : ℤ) → if_currency c d (x +ℤ y) ≡ if_currency c d x +ℤ if_currency c d y
unfolding if_currency
if_currency-add c d x y = elim (Bool-cases (str_eq d c)) [
  | inl same ↦ rw same
  | inr other ↦ rw other (omega int_laws)
]

gap-nil : (c : String) (accts : List Account) → gap c accts [] ≡ pos 0
unfolding gap balance_of
gap-nil c [] = refl
gap-nil c (a ∷ accts) =
    rw (signed_zero a.normal, if_currency-zero c a.currency, gap-nil c accts) (omega int_laws)

signed-add : (d : Direction) (x y : ℤ) → signed d (x +ℤ y) ≡ signed d x +ℤ signed d y
signed-add debit x y = refl
signed-add credit x y = omega int_laws

-- The sign rule of the view agrees with the side of the entry.
signed-effect :
    (n : Direction) (e : EntryRow) → signed n (entry_effect n e) ≡ signed e.dir e.amount_minor
unfolding entry_effect neg
signed-effect n e = ground arith

signed-balance :
    (a : Account) (e : EntryRow) (es : List EntryRow)
    → signed a.normal (balance_of a (e ∷ es))
      ≡ (if a.id == e.account_id then signed e.dir e.amount_minor else pos 0)
        +ℤ signed a.normal (balance_of a es)
unfolding balance_of
signed-balance a e es = elim (Bool-cases (a.id == e.account_id)) [
  | inl same ↦ rw (same, signed-add, signed-effect)
  | inr other ↦ rw (other, signed-add, signed_zero)
]

gap-cons :
    (c : String) (accts : List Account) (e : EntryRow) (es : List EntryRow)
    → gap c accts (e ∷ es) ≡ hit c accts e +ℤ gap c accts es
unfolding gap hit
gap-cons c [] e es = omega int_laws
gap-cons c (a ∷ accts) e es =
    rw (signed-balance a e es, if_currency-add, gap-cons c accts e es) (omega int_laws)

hit-absent :
    (c : String) (accts : List Account) (e : EntryRow)
    → any (λ (b : Account). b.id == e.account_id) accts ≡ false
    → hit c accts e ≡ pos 0
unfolding hit
hit-absent c [] e h = refl
hit-absent c (a ∷ accts) e h = elim (Bool-cases (a.id == e.account_id)) [
  | inl same ↦ ground (arith, same)
  | inr other ↦
      rw (other, if_currency-zero c a.currency, hit-absent c accts e (ground arith))
        (omega int_laws)
]

absent_id :
    (a : Account) (accts : List Account) (e : EntryRow)
    → any (λ (b : Account). b.id == a.id) accts ≡ false
    → (a.id == e.account_id) ≡ true
    → any (λ (b : Account). b.id == e.account_id) accts ≡ false
absent_id a [] e h s = refl
absent_id a (b ∷ accts) e h s = ground (arith, absent_id a accts e)

absent_account :
    (accts : List Account) (e : EntryRow)
    → any (λ (b : Account). b.id == e.account_id) accts ≡ false
    → has_account accts e ≡ false
absent_account [] e h = refl
absent_account (b ∷ accts) e h = ground (arith, absent_account accts e)

-- An entry that satisfies the foreign keys is counted once, under its own currency.
hit-known :
    (c : String) (accts : List Account) (e : EntryRow)
    → UniqueIds accts
    → has_account accts e ≡ true
    → hit c accts e ≡ if_currency c e.currency (signed e.dir e.amount_minor)
unfolding hit
hit-known c [] e u h = cc
hit-known c (a ∷ accts) e u h = elim (Bool-cases (a.id == e.account_id)) [
  | inl same ↦
      let gone = absent_id a accts e u.0 same in
      let cur : a.currency ≡ e.currency =
        ground (arith, eq_iff a.currency e.currency, absent_account accts e gone) in
      rw (same, hit-absent c accts e gone, cur) (omega int_laws)
  | inr other ↦
      rw (other, if_currency-zero c a.currency, hit-known c accts e u.1 (ground arith))
        (omega int_laws)
]

-- Over entries that satisfy the foreign keys, the gap of the accounts is the signed sum of the entries.
gap-known :
    (c : String) (accts : List Account) (es : List EntryRow)
    → UniqueIds accts
    → Every (λ e. has_account accts e ≡ true) es
    → gap c accts es ≡ signed_sum c es
unfolding signed_sum
gap-known c accts [] u h = gap-nil c accts
gap-known c accts (e ∷ es) u h =
    rw (gap-cons c accts e es, hit-known c accts e u h.0, gap-known c accts es u h.1)

-- The two sides of the check agree where the signed sum is zero.
pub side-agree :
    (c : String) (accts : List Account) (es : List EntryRow)
    → UniqueIds accts
    → Every (λ e. has_account accts e ≡ true) es
    → signed_sum c es ≡ pos 0
    → side debit c (account_balances accts es) ≡ side credit c (account_balances accts es)
side-agree c accts es u h z = rw (side-gap c accts es, gap-known c accts es u h, z, +ℤ-zero)

pub signed_sum-append :
    (c : String) (xs ys : List EntryRow)
    → signed_sum c (xs ++ ys) ≡ signed_sum c xs +ℤ signed_sum c ys
unfolding signed_sum
signed_sum-append c [] ys = omega int_laws
signed_sum-append c (e ∷ xs) ys = rw (signed_sum-append c xs ys) (omega int_laws)

-- The signed sum is debits less credits, as the trigger adds them up.
sum_dir-signed :
    (c : String) (es : List EntryRow) → sum_dir debit c es ≡ sum_dir credit c es +ℤ signed_sum c es
unfolding sum_dir signed_sum if_currency
sum_dir-signed c [] = omega int_laws
sum_dir-signed c (e ∷ es) = grind (int_laws, sum_dir-signed c es)

signed_sum-group :
    (c : String) (es rows : List EntryRow)
    → groups_balanced es rows ≡ true
    → (signed_sum c es ≡ pos 0) ⊎ (sum_dir debit c rows ≡ sum_dir credit c rows)
unfolding groups_balanced signed_sum if_currency
signed_sum-group c [] rows h = inl refl
signed_sum-group c (e ∷ es) rows h = elim (str_cases e.currency c) [
  | inl same ↦ inr (
      rw same at (
        (==ℤ_iff (sum_dir debit e.currency rows) (sum_dir credit e.currency rows)).0
          (&&-split _ _ h).0))
  | inr other ↦ elim (signed_sum-group c es rows (&&-split _ _ h).1) [
    | inl z ↦ inl (rw (other, z) (omega int_laws))
    | inr d ↦ inr d
  ]
]

-- What `assert_txn_balanced` accepts has a signed sum of zero in every currency.
pub signed_sum-balanced :
    (c : String) (rows : List EntryRow)
    → groups_balanced rows rows ≡ true
    → signed_sum c rows ≡ pos 0
signed_sum-balanced c rows h = elim (signed_sum-group c rows rows h) [
  | inl z ↦ z
  | inr e ↦ +ℤ_cancel (sum_dir credit c rows) (signed_sum c rows) (sym e ∙ sum_dir-signed c rows)
]
