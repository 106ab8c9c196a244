-- ===== src/Harness/Events/Posted.antt =====
-- The fixtures of harness/events.py through stripe_io/mapping.py and ledger/post.py: what the view
-- `account_balances` shows after an event is posted.
use mathlib.Core.List.{Memᴰ}
use ledger_proof.Base.{
  ℕ, String, Option, none, some, ◌≡◌, refl, sym, ap, ◌∙◌, Every, ok, ok_injective,
}
use ledger_proof.Base.Int.{ℤ, ◌+ℤ◌}
use ledger_proof.Base.Dict.{lookup}
use ledger_proof.Ledger.Schema.{Account, Db, seed_accounts}
use ledger_proof.Ledger.Post.{LedgerTransaction, Conflict, attempt, posted}
use ledger_proof.Ledger.Balances.{balance_of}
use ledger_proof.Ledger.Balances.Moves.{moved}
use ledger_proof.Ledger.Balances.Seeds.{Every-Memᴰ, attempt-moved}
use ledger_proof.Stripe.Mapping.{build_transaction}
use ledger_proof.Harness.Events.{EventFixture, or_zero, normal_of}
use ledger_proof.Harness.Events.Numbered.{Overrides, make}
use ledger_proof.Harness.Events.Built.{Grounded, moves, silent, make-Grounded}

-- The chart that the harness repeats is the one that the migration seeds.
seeds_normal : Every (λ a. normal_of a.name ≡ ok a.normal) seed_accounts
unfolding lookup
seeds_normal = (refl, (refl, (refl, (refl, (refl, (refl, (refl, tt)))))))

-- A transaction that was built moves what its fixture expects.
built_moves :
    (uuid5 : String → ℕ) (f : EventFixture) (t : LedgerTransaction) (a : Account)
    → Grounded uuid5 f
    → build_transaction uuid5 f.event none ≡ ok (some t)
    → Memᴰ a seed_accounts
    → moved a.name a.normal t.entries ≡ or_zero (lookup a.name f.expected_delta)
built_moves uuid5 f t a (moves u built expected) built' is_there =
    let same : u ≡ t = some_injective (ok_injective (sym built ∙ built')) in
    ap (λ (x : LedgerTransaction). moved a.name a.normal x.entries) (sym same)
    ∙ expected a.name a.normal (
        Every-Memᴰ (λ (x : Account). normal_of x.name ≡ ok x.normal) a seed_accounts is_there
          seeds_normal)
  where
    some_injective : {x y : LedgerTransaction} → some x ≡ some y → x ≡ y
    some_injective is = cc
built_moves uuid5 f t a (silent built expected) built' is_there =
    absurd (nothing (ok_injective (sym built ∙ built')))
  where
    nothing : ¬ (◌≡◌ {A = Option LedgerTransaction} none (some t))
    nothing is = cc

-- On a ledger with the seeded accounts, posting the transaction that build_transaction makes of
-- a fixture's event changes the balance of every account, as the view account_balances shows it,
-- by exactly what the fixture expects.
pub fixture_posts :
    (uuid5 : String → ℕ) (clock : ℤ) (seq : ℕ) (created : Option ℤ) (o : Overrides) (kind : String)
    (f : EventFixture) (t : LedgerTransaction) (c : Conflict) (db : Db) (a : Account)
    → make clock seq created o kind ≡ ok f
    → build_transaction uuid5 f.event none ≡ ok (some t)
    → db.accounts ≡ seed_accounts
    → Memᴰ a seed_accounts
    → (attempt c db t).0 ≡ ok posted
    → balance_of a (attempt c db t).1.entries
      ≡ balance_of a db.entries +ℤ or_zero (lookup a.name f.expected_delta)
fixture_posts uuid5 clock seq created o kind f t c db a made built chart is_there went =
    attempt-moved c db t a chart is_there went
    ∙ ap (λ (x : ℤ). balance_of a db.entries +ℤ x)
        (built_moves uuid5 f t a (make-Grounded uuid5 clock seq created o kind made) built is_there)
