-- ===== src/Recon/Tests.antt =====
-- The reconciler's theorems at concrete ledgers and pages.
use ledger_proof.Base.{
  String, true, false, Option, none, some, [], ◌∷◌, any, ◌≡◌, ◌≢◌, ◌↔◌, refl, subst, Every, str_eq,
}
use ledger_proof.Base.Int.{pos, ◌+ℤ◌, ◌-ℤ◌}
use ledger_proof.Base.Json.{Fields, end, field, str, get}
use ledger_proof.Ledger.Schema.{empty_db}
use ledger_proof.Ledger.Invariant.{check, invariant_ok, side, difference, currency_ok}
use ledger_proof.Recon.Breaks.{recon_ok, invariant_breaks}
use ledger_proof.Recon.Snapshot.{LedgerTxn}
use ledger_proof.Recon.Expected.{ExpectedEvent, reconcile_expected, nonzero}
use ledger_proof.Recon.Expected.Verdict.{Agrees, ok-Agrees}
use ledger_proof.Recon.Expected.Dropped.{is_missing, drop_reported}
use ledger_proof.Recon.Pages.{Page, last_id, pages}
use ledger_proof.Recon.Pages.Whole.{last_page, page_before, all_items, pages-Whole}
use ledger_proof.Recon.Live.{Statement, report, match_all, choose, against, unlisted_txns}
use ledger_proof.Base.Dict.{lookup}
use ledger_proof.Ledger.Balances.{account_balances, balance_of}
use ledger_proof.Recon.Live.Agreement.{Settled, report-Settled}

abbrev dropped : ExpectedEvent
dropped = record {
  event_id = "evt_1";
  expected_delta = ("stripe_balance", pos 470) ∷ ("revenue", pos 500) ∷ [];
}

ok-Agrees_example :
    (recon_ok (reconcile_expected "USD" empty_db (dropped ∷ [])) ≡ true)
    ↔ Agrees "USD" empty_db (dropped ∷ [])
ok-Agrees_example = ok-Agrees "USD" empty_db (dropped ∷ [])

some_money : nonzero dropped.expected_delta ≢ []
unfolding nonzero
some_money none_left = cc

drop_reported_example :
    any (is_missing "evt_1") (reconcile_expected "USD" empty_db (dropped ∷ [])).breaks ≡ true
drop_reported_example = drop_reported "USD" empty_db [] dropped [] refl some_money refl

abbrev bt : String → Fields
bt id = field "id" (str id) end

-- Two pages.
abbrev two_pages : Option String → Page
two_pages none = record { data_ = bt "txn_1" ∷ bt "txn_2" ∷ []; has_more = true }
two_pages (some c) = record { data_ = bt "txn_3" ∷ []; has_more = false }

abbrev Listed : String → Type 0
Listed c = any (str_eq c) ("txn_2" ∷ "txn_3" ∷ []) ≡ true

own : {a b : String} → some a ≡ some b → a ≡ b
own same = cc

cursors :
    (cursor : Option String) (c : String)
    → last_id (two_pages cursor).data_ ≡ some c
    → any (str_eq c) ("txn_2" ∷ "txn_3" ∷ []) ≡ true
unfolding last_id get
cursors none c h = subst Listed (own h) refl
cursors (some d) c h = subst Listed (own h) refl

pages-Whole_example : pages two_pages 2 none [] ≡ some (bt "txn_1" ∷ bt "txn_2" ∷ bt "txn_3" ∷ [])
unfolding all_items last_id get
pages-Whole_example =
    pages-Whole two_pages [] none ((two_pages none).data_ ∷ (two_pages (some "txn_2")).data_ ∷ [])
      (page_before refl refl refl (last_page refl))

abbrev posted_charge : LedgerTxn
posted_charge = record {
  txn_id = 1;
  event_id = some "evt_1";
  object_id = some "ch_1";
  event_type = none;
  delta = ("stripe_balance", pos 470) ∷ ("processing_fees", pos 30) ∷ ("revenue", pos 500) ∷ [];
  debit_total = pos 500;
}

abbrev charge : Statement
charge = record { bt_id = some "txn_1"; source = some "ch_1"; amount = pos 500; fee = pos 30 }

report-Settled_example :
    Every (Settled (posted_charge ∷ [])) (charge ∷ [])
    × (invariant_ok (check empty_db) ≡ true)
    × ((report (posted_charge ∷ []) empty_db (charge ∷ [])).checked ≡ 1)
unfolding report match_all choose against ◌+ℤ◌ ◌-ℤ◌ lookup unlisted_txns invariant_breaks check side
    account_balances balance_of difference currency_ok invariant_ok
report-Settled_example = report-Settled (posted_charge ∷ []) empty_db (charge ∷ []) refl
