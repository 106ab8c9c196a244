-- ===== src/Ledger/Tests.antt =====
-- Runs of ledger/post.py on the seeded chart of accounts, and the ledger's theorems at them.
use ledger_proof.Base.{
  ℕ, zero, suc, none, some, List, [], ◌∷◌, ◌≡◌, ◌≢◌, refl, arith, ok, err, true,
}
use ledger_proof.Base.Int.{pos}
use ledger_proof.Ledger.Schema.{Direction, debit, credit, empty_db, unbalanced_transaction}
use ledger_proof.Ledger.Post.{
  Entry, LedgerTransaction, posted, duplicate, Conflict, quiet, on_commit, attempt, Env, Posting,
  post_transaction,
}
use ledger_proof.Ledger.Balances.{balance}
use ledger_proof.Ledger.Invariant.{invariant_ok, check}
use ledger_proof.Ledger.History.{
  run_attempts, empty_db-Sound, history_conserves, Extends, history_appends,
}
use ledger_proof.Ledger.Replay.{by_event, posted_once}
use ledger_proof.Ledger.Retry.{Fair, Ended, post_transaction-Ended}

abbrev line : Direction → ℕ → Entry
line debit n = record {
  account_name = "stripe_balance";
  dir = debit;
  amount_minor = pos n;
  currency = "USD";
}
line credit n = record {
  account_name = "revenue";
  dir = credit;
  amount_minor = pos n;
  currency = "USD";
}

abbrev sale : LedgerTransaction
sale = record {
  id = 1;
  occurred_at = pos 0;
  entries = line debit 500 ∷ line credit 500 ∷ [];
  stripe_event_id = some "evt_1";
  stripe_object_id = some "ch_1";
  event_type = some "charge.succeeded";
  memo = none;
}

-- The same event under another transaction id.
abbrev replay : LedgerTransaction
replay = record sale { id = 2 }

abbrev lopsided : LedgerTransaction
lopsided = record sale { entries = line debit 500 ∷ line credit 400 ∷ [] }

sale_posts :
    ((attempt quiet empty_db sale).0 ≡ ok posted)
    × (balance (attempt quiet empty_db sale).1 "revenue" ≡ some (pos 500))
unfolding attempt balance
sale_posts = (refl, refl)

replay_is_duplicate : (attempt quiet (attempt quiet empty_db sale).1 replay).0 ≡ ok duplicate
unfolding attempt
replay_is_duplicate = refl

lopsided_refused : attempt quiet empty_db lopsided ≡ (err (unbalanced_transaction 1), empty_db)
unfolding attempt
lopsided_refused = refl

abbrev busy : List (Conflict × LedgerTransaction)
busy = (on_commit, sale) ∷ (quiet, lopsided) ∷ (quiet, sale) ∷ (quiet, replay) ∷ []

history_conserves_example : invariant_ok (check (run_attempts busy empty_db)) ≡ true
history_conserves_example = history_conserves busy

history_appends_example : Extends empty_db (run_attempts busy empty_db)
history_appends_example = history_appends busy empty_db

posted_once_example :
    let later = run_attempts busy (attempt quiet empty_db sale).1 in
    ((attempt quiet later replay).1 ≡ later) × ((attempt quiet later replay).0 ≢ ok posted)
posted_once_example =
    posted_once empty_db quiet quiet sale replay busy sale_posts.0 (by_event "evt_1" refl refl)

-- The first two attempts conflict.
abbrev contended : Env
contended = record {
  conflict =
      λ k. elim k [ zero ↦ on_commit | suc j ↦ elim j [ suc (suc i) ↦ quiet | _ ↦ on_commit ] ];
  others = λ _ db. db;
  jitter = λ _. 500;
}

contended-Fair : Fair contended
contended-Fair = record { others_sound = λ k db s. s; draws = λ k. omega arith }

contended_posts :
    post_transaction contended 5 sale empty_db
    ≡ some (record {
      result = ok posted;
      db = (attempt quiet empty_db sale).1;
      slept = 100000 ∷ 50000 ∷ [];
    })
unfolding post_transaction attempt
contended_posts = refl

post_transaction-Ended_example :
    (p : Posting) × (post_transaction contended 5 sale empty_db ≡ some p) × Ended 5 p
post_transaction-Ended_example =
    post_transaction-Ended contended 5 sale empty_db contended-Fair empty_db-Sound
