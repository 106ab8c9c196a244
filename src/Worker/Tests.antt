-- ===== src/Worker/Tests.antt =====
-- A charge that the worker handles, and that event handled again.
use ledger_proof.Base.{some}
use ledger_proof.Base.{ℕ, String, none, List, [], ◌≡◌, ◌≢◌, refl, ok}
use ledger_proof.Base.Int.{pos, ◌-ℤ◌}
use ledger_proof.Base.Text.{upper}
use ledger_proof.Base.Json.{num, str, obj, Fields, end, field, get}
use ledger_proof.Ledger.Schema.{
  empty_db, sum_dir, groups_balanced, assert_txn_balanced, assert_txn_min_entries, commit,
  collision, insert_transaction, insert_entry,
}
use ledger_proof.Ledger.Post.{
  Conflict, quiet, Env, LedgerTransaction, account_id, resolve, insert_entries, statements, attempt,
  post_loop, post_transaction,
}
use ledger_proof.Base.Dict.{lookup, insert}
use ledger_proof.Stripe.Mapping.{
  subscript, get_attr, to_int, object_id, money_movement_object_id, charge_bt, charge_fee, add,
  charge_entries, entries_for, object_entries, build_handled, build_transaction,
}
use ledger_proof.Ingest.Events.{insert_event}
use ledger_proof.Ingest.Dedupe.{Event}
use ledger_proof.Base.{◌+◌, arith}
use ledger_proof.Worker.Tasks.{max_retries, TaskRun, run_task}
use ledger_proof.Worker.Tasks.Ends.{IsFinished, run_task-IsFinished}
use ledger_proof.Worker.Handlers.{
  posted_event, Books, mark_status, after_posting, post_built, built, handle_event,
}
use ledger_proof.Worker.Handlers.Once.{Posts}
use ledger_proof.Worker.Handlers.Replay.{handled_once}

abbrev uuid : String → ℕ
uuid s = 7

abbrev charge : Fields
charge = field "id" (str "ch_1") (
    field "currency" (str "usd") (
      field "amount" (num (pos 2000))
        (field "balance_transaction" (obj (field "fee" (num (pos 88)) end)) end)))

abbrev paid : Event
paid = record {
  id = "evt_1";
  type = "charge.succeeded";
  fields = field "id" (str "evt_1") (
      field "type" (str "charge.succeeded") (
        field "created" (num (pos 1700000000))
          (field "data" (obj (field "object" (obj charge) end)) end)));
}

abbrev calm : Env
calm = record { conflict = λ n. quiet; others = λ n db. db; jitter = λ n. 0 }

abbrev fresh : Books
fresh = record { db = empty_db; events = [] }

abbrev no_others : ℕ → List (Conflict × LedgerTransaction)
no_others n = []

calm-Posts : Posts calm no_others
calm-Posts n db = refl

paid_posts : (handle_event uuid calm none paid fresh).0 ≡ ok posted_event
unfolding handle_event built build_transaction build_handled charge_entries add ◌-ℤ◌ upper subscript
    get_attr to_int object_entries entries_for charge_fee charge_bt get money_movement_object_id
    object_id post_built post_transaction post_loop attempt statements resolve account_id lookup
    insert insert_transaction collision insert_entries insert_entry commit assert_txn_balanced
    assert_txn_min_entries groups_balanced sum_dir after_posting mark_status insert_event
paid_posts = refl

handled_once_example :
    (handle_event uuid calm none paid
      (record { db = (handle_event uuid calm none paid fresh).1.db; events = [] })).0
    ≢ ok posted_event
handled_once_example =
    handled_once uuid calm calm none none paid fresh
      (record { db = (handle_event uuid calm none paid fresh).1.db; events = [] }) [] no_others
      paid_posts refl calm-Posts

run_task-IsFinished_example :
    (r : TaskRun) × (run_task uuid
        (λ n. 500)
        (λ n. calm)
        (λ n. none)
        (λ n b. b)
        paid
        (max_retries + 1)
        0
        fresh
      ≡ some r)
    × IsFinished paid max_retries r
run_task-IsFinished_example =
    run_task-IsFinished uuid (λ n. 500) (λ n. omega arith) (λ n. calm) (λ n. none) (λ n b. b) paid
      fresh
