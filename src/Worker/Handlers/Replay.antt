-- ===== src/Worker/Handlers/Replay.antt =====
-- Handling an event again, by worker/handlers.py: an event moves money once.
use ledger_proof.Base.{
  ℕ, ◌+◌, String, Option, none, some, List, [], any, str_eq, Result, ok, err, ◌≡◌, ◌≢◌, refl, sym,
  ap, ◌∙◌, Bool-cases, Option-cases, Result-cases, inl, inr, >>=-inv, ok_injective,
}
use ledger_proof.Base.Int.{ℤ}
use ledger_proof.Base.Json.{Value, Fields, str}
use ledger_proof.Ledger.Schema.{Db, Error, unique_violation, transactions_pkey}
use ledger_proof.Ledger.Post.{
  LedgerTransaction, PostOutcome, posted, duplicate, Env, Posting, Conflict, post_transaction,
}
use ledger_proof.Ledger.History.{run_attempts}
use ledger_proof.Ledger.Replay.{SameMovement, by_id}
use ledger_proof.Stripe.Mapping.{Raised, missing_fee, build_transaction}
use ledger_proof.Stripe.Mapping.Balance.{IsMapped, build_transaction-IsMapped}
use ledger_proof.Ingest.Dedupe.{Event}
use ledger_proof.Ingest.Events.{Status, processed, no_money_moved}
use ledger_proof.Worker.Handlers.Once.{post_loop-PostedBy, Posts, never_again}
use ledger_proof.Worker.Handlers.{
  marked, raised, mark_status, handled_event_types, Client, Handled, posted_event, no_money,
  ignored, Books, posting_outcome, answer, after_posting, post_built, built, handle_event,
  resolve_fee,
}

marked_answer :
    (b : Books) (event : Event) (status : Status) (said : Handled) {h : Handled}
    → (marked b event status said).0 ≡ ok h
    → (said ≡ h) × ((marked b event status said).1.db ≡ b.db)
marked_answer b event status said = elim (Result-cases (mark_status b.events event status)) [
  | inl done ↦ let (rows, is) = done in rw (is, marked) (λ told. (ok_injective told, refl))
  | inr failed ↦ let (e, is) = failed in rw (is, marked) (λ told. cc)
]

-- What was posted when an event was handled.
pub record Moved (uuid5 : String → ℕ) (env : Env) (client : Option Client) (event : Event)
    (b : Books) (after : Db) : Type 0 where
  pub transaction : LedgerTransaction
  pub posting : Posting
  pub was_built : built uuid5 client event ≡ ok (some transaction)
  pub called : post_transaction env 5 transaction b.db ≡ some posting
  pub success : posting.result ≡ ok posted
  pub left : posting.db ≡ after

answer_posted : (o : PostOutcome) → answer o ≡ posted_event → o ≡ posted
answer_posted posted is = refl
answer_posted duplicate is = cc

outcome_posted : (r : Result Error PostOutcome) → posting_outcome r ≡ ok posted → r ≡ ok posted
outcome_posted (ok o) is = is
outcome_posted (err (unique_violation transactions_pkey)) is = cc
outcome_posted (err (unique_violation _)) is = cc
outcome_posted (err _) is = cc

module _ (uuid5 : String → ℕ) (env : Env) (client : Option Client) (event : Event) (b : Books) where
  after_posting_inv :
      (p : Posting)
      → (after_posting b.events event p).0 ≡ ok posted_event
      → (p.result ≡ ok posted) × ((after_posting b.events event p).1.db ≡ p.db)
  unfolding after_posting
  after_posting_inv p = elim (Result-cases (posting_outcome p.result)) [
    | inl gone ↦
        let (outcome, is) = gone in
        rw (is, after_posting)
          (λ told.
            let (said, db) =
              marked_answer (record { db = p.db; events = b.events }) event processed
                (answer outcome) told in
            (outcome_posted p.result (is ∙ ap ok (answer_posted outcome said)), db))
    | inr failed ↦ let (e, is) = failed in rw (is, after_posting) (λ told. cc)
  ]

  post_built_inv :
      (t : LedgerTransaction)
      → built uuid5 client event ≡ ok (some t)
      → (post_built env event t b).0 ≡ ok posted_event
      → Moved uuid5 env client event b (post_built env event t b).1.db
  unfolding post_built
  post_built_inv t was_built = elim (Option-cases (post_transaction env 5 t b.db)) [
    | inl out ↦ rw (out, post_built) (λ told. cc)
    | inr ended ↦
        let (p, called) = ended in
        rw (called, post_built)
          (λ told.
            let (success, left) = after_posting_inv p told in
            record {
              transaction = t;
              posting = p;
              was_built = was_built;
              called = called;
              success = success;
              left = sym left;
            })
  ]

  not_posted :
      (b' : Books) (st : Status) (said : Handled)
      → said ≢ posted_event
      → (marked b' event st said).0 ≢ ok posted_event
  not_posted b' st said other told = other (marked_answer b' event st said told).0

  handle_event-Moved :
      (handle_event uuid5 env client event b).0 ≡ ok posted_event
      → Moved uuid5 env client event b (handle_event uuid5 env client event b).1.db
  unfolding handle_event
  handle_event-Moved = elim (Bool-cases (any (str_eq event.type) handled_event_types)) [
    | inl known ↦ elim (Result-cases (built uuid5 client event)) [
      | inl got ↦
          let (o, is) = got in
          elim (Option-cases o) [
            | inl nothing ↦
                rw (known, is, nothing)
                  (λ told. absurd (not_posted b no_money_moved no_money (λ e. cc) told))
            | inr there ↦
                let (t, same) = there in rw (known, is, same) (post_built_inv t (is ∙ ap ok same))
          ]
      | inr failed ↦ let (e, is) = failed in rw (known, is) (λ told. cc)
    ]
    | inr unknown ↦ rw unknown (λ told. absurd (not_posted b no_money_moved ignored (λ e. cc) told))
  ]

raised_ok : {A : Type 0} (r : Result Raised A) {x : A} → raised r ≡ ok x → r ≡ ok x
raised_ok (ok a) is = ap ok (ok_injective is)
raised_ok (err e) is = cc

module _ (uuid5 : String → ℕ) (event : Event) where
  builds_after :
      (client : Option Client) (first : Result Raised (Option LedgerTransaction))
      {t : LedgerTransaction}
      → build_transaction uuid5 event.fields none ≡ first
      → built uuid5 client event ≡ ok (some t)
      → (fee : Option ℤ) × (build_transaction uuid5 event.fields fee ≡ ok (some t))
  unfolding built
  builds_after client (ok o) is was_built =
      (none, is ∙ ap ok (ok_injective (rw (is, built) at was_built)))
  builds_after (some c) (err (missing_fee id)) is was_built =
      let (fee, _, again) = >>=-inv (resolve_fee c event id) _ (rw (is, built) at was_built) in
      (some fee, raised_ok (build_transaction uuid5 event.fields (some fee)) again)
  builds_after none (err (missing_fee id)) is was_built =
      absurd (let it = rw (is, built) at was_built in cc)
  builds_after client (err _) is was_built = absurd (let it = rw (is, built) at was_built in cc)

built-IsMapped :
    (uuid5 : String → ℕ) (client : Option Client) (event : Event) {t : LedgerTransaction}
    → built uuid5 client event ≡ ok (some t)
    → IsMapped uuid5 event.fields t
built-IsMapped uuid5 client event was_built =
    let (fee, is) =
      builds_after uuid5 event client (build_transaction uuid5 event.fields none) refl was_built in
    build_transaction-IsMapped uuid5 event.fields fee is

same_text : {a b : String} → ◌≡◌ {A = Result Raised Value} (ok (str a)) (ok (str b)) → a ≡ b
same_text e = cc

-- Two transactions built from one event are the same movement.
mapped_same :
    {uuid5 : String → ℕ} {fields : Fields} {t u : LedgerTransaction}
    → IsMapped uuid5 fields t
    → IsMapped uuid5 fields u
    → SameMovement t u
mapped_same {uuid5} first second = by_id (
    first.id_derived
    ∙ ap uuid5 (same_text (sym first.named ∙ second.named))
    ∙ sym second.id_derived)

-- An event moves money once: after the worker has handled an event as posted, and whatever
-- attempts to post are made in between and during the new call, handling that event again never
-- reports it as posted, whatever conflicts it meets, and with whatever client and table of
-- events.
pub handled_once :
    (uuid5 : String → ℕ) (env env' : Env) (client client' : Option Client) (event : Event)
    (b b' : Books) (between : List (Conflict × LedgerTransaction))
    (history : ℕ → List (Conflict × LedgerTransaction))
    → let first = handle_event uuid5 env client event b in
      first.0 ≡ ok posted_event
      → b'.db ≡ run_attempts between first.1.db
      → Posts env' history
      → (handle_event uuid5 env' client' event b').0 ≢ ok posted_event
unfolding post_transaction
handled_once uuid5 env env' client client' event b b' between history first later posts again =
    let m = handle_event-Moved uuid5 env client event b first in
    let m' = handle_event-Moved uuid5 env' client' event b' again in
    let by = post_loop-PostedBy (5 + 1) env 5 1 m.transaction b.db [] m.called m.success in
    let same =
      mapped_same (built-IsMapped uuid5 client event m.was_built)
        (built-IsMapped uuid5 client' event m'.was_built) in
    let reached = later ∙ ap (run_attempts between) (sym (by.left ∙ m.left)) in
    never_again m.transaction m'.transaction same by.conflict by.before by.succeeded env' history
      posts (5 + 1) 5 1 b'.db [] between reached m'.called m'.success
