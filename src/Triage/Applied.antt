-- ===== src/Triage/Applied.antt =====
-- What becomes of a repair that the gate of triage/agent.py lets through.
use ledger_proof.Base.{
  ℕ, zero, suc, ◌+◌, true, false, Option, some, List, [], ◌∷◌, ◌≡◌, ◌≢◌, ap, ◌∙◌, Bool-cases, inl,
  inr, err, leb,
}
use ledger_proof.Base.Int.{ℤ}
use ledger_proof.Base.Dict.{Dict}
use ledger_proof.Ledger.Schema.{Db, unbalanced_transaction, groups_balanced}
use ledger_proof.Ledger.Post.{
  LedgerTransaction, Env, Posting, attempt, backoff_us, is_serialization_failure, post_loop,
  post_transaction,
}
use ledger_proof.Ledger.Post.Effects.{posted_rows}
use ledger_proof.Ledger.History.{attempt-Sound}
use ledger_proof.Ledger.Invariant.Safety.{Sound}
use ledger_proof.Ledger.Retry.{Fair}
use ledger_proof.Stripe.Mapping.Posting.{attempt_never_unbalanced}
use ledger_proof.Triage.Schema.{Verdict, is_nil, repair_is_balanced}
use ledger_proof.Triage.Gate.{
  repair-groups, repair_memo_of, RepairApproval, is_blank, applied, repair_transaction,
  approve_and_apply,
}

same_end : {p q : Posting} → some p ≡ some q → p ≡ q
same_end e = cc

module _ (env : Env) (fair : Fair env) (t : LedgerTransaction) (number : ℕ)
    (balanced : (ids : Dict ℕ)
      → groups_balanced (posted_rows t.id ids t.entries) (posted_rows t.id ids t.entries)
        ≡ true) where
  loop_never_unbalanced :
      (fuel max_attempts n : ℕ) (db : Db) (slept : List ℕ) {p : Posting}
      → Sound db
      → post_loop fuel env max_attempts n t db slept ≡ some p
      → p.result ≢ err (unbalanced_transaction number)
  unfolding post_loop
  loop_never_unbalanced zero max_attempts n db slept s ended = cc
  loop_never_unbalanced (suc fuel) max_attempts n db slept s ended =
      let before = env.others n db in
      let s' = fair.others_sound n db s in
      let now = attempt (env.conflict n) before t in
      let never = attempt_never_unbalanced before t number s' balanced (env.conflict n) in
      elim (Bool-cases (is_serialization_failure now.0)) [
        | inl failed ↦ elim (Bool-cases (leb max_attempts n)) [
          | inl last ↦ λ bad.
              never (ap (λ (x : Posting). x.result) (same_end (rw (failed, last) at ended)) ∙ bad)
          | inr more ↦
              loop_never_unbalanced fuel max_attempts (n + 1) now.1
                (backoff_us n (env.jitter n) ∷ slept) (attempt-Sound (env.conflict n) before t s')
                (rw (failed, more) at ended)
        ]
        | inr settled ↦
            λ bad. never (ap (λ (x : Posting). x.result) (same_end (rw settled at ended)) ∙ bad)
      ]

-- What passed the gate.
pub record Passed (env : Env) (id : ℕ) (occurred_at : ℤ) (v : Verdict) (approval : RepairApproval)
    (db : Db) (o : Option Posting) : Type 0 where
  pub named : is_blank approval.approved_by ≡ false
  pub missing : v.money_is_missing ≡ true
  pub even : repair_is_balanced v.proposed_repair ≡ true
  pub called : post_transaction env 5 (repair_transaction id occurred_at v approval) db ≡ o

module _ (env : Env) (id : ℕ) (occurred_at : ℤ) (v : Verdict) (approval : RepairApproval)
    (db : Db) where
  same_call : {o p : Option Posting} → applied o ≡ applied p → o ≡ p
  same_call e = cc

  gate_inv :
      (o : Option Posting)
      → approve_and_apply env id occurred_at v approval db ≡ applied o
      → Passed env id occurred_at v approval db o
  unfolding approve_and_apply repair_memo_of
  gate_inv o went = elim (Bool-cases (is_blank approval.approved_by)) [
    | inl blank ↦ absurd (let it = rw blank at went in cc)
    | inr named ↦ elim (Bool-cases v.money_is_missing) [
      | inr found ↦ absurd (let it = rw (named, found) at went in cc)
      | inl missing ↦ elim (Bool-cases (is_nil v.proposed_repair)) [
        | inl empty ↦ absurd (let it = rw (named, missing, empty) at went in cc)
        | inr some_legs ↦ elim (Bool-cases (repair_is_balanced v.proposed_repair)) [
          | inr uneven ↦ absurd (let it = rw (named, missing, some_legs, uneven) at went in cc)
          | inl even ↦ record {
            named = named;
            missing = missing;
            even = even;
            called = same_call (rw (named, missing, some_legs, even) at went);
          }
        ]
      ]
    ]
  ]

  -- A proposed repair reaches the ledger only when an approver is named and the verdict says that
  -- money is missing, and then, in a sound ledger that the other writers keep sound, with jitter
  -- below 1, the posting that it ends with is not refused by the trigger as unbalanced: what
  -- repair_is_balanced calls balanced the database calls balanced.
  pub applied_never_unbalanced :
      (p : Posting) (n : ℕ)
      → Fair env
      → Sound db
      → approve_and_apply env id occurred_at v approval db ≡ applied (some p)
      → (is_blank approval.approved_by ≡ false)
        × (v.money_is_missing ≡ true)
        × (p.result ≢ err (unbalanced_transaction n))
  unfolding post_transaction
  applied_never_unbalanced p n fair s went =
      let g = gate_inv (some p) went in
      let t = repair_transaction id occurred_at v approval in
      (
        g.named,
        g.missing,
        loop_never_unbalanced env fair t n (λ ids. repair-groups v.proposed_repair id ids g.even)
            (5 + 1) 5 1 db [] s g.called,
      )
