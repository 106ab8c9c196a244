-- ===== src/Worker/Handlers/Once.antt =====
-- An event moves money once: what worker/handlers.py does with it again, however often.
use ledger_proof.Base.{
  ℕ, zero, suc, ◌+◌, some, List, [], ◌∷◌, ◌++◌, ok, ◌≡◌, ◌≢◌, refl, sym, ap, subst, ◌∙◌, Bool-cases,
  inl, inr, leb,
}
use ledger_proof.Ledger.Schema.{Db}
use ledger_proof.Ledger.Post.{
  LedgerTransaction, posted, Env, Posting, Conflict, attempt, backoff_us, is_serialization_failure,
  post_loop,
}
use ledger_proof.Ledger.History.{run_attempts}
use ledger_proof.Ledger.Replay.{SameMovement, posted_once}

run_attempts-append :
    (h k : List (Conflict × LedgerTransaction)) (db : Db)
    → run_attempts (h ++ k) db ≡ run_attempts k (run_attempts h db)
run_attempts-append [] k db = refl
run_attempts-append ((c, t) ∷ h) k db = run_attempts-append h k (attempt c db t).1

-- The attempt by which a call posted.
pub record PostedBy (t : LedgerTransaction) (after : Db) : Type 0 where
  pub conflict : Conflict
  pub before : Db
  pub succeeded : (attempt conflict before t).0 ≡ ok posted
  pub left : (attempt conflict before t).1 ≡ after

abbrev ended_by : Conflict → Db → LedgerTransaction → List ℕ → Posting
ended_by c before t slept = record {
  result = (attempt c before t).0;
  db = (attempt c before t).1;
  slept = slept;
}

pub same_end : {p q : Posting} → some p ≡ some q → p ≡ q
same_end e = cc

ended_PostedBy :
    (c : Conflict) (before : Db) (t : LedgerTransaction) (slept : List ℕ) {p : Posting}
    → some (ended_by c before t slept) ≡ some p
    → p.result ≡ ok posted
    → PostedBy t p.db
ended_PostedBy c before t slept {p} ended success =
    let is = same_end ended in
    record {
      conflict = c;
      before = before;
      succeeded = ap (λ (x : Posting). x.result) is ∙ success;
      left = ap (λ (x : Posting). x.db) is;
    }

pub post_loop-PostedBy :
    (fuel : ℕ) (env : Env) (max_attempts n : ℕ) (t : LedgerTransaction) (db : Db) (slept : List ℕ)
    {p : Posting}
    → post_loop fuel env max_attempts n t db slept ≡ some p
    → p.result ≡ ok posted
    → PostedBy t p.db
unfolding post_loop
post_loop-PostedBy zero env max_attempts n t db slept ended success = cc
post_loop-PostedBy (suc fuel) env max_attempts n t db slept {p} ended success =
    let before = env.others n db in
    let now = attempt (env.conflict n) before t in
    elim (Bool-cases (is_serialization_failure now.0)) [
      | inl failed ↦ elim (Bool-cases (leb max_attempts n)) [
        | inl last ↦
            ended_PostedBy (env.conflict n) before t slept (rw (failed, last) at ended) success
        | inr more ↦
            post_loop-PostedBy fuel env max_attempts (n + 1) t now.1
              (backoff_us n (env.jitter n) ∷ slept) (rw (failed, more) at ended) success
      ]
      | inr settled ↦ ended_PostedBy (env.conflict n) before t slept (rw settled at ended) success
    ]

-- The other writers post transactions, before each attempt those that `history` says.
abbrev pub Posts : Env → (ℕ → List (Conflict × LedgerTransaction)) → Type 0
Posts env history = (n : ℕ) (db : Db) → env.others n db ≡ run_attempts (history n) db

module _ (t u : LedgerTransaction) (same : SameMovement t u) (c : Conflict) (base : Db)
    (first : (attempt c base t).0 ≡ ok posted) (env : Env)
    (history : ℕ → List (Conflict × LedgerTransaction)) (posts : Posts env history) where
  abbrev since : List (Conflict × LedgerTransaction) → Db
  since past = run_attempts past (attempt c base t).1

  again_refused :
      (past : List (Conflict × LedgerTransaction)) (n : ℕ)
      → let r = attempt (env.conflict n) (env.others n (since past)) u in
        (r.1 ≡ since (past ++ history n)) × (r.0 ≢ ok posted)
  again_refused past n =
      let is =
        posts n (since past) ∙ sym (run_attempts-append past (history n) (attempt c base t).1) in
      subst
        (λ (x : Db).
          ((attempt (env.conflict n) x u).1 ≡ since (past ++ history n))
          × ((attempt (env.conflict n) x u).0 ≢ ok posted))
        (sym is) (posted_once base c (env.conflict n) t u (past ++ history n) first same)

  pub never_again :
      (fuel max_attempts n : ℕ) (db : Db) (slept : List ℕ)
      (past : List (Conflict × LedgerTransaction)) {p : Posting}
      → db ≡ since past
      → post_loop fuel env max_attempts n u db slept ≡ some p
      → p.result ≢ ok posted
  unfolding post_loop
  never_again zero max_attempts n db slept past is ended = cc
  never_again (suc fuel) max_attempts n db slept past {p} is ended =
      let now = attempt (env.conflict n) (env.others n db) u in
      let refused =
        subst
          (λ (x : Db).
            ((attempt (env.conflict n) (env.others n x) u).1 ≡ since (past ++ history n))
            × ((attempt (env.conflict n) (env.others n x) u).0 ≢ ok posted))
          (sym is) (again_refused past n) in
      elim (Bool-cases (is_serialization_failure now.0)) [
        | inl failed ↦ elim (Bool-cases (leb max_attempts n)) [
          | inl last ↦ λ success.
              refused.1
                (ap (λ (x : Posting). x.result) (same_end (rw (failed, last) at ended)) ∙ success)
          | inr more ↦
              never_again fuel max_attempts (n + 1) now.1 (backoff_us n (env.jitter n) ∷ slept)
                (past ++ history n) refused.0 (rw (failed, more) at ended)
        ]
        | inr settled ↦ λ success.
            refused.1 (ap (λ (x : Posting). x.result) (same_end (rw settled at ended)) ∙ success)
      ]
