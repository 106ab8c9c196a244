-- ===== src/Recon/Live/Agreement.antt =====
-- When `reconcile_stripe` of ledgerproof/recon/reconciler.py finds nothing to report.
use mathlib.Core.List.{Memᴰ}
use mathlib.Core.List.Memᴰ.{head, tail, cases_cons}
use ledger_proof.Base.{
  ℕ, suc, ◌+◌, Bool, true, false, not, Option, none, some, List, [], ◌∷◌, ◌++◌, keep, find_first,
  sql_eq, length, ◌≡◌, refl, sym, ap, ◌∙◌, inl, inr, arith, Every, Bool-cases, Option-cases,
  &&-split,
}
use ledger_proof.Base.Int.{◌==ℤ◌, ==ℤ_iff}
use ledger_proof.Ledger.Schema.{Db}
use ledger_proof.Ledger.Invariant.{check, invariant_ok}
use ledger_proof.Recon.Breaks.{Break, no_breaks, recon_ok, invariant_breaks}
use ledger_proof.Recon.Expected.Agrees.{no_breaks-append}
use ledger_proof.Recon.Snapshot.{LedgerTxn}
use ledger_proof.Recon.Live.{
  candidates, is_matched, head_of, choose, ledger_fee, ledger_amount, Statement, unlisted,
  amount_break, fee_break, Matching, against, match_all, unlisted_txns, report,
}

-- The ledger has a transaction of the object with the amount and the fee that Stripe states.
pub record Settled (ledger : List LedgerTxn) (s : Statement) : Type 0 where
  pub txn : LedgerTxn
  pub is_there : Memᴰ txn ledger
  pub same_object : sql_eq txn.object_id s.source ≡ true
  pub same_amount : ledger_amount txn ≡ s.amount
  pub same_fee : ledger_fee txn ≡ s.fee

keep-member :
    (p : LedgerTxn → Bool) (t : LedgerTxn) (ts : List LedgerTxn)
    → Memᴰ t (keep p ts)
    → Memᴰ t ts × (p t ≡ true)
keep-member p t [] m = elim m [ ]
keep-member p t (u ∷ ts) m = elim (Bool-cases (p u)) [
  | inl kept ↦ elim (cases_cons (rw (kept, keep) at m)) [
    | inl same ↦ (head same, ap p same ∙ kept)
    | inr later ↦ let (there, holds) = keep-member p t ts later in (tail there, holds)
  ]
  | inr dropped ↦
      let (there, holds) = keep-member p t ts (rw (dropped, keep) at m) in (tail there, holds)
]

found : {t u : LedgerTxn} → some u ≡ some t → t ≡ u
found same = cc

find_first-member :
    (p : LedgerTxn → Bool) (ts : List LedgerTxn) {t : LedgerTxn}
    → find_first p ts ≡ some t
    → Memᴰ t ts
find_first-member p [] h = cc
find_first-member p (u ∷ ts) {t} h = elim (Bool-cases (p u)) [
  | inl here ↦ head (found (rw (here, find_first) at h))
  | inr past ↦ tail (find_first-member p ts (rw (past, find_first) at h))
]

head_of-member : (ts : List LedgerTxn) {t : LedgerTxn} → head_of ts ≡ some t → Memᴰ t ts
head_of-member [] h = cc
head_of-member (u ∷ ts) h = head (found h)

choose-member :
    (matched : List ℕ) (ts : List LedgerTxn) {t : LedgerTxn}
    → choose matched ts ≡ some t
    → Memᴰ t ts
unfolding choose
choose-member matched ts {t} h =
    let fresh = find_first (λ u. not (is_matched matched u)) ts in
    elim (Option-cases fresh) [
      | inl none_left ↦ head_of-member ts (rw (none_left, choose) at h)
      | inr (u, here) ↦ find_first-member _ ts (here ∙ (rw (here, choose) at h))
    ]

not_clean : (bs : List Break) (b : Break) → no_breaks (bs ++ b ∷ []) ≡ false
not_clean [] b = refl
not_clean (x ∷ bs) b = refl

against-none : (s : Statement) (m : Matching) → no_breaks (against s none m).breaks ≡ false
unfolding against
against-none s m = not_clean m.breaks (unlisted s)

amount_break-none :
    (s : Statement) (t : LedgerTxn)
    → no_breaks (amount_break s t) ≡ true
    → ledger_amount t ≡ s.amount
unfolding amount_break
amount_break-none s t clean = elim (Bool-cases (ledger_amount t ==ℤ s.amount)) [
  | inl same ↦ (==ℤ_iff (ledger_amount t) s.amount).0 same
  | inr other ↦ absurd (differs (rw (other, amount_break) at clean))
]
  where
    differs : ¬ (false ≡ true)
    differs h = cc

fee_break-none :
    (s : Statement) (t : LedgerTxn) → no_breaks (fee_break s t) ≡ true → ledger_fee t ≡ s.fee
unfolding fee_break
fee_break-none s t clean = elim (Bool-cases (ledger_fee t ==ℤ s.fee)) [
  | inl same ↦ (==ℤ_iff (ledger_fee t) s.fee).0 same
  | inr other ↦ absurd (differs (rw (other, fee_break) at clean))
]
  where
    differs : ¬ (false ≡ true)
    differs h = cc

against-some :
    (s : Statement) (t : LedgerTxn) (m : Matching)
    → no_breaks (against s (some t) m).breaks ≡ true
    → (no_breaks m.breaks ≡ true) × (ledger_amount t ≡ s.amount) × (ledger_fee t ≡ s.fee)
unfolding against
against-some s t m clean =
    let (first, fees) =
      &&-split _ _
        (sym (no_breaks-append (m.breaks ++ amount_break s t) (fee_break s t)) ∙ clean) in
    let (before, amounts) =
      &&-split _ _ (sym (no_breaks-append m.breaks (amount_break s t)) ∙ first) in
    (before, amount_break-none s t amounts, fee_break-none s t fees)

-- The loop reports nothing only where every balance transaction is settled.
match_all-Settled :
    (ledger : List LedgerTxn) (ss : List Statement) (m : Matching)
    → no_breaks (match_all ledger ss m).breaks ≡ true
    → (no_breaks m.breaks ≡ true) × Every (Settled ledger) ss
unfolding match_all
match_all-Settled ledger [] m clean = (clean, tt)
match_all-Settled ledger (s ∷ ss) m clean =
    let own = candidates ledger s.source in
    let (turn, rest) = match_all-Settled ledger ss (against s (choose m.matched own) m) clean in
    elim (Option-cases (choose m.matched own)) [
      | inl gone ↦ absurd (dirty (sym (against-none s m) ∙ (rw gone at turn)))
      | inr (t, chosen) ↦
          let (before, amount, fee) = against-some s t m (rw chosen at turn) in
          let (there, object) = keep-member _ t ledger (choose-member m.matched own chosen) in
          (
            before,
            (
              record {
                txn = t;
                is_there = there;
                same_object = object;
                same_amount = amount;
                same_fee = fee;
              },
              rest,
            ),
          )
    ]
  where
    dirty : ¬ (false ≡ true)
    dirty h = cc

against-checked :
    (s : Statement) (o : Option LedgerTxn) (m : Matching) → (against s o m).checked ≡ suc m.checked
unfolding against
against-checked s none m = refl
against-checked s (some t) m = refl

match_all-checked :
    (ledger : List LedgerTxn) (ss : List Statement) (m : Matching)
    → (match_all ledger ss m).checked ≡ m.checked + length ss
unfolding match_all
match_all-checked ledger [] m = omega arith
match_all-checked ledger (s ∷ ss) m =
    let turn = against s (choose m.matched (candidates ledger s.source)) m in
    match_all-checked ledger ss turn
    ∙ omega (arith, against-checked s (choose m.matched (candidates ledger s.source)) m)

-- When the comparison with Stripe reports no break, then every balance transaction has a
-- transaction in the ledger of the same object, whose amount and fee are those that Stripe
-- states, the global invariant holds, and as many were checked as Stripe listed.
pub report-Settled :
    (ledger : List LedgerTxn) (db : Db) (ss : List Statement)
    → recon_ok (report ledger db ss) ≡ true
    → Every (Settled ledger) ss
      × (invariant_ok (check db) ≡ true)
      × ((report ledger db ss).checked ≡ length ss)
unfolding report
report-Settled ledger db ss clean =
    let m = match_all ledger ss (record { breaks = []; matched = []; checked = 0 }) in
    let (reported, balanced) = &&-split _ _ clean in
    let (first, _) = &&-split _ _ (
      sym (
        no_breaks-append (m.breaks ++ unlisted_txns m.matched ledger) (invariant_breaks (check db)))
      ∙ reported) in
    let (matched, _) =
      &&-split _ _ (sym (no_breaks-append m.breaks (unlisted_txns m.matched ledger)) ∙ first) in
    (
      (match_all-Settled ledger ss _ matched).1,
      balanced,
      match_all-checked ledger ss _ ∙ omega arith,
    )
