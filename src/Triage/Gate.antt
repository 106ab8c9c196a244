-- ===== src/Triage/Gate.antt =====
-- The gate of ledgerproof/triage/agent.py, `approve_and_apply`, and what passes it.
use ledger_proof.Base.{
  ℕ, zero, suc, String, Bool, true, false, ◌||◌, not, Option, none, some, List, [], ◌∷◌, all, map,
  length, str_eq, ltb, if◌then◌else◌, ◌≡◌, refl, sym, ap, ◌∙◌, arith, Bool-cases, Option-cases, inl,
  inr, eq_iff, &&-split, str_cases, eq_refl,
}
use ledger_proof.Base.Int.{ℤ, pos, ◌+ℤ◌, int_laws, ==ℤ_iff, +ℤ-zero, +ℤ_assoc, zero-+ℤ}
use ledger_proof.Base.Dict.{Dict, lookup, insert, lookup-insert}
use Prim.Native.String.{◌++◌ as joined}
use ledger_proof.Base.Text.{codes, strip}
use ledger_proof.Ledger.Schema.{debit, credit, Db, sum_dir, groups_balanced}
use ledger_proof.Ledger.Post.{Entry, LedgerTransaction, Env, Posting, post_transaction}
use ledger_proof.Ledger.Post.Effects.{posted_rows}
use ledger_proof.Stripe.Mapping.Posting.{groups_of_sums}
use ledger_proof.Triage.Schema.{
  RepairEntry, Verdict, is_nil, or_none, signed, per_currency, is_zero, repair_is_balanced,
}

-- What the entries of one currency add up to.
net : String → List RepairEntry → ℤ
net c [] = pos 0
net c (e ∷ es) = (if str_eq e.currency c then signed e else pos 0) +ℤ net c es

abbrev pub sides : RepairEntry → Bool
sides e = str_eq e.direction "debit" || str_eq e.direction "credit"

all_zero_lookup :
    (nets : Dict ℤ) (c : String) → all is_zero nets ≡ true → or_none (lookup c nets) ≡ pos 0
unfolding lookup
all_zero_lookup [] c none_left = refl
all_zero_lookup ((k, v) ∷ nets) c none_left =
    let (own, rest) = &&-split (is_zero (k, v)) (all is_zero nets) none_left in
    elim (Bool-cases (str_eq c k)) [
      | inl here ↦ rw here ((==ℤ_iff v (pos 0)).0 own)
      | inr past ↦ rw past (all_zero_lookup nets c rest)
    ]

same_dict : {a b : Dict ℤ} → some a ≡ some b → a ≡ b
same_dict e = cc

insert_net :
    (nets : Dict ℤ) (e : RepairEntry) (c : String)
    → or_none (lookup c (insert e.currency (or_none (lookup e.currency nets) +ℤ signed e) nets))
      ≡ or_none (lookup c nets) +ℤ (if str_eq e.currency c then signed e else pos 0)
insert_net nets e c =
    ap or_none (lookup-insert e.currency c (or_none (lookup e.currency nets) +ℤ signed e) nets)
    ∙ elim (str_cases e.currency c) [
      | inl same ↦ rw same (rw (eq_refl c) refl)
      | inr apart ↦
          let other : str_eq c e.currency ≡ false =
            ground (arith, eq_iff c e.currency, eq_iff e.currency c) in
          rw (other, apart) (sym (+ℤ-zero (or_none (lookup c nets))))
    ]

per_currency-net :
    (es : List RepairEntry) (nets : Dict ℤ) (c : String) {end : Dict ℤ}
    → per_currency es nets ≡ some end
    → (all sides es ≡ true) × (or_none (lookup c end) ≡ or_none (lookup c nets) +ℤ net c es)
unfolding per_currency net
per_currency-net [] nets c done = (
  refl,
  ap (λ (d : Dict ℤ). or_none (lookup c d)) (sym (same_dict done))
      ∙ sym (+ℤ-zero (or_none (lookup c nets))),
)
per_currency-net (e ∷ es) nets c done = elim (Bool-cases (sides e)) [
  | inl sided ↦
      let now = insert e.currency (or_none (lookup e.currency nets) +ℤ signed e) nets in
      let (rest, sum) = per_currency-net es now c (rw sided at done) in
      (
        rw sided rest,
        sum
            ∙ (let step = insert_net nets e c in
                rw step (
                  +ℤ_assoc (or_none (lookup c nets))
                    (if str_eq e.currency c then signed e else pos 0) (net c es))),
      )
  | inr neither ↦ absurd (let it = rw neither at done in cc)
]

-- `Entry(account_name=..., dir=e.direction, ...)`
abbrev pub entry_of : RepairEntry → Entry
entry_of e = record {
  account_name = e.account_name;
  dir = if str_eq e.direction "debit" then debit else credit;
  amount_minor = e.amount_minor;
  currency = e.currency;
}

sides_net :
    (c : String) (t : ℕ) (ids : Dict ℕ) (es : List RepairEntry)
    → let rows = posted_rows t ids (map entry_of es) in
      sum_dir debit c rows ≡ sum_dir credit c rows +ℤ net c es
unfolding posted_rows sum_dir net signed
sides_net c t ids [] = omega int_laws
sides_net c t ids (e ∷ es) = rw (sides_net c t ids es) (elim (Bool-cases (str_eq e.currency c)) [
  | inl same ↦ elim (Bool-cases (str_eq e.direction "debit")) [
    | inl left ↦ rw (same, left) (omega int_laws)
    | inr right ↦ rw (same, right) (omega int_laws)
  ]
  | inr apart ↦ rw apart (omega int_laws)
])

balanced_net :
    (es : List RepairEntry) (c : String) → repair_is_balanced es ≡ true → net c es ≡ pos 0
unfolding repair_is_balanced ◌+ℤ◌ lookup
balanced_net es c balanced = elim (Bool-cases (ltb (length es) 2)) [
  | inl few ↦ absurd (let it = rw few at balanced in cc)
  | inr enough ↦ elim (Option-cases (per_currency es [])) [
    | inl bad ↦ absurd (let it = rw (enough, bad) at balanced in cc)
    | inr summed ↦
        let (nets, done) = summed in
        let evened = rw (enough, done) at balanced in
        sym (zero-+ℤ (net c es))
        ∙ sym (per_currency-net es [] c done).1
        ∙ all_zero_lookup nets c evened
  ]
]

pub balanced-sides : (es : List RepairEntry) → repair_is_balanced es ≡ true → all sides es ≡ true
unfolding repair_is_balanced
balanced-sides es balanced = elim (Bool-cases (ltb (length es) 2)) [
  | inl few ↦ absurd (let it = rw few at balanced in cc)
  | inr enough ↦ elim (Option-cases (per_currency es [])) [
    | inl bad ↦ absurd (let it = rw (enough, bad) at balanced in cc)
    | inr (nets, done) ↦ (per_currency-net es [] "" done).0
  ]
]

-- The rows of a repair that the check calls balanced pass the database's trigger.
pub repair-groups :
    (es : List RepairEntry) (t : ℕ) (ids : Dict ℕ)
    → repair_is_balanced es ≡ true
    → let rows = posted_rows t ids (map entry_of es) in groups_balanced rows rows ≡ true
repair-groups es t ids balanced =
    let rows = posted_rows t ids (map entry_of es) in
    groups_of_sums rows rows (λ c.
      sides_net c t ids es ∙ rw (balanced_net es c balanced) (+ℤ-zero (sum_dir credit c rows)))

-- What the gate reads of an approval.
pub record RepairApproval : Type 0 where
  pub approved_by : String
  pub scenario_id : String

-- The reasons of RepairRejected.
pub data Refusal : Type 0 where
  no_approver nothing_missing no_entries not_balanced : Refusal

pub data GateOutcome : Type 0 where
  refused : Refusal → GateOutcome
  applied : Option Posting → GateOutcome

abbrev pub is_blank : String → Bool
is_blank s = elim (strip (codes s)) [ [] ↦ true | _ ∷ _ ↦ false ]

-- `s[:n]`
unfoldable pub cut : ℕ → String → String
cut zero s = ""
cut (suc n) String.[] = ""
cut (suc n) (String.◌∷◌ c s) = String.◌∷◌ c (cut n s)

unfoldable pub repair_memo_of : Verdict → RepairApproval → String
repair_memo_of v approval = cut 500 (
    joined "compensating transaction approved by " (
      joined approval.approved_by
        (joined " for " (joined approval.scenario_id (joined ": " v.repair_memo)))))

-- The transaction of a repair, with the id and the time that it is given.
abbrev pub repair_transaction : ℕ → ℤ → Verdict → RepairApproval → LedgerTransaction
repair_transaction id occurred_at v approval = record {
  id = id;
  occurred_at = occurred_at;
  entries = map entry_of v.proposed_repair;
  stripe_event_id = none;
  stripe_object_id = none;
  event_type = none;
  memo = some (repair_memo_of v approval);
}

unfoldable pub approve_and_apply : Env → ℕ → ℤ → Verdict → RepairApproval → Db → GateOutcome
approve_and_apply env id occurred_at v approval db =
    if is_blank approval.approved_by
    then refused no_approver
    else if not v.money_is_missing
    then refused nothing_missing
    else if is_nil v.proposed_repair
    then refused no_entries
    else if not (repair_is_balanced v.proposed_repair)
    then refused not_balanced
    else applied (post_transaction env 5 (repair_transaction id occurred_at v approval) db)
