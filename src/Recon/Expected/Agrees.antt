-- ===== src/Recon/Expected/Agrees.antt =====
-- When `reconcile_expected` of ledgerproof/recon/reconciler.py finds nothing to report.
use ledger_proof.Base.{
  String, true, false, ◌&&◌, ◌||◌, Option, none, some, List, [], ◌∷◌, ◌++◌, any, str_eq,
  if◌then◌else◌, ◌≡◌, ◌↔◌, refl, sym, subst, ◌∙◌, inl, inr, arith, Every, Bool-cases, Option-cases,
  str_cases, eq_iff,
}
use ledger_proof.Base.Int.{ℤ, pos, ◌==ℤ◌, ==ℤ_iff}
use ledger_proof.Base.Dict.{Dict, lookup}
use ledger_proof.Recon.Breaks.{Break, no_breaks}
use ledger_proof.Recon.Snapshot.{LedgerTxn}
use ledger_proof.Recon.Expected.{
  ExpectedEvent, nonzero, amount_in, insert_name, names_of, differences, missing, judged, is_seen,
}

pub no_breaks-append : (a b : List Break) → no_breaks (a ++ b) ≡ (no_breaks a && no_breaks b)
no_breaks-append [] b = refl
no_breaks-append (x ∷ a) b = refl

pub any-insert_name :
    (n m : String) (ms : List String)
    → any (str_eq n) (insert_name m ms) ≡ (str_eq n m || any (str_eq n) ms)
unfolding insert_name
any-insert_name n m [] = refl
any-insert_name n m (k ∷ ms) = ground (arith, any-insert_name n m ms, eq_iff m k)

-- A name that is not among the collected ones has no amount.
names_of-absent :
    (n : String) (d : Dict ℤ) (names : List String)
    → any (str_eq n) (names_of d names) ≡ false
    → (amount_in d n ≡ pos 0) × (any (str_eq n) names ≡ false)
unfolding names_of lookup
names_of-absent n [] names h = (refl, h)
names_of-absent n ((m, v) ∷ d) names h = elim (Bool-cases (str_eq n m)) [
  | inl same ↦ ground (arith, any-insert_name n m (names_of d names))
  | inr other ↦
      let later =
        names_of-absent n d names (ground (arith, any-insert_name n m (names_of d names))) in
      (rw (other, amount_in) later.0, later.1)
]

differences-none :
    (t : LedgerTxn) (id : String) (delta : Dict ℤ) (names : List String)
    → (no_breaks (differences t id delta names) ≡ true)
      ↔ Every (λ n. amount_in delta n ≡ amount_in t.delta n) names
unfolding differences
differences-none t id delta [] = (λ _. tt, λ _. refl)
differences-none t id delta (n ∷ names) =
    let want = amount_in delta n in
    let got = amount_in t.delta n in
    let (first, last) = differences-none t id delta names in
    elim (Bool-cases (want ==ℤ got)) [
      | inl same ↦ (
        λ h. ((==ℤ_iff want got).0 same, first (rw (same, differences) at h)),
        λ h. rw (same, differences) (last h.1),
      )
      | inr other ↦ (
        λ h. absurd (not_both (rw (other, differences) at h)),
        λ h. absurd (not_both (sym other ∙ (==ℤ_iff want got).1 h.0)),
      )
    ]
  where
    not_both : ¬ (false ≡ true)
    not_both h = cc

Every-any :
    (P : String → Type 0) (n : String) (names : List String)
    → Every P names
    → any (str_eq n) names ≡ true
    → P n
Every-any P n [] all_hold here = cc
Every-any P n (m ∷ names) all_hold here = elim (str_cases n m) [
  | inl same ↦ subst P (sym same) all_hold.0
  | inr other ↦ Every-any P n names all_hold.1 (rw other at here)
]

Every-intro : (P : String → Type 0) (names : List String) → ((n : String) → P n) → Every P names
Every-intro P [] holds = tt
Every-intro P (n ∷ names) holds = (holds n, Every-intro P names holds)

-- The accounts of both deltas are enough to compare them in every account.
accounts_agree :
    (t : LedgerTxn) (id : String) (delta : Dict ℤ)
    → (no_breaks (differences t id delta (names_of delta (names_of t.delta []))) ≡ true)
      ↔ ((n : String) → amount_in delta n ≡ amount_in t.delta n)
accounts_agree t id delta =
    let names = names_of delta (names_of t.delta []) in
    let Same : String → Type 0 = λ n. amount_in delta n ≡ amount_in t.delta n in
    let (first, last) = differences-none t id delta names in
    (
      λ h n. elim (Bool-cases (any (str_eq n) names)) [
        | inl listed ↦ Every-any Same n names (first h) listed
        | inr unlisted ↦
            let (want, rest) = names_of-absent n delta (names_of t.delta []) unlisted in
            want ∙ sym (names_of-absent n t.delta [] rest).0
      ],
      λ h. last (Every-intro Same names h),
    )

-- An expected event agrees with the transaction of its id: the same change in every account; or
-- there is none, and the event should move nothing.
abbrev pub Met : Option LedgerTxn → Dict ℤ → Type 0
Met none delta = delta ≡ []
Met (some t) delta = (n : String) → amount_in delta n ≡ amount_in t.delta n

missing-none :
    (id : String) (delta : Dict ℤ) → (no_breaks (missing id delta).0 ≡ true) ↔ (delta ≡ [])
unfolding missing
missing-none id [] = (λ _. refl, λ _. refl)
missing-none id (entry ∷ entries) = (λ h. cc, λ h. cc)

pub judged-Met :
    (ledger : Dict LedgerTxn) (id : String) (delta : Dict ℤ)
    → (no_breaks (judged ledger id delta).0 ≡ true) ↔ Met (lookup id ledger) delta
unfolding judged missing
judged-Met ledger id delta = elim (Option-cases (lookup id ledger)) [
  | inl gone ↦ rw (gone, judged) (missing-none id delta)
  | inr (t, here) ↦ rw (here, judged) (accounts_agree t id delta)
]

-- The first of each event id, past those that were seen.
unfoldable pub firsts : List String → List ExpectedEvent → List ExpectedEvent
firsts seen [] = []
firsts seen (e ∷ es) =
    let fresh = firsts (e.event_id ∷ seen) es in
    let rest = firsts seen es in if is_seen seen e.event_id then rest else e ∷ fresh

abbrev pub AllMet : Dict LedgerTxn → List ExpectedEvent → Type 0
AllMet ledger = Every (λ e. Met (lookup e.event_id ledger) (nonzero e.expected_delta))
