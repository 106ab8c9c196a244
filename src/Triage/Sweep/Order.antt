-- ===== src/Triage/Sweep/Order.antt =====
-- The tags by which `collect` of scripts/run_sweep.py tells whose result it has.
use text.Mathlib.TextLemmas.{append_cancel_left}
use ledger_proof.Base.{
  ℕ, zero, suc, ◌+◌, ◌<◌, String, true, false, Option, none, some, List, [], ◌∷◌, ◌++◌, map, str_eq,
  ◌≡◌, refl, ap, subst, ◌∙◌, arith, inl, inr, eq_refl, str_cases,
}
use ledger_proof.Base.Dict.{Dict, lookup, insert, lookup-insert}
use ledger_proof.Base.Text.{padded}
use ledger_proof.Base.Text.Padded.{padded-injective}
use ledger_proof.Triage.Schema.{Verdict}
use ledger_proof.Triage.Bench.{Case}
use ledger_proof.Triage.Bench.Score.{Scored}
use ledger_proof.Triage.Budget.{Model, BudgetGuard, record_call}
use ledger_proof.Triage.Sweep.{
  Message, Reply, tag_of, tag_all, usage_of, scored_by, take_reply, collect_loop, collect,
}

tag_of-injective : (a b : ℕ) → tag_of a ≡ tag_of b → a ≡ b
tag_of-injective a b same =
    padded-injective 5 a b (append_cancel_left "case-" (padded 5 a) (padded 5 b) same)

tags_differ : (a b : ℕ) → a < b → str_eq (tag_of a) (tag_of b) ≡ false
tags_differ a b less = elim (str_cases (tag_of a) (tag_of b)) [
  | inl same ↦ let equal = tag_of-injective a b same in absurd (omega (arith, equal, less))
  | inr differ ↦ differ
]

tags_differ_from : (a b : ℕ) → b < a → str_eq (tag_of a) (tag_of b) ≡ false
tags_differ_from a b less = elim (str_cases (tag_of a) (tag_of b)) [
  | inl same ↦ let equal = tag_of-injective a b same in absurd (omega (arith, equal, less))
  | inr differ ↦ differ
]

-- Later cases leave the tags of earlier ones as they are.
lookup-tag_all :
    (n k : ℕ) (cases : List Case) (d : Dict Case)
    → n < k
    → lookup (tag_of n) (tag_all k cases d) ≡ lookup (tag_of n) d
unfolding tag_all
lookup-tag_all n k [] d less = refl
lookup-tag_all n k (c ∷ cases) d less =
    lookup-tag_all n (k + 1) cases (insert (tag_of k) c d) (omega (arith, less))
    ∙ lookup-insert (tag_of k) (tag_of n) c d
    ∙ rw (tags_differ n k less) refl

lookup-own :
    (k : ℕ) (c : Case) (cases : List Case) (d : Dict Case)
    → lookup (tag_of k) (tag_all (k + 1) cases (insert (tag_of k) c d)) ≡ some c
lookup-own k c cases d =
    lookup-tag_all k (k + 1) cases (insert (tag_of k) c d) (omega arith)
    ∙ lookup-insert (tag_of k) (tag_of k) c d
    ∙ rw (eq_refl (tag_of k)) refl

-- `cases[index]`, where there is one.
abbrev pub case_at : List Case → ℕ → Option Case
case_at [] index = none
case_at (c ∷ cases) zero = some c
case_at (c ∷ cases) (suc index) = case_at cases index

tagged :
    (k i : ℕ) (cases : List Case) (d : Dict Case)
    → lookup (tag_of (k + i)) d ≡ none
    → lookup (tag_of (k + i)) (tag_all k cases d) ≡ case_at cases i
unfolding tag_all
tagged k i [] d new = new
tagged k zero (c ∷ cases) d new =
    let same : k + 0 ≡ k = omega arith in rw same (lookup-own k c cases d)
tagged k (suc i) (c ∷ cases) d new =
    let next : k + suc i ≡ k + 1 + i = omega arith in
    let absent : lookup (tag_of (k + 1 + i)) d ≡ none =
      subst (λ (n : ℕ). lookup (tag_of n) d ≡ none) next new in
    let apart : str_eq (tag_of (k + 1 + i)) (tag_of k) ≡ false =
      tags_differ_from (k + 1 + i) k (omega arith) in
    rw next (
      tagged (k + 1) i cases (insert (tag_of k) c d)
        (lookup-insert (tag_of k) (tag_of (k + 1 + i)) c d ∙ rw (apart, absent) refl))

lookup-nil : (k : String) → lookup {Value = Case} k [] ≡ none
unfolding lookup
lookup-nil k = refl

tagged_here :
    (index : ℕ) (cases : List Case)
    → lookup (tag_of index) (tag_all 0 cases []) ≡ case_at cases index
tagged_here index cases =
    let start : 0 + index ≡ index = omega arith in
    rw start at (tagged 0 index cases [] (lookup-nil (tag_of (0 + index))))

-- A result for the request with this index, whether there is such a request or not.
abbrev pub reply_to : ℕ × Option Message → Reply
reply_to (index, m) = record { custom_id = tag_of index; message = m }

-- The results one after the other, each for the case in its place.
abbrev pub by_position :
    (String → Option Verdict)
    → Model
    → List Case
    → List (ℕ × Option Message)
    → List Scored × BudgetGuard
    → List Scored × BudgetGuard
by_position parse model cases [] state = state
by_position parse model cases ((index, none) ∷ arrivals) state =
    by_position parse model cases arrivals state
by_position parse model cases ((index, some m) ∷ arrivals) (scored, g) =
    elim (case_at cases index) [
      | none ↦ by_position parse model cases arrivals (scored, g)
      | some c ↦
          by_position parse model cases arrivals
            (scored ++ scored_by parse c m ∷ [], (record_call model (usage_of m) true g).1)
    ]

collect_loop-by_position :
    (parse : String → Option Verdict) (model : Model) (cases : List Case)
    (arrivals : List (ℕ × Option Message)) (state : List Scored × BudgetGuard)
    → collect_loop parse model (tag_all 0 cases []) (map reply_to arrivals) state
      ≡ by_position parse model cases arrivals state
unfolding collect_loop
collect_loop-by_position parse model cases [] state = refl
collect_loop-by_position parse model cases ((index, none) ∷ arrivals) (scored, g) =
    ap
      (λ (s : List Scored × BudgetGuard).
        collect_loop parse model (tag_all 0 cases []) (map reply_to arrivals) s)
      (skipped (lookup (tag_of index) (tag_all 0 cases [])))
    ∙ collect_loop-by_position parse model cases arrivals (scored, g)
  where
    skipped : (o : Option Case) → take_reply parse model o none (scored, g) ≡ (scored, g)
    skipped none = refl
    skipped (some c) = refl
collect_loop-by_position parse model cases ((index, some m) ∷ arrivals) (scored, g) =
    ap
      (λ (o : Option Case).
        collect_loop parse model (tag_all 0 cases []) (map reply_to arrivals)
          (take_reply parse model o (some m) (scored, g)))
      (tagged_here index cases)
    ∙ collect_loop-by_position parse model cases arrivals
        (take_reply parse model (case_at cases index) (some m) (scored, g))
    ∙ in_place (case_at cases index)
  where
    in_place :
        (o : Option Case)
        → by_position parse model cases arrivals (take_reply parse model o (some m) (scored, g))
          ≡ elim o [
            | none ↦ by_position parse model cases arrivals (scored, g)
            | some c ↦
                by_position parse model cases arrivals
                  (scored ++ scored_by parse c m ∷ [], (record_call model (usage_of m) true g).1)
          ]
    in_place none = refl
    in_place (some c) = refl

-- In whatever order the results of a batch arrive, repeated, missing or for a request that was
-- not made, collect does with its tags what one does who looks up the case of each result by its
-- place in the list: it scores that case by the result's message and charges the guard with its
-- cost, in the order of arrival, and passes over what did not succeed or has no case.
pub collect-by_position :
    (parse : String → Option Verdict) (model : Model) (cases : List Case)
    (arrivals : List (ℕ × Option Message)) (g : BudgetGuard)
    → collect parse model (tag_all 0 cases []) (map reply_to arrivals) g
      ≡ by_position parse model cases arrivals ([], g)
collect-by_position parse model cases arrivals g =
    collect_loop-by_position parse model cases arrivals ([], g)
