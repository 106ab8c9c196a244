-- ===== src/Triage/Bench/Metrics/Coherent.antt =====
-- What one score of triage/bench.py says of itself, whatever the case and the verdict.
use ledger_proof.Base.{
  String, Bool, true, false, ◌&&◌, not, Option, none, some, is_some, List, [], ◌∷◌, map, take,
  str_eq, if◌then◌else◌, ◌≡◌, refl, arith, Every, eq_iff,
}
use ledger_proof.Base.Names.{among}
use ledger_proof.Triage.Schema.{Verdict, value_of, repair_is_balanced}
use ledger_proof.Triage.Bench.{Case, repair_restores_expected_balances}
use ledger_proof.Triage.Bench.Score.{Scored, score, ranking, proposes, proposes_balanced}
use ledger_proof.Triage.Bench.Metrics.{marked}
use ledger_proof.Triage.Bench.Metrics.Tallies.{Below}

-- What the tests of one result say of one another.
pub record Coherent (s : Scored) : Type 0 where
  pub first_is_hit : Below (λ s. s.correct_at_1) (λ s. s.correct_at_3) s
  pub hit_is_answer : Below (λ s. s.correct_at_3) (λ s. is_some s.predicted) s
  pub balanced_is_proposed : Below (λ s. s.repair_balanced) (λ s. s.proposed_repair) s
  pub over_is_proposed : Below (λ s. s.over_repair) (λ s. s.proposed_repair) s
  pub not_both : (marked s.repair_correct && marked s.false_repair) ≡ false

first_hit :
    (label first : String) (rest : List String)
    → (str_eq first label && not (among (take 3 (first ∷ rest)) label)) ≡ false
first_hit label first rest = ground (arith, eq_iff first label, eq_iff label first)

pub score-Coherent : (c : Case) (v : Option Verdict) (refused : Bool) → Coherent (score c v refused)
unfolding score
score-Coherent c none refused = record {
  first_is_hit = refl;
  hit_is_answer = refl;
  balanced_is_proposed = refl;
  over_is_proposed = refl;
  not_both = refl;
}
score-Coherent c (some v) refused = record {
  first_is_hit =
      first_hit c.label_fault (value_of v.fault_class) (map value_of v.alternate_fault_classes);
  hit_is_answer = never (among (take 3 (ranking v)) c.label_fault);
  balanced_is_proposed = also (proposes v) (repair_is_balanced v.proposed_repair);
  over_is_proposed = also (proposes v) (not c.money_was_missing);
  not_both =
      apart c.money_was_missing c.repairable (proposes v) (proposes_balanced v)
        (repair_restores_expected_balances c v);
}
  where
    never : (b : Bool) → (b && false) ≡ false
    never b = ground arith

    also : (a b : Bool) → ((a && b) && not a) ≡ false
    also a b = ground arith

    apart :
        (wrong fixable proposed even right : Bool)
        → (marked (
              if not wrong
              then none
              else if fixable
              then some right
              else if proposed
              then some false
              else none)
            && marked (if wrong then some (even && not right) else none))
          ≡ false
    apart false fixable proposed even right = refl
    apart true true proposed even right = ground arith
    apart true false true even right = refl
    apart true false false even right = refl

-- A result of the benchmark: a case, what was answered, and whether that was a refusal.
abbrev pub Answer : Type 0
Answer = Case × Option Verdict × Bool

abbrev pub scores : List Answer → List Scored
scores [] = []
scores ((c, v, refused) ∷ answers) = score c v refused ∷ scores answers

pub scores-Every :
    (P : Scored → Type 0) (answers : List Answer)
    → ((c : Case) (v : Option Verdict) (refused : Bool) → P (score c v refused))
    → Every P (scores answers)
scores-Every P [] each = tt
scores-Every P ((c, v, refused) ∷ answers) each = (each c v refused, scores-Every P answers each)
