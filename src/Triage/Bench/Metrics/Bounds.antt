-- ===== src/Triage/Bench/Metrics/Bounds.antt =====
-- How the numbers that triage/bench.py reports bound one another.
use ledger_proof.Base.{
  ◌+◌, ◌≤◌, false, ◌&&◌, not, is_some, Option, none, some, List, [], ◌∷◌, keep, ◌≡◌, sym, ◌∙◌,
  arith,
}
use ledger_proof.Triage.Bench.Score.{Scored, score}
use ledger_proof.Triage.Bench.Metrics.{
  marked, in_stratum, repair_metrics, Metrics, totals, aggregate,
}
use ledger_proof.Triage.Bench.Metrics.Tallies.{
  Below, tally-le, length-keep, tally-keep, tally-le-length, unfixable, tally_apart, tally_split,
}
use ledger_proof.Triage.Bench.Metrics.Coherent.{
  Coherent, score-Coherent, Answer, scores, scores-Every,
}
use ledger_proof.Triage.Bench.Metrics.Confusion.{total, total-confusion}

pub record InBounds (m : Metrics) : Type 0 where
  pub first_hits : m.correct_at_1 ≤ m.correct_at_3
  pub hits : m.correct_at_3 ≤ m.answered
  pub answers : m.answered ≤ m.n
  pub balanced : m.repair_balanced ≤ m.repair_proposed
  pub over : m.over_repairs ≤ m.repair_proposed
  pub confusions : total m.confused ≡ m.answered
  pub strata : m.repairs.repair_fixable_n + m.repairs.unfixable_n ≡ m.repairs.repair_stratum_n
  pub exclusive : m.repairs.restored + m.repairs.false_repairs ≤ m.repairs.repair_stratum_n
  pub claims : m.repairs.claimed_unfixable ≤ m.repairs.unfixable_n

totals-InBounds : (answers : List Answer) → InBounds (totals (scores answers))
unfolding totals repair_metrics
totals-InBounds answers =
    let scored = scores answers in
    let each = λ (P : Scored → Type 0) (f : (s : Scored) → Coherent s → P s).
      scores-Every P answers (λ c v refused. f (score c v refused) (score-Coherent c v refused)) in
    let stratum = keep in_stratum scored in
    record {
      first_hits =
          tally-le (λ s. s.correct_at_1) (λ s. s.correct_at_3) scored
            (each (Below (λ s. s.correct_at_1) (λ s. s.correct_at_3)) (λ s c. c.first_is_hit));
      hits = omega (
        arith,
        tally-le (λ s. s.correct_at_3) (λ s. is_some s.predicted) scored
            (each (Below (λ s. s.correct_at_3) (λ s. is_some s.predicted))
              (λ s c. c.hit_is_answer)),
        length-keep (λ s. is_some s.predicted) scored,
      );
      answers = omega (
        arith,
        tally-le-length (λ s. is_some s.predicted) scored,
        length-keep (λ s. is_some s.predicted) scored,
      );
      balanced =
          tally-le (λ s. s.repair_balanced) (λ s. s.proposed_repair) scored
            (each (Below (λ s. s.repair_balanced) (λ s. s.proposed_repair))
              (λ s c. c.balanced_is_proposed));
      over =
          tally-le (λ s. s.over_repair) (λ s. s.proposed_repair) scored
            (each (Below (λ s. s.over_repair) (λ s. s.proposed_repair))
              (λ s c. c.over_is_proposed));
      confusions = total-confusion scored ∙ sym (length-keep (λ s. is_some s.predicted) scored);
      strata = omega (
        arith,
        length-keep (λ s. not (unfixable s)) stratum,
        length-keep unfixable stratum,
        tally-keep in_stratum (λ s. not (unfixable s)) scored,
        tally-keep in_stratum unfixable scored,
        tally_split in_stratum unfixable scored,
        length-keep in_stratum scored,
      );
      exclusive = omega (
        arith,
        tally-keep (λ s. not (unfixable s)) (λ s. marked s.repair_correct) stratum,
        tally-keep in_stratum (λ s. not (unfixable s) && marked s.repair_correct) scored,
        tally-keep in_stratum (λ s. marked s.false_repair) scored,
        tally_apart scored (
            each (λ s. (marked s.repair_correct && marked s.false_repair) ≡ false)
              (λ s c. c.not_both)),
        length-keep in_stratum scored,
      );
      claims = tally-le-length _ (keep unfixable stratum);
    }

-- What is reported, if anything is.
abbrev pub ReportInBounds : Option Metrics → Type 0
ReportInBounds none = Unit
ReportInBounds (some m) = InBounds m

-- Whatever the cases and answers that were scored, of the numbers that aggregate reports the
-- hits at 1 are at most the hits at 3, these at most the answered cases, and these at most all;
-- the balanced and the excessive repairs are at most the proposed ones; the cells of the
-- confusion matrix add up to the answered cases; the fixable and the unfixable cases add up to
-- the repair stratum, in which the restored and the false repairs together are at most all, and
-- the claims to fix the unfixable are at most the unfixable cases.
pub aggregate-InBounds : (answers : List Answer) → ReportInBounds (aggregate (scores answers))
unfolding aggregate
aggregate-InBounds [] = tt
aggregate-InBounds (a ∷ answers) = totals-InBounds (a ∷ answers)
