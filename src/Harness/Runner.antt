-- ===== src/Harness/Runner.antt =====
-- harness/runner.py: `detect_breaks`, what a plan promised against what the ledger did, and `_diff`.
-- The texts of the breaks are left out, and a frozen set of ids is a list of them.
pub mod Conforms
pub mod Ids
pub mod Observe
pub mod Once
use ledger_proof.Base.{
  ℕ, String, Bool, true, false, ◌&&◌, not, Option, none, some, List, [], ◌∷◌, ◌++◌, any, all, keep,
  map, length, str_eq, ◌==◌, ltb, if◌then◌else◌,
}
use ledger_proof.Base.Int.{ℤ, pos, ◌-ℤ◌, ◌==ℤ◌}
use ledger_proof.Base.Dict.{Dict}
use ledger_proof.Base.Dict.Same.{same_dict}
use ledger_proof.Base.Names.{among}
use ledger_proof.Recon.Expected.{insert_name, amount_in, names_of}
use ledger_proof.Harness.Faults.{Expectation, FaultPlan}

-- What the system actually did.
pub record Observation : Type 0 where
  pub ledger_diff : Dict ℤ
  pub invariant_after : Bool
  pub posted : List String
  pub transactions : ℕ
  pub quiescent : Bool
  pub accepted_rejected : List String
  pub wrong_rejection_reason : List String
  pub recon_reported_break : Bool
  pub ingest_responsive : Option Bool

-- The kinds of break, with the event that a break is about where it names one.
pub data Finding : Type 0 where
  invariant_violation ledger_diff_mismatch double_post not_quiescent : Finding
  reconciler_missed_drop ingest_unresponsive : Finding
  accepted_bad_delivery lost_event : String → Finding
  wrong_rejection : String → Finding

-- `sorted(set(ids))`
unfoldable pub sorted_ids : List String → List String
sorted_ids [] = []
sorted_ids (id ∷ ids) = insert_name id (sorted_ids ids)

-- A set of ids, or `dict.fromkeys(ids)`: the first of each.
unfoldable pub distinct : List String → List String
distinct [] = []
distinct (id ∷ ids) = id ∷ keep (λ other. not (str_eq id other)) (distinct ids)

abbrev pub when : Bool → Finding → List Finding
when true finding = finding ∷ []
when false finding = []

-- `obs.ingest_responsive is False`
abbrev pub is_false : Option Bool → Bool
is_false (some false) = true
is_false _ = false

-- `bad`: refused in the plan, but posted or answered 2xx.
unfoldable pub wrongly_accepted : Expectation → Observation → List String
wrongly_accepted exp obs =
    sorted_ids (keep (among obs.posted) exp.rejected_event_ids ++ obs.accepted_rejected)

-- `exp.posted_event_ids - set(obs.posted)`
unfoldable pub lost : Expectation → Observation → List String
lost exp obs = sorted_ids (keep (λ id. not (among obs.posted id)) exp.posted_event_ids)

abbrev pub gather : List (List Finding) → List Finding
gather [] = []
gather (group ∷ groups) = group ++ gather groups

unfoldable pub detect_breaks : FaultPlan → Observation → List Finding
detect_breaks fault_plan obs =
    let exp = fault_plan.expectation in
    gather (
      when (not obs.invariant_after) invariant_violation
      ∷ when (not (same_dict obs.ledger_diff exp.balances_delta)) ledger_diff_mismatch
      ∷ map accepted_bad_delivery (wrongly_accepted exp obs)
      ∷ map wrong_rejection obs.wrong_rejection_reason
      ∷ map lost_event (lost exp obs)
      ∷ when (ltb (length (distinct exp.posted_event_ids)) obs.transactions) double_post
      ∷ when (not obs.quiescent) not_quiescent
      ∷ when (exp.reconciler_should_report_break && not obs.recon_reported_break)
          reconciler_missed_drop
      ∷ when (is_false obs.ingest_responsive) ingest_unresponsive
      ∷ [])

-- `_diff`: the balances that changed
unfoldable pub changes : List String → Dict ℤ → Dict ℤ → Dict ℤ
changes [] before after = []
changes (name ∷ names) before after =
    let rest = changes names before after in
    let value = amount_in after name -ℤ amount_in before name in
    if value ==ℤ pos 0 then rest else (name, value) ∷ rest

unfoldable pub diff : Dict ℤ → Dict ℤ → Dict ℤ
diff before after = changes (names_of before (names_of after [])) before after
