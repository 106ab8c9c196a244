-- ===== src/Harness/Faults/Labels.antt =====
-- The labels of the deliveries that `plan` of harness/faults.py builds, fault by fault.
use ledger_proof.Base.{
  ◌/◌, Bool, true, false, none, some, List, [], ◌∷◌, length, take, Every, if◌then◌else◌, Result, ok,
  >>=-inv, ok_injective, ◌≡◌, ◌≢◌, refl, ap, subst, ◌∙◌, inl, inr, Bool-cases, Option-cases, str_eq,
}
use ledger_proof.Base.Int.{ℤ, pos, abs, ◌-ℤ◌, leb_ℤ, ltb_ℤ}
use ledger_proof.Stripe.Mapping.{Raised}
use ledger_proof.Stripe.Signature.{Text, default_tolerance, verify, sign, no_v1}
use ledger_proof.Stripe.Signature.Headers.{IsHexdigest}
use ledger_proof.Stripe.Signature.RoundTrip.{downgrade-refused}
use ledger_proof.Harness.Events.{EventFixture}
use ledger_proof.Harness.Events.Serialize.{serialize}
use ledger_proof.Harness.Faults.{
  Fault, no_fault, duplicate, duplicate_object, concurrent_duplicate, reorder, delay, drop,
  respond_500, tamper_body, truncate_body, stale_timestamp, downgrade_scheme, partial_write,
  slow_loris, FaultPlan, Params, flip_from, flip_one_byte, found_at, data_mark,
}
use ledger_proof.Harness.Faults.Build.{
  clean, rejected_plan, twin, copies, reordered, delayed, branch, plan,
}
use ledger_proof.Harness.Faults.Honest.{
  IsHonest, IsLabelled, all-IsLabelled, changes_body, Answered, clean-IsHonest, clean_all-IsHonest,
  replicate-IsHonest, reverse-IsHonest, stale_answer, other_answer, flip_from-ne, take-ne,
  half_shorter, serialize-some, refused,
}

flip_one_byte-ne : (body : Text) {flipped : Text} → flip_one_byte body ≡ ok flipped → flipped ≢ body
unfolding flip_one_byte
flip_one_byte-ne body {flipped} made same =
    elim (Option-cases (flip_from (found_at data_mark body 0) body)) [
      | inl gone ↦ let it = rw (gone, flip_one_byte) at made in cc
      | inr (other, is) ↦
          let other_same : other ≡ flipped = ok_injective (rw (is, flip_one_byte) at made) in
          flip_from-ne (found_at data_mark body 0) body
            (is ∙ ap (λ (t : Text). some t) (other_same ∙ same))
    ]

module _ (v1_digest : Text → Text → ℤ → Text)
    (hexdigest : (payload key : Text) (at : ℤ) → IsHexdigest (v1_digest payload key at))
    (secret : Text) (ts : ℤ) where
  abbrev AllHonest : FaultPlan → Type 0
  AllHonest made = Every (IsHonest v1_digest hexdigest secret ts) made.deliveries

  delayed_answer :
      (fx : EventFixture) (past_tolerance : Bool)
      → Answered past_tolerance (
          verify v1_digest (serialize fx.event) secret default_tolerance ts (
            sign v1_digest
              (serialize fx.event)
              secret
              (if past_tolerance then ts -ℤ pos 360 else ts)
              []
              false
              none))
  unfolding clean
  delayed_answer fx true = stale_answer v1_digest hexdigest secret ts fx (pos 360) refl
  delayed_answer fx false = clean-IsHonest v1_digest hexdigest secret ts fx

  abbrev AllLabelled : EventFixture → Fault → FaultPlan → Type 0
  AllLabelled target fault made =
      Every (IsLabelled v1_digest hexdigest secret ts target fault) made.deliveries

  module _ (target : EventFixture) (rest : List EventFixture) (p : Params) where
    clean_one : IsHonest v1_digest hexdigest secret ts (clean v1_digest secret target ts)
    clean_one = clean-IsHonest v1_digest hexdigest secret ts target

    all_made :
        (made ready : FaultPlan)
        → ◌≡◌ {A = Result Raised FaultPlan} (ok ready) (ok made)
        → AllHonest ready
        → AllHonest made
    all_made made ready same h = subst AllHonest (ok_injective same) h

    copies-Honest :
        (fault : Fault) (concurrent : Bool) (made : FaultPlan)
        → copies v1_digest secret target rest p ts fault concurrent ≡ ok made
        → AllHonest made
    unfolding copies
    copies-Honest fault concurrent made h = elim (Bool-cases (ltb_ℤ p.n (pos 2))) [
      | inl few ↦ absurd (let it = rw (few, copies) at h in cc)
      | inr enough ↦
          all_made made _ (rw (enough, copies) at h)
            (replicate-IsHonest v1_digest hexdigest secret ts (abs p.n) _ clean_one)
    ]

    reordered-Honest :
        (others : List EventFixture) (made : FaultPlan)
        → reordered v1_digest secret target others p ts ≡ ok made
        → AllHonest made
    unfolding reordered
    reordered-Honest [] made h = cc
    reordered-Honest (second ∷ others) made h = elim (Bool-cases (str_eq p.order "reverse")) [
      | inl known ↦ all_made made _ (rw known at h) (
          reverse-IsHonest v1_digest hexdigest secret ts _ []
            (clean_all-IsHonest v1_digest hexdigest secret ts (target ∷ second ∷ others)) tt)
      | inr other ↦ absurd (let it = rw other at h in cc)
    ]

    all_labelled :
        (fault : Fault) (made : FaultPlan) → AllHonest made → AllLabelled target fault made
    all_labelled fault made h =
        all-IsLabelled v1_digest hexdigest secret ts target fault made.deliveries h

    -- Bodies that were changed after they were signed.
    changed-IsLabelled :
        (fault : Fault) (body : Text) (made : FaultPlan)
        → changes_body fault ≡ true
        → body ≢ serialize target.event
        → ◌≡◌ {A = Result Raised FaultPlan}
            (ok (
              rejected_plan v1_digest secret fault target body
                (sign v1_digest (serialize target.event) secret ts [] false none)))
            (ok made)
        → AllLabelled target fault made
    unfolding rejected_plan
    changed-IsLabelled fault body made changes other same =
        subst (AllLabelled target fault) (ok_injective same) (
          elim (other_answer v1_digest hexdigest secret ts target body) [
            | inl refuses ↦ inl refuses
            | inr digest ↦
                inr (record { is_changed = changes; other_body = other; same_digest = digest })
          ],
          tt,
        )

    tampered-IsLabelled :
        (made : FaultPlan)
        → branch v1_digest secret target rest p ts tamper_body ≡ ok made
        → AllLabelled target tamper_body made
    unfolding branch
    tampered-IsLabelled made h =
        let (tampered, flipped, same) = >>=-inv (flip_one_byte (serialize target.event)) _ h in
        changed-IsLabelled tamper_body tampered made refl
          (flip_one_byte-ne (serialize target.event) flipped) same

    truncated-IsLabelled :
        (made : FaultPlan)
        → branch v1_digest secret target rest p ts truncate_body ≡ ok made
        → AllLabelled target truncate_body made
    unfolding branch
    truncated-IsLabelled made h =
        changed-IsLabelled truncate_body
          (take (length (serialize target.event) / 2) (serialize target.event)) made refl
          (take-ne (length (serialize target.event) / 2) (serialize target.event)
            (half_shorter (serialize target.event) (serialize-some target)))
          h

    stale-Honest :
        (made : FaultPlan)
        → branch v1_digest secret target rest p ts stale_timestamp ≡ ok made
        → AllHonest made
    unfolding branch rejected_plan
    stale-Honest made h = elim (Bool-cases (leb_ℤ p.age_s default_tolerance)) [
      | inl young ↦ absurd (let it = rw young at h in cc)
      | inr old ↦
          all_made made _ (rw old at h)
            (stale_answer v1_digest hexdigest secret ts target p.age_s old, tt)
    ]

    branch-IsLabelled :
        (fault : Fault) (made : FaultPlan)
        → branch v1_digest secret target rest p ts fault ≡ ok made
        → AllLabelled target fault made
    unfolding branch delayed clean rejected_plan
    branch-IsLabelled no_fault made h =
        all_labelled no_fault made
          (all_made made _ h (clean_all-IsHonest v1_digest hexdigest secret ts (target ∷ rest)))
    branch-IsLabelled duplicate made h =
        all_labelled duplicate made (copies-Honest duplicate false made h)
    branch-IsLabelled concurrent_duplicate made h =
        all_labelled concurrent_duplicate made (copies-Honest concurrent_duplicate true made h)
    branch-IsLabelled duplicate_object made h = all_labelled duplicate_object made (
        all_made made _ h
          (clean_one, (clean-IsHonest v1_digest hexdigest secret ts (twin target), tt)))
    branch-IsLabelled reorder made h = all_labelled reorder made (reordered-Honest rest made h)
    branch-IsLabelled delay made h =
        all_labelled delay made (all_made made _ h (delayed_answer target p.past_tolerance, tt))
    branch-IsLabelled drop made h = all_labelled drop made (all_made made _ h tt)
    branch-IsLabelled respond_500 made h =
        all_labelled respond_500 made (all_made made _ h (clean_one, (clean_one, tt)))
    branch-IsLabelled tamper_body made h = tampered-IsLabelled made h
    branch-IsLabelled truncate_body made h = truncated-IsLabelled made h
    branch-IsLabelled stale_timestamp made h =
        all_labelled stale_timestamp made (stale-Honest made h)
    branch-IsLabelled downgrade_scheme made h = all_labelled downgrade_scheme made (
        all_made made _ h (
          refused no_v1 _ (
              downgrade-refused v1_digest hexdigest (serialize target.event) secret ts
                default_tolerance ts refl [] false (serialize-some target)),
          tt,
        ))
    branch-IsLabelled partial_write made h =
        all_labelled partial_write made (all_made made _ h (clean_one, tt))
    branch-IsLabelled slow_loris made h =
        all_labelled slow_loris made (all_made made _ h (clean_one, tt))

    -- For every fault, set of fixtures and parameters, each delivery of a plan is labelled truly: at
    -- the time of the plan verify accepts every delivery that is not expected to be rejected, and
    -- refuses every one that is; but for a changed body of TAMPER_BODY or TRUNCATE_BODY that differs
    -- from the body that was signed and has the same digest. Digests are 64 hexadecimal digits.
    pub plan-IsLabelled :
        (fault : Fault) (made : FaultPlan)
        → plan v1_digest secret fault (target ∷ rest) p ts ≡ ok made
        → Every (IsLabelled v1_digest hexdigest secret ts target fault) made.deliveries
    unfolding plan
    plan-IsLabelled fault made h = branch-IsLabelled fault made h
