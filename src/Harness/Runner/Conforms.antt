-- ===== src/Harness/Runner/Conforms.antt =====
-- When `detect_breaks` of harness/runner.py has nothing to report.
use ledger_proof.Base.{
  ℕ, ◌≤◌, String, Bool, true, false, ◌&&◌, not, List, [], ◌∷◌, ◌++◌, keep, map, length, ltb, ◌≡◌,
  ◌≢◌, ◌↔◌, refl, sym, ◌∙◌, arith, Every, Bool-cases, inl, inr,
}
use ledger_proof.Recon.Expected.{insert_name}
use ledger_proof.Harness.Faults.{Expectation, FaultPlan}
use ledger_proof.Base.Dict.Same.{same_dict}
use ledger_proof.Base.Names.{among}
use ledger_proof.Harness.Runner.{
  Observation, Finding, sorted_ids, distinct, when, is_false, wrongly_accepted, lost, detect_breaks,
  accepted_bad_delivery, wrong_rejection, lost_event,
}

-- The observation is what the plan promised.
pub record Conforms (exp : Expectation) (obs : Observation) : Type 0 where
  pub money_conserved : obs.invariant_after ≡ true
  pub balances_as_expected : same_dict obs.ledger_diff exp.balances_delta ≡ true
  pub refused_not_posted : Every (λ id. among obs.posted id ≡ false) exp.rejected_event_ids
  pub refused_not_accepted : obs.accepted_rejected ≡ []
  pub refused_for_reason : obs.wrong_rejection_reason ≡ []
  pub none_lost : Every (λ id. among obs.posted id ≡ true) exp.posted_event_ids
  pub posted_once : obs.transactions ≤ length (distinct exp.posted_event_ids)
  pub drained : obs.quiescent ≡ true
  pub drop_seen : exp.reconciler_should_report_break ≡ true → obs.recon_reported_break ≡ true
  pub answered : is_false obs.ingest_responsive ≡ false

when-nil : (b : Bool) (f : Finding) → (when b f ≡ []) ↔ (b ≡ false)
when-nil true f = (λ h. cc, λ h. cc)
when-nil false f = (λ h. refl, λ h. refl)

map-nil : (f : String → Finding) (ids : List String) → (map f ids ≡ []) ↔ (ids ≡ [])
map-nil f [] = (λ h. refl, λ h. refl)
map-nil f (id ∷ ids) = (λ h. cc, λ h. cc)

append-nil_iff : {A : Type 0} (xs ys : List A) → (xs ++ ys ≡ []) ↔ (xs ≡ []) × (ys ≡ [])
append-nil_iff [] ys = (λ h. (refl, h), λ h. h.1)
append-nil_iff (x ∷ xs) ys = (λ h. cc, λ h. cc)

insert_name-some : (n : String) (ns : List String) → insert_name n ns ≢ []
unfolding insert_name
insert_name-some n [] h = cc
insert_name-some n (m ∷ ms) h = ground arith

sorted_ids-nil : (ids : List String) → (sorted_ids ids ≡ []) ↔ (ids ≡ [])
unfolding sorted_ids
sorted_ids-nil [] = (λ h. refl, λ h. refl)
sorted_ids-nil (id ∷ ids) = (λ h. absurd (insert_name-some id (sorted_ids ids) h), λ h. cc)

keep-none :
    (p : String → Bool) (ids : List String) → (keep p ids ≡ []) ↔ Every (λ id. p id ≡ false) ids
keep-none p [] = (λ h. tt, λ h. refl)
keep-none p (id ∷ ids) =
    let (to_every, of_every) = keep-none p ids in
    elim (Bool-cases (p id)) [
      | inl here ↦ (
        λ h. absurd (let it = rw (here, keep) at h in cc),
        λ h. absurd (let it = sym here ∙ h.0 in cc),
      )
      | inr past ↦
          (λ h. (past, to_every (rw (past, keep) at h)), λ h. rw (past, keep) (of_every h.1))
    ]

-- Ids that are all posted leave none to be lost.
all_posted :
    (posted ids : List String)
    → Every (λ id. not (among posted id) ≡ false) ids
    → Every (λ id. among posted id ≡ true) ids
all_posted posted [] h = tt
all_posted posted (id ∷ ids) h = (ground (arith, h.0), all_posted posted ids h.1)

none_unposted :
    (posted ids : List String)
    → Every (λ id. among posted id ≡ true) ids
    → Every (λ id. not (among posted id) ≡ false) ids
none_unposted posted [] h = tt
none_unposted posted (id ∷ ids) h = (rw h.0 refl, none_unposted posted ids h.1)

module _ (exp : Expectation) (obs : Observation) where
  wrongly_accepted-nil :
      (wrongly_accepted exp obs ≡ [])
      ↔ Every (λ id. among obs.posted id ≡ false) exp.rejected_event_ids
        × (obs.accepted_rejected ≡ [])
  unfolding wrongly_accepted
  wrongly_accepted-nil =
      let kept = keep (among obs.posted) exp.rejected_event_ids in
      let (to_ids, of_ids) = sorted_ids-nil (kept ++ obs.accepted_rejected) in
      let (to_parts, of_parts) = append-nil_iff kept obs.accepted_rejected in
      let (to_every, of_every) = keep-none (among obs.posted) exp.rejected_event_ids in
      (
        λ h. let (kept_none, accepted) = to_parts (to_ids h) in (to_every kept_none, accepted),
        λ h. of_ids (of_parts (of_every h.0, h.1)),
      )

  lost-nil : (lost exp obs ≡ []) ↔ Every (λ id. among obs.posted id ≡ true) exp.posted_event_ids
  unfolding lost
  lost-nil =
      let (to_ids, of_ids) =
        sorted_ids-nil (keep (λ id. not (among obs.posted id)) exp.posted_event_ids) in
      let (to_every, of_every) = keep-none (λ id. not (among obs.posted id)) exp.posted_event_ids in
      (
        λ h. all_posted obs.posted exp.posted_event_ids (to_every (to_ids h)),
        λ h. of_ids (of_every (none_unposted obs.posted exp.posted_event_ids h)),
      )

empty : {xs ys : List Finding} → xs ≡ [] → ys ≡ [] → xs ++ ys ≡ []
empty {xs} {ys} h k = (append-nil_iff xs ys).1 (h, k)

is_true : (b : Bool) → not b ≡ false → b ≡ true
is_true b h = ground arith

denies : (b : Bool) → b ≡ true → not b ≡ false
denies b h = rw h refl

not_more : (a b : ℕ) → ltb a b ≡ false → b ≤ a
not_more a b h = ground arith

within : (a b : ℕ) → b ≤ a → ltb a b ≡ false
within a b h = ground arith

-- The harness reports no break of a plan if and only if the observation is what the plan
-- expects: money is conserved, the balances changed as expected, no refused event was posted or
-- accepted or refused for another reason, every event expected to post did, no more transactions
-- were made than events were expected to post, the queue drained, a dropped delivery was seen by
-- the reconciler where one was expected to be, and the server did not stop answering.
pub detect_breaks-Conforms :
    (fault_plan : FaultPlan) (obs : Observation)
    → (detect_breaks fault_plan obs ≡ []) ↔ Conforms fault_plan.expectation obs
unfolding detect_breaks
detect_breaks-Conforms fault_plan obs =
    let exp = fault_plan.expectation in
    (
      λ h.
          let (conserved, h1) = (append-nil_iff _ _).0 h in
          let (balances, h2) = (append-nil_iff _ _).0 h1 in
          let (refused, h3) = (append-nil_iff _ _).0 h2 in
          let (reasons, h4) = (append-nil_iff _ _).0 h3 in
          let (posted, h5) = (append-nil_iff _ _).0 h4 in
          let (once, h6) = (append-nil_iff _ _).0 h5 in
          let (quiet, h7) = (append-nil_iff _ _).0 h6 in
          let (seen, h8) = (append-nil_iff _ _).0 h7 in
          let (answer, _) = (append-nil_iff _ _).0 h8 in
          let (not_posted, not_accepted) =
            (wrongly_accepted-nil exp obs).0 ((map-nil accepted_bad_delivery _).0 refused) in
          record {
            money_conserved = is_true _ ((when-nil _ _).0 conserved);
            balances_as_expected = is_true _ ((when-nil _ _).0 balances);
            refused_not_posted = not_posted;
            refused_not_accepted = not_accepted;
            refused_for_reason = (map-nil wrong_rejection _).0 reasons;
            none_lost = (lost-nil exp obs).0 ((map-nil lost_event _).0 posted);
            posted_once = not_more _ _ ((when-nil _ _).0 once);
            drained = is_true _ ((when-nil _ _).0 quiet);
            drop_seen =
                seen_after exp.reconciler_should_report_break obs.recon_reported_break
                  ((when-nil _ _).0 seen);
            answered = (when-nil _ _).0 answer;
          },
      λ c. empty ((when-nil _ _).1 (denies _ c.money_conserved)) (
          empty ((when-nil _ _).1 (denies _ c.balances_as_expected)) (
            empty
              ((map-nil accepted_bad_delivery _).1
                ((wrongly_accepted-nil exp obs).1 (c.refused_not_posted, c.refused_not_accepted)))
              (empty ((map-nil wrong_rejection _).1 c.refused_for_reason) (
                empty ((map-nil lost_event _).1 ((lost-nil exp obs).1 c.none_lost)) (
                  empty ((when-nil _ _).1 (within _ _ c.posted_once)) (
                    empty ((when-nil _ _).1 (denies _ c.drained)) (
                      empty
                        ((when-nil _ _).1 (
                          unseen exp.reconciler_should_report_break obs.recon_reported_break
                            c.drop_seen))
                        (empty ((when-nil _ _).1 c.answered) (refl))))))))),
    )
  where
    seen_after : (due seen : Bool) → (due && not seen) ≡ false → due ≡ true → seen ≡ true
    seen_after due seen h k = ground arith

    unseen : (due seen : Bool) → (due ≡ true → seen ≡ true) → (due && not seen) ≡ false
    unseen true seen h = rw (h refl) refl
    unseen false seen h = refl
