-- ===== src/Harness/Runner/Ids.antt =====
-- The sets of ids of harness/runner.py.
use ledger_proof.Base.{
  String, List, [], ◌∷◌, str_eq, ◌≡◌, refl, sym, ◌∙◌, subst, arith, Bool-cases, inl, inr, eq_iff,
}
use ledger_proof.Base.Names.{
  among, Apart, others, others-own, others-past, among-others_own, among-others,
}
use ledger_proof.Recon.Expected.Agrees.{any-insert_name}
use ledger_proof.Harness.Runner.{sorted_ids, distinct}

pub among-sorted_ids : (id : String) (ids : List String) → among (sorted_ids ids) id ≡ among ids id
unfolding sorted_ids
among-sorted_ids id [] = refl
among-sorted_ids id (other ∷ ids) =
    any-insert_name id other (sorted_ids ids) ∙ rw (among-sorted_ids id ids) refl

pub distinct-Apart : (ids : List String) → Apart (distinct ids)
unfolding distinct
distinct-Apart [] = tt
distinct-Apart (id ∷ ids) =
    (among-others_own id (distinct ids), others-Apart id (distinct ids) (distinct-Apart ids))
  where
    others-Apart : (id : String) (ids : List String) → Apart ids → Apart (others id ids)
    others-Apart id [] h = tt
    others-Apart id (other ∷ ids) h = elim (Bool-cases (str_eq id other)) [
      | inl same ↦ subst Apart (sym (others-own id other ids same)) (others-Apart id ids h.1)
      | inr differ ↦
          subst Apart (sym (others-past id other ids differ))
            (among-others id other ids differ ∙ h.0, others-Apart id ids h.1)
    ]

pub among-distinct : (k : String) (ids : List String) → among (distinct ids) k ≡ among ids k
unfolding distinct
among-distinct k [] = refl
among-distinct k (id ∷ ids) = elim (Bool-cases (str_eq id k)) [
  | inl same ↦ ground (arith, eq_iff id k, eq_iff k id)
  | inr differ ↦ rw (among-others id k (distinct ids) differ) (rw (among-distinct k ids) refl)
]
