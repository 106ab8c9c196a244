-- ===== src/Triage/Bench/Metrics/Tallies.antt =====
-- How the tallies of tests over scored results compare, for triage/bench.py.
use ledger_proof.Base.{
  ℕ, ◌+◌, ◌≤◌, Bool, false, ◌&&◌, not, is_some, List, [], ◌∷◌, keep, length, if◌then◌else◌, ◌≡◌,
  refl, arith, Every,
}
use ledger_proof.Triage.Bench.Score.{Scored}
use ledger_proof.Triage.Bench.Metrics.{tally, marked, in_stratum}

-- One test fails where the other does.
abbrev pub Below : (p q : Scored → Bool) → Scored → Type 0
Below p q s = (p s && not (q s)) ≡ false

pub tally-le :
    (p q : Scored → Bool) (scored : List Scored)
    → Every (Below p q) scored
    → tally p scored ≤ tally q scored
unfolding tally
tally-le p q [] h = omega arith
tally-le p q (s ∷ scored) h = one (p s) (q s) h.0 (tally-le p q scored h.1)
  where
    one :
        (a b : Bool) {m n : ℕ}
        → (a && not b) ≡ false
        → m ≤ n
        → (if a then 1 else 0) + m ≤ (if b then 1 else 0) + n
    one a b h k = ground arith

pub length-keep :
    (p : Scored → Bool) (scored : List Scored) → length (keep p scored) ≡ tally p scored
unfolding tally
length-keep p [] = refl
length-keep p (s ∷ scored) = ground (arith, length-keep p scored)

pub tally-keep :
    (p q : Scored → Bool) (scored : List Scored)
    → tally q (keep p scored) ≡ tally (λ s. p s && q s) scored
unfolding tally
tally-keep p q [] = refl
tally-keep p q (s ∷ scored) = ground (arith, tally-keep p q scored)

pub tally-le-length : (p : Scored → Bool) (scored : List Scored) → tally p scored ≤ length scored
unfolding tally
tally-le-length p [] = omega arith
tally-le-length p (s ∷ scored) = ground (arith, tally-le-length p scored)

abbrev pub unfixable : Scored → Bool
unfixable s = is_some s.claimed_to_fix_the_unfixable

-- The marks of two kinds that no result has both of.
pub tally_apart :
    (scored : List Scored)
    → Every (λ s. (marked s.repair_correct && marked s.false_repair) ≡ false) scored
    → tally (λ s. in_stratum s && (not (unfixable s) && marked s.repair_correct)) scored
        + tally (λ s. in_stratum s && marked s.false_repair) scored
      ≤ tally in_stratum scored
unfolding tally
tally_apart [] h = omega arith
tally_apart (s ∷ scored) h =
    one (in_stratum s) (unfixable s) (marked s.repair_correct) (marked s.false_repair)
      (tally (λ s. in_stratum s && (not (unfixable s) && marked s.repair_correct)) scored)
      (tally (λ s. in_stratum s && marked s.false_repair) scored) (tally in_stratum scored) h.0
      (tally_apart scored h.1)
  where
    one :
        (inside shut right wrong : Bool) (m k l : ℕ)
        → (right && wrong) ≡ false
        → m + k ≤ l
        → ((if inside && (not shut && right) then 1 else 0) + m)
            + ((if inside && wrong then 1 else 0) + k)
          ≤ (if inside then 1 else 0) + l
    one inside shut right wrong m k l h g = ground arith

pub tally_split :
    (p q : Scored → Bool) (scored : List Scored)
    → tally (λ s. p s && not (q s)) scored + tally (λ s. p s && q s) scored ≡ tally p scored
unfolding tally
tally_split p q [] = omega arith
tally_split p q (s ∷ scored) =
    one (p s) (q s) (tally (λ s. p s && not (q s)) scored) (tally (λ s. p s && q s) scored)
      (tally p scored) (tally_split p q scored)
  where
    one :
        (a b : Bool) (m k l : ℕ)
        → m + k ≡ l
        → ((if a && not b then 1 else 0) + m) + ((if a && b then 1 else 0) + k)
          ≡ (if a then 1 else 0) + l
    one a b m k l h = ground arith
