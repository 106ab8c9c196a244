-- ===== src/Harness/Proxy/Reorderer/Kept.antt =====
-- No delivery that is held back by harness/proxy.py is lost or doubled.
use mathlib.Core.List.{reverse, reverse_aux}
use ledger_proof.Base.{
  ℕ, zero, suc, ◌+◌, ◌<◌, ◌≤◌, max, true, List, [], ◌∷◌, ◌++◌, any, length, leb, ◌==◌,
  if◌then◌else◌, ◌≡◌, arith, Bool-cases, inl, inr,
}
use ledger_proof.Harness.Proxy.Reorderer.{
  Reorderer, Turn, submit, time_out, forward, at_rest, remove, next_of, take_turn, run,
}

-- How often a delivery stands in a list, in the flushes, and among the requests.
abbrev pub times : ℕ → List ℕ → ℕ
times k [] = 0
times k (j ∷ js) = (if k == j then 1 else 0) + times k js

abbrev pub times_in : ℕ → List (List ℕ) → ℕ
times_in k [] = 0
times_in k (js ∷ rest) = times k js + times_in k rest

abbrev pub submitted : ℕ → List Turn → ℕ
submitted k [] = 0
submitted k (submit j ∷ turns) = (if k == j then 1 else 0) + submitted k turns
submitted k (_ ∷ turns) = submitted k turns

-- Where a delivery is: held, about to be forwarded, or forwarded.
abbrev pub places : ℕ → Reorderer → ℕ
places k r = times k r.buffer + times_in k r.flushes + times k r.forwarded

times-append : (k : ℕ) (xs ys : List ℕ) → times k (xs ++ ys) ≡ times k xs + times k ys
times-append k [] ys = omega arith
times-append k (x ∷ xs) ys = omega (arith, times-append k xs ys)

times_in-append :
    (k : ℕ) (xs ys : List (List ℕ)) → times_in k (xs ++ ys) ≡ times_in k xs + times_in k ys
times_in-append k [] ys = omega arith
times_in-append k (x ∷ xs) ys = omega (arith, times_in-append k xs ys)

times-reverse_aux : (k : ℕ) (xs r : List ℕ) → times k (reverse_aux xs r) ≡ times k xs + times k r
times-reverse_aux k [] r = omega arith
times-reverse_aux k (x ∷ xs) r = omega (arith, times-reverse_aux k xs (x ∷ r))

times-remove :
    (k j : ℕ) (xs : List ℕ)
    → any (◌==◌ j) xs ≡ true
    → times k xs ≡ times k (remove j xs) + times k (j ∷ [])
unfolding remove
times-remove k j [] here = cc
times-remove k j (x ∷ xs) here = elim (Bool-cases (j == x)) [
  | inl same ↦ let it : j ≡ x = ground (arith, same) in rw (same, it) (omega arith)
  | inr other ↦ rw other (omega (arith, times-remove k j xs (rw (other, any) at here)))
]

times-next_of :
    (k i : ℕ) (flushes : List (List ℕ))
    → times_in k flushes ≡ times k (next_of i flushes).0 + times_in k (next_of i flushes).1
unfolding next_of
times-next_of k i [] = omega arith
times-next_of k zero ([] ∷ flushes) = omega arith
times-next_of k zero ((j ∷ js) ∷ flushes) = omega arith
times-next_of k (suc i) (flush ∷ flushes) = omega (arith, times-next_of k i flushes)

places-take_turn :
    (n k : ℕ) (s : Turn) (r : Reorderer)
    → places k (take_turn n s r) ≡ places k r + submitted k (s ∷ [])
unfolding take_turn
places-take_turn n k (submit j) r = elim (Bool-cases (leb n (length (r.buffer ++ j ∷ [])))) [
  | inl full ↦ rw full (
      omega (
        arith,
        times_in-append k r.flushes (reverse (r.buffer ++ j ∷ []) ∷ []),
        times-reverse_aux k (r.buffer ++ j ∷ []) [],
        times-append k r.buffer (j ∷ []),
      ))
  | inr room ↦ rw room (omega (arith, times-append k r.buffer (j ∷ [])))
]
places-take_turn n k (time_out j) r = elim (Bool-cases (any (◌==◌ j) r.buffer)) [
  | inl mine ↦
      rw mine
        (omega (arith, times_in-append k r.flushes ((j ∷ []) ∷ []), times-remove k j r.buffer mine))
  | inr claimed ↦ rw claimed (omega arith)
]
places-take_turn n k (forward i) r =
    omega (arith, times-next_of k i r.flushes, times-append k r.forwarded (next_of i r.flushes).0)

places-run :
    (n k : ℕ) (turns : List Turn) (r : Reorderer)
    → places k (run n turns r) ≡ places k r + submitted k turns
unfolding run
places-run n k [] r = omega arith
places-run n k (s ∷ turns) r =
    omega (arith, places-run n k turns (take_turn n s r), places-take_turn n k s r, split k s turns)
  where
    split :
        (k : ℕ) (s : Turn) (turns : List Turn)
        → submitted k (s ∷ turns) ≡ submitted k (s ∷ []) + submitted k turns
    split k (submit j) turns = omega arith
    split k (time_out j) turns = omega arith
    split k (forward i) turns = omega arith

length-remove : (k : ℕ) (xs : List ℕ) → length (remove k xs) ≤ length xs
unfolding remove
length-remove k [] = omega arith
length-remove k (x ∷ xs) = elim (Bool-cases (k == x)) [
  | inl same ↦ rw same (omega arith)
  | inr other ↦ rw other (omega (arith, length-remove k xs))
]

held-take_turn :
    (n : ℕ) (s : Turn) (r : Reorderer)
    → length r.buffer < max 1 n
    → length (take_turn n s r).buffer < max 1 n
unfolding take_turn
held-take_turn n (submit j) r few = elim (Bool-cases (leb n (length (r.buffer ++ j ∷ [])))) [
  | inl full ↦ rw full (omega arith)
  | inr room ↦
      let more : length (r.buffer ++ j ∷ []) < n = ground (arith, room) in
      rw room (omega (arith, more))
]
held-take_turn n (time_out j) r few = elim (Bool-cases (any (◌==◌ j) r.buffer)) [
  | inl mine ↦ rw mine (omega (arith, few, length-remove j r.buffer))
  | inr claimed ↦ rw claimed few
]
held-take_turn n (forward i) r few = few

held-run :
    (n : ℕ) (turns : List Turn) (r : Reorderer)
    → length r.buffer < max 1 n
    → length (run n turns r).buffer < max 1 n
unfolding run
held-run n [] r few = few
held-run n (s ∷ turns) r few = held-run n turns (take_turn n s r) (held-take_turn n s r few)

-- Whatever requests, timeouts and forwards come in whatever order, each delivery that was
-- submitted to the reordering buffer stands in exactly one place for each time it was submitted
-- (held, about to be forwarded, or forwarded), so none is lost or doubled, and fewer than n are
-- held, or none where n is below 2.
pub reorderer_keeps :
    (n k : ℕ) (turns : List Turn)
    → (places k (run n turns at_rest) ≡ submitted k turns)
      × (length (run n turns at_rest).buffer < max 1 n)
reorderer_keeps n k turns =
    (omega (arith, places-run n k turns at_rest), held-run n turns at_rest (omega arith))
