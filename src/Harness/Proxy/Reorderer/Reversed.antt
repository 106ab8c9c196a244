-- ===== src/Harness/Proxy/Reorderer/Reversed.antt =====
-- The order in which harness/proxy.py releases the deliveries that it held back.
use mathlib.Core.List.{reverse, reverse_aux, append-nil, append_assoc}
use ledger_proof.Base.{
  ℕ, ◌+◌, ◌<◌, ◌≤◌, true, false, List, [], ◌∷◌, ◌++◌, map, length, leb, replicate, ◌≡◌, refl, sym,
  ap, ◌∙◌, arith, length-append,
}
use ledger_proof.Harness.Proxy.Reorderer.{
  Reorderer, Turn, submit, forward, at_rest, next_of, take_turn, run,
}

run-append :
    (n : ℕ) (first second : List Turn) (r : Reorderer)
    → run n (first ++ second) r ≡ run n second (run n first r)
unfolding run
run-append n [] second r = refl
run-append n (s ∷ first) second r = run-append n first second (take_turn n s r)

take_turn-early :
    (n k : ℕ) (held : List ℕ)
    → length held + 1 < n
    → take_turn n (submit k) (record at_rest { buffer = held })
      ≡ record at_rest { buffer = held ++ k ∷ [] }
unfolding take_turn
take_turn-early n k held room =
    let early : leb n (length (held ++ k ∷ [])) ≡ false =
      ground (arith, room, length-append held (k ∷ [])) in
    rw early refl

take_turn-full :
    (n k : ℕ) (held : List ℕ)
    → n ≤ length held + 1
    → take_turn n (submit k) (record at_rest { buffer = held })
      ≡ record at_rest { flushes = reverse (held ++ k ∷ []) ∷ [] }
unfolding take_turn
take_turn-full n k held full =
    let late : leb n (length (held ++ k ∷ [])) ≡ true =
      ground (arith, full, length-append held (k ∷ [])) in
    rw late refl

-- Fewer than `n` are held back.
held_back :
    (n : ℕ) (held ks : List ℕ)
    → length held + length ks < n
    → run n (map submit ks) (record at_rest { buffer = held })
      ≡ record at_rest { buffer = held ++ ks }
unfolding run
held_back n held [] room = rw append-nil refl
held_back n held (k ∷ ks) room =
    ap (λ (r : Reorderer). run n (map submit ks) r) (take_turn-early n k held (omega (arith, room)))
    ∙ held_back n (held ++ k ∷ []) ks (omega (arith, room, length-append held (k ∷ [])))
    ∙ ap (λ (l : List ℕ). record at_rest { buffer = l }) (append_assoc held (k ∷ []) ks)

length-reverse_aux : (xs r : List ℕ) → length (reverse_aux xs r) ≡ length xs + length r
length-reverse_aux [] r = omega arith
length-reverse_aux (x ∷ xs) r = omega (arith, length-reverse_aux xs (x ∷ r))

-- A flush that is alone forwards all that it holds.
drained :
    (n : ℕ) (ks sent : List ℕ)
    → (run n
        (replicate (length ks) (forward 0))
        (record { buffer = []; flushes = ks ∷ []; forwarded = sent })).forwarded
      ≡ sent ++ ks
unfolding run take_turn next_of
drained n [] sent = rw append-nil refl
drained n (k ∷ ks) sent = drained n ks (sent ++ k ∷ []) ∙ append_assoc sent (k ∷ []) ks

-- Once n deliveries have come in with no timeout between, the buffer forwards them in the
-- reverse of the order in which they came.
pub flush_reverses :
    (n k : ℕ) (ks : List ℕ)
    → length ks + 1 ≡ n
    → (run n (map submit ks ++ submit k ∷ replicate n (forward 0)) at_rest).forwarded
      ≡ reverse (ks ++ k ∷ [])
unfolding run
flush_reverses n k ks full =
    let whole : length (reverse (ks ++ k ∷ [])) ≡ n =
      omega (arith, full, length-reverse_aux (ks ++ k ∷ []) [], length-append ks (k ∷ [])) in
    ap (λ (r : Reorderer). r.forwarded)
      (run-append n (map submit ks) (submit k ∷ replicate n (forward 0)) at_rest
        ∙ ap (λ (r : Reorderer). run n (replicate n (forward 0)) (take_turn n (submit k) r))
            (held_back n [] ks (omega (arith, full)))
        ∙ ap (λ (r : Reorderer). run n (replicate n (forward 0)) r)
            (take_turn-full n k ks (omega (arith, full)))
        ∙ ap
            (λ (m : ℕ).
              run n (replicate m (forward 0))
                (record at_rest { flushes = reverse (ks ++ k ∷ []) ∷ [] }))
            (sym whole))
    ∙ drained n (reverse (ks ++ k ∷ [])) []
