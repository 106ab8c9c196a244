-- ===== src/Harness/Proxy/Pieces.antt =====
-- The pieces of a body that harness/proxy.py dribbles, `_split`.
use ledger_proof.Base.{
  ℕ, zero, suc, ◌-◌, ◌≤◌, List, [], ◌∷◌, ◌++◌, take, length, ◌≡◌, refl, ap, ◌∙◌, arith, Every,
}
use ledger_proof.Stripe.Signature.{Text}
use ledger_proof.Harness.Proxy.{skip, slices, chunk_size, split_body}

unfoldable pub joined : List Text → Text
joined [] = []
joined (piece ∷ pieces) = piece ++ joined pieces

take-skip : (n : ℕ) (cs : Text) → take n cs ++ skip n cs ≡ cs
take-skip zero cs = refl
take-skip (suc n) [] = refl
take-skip (suc n) (c ∷ cs) = ap (λ (l : Text). c ∷ l) (take-skip n cs)

length-skip : (n : ℕ) (cs : Text) → length (skip n cs) ≤ length cs
length-skip zero cs = omega arith
length-skip (suc n) [] = omega arith
length-skip (suc n) (c ∷ cs) = omega (arith, length-skip n cs)

length-take : (n : ℕ) (cs : Text) → length (take n cs) ≤ n
length-take zero cs = omega arith
length-take (suc n) [] = omega arith
length-take (suc n) (c ∷ cs) = omega (arith, length-take n cs)

-- A round of fuel for each byte is enough, since every slice takes one.
slices-joined :
    (fuel n : ℕ) (body : Text) → length body ≤ fuel → joined (slices fuel (suc n) body) ≡ body
unfolding slices joined
slices-joined zero n [] h = refl
slices-joined zero n (c ∷ cs) h = absurd (omega (arith, h))
slices-joined (suc fuel) n [] h = refl
slices-joined (suc fuel) n (c ∷ cs) h =
    ap (λ (l : Text). take (suc n) (c ∷ cs) ++ l)
      (slices-joined fuel n (skip n cs) (omega (arith, h, length-skip n cs)))
    ∙ take-skip (suc n) (c ∷ cs)

slices-small : (fuel n : ℕ) (body : Text) → Every (λ piece. length piece ≤ n) (slices fuel n body)
unfolding slices
slices-small zero n body = tt
slices-small (suc fuel) n [] = tt
slices-small (suc fuel) n (c ∷ cs) = (length-take n (c ∷ cs), slices-small fuel n (skip n (c ∷ cs)))

chunk_size-some : (body : Text) (chunks : ℕ) → (n : ℕ) × (chunk_size body chunks ≡ suc n)
chunk_size-some body chunks = (chunk_size body chunks - 1, omega arith)

-- The pieces that a body is dribbled in, one after the other, are the body, for every body and
-- number of chunks.
pub split_body-joined : (body : Text) (chunks : ℕ) → joined (split_body body chunks) ≡ body
unfolding split_body joined
split_body-joined [] chunks = refl
split_body-joined (c ∷ cs) chunks =
    let (n, size) = chunk_size-some (c ∷ cs) chunks in
    ap (λ (k : ℕ). joined (slices (length (c ∷ cs)) k (c ∷ cs))) size
    ∙ slices-joined (length (c ∷ cs)) n (c ∷ cs) (omega arith)
