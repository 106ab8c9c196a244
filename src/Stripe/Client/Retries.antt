-- ===== src/Stripe/Client/Retries.antt =====
-- What stripe_io/client.py sends for one call, however Stripe answers.
use ledger_proof.Base.{
  ℕ, zero, suc, ◌+◌, ◌≤◌, ◌<◌, false, ◌||◌, not, length, Every, leb, Result, err, ◌≡◌, refl, sym,
  subst, arith, Bool-cases, Option-cases, inl, inr,
}
use ledger_proof.Base.Json.{Value}
use ledger_proof.Stripe.Client.{
  Response, Reply, transport_error, other_error, response, Failed, uncaught, unreachable,
  HttpRequest, retryable, backoff_delay, Call, after_reply, request_loop, send, ends, again,
  is_success, error_from_response, succeeded,
}

-- How a call may end whose last attempt had the number `last`: with a response's body, with a
-- StripeError, or with an exception that `httpx` raised at that attempt.
abbrev pub EndsWell : (ℕ → Reply) → ℕ → Result Failed Value → Type 0
EndsWell reply last (err unreachable) = ⊥
EndsWell reply last (err uncaught) = reply last ≡ other_error
EndsWell reply last _ = Unit

-- The promises of a call from an attempt on that may try `most` times.
pub record IsBounded (reply : ℕ → Reply) (request : HttpRequest) (attempt most : ℕ) (c : Call)
    : Type 0 where
  pub some_sent : 1 ≤ length c.sent
  pub few_sent : length c.sent ≤ most
  pub same_request : Every (λ (r : HttpRequest). r ≡ request) c.sent
  pub slept_between : length c.slept + 1 ≡ length c.sent
  pub short_sleeps : Every (λ (d : ℕ). d < 8000000) c.slept
  pub ends_well : EndsWell reply (attempt + length c.slept) c.outcome

delay_bound : (n d : ℕ) → d < 1000 → backoff_delay n d < 8000000
unfolding backoff_delay
delay_bound n d h = grind arith

module _ (reply : ℕ → Reply) (draw : ℕ → ℕ) (drawn : (n : ℕ) → draw n < 1000) (max_attempts : ℕ)
    (request : HttpRequest) where
  ends-IsBounded :
      (seen attempt most : ℕ) (o : Result Failed Value)
      → 1 ≤ most
      → EndsWell reply attempt o
      → IsBounded reply request attempt most (ends reply draw max_attempts request seen o)
  ends-IsBounded seen attempt most o room well = record {
    some_sent = omega arith;
    few_sent = room;
    same_request = (refl, tt);
    slept_between = refl;
    short_sleeps = tt;
    ends_well =
        let here : attempt ≡ attempt + 0 = omega arith in
        subst (λ (k : ℕ). EndsWell reply k o) here well;
  }

  again-IsBounded :
      (seen attempt most : ℕ) (rest : Call)
      → IsBounded reply request (attempt + 1) most rest
      → IsBounded reply request attempt
          (suc most)
          (again reply draw max_attempts request seen attempt rest)
  again-IsBounded seen attempt most rest b = record {
    some_sent = omega arith;
    few_sent = omega (arith, b.few_sent);
    same_request = (refl, b.same_request);
    slept_between = omega (arith, b.slept_between);
    short_sleeps = (delay_bound attempt (draw attempt) (drawn attempt), b.short_sleeps);
    ends_well =
        let last : attempt + 1 + length rest.slept ≡ attempt + suc (length rest.slept) =
          omega arith in
        subst (λ (k : ℕ). EndsWell reply k rest.outcome) last b.ends_well;
  }

  succeeded_well :
      (r : Response) (k : ℕ) → EndsWell reply k (succeeded reply draw max_attempts request r)
  succeeded_well r k = elim (Option-cases r.json) [
    | inl bad ↦ rw bad tt
    | inr good ↦ let (v, is) = good in rw is tt
  ]

  stripe_well : (r : Response) (k : ℕ) → EndsWell reply k (err (error_from_response r))
  unfolding error_from_response
  stripe_well r k = tt

  after_reply-IsBounded :
      (p : Reply) (left attempt : ℕ) (rest : Call)
      → reply attempt ≡ p
      → (leb left 0 ≡ false → IsBounded reply request (attempt + 1) left rest)
      → IsBounded reply request attempt
          (suc left)
          (after_reply reply draw max_attempts request p (leb left 0) attempt rest)
  unfolding after_reply
  after_reply-IsBounded transport_error left attempt rest is b = elim (Bool-cases (leb left 0)) [
    | inl last ↦ rw last (ends-IsBounded 0 attempt (suc left) _ (omega arith) tt)
    | inr more ↦ rw more (again-IsBounded 0 attempt left rest (b more))
  ]
  after_reply-IsBounded other_error left attempt rest is b =
      ends-IsBounded 0 attempt (suc left) _ (omega arith) is
  after_reply-IsBounded (response r) left attempt rest is b = elim (Bool-cases (is_success r)) [
    | inl fine ↦
        rw fine (ends-IsBounded _ attempt (suc left) _ (omega arith) (succeeded_well r attempt))
    | inr failed ↦ elim (Bool-cases (not (retryable r) || leb left 0)) [
      | inl over ↦
          rw (failed, over)
            (ends-IsBounded _ attempt (suc left) _ (omega arith) (stripe_well r attempt))
      | inr more ↦ rw (failed, more) (again-IsBounded _ attempt left rest (b (ground arith)))
    ]
  ]

  loop-IsBounded :
      (left attempt : ℕ)
      → IsBounded reply request attempt
          (suc left)
          (request_loop reply draw max_attempts request (suc left) attempt)
  unfolding request_loop
  loop-IsBounded zero attempt =
      after_reply-IsBounded (reply attempt) 0 attempt _ refl (λ more. absurd (ground arith))
  loop-IsBounded (suc left) attempt =
      after_reply-IsBounded (reply attempt) (suc left) attempt _ refl
        (λ more. loop-IsBounded left (attempt + 1))

-- Whatever httpx gives for each attempt, a call with max_retries sends at least one request and
-- at most max_retries + 1, all of them the same (method, path, headers with the idempotency key,
-- and body), sleeps once between two of them and each time less than 8 s, and ends with a
-- response's body, with a StripeError, or with an exception of httpx that is no TransportError,
-- and then its last attempt raised that; it never ends at the assertion after the loop. The
-- jitter drawn is below 1.
pub send-IsBounded :
    (reply : ℕ → Reply) (draw : ℕ → ℕ) (max_retries : ℕ) (request : HttpRequest)
    → ((n : ℕ) → draw n < 1000)
    → IsBounded reply request 0 (max_retries + 1) (send reply draw max_retries request)
unfolding send
send-IsBounded reply draw max_retries request drawn =
    let one : max_retries + 1 ≡ suc max_retries = omega arith in
    subst
      (λ (k : ℕ).
        IsBounded reply request 0 k (request_loop reply draw (max_retries + 1) request k 0))
      (sym one) (loop-IsBounded reply draw drawn (max_retries + 1) request max_retries 0)
