-- ===== src/Harness/Proxy/Live/Untouched.antt =====
-- What stripe_io/signature.py answers to the deliveries that `_live_plan` of harness/proxy.py sends,
-- at the time of the plan.
use ledger_proof.Base.{
  ℕ, zero, suc, String, Bool, true, false, Option, none, some, [], ◌∷◌, replicate, Every, Result,
  ok, ◌≡◌, refl, subst, ok_injective, >>=-inv,
}
use ledger_proof.Base.Int.{ℤ}
use ledger_proof.Base.Json.{Value, obj, Fields}
use ledger_proof.Stripe.Mapping.{Raised}
use ledger_proof.Stripe.Signature.{Text, default_tolerance, verify, sign}
use ledger_proof.Stripe.Signature.Headers.{IsHexdigest}
use ledger_proof.Stripe.Signature.RoundTrip.{sign-verifies}
use ledger_proof.Harness.Events.Serialize.{serialize}
use ledger_proof.Harness.Faults.{
  Fault, no_fault, duplicate, duplicate_object, concurrent_duplicate, reorder, delay, drop,
  respond_500, tamper_body, truncate_body, stale_timestamp, downgrade_scheme, partial_write,
  slow_loris,
}
use ledger_proof.Harness.Faults.Build.{with_id}
use ledger_proof.Harness.Faults.Honest.{recent_now}
use ledger_proof.Harness.Proxy.Live.{
  LivePlan, LiveParams, given, sent_id, dup_id, resigned, reissued, twice, live_plan,
}

-- The faults that spoil a request.
abbrev pub spoils : Fault → Bool
spoils tamper_body = true
spoils truncate_body = true
spoils stale_timestamp = true
spoils downgrade_scheme = true
spoils _ = false

Every-replicate : {A : Type 0} (P : A → Type 0) (n : ℕ) (x : A) → P x → Every P (replicate n x)
Every-replicate P zero x h = tt
Every-replicate P (suc n) x h = (h, Every-replicate P n x h)

-- What the deliveries of a plan are, once each is known.
planned :
    (P : Text × Text → Type 0) {r : LivePlan} {l : LivePlan}
    → Every P r.deliveries
    → ◌≡◌ {A = Result Raised LivePlan} (ok r) (ok l)
    → Every P l.deliveries
planned P each made = subst (λ (x : LivePlan). Every P x.deliveries) (ok_injective made) each

module _ (v1_digest : Text → Text → ℤ → Text)
    (hexdigest : (payload key : Text) (at : ℤ) → IsHexdigest (v1_digest payload key at))
    (loads : Text → Option Value) (secret : Text) where
  -- The endpoint takes a body and its header.
  abbrev pub Accepts : ℤ → Text × Text → Type 0
  Accepts now d = verify v1_digest d.0 secret default_tolerance now d.1 ≡ ok tt

  signed-accepted :
      (event : Fields) (now : ℤ)
      → Accepts now (serialize event, sign v1_digest (serialize event) secret now [] false none)
  unfolding serialize
  signed-accepted event now =
      sign-verifies v1_digest hexdigest (serialize event) secret now default_tolerance now refl []
        false refl (recent_now now)

  resigned-accepted :
      (parsed : Option Value) (id : String) (now : ℤ) {second : Text × Text}
      → resigned v1_digest loads secret id now parsed ≡ ok second
      → Accepts now second
  resigned-accepted none id now made = cc
  resigned-accepted (some (obj event)) id now made =
      subst (Accepts now) (ok_injective made) (signed-accepted (with_id id event) now)
  resigned-accepted (some v) id now made = cc

  reissued-accepted :
      (raw : Text) (id : String) (now : ℤ) {second : Text × Text}
      → reissued v1_digest loads raw secret id now ≡ ok second
      → Accepts now second
  unfolding reissued
  reissued-accepted raw id now made = resigned-accepted (loads raw) id now made

  twice-accepted :
      (p : LiveParams) (raw sig : Text) (kept : Option Text) {l : LivePlan}
      → kept ≡ some secret
      → Accepts p.now (raw, sig)
      → twice v1_digest loads p raw sig kept ≡ ok l
      → Every (Accepts p.now) l.deliveries
  twice-accepted p raw sig none keyed accepted made = cc
  twice-accepted p raw sig (some []) keyed accepted made =
      planned (Accepts p.now) (accepted, tt) made
  twice-accepted p raw sig (some (c ∷ cs)) keyed accepted made =
      let id = dup_id v1_digest loads (sent_id v1_digest loads raw) in
      let (second, again, same) = >>=-inv (reissued v1_digest loads raw (c ∷ cs) id p.now) _ made in
      let own : c ∷ cs ≡ secret = ok_some keyed in
      let signed =
        subst (λ (k : Text). reissued v1_digest loads raw k id p.now ≡ ok second) own again in
      planned (Accepts p.now) (accepted, (reissued-accepted raw id p.now signed, tt)) same
    where
      ok_some : {x y : Text} → some x ≡ some y → x ≡ y
      ok_some same = cc

  -- For a fault that is not one of tampering, truncation, a stale timestamp or a downgrade, and a
  -- request that verify accepts at the time of the plan under the secret that the proxy was given,
  -- every delivery that the live proxy forwards is accepted by verify as well, the twin under a
  -- new id that DUPLICATE_OBJECT signs included, provided digests are 64 hexadecimal digits.
  pub live_plan-accepted :
      (f : Fault) (p : LiveParams) (raw sig : Text) {l : LivePlan}
      → spoils f ≡ false
      → p.secret ≡ some secret
      → Accepts p.now (raw, sig)
      → live_plan v1_digest loads f p raw sig ≡ ok l
      → Every (Accepts p.now) l.deliveries
  unfolding live_plan
  live_plan-accepted no_fault p raw sig kept keyed accepted made =
      planned (Accepts p.now) (accepted, tt) made
  live_plan-accepted duplicate p raw sig kept keyed accepted made =
      planned (Accepts p.now) (Every-replicate (Accepts p.now) (given p.n 3) (raw, sig) accepted)
        made
  live_plan-accepted concurrent_duplicate p raw sig kept keyed accepted made =
      planned (Accepts p.now) (Every-replicate (Accepts p.now) (given p.n 8) (raw, sig) accepted)
        made
  live_plan-accepted duplicate_object p raw sig kept keyed accepted made =
      twice-accepted p raw sig p.secret keyed accepted made
  live_plan-accepted reorder p raw sig kept keyed accepted made =
      planned (Accepts p.now) (accepted, tt) made
  live_plan-accepted delay p raw sig kept keyed accepted made =
      planned (Accepts p.now) (accepted, tt) made
  live_plan-accepted drop p raw sig kept keyed accepted made = planned (Accepts p.now) tt made
  live_plan-accepted respond_500 p raw sig kept keyed accepted made =
      planned (Accepts p.now) (accepted, tt) made
  live_plan-accepted tamper_body p raw sig kept keyed accepted made = cc
  live_plan-accepted truncate_body p raw sig kept keyed accepted made = cc
  live_plan-accepted stale_timestamp p raw sig kept keyed accepted made = cc
  live_plan-accepted downgrade_scheme p raw sig kept keyed accepted made = cc
  live_plan-accepted slow_loris p raw sig kept keyed accepted made =
      planned (Accepts p.now) (accepted, tt) made
  live_plan-accepted partial_write p raw sig kept keyed accepted made =
      planned (Accepts p.now) (accepted, tt) made
