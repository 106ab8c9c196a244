-- ===== src/Harness/Faults/Honest.antt =====
-- What stripe_io/signature.py answers to the deliveries that `plan` of harness/faults.py builds.
use ledger_proof.Base.{
  ℕ, zero, suc, ◌<◌, ◌≤◌, ◌/◌, Bool, true, false, Option, none, some, List, [], ◌∷◌, length, take,
  replicate, Every, Result, ok, err, ◌≡◌, ◌≢◌, refl, sym, ap, ◌∙◌, inl, inr, arith, Bool-cases, ◌⊎◌,
}
use mathlib.Core.List.{reverse_aux}
use ledger_proof.Base.Int.{ℤ, pos, abs, ◌-ℤ◌, leb_ℤ, int_laws}
use ledger_proof.Base.Text.{is_digit}
use ledger_proof.Stripe.Signature.{
  Text, text_eq, default_tolerance, is_empty, verify, sign, outside_tolerance, Rejection,
}
use ledger_proof.Stripe.Signature.Headers.{IsHexdigest, text_eq_refl}
use ledger_proof.Stripe.Signature.RoundTrip.{
  text_eq_sound, sign-verifies, stale-refused, forged-refused,
}
use ledger_proof.Harness.Events.{EventFixture}
use ledger_proof.Harness.Events.Serialize.{serialize}
use ledger_proof.Harness.Faults.{
  Fault, tamper_body, truncate_body, Delivery, keep_byte, flip_from, next_digit,
}
use ledger_proof.Harness.Faults.Build.{clean, clean_all}

pub serialize-some : (fx : EventFixture) → is_empty (serialize fx.event) ≡ false
unfolding serialize
serialize-some fx = refl

pub recent_now : (ts : ℤ) → leb_ℤ (pos (abs (ts -ℤ ts))) default_tolerance ≡ true
recent_now ts = let none_apart : ts -ℤ ts ≡ pos 0 = omega int_laws in rw none_apart refl

late :
    (ts age : ℤ)
    → leb_ℤ age default_tolerance ≡ false
    → leb_ℤ (pos (abs (ts -ℤ (ts -ℤ age)))) default_tolerance ≡ false
late ts age old = let back : ts -ℤ (ts -ℤ age) ≡ age = omega int_laws in rw back (ground arith)

-- A flipped body is another body.
next_digit-ne : (c : ℕ) → is_digit c ≡ true → next_digit c ≢ c
next_digit-ne c h same = omega (arith, same)

keep_byte-inv : (c : ℕ) (o : Option Text) (cs : Text) → keep_byte c o ≡ some (c ∷ cs) → o ≡ some cs
keep_byte-inv c none cs h = cc
keep_byte-inv c (some ds) cs h = cc

pub flip_from-ne : (skip : ℕ) (body : Text) → flip_from skip body ≢ some body
unfolding flip_from
flip_from-ne skip [] h = cc
flip_from-ne zero (c ∷ cs) h = elim (Bool-cases (is_digit c)) [
  | inl here ↦ let it = rw (here, flip_from) at h in next_digit-ne c here (cc)
  | inr past ↦
      flip_from-ne zero cs (keep_byte-inv c (flip_from zero cs) cs (rw (past, flip_from) at h))
]
flip_from-ne (suc skip) (c ∷ cs) h = flip_from-ne skip cs (keep_byte-inv c (flip_from skip cs) cs h)

length-take : (n : ℕ) (body : Text) → length (take n body) ≤ n
length-take zero body = omega arith
length-take (suc n) [] = omega arith
length-take (suc n) (c ∷ cs) = omega (arith, length-take n cs)

pub take-ne : (n : ℕ) (body : Text) → n < length body → take n body ≢ body
take-ne n body short same =
    let sizes : length (take n body) ≡ length body = ap (λ (l : Text). length l) same in
    omega (arith, length-take n body, sizes, short)

pub half_shorter : (body : Text) → is_empty body ≡ false → length body / 2 < length body
half_shorter [] full = cc
half_shorter (c ∷ cs) full = omega arith

-- The faults whose plan changes the body that was signed.
abbrev pub changes_body : Fault → Bool
changes_body tamper_body = true
changes_body truncate_body = true
changes_body _ = false

-- What a delivery's label promises of the answer.
abbrev pub Answered : Bool → Result Rejection (Unit {0}) → Type 0
Answered false answer = answer ≡ ok tt
Answered true answer = answer ≢ ok tt

pub refused :
    (r : Rejection) (answer : Result Rejection (Unit {0})) → answer ≡ err r → answer ≢ ok tt
refused r answer is passed = let it = sym is ∙ passed in cc

module _ (v1_digest : Text → Text → ℤ → Text)
    (hexdigest : (payload key : Text) (at : ℤ) → IsHexdigest (v1_digest payload key at))
    (secret : Text) (ts : ℤ) where
  -- The endpoint's check of a delivery at the time of the plan.
  abbrev pub answer_to : Delivery → Result Rejection (Unit {0})
  answer_to d = verify v1_digest d.body secret default_tolerance ts d.sig_header

  abbrev pub IsHonest : Delivery → Type 0
  IsHonest d = Answered d.expect_rejected (answer_to d)

  pub clean-IsHonest : (fx : EventFixture) → IsHonest (clean v1_digest secret fx ts)
  unfolding clean
  clean-IsHonest fx =
      sign-verifies v1_digest hexdigest (serialize fx.event) secret ts default_tolerance ts refl []
        false (serialize-some fx) (recent_now ts)

  pub clean_all-IsHonest :
      (fxs : List EventFixture) → Every IsHonest (clean_all v1_digest secret fxs ts)
  unfolding clean_all
  clean_all-IsHonest [] = tt
  clean_all-IsHonest (fx ∷ fxs) = (clean-IsHonest fx, clean_all-IsHonest fxs)

  pub replicate-IsHonest : (n : ℕ) (d : Delivery) → IsHonest d → Every IsHonest (replicate n d)
  replicate-IsHonest zero d h = tt
  replicate-IsHonest (suc n) d h = (h, replicate-IsHonest n d h)

  pub reverse-IsHonest :
      (ds done : List Delivery)
      → Every IsHonest ds
      → Every IsHonest done
      → Every IsHonest (reverse_aux ds done)
  reverse-IsHonest [] done h k = k
  reverse-IsHonest (d ∷ ds) done h k = reverse-IsHonest ds (d ∷ done) h.1 (h.0, k)

  -- A delivery that is signed too early is refused.
  pub stale_answer :
      (fx : EventFixture) (age : ℤ)
      → leb_ℤ age default_tolerance ≡ false
      → verify v1_digest
          (serialize fx.event)
          secret
          default_tolerance
          ts
          (sign v1_digest (serialize fx.event) secret (ts -ℤ age) [] false none)
        ≢ ok tt
  stale_answer fx age old = refused outside_tolerance _ (
      stale-refused v1_digest hexdigest (serialize fx.event) secret (ts -ℤ age) default_tolerance ts
        refl [] false (serialize-some fx) (late ts age old))

  -- A changed body that has the digest of the target's: a second preimage under the HMAC.
  pub record Forged (target : EventFixture) (fault : Fault) (d : Delivery) : Type 0 where
    pub is_changed : changes_body fault ≡ true
    pub other_body : d.body ≢ serialize target.event
    pub same_digest : v1_digest d.body secret ts ≡ v1_digest (serialize target.event) secret ts

  -- A label is true, but for a second preimage.
  abbrev pub IsLabelled : EventFixture → Fault → Delivery → Type 0
  IsLabelled target fault d = IsHonest d ⊎ Forged target fault d

  pub all-IsLabelled :
      (target : EventFixture) (fault : Fault) (ds : List Delivery)
      → Every IsHonest ds
      → Every (IsLabelled target fault) ds
  all-IsLabelled target fault [] h = tt
  all-IsLabelled target fault (d ∷ ds) h = (inl h.0, all-IsLabelled target fault ds h.1)

  -- Another body under the signature of the target's.
  pub other_answer :
      (target : EventFixture) (body : Text)
      → (verify v1_digest body secret default_tolerance ts
            (sign v1_digest (serialize target.event) secret ts [] false none)
          ≢ ok tt)
        ⊎ (v1_digest body secret ts ≡ v1_digest (serialize target.event) secret ts)
  other_answer target body =
      let own = v1_digest body secret ts in
      let theirs = v1_digest (serialize target.event) secret ts in
      elim (Bool-cases (text_eq own theirs)) [
        | inl same ↦ inr (text_eq_sound own theirs same)
        | inr differ ↦ inl (
            forged-refused v1_digest hexdigest (serialize target.event) secret ts default_tolerance
              ts refl body
              (λ same.
                let it : true ≡ false = sym (text_eq_refl own) ∙ ap (text_eq own) same ∙ differ in
                cc))
      ]
