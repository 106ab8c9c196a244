-- ===== src/Stripe/Signature/Tests.antt =====
-- The round trip of stripe_io/signature.py at a concrete body and digest.
use ledger_proof.Base.{true, none, some, [], ◌∷◌, ◌≡◌, refl, ok, err, replicate}
use ledger_proof.Base.Int.{ℤ, pos, ◌-ℤ◌}
use ledger_proof.Stripe.Signature.{Text, sign, verify, v0_key, default_tolerance, no_v1}
use ledger_proof.Stripe.Signature.Headers.{IsHexdigest}
use ledger_proof.Stripe.Signature.RoundTrip.{sign-verifies, downgrade-refused}

abbrev digest : Text → Text → ℤ → Text
digest payload secret ts = replicate 64 b'f'

digest-hex : (payload secret : Text) (ts : ℤ) → IsHexdigest (digest payload secret ts)
digest-hex payload secret ts = record { all_hex = refl; size = refl }

abbrev body : Text
body = b'{' ∷ b'}' ∷ []

abbrev key : Text
key = b'k' ∷ []

sign-verifies_example :
    verify digest body key default_tolerance
      (pos 1700000200)
      (sign digest body key (pos 1700000000) (key ∷ []) true none)
    ≡ ok tt
unfolding ◌-ℤ◌
sign-verifies_example =
    sign-verifies digest digest-hex body key (pos 1700000000) default_tolerance (pos 1700000200)
      refl (key ∷ []) true refl refl

downgrade-refused_example :
    verify digest body key default_tolerance
      (pos 1700000200)
      (sign digest body key (pos 1700000000) [] true (some (v0_key ∷ [])))
    ≡ err no_v1
downgrade-refused_example =
    downgrade-refused digest digest-hex body key (pos 1700000000) default_tolerance (pos 1700000200)
      refl [] true refl
