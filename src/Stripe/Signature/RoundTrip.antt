-- ===== src/Stripe/Signature/RoundTrip.antt =====
-- What stripe_io/signature.py accepts of the headers that its own `sign` writes. That a digest is a
-- text of 64 hexadecimal digits is what `hexdigest` documents.
use ledger_proof.Base.{
  Bool, true, false, ◌||◌, none, some, List, [], ◌∷◌, ◌++◌, map, ok, err, if◌then◌else◌, Bool-cases,
  inl, inr, arith, ◌==◌, ◌≢◌, ◌≡◌, refl, sym, ap, ◌∙◌,
}
use ledger_proof.Base.Int.{ℤ, pos, abs, ◌-ℤ◌, leb_ℤ, ltb_ℤ}
use ledger_proof.Base.Text.{int_text}
use ledger_proof.Stripe.Signature.{
  Text, t_key, join_items, v1_key, v0_key, text_eq, split, is_empty, pair_text, scan, judge, chosen,
  schemes_for, sign, verify, outside_tolerance, no_v1, empty_body, Scanned,
}
use ledger_proof.Stripe.Signature.Headers.{
  IsHexdigest, Schemes, no_more, with_v1, with_v0, v1_digests, header-scanned, text_eq_refl,
}

pub text_eq_sound : (s t : Text) → text_eq s t ≡ true → s ≡ t
unfolding text_eq
text_eq_sound [] [] h = refl
text_eq_sound [] (d ∷ ds) h = cc
text_eq_sound (c ∷ cs) [] h = cc
text_eq_sound (c ∷ cs) (d ∷ ds) h = elim (Bool-cases (c == d)) [
  | inl same ↦
      let first : c ≡ d = ground (arith, same) in
      rw (first, text_eq_sound cs ds (rw (same, text_eq) at h)) refl
  | inr other ↦ absurd (let it = rw (other, text_eq) at h in cc)
]

-- What `verify` makes of a header whose scan is known.
verify-scanned :
    (v1_digest : Text → Text → ℤ → Text) (body secret : Text) (tolerance now : ℤ) (header : Text)
    {found : Scanned}
    → ltb_ℤ (pos 0) tolerance ≡ true
    → is_empty body ≡ false
    → scan (split header) ([], []) ≡ ok found
    → verify v1_digest body secret tolerance now header
      ≡ judge v1_digest body secret tolerance now found.0 found.1
unfolding verify
verify-scanned v1_digest body secret tolerance now header tolerant bodied scanned =
    rw (tolerant, bodied) (rw scanned refl)

verify-empty :
    (v1_digest : Text → Text → ℤ → Text) (body secret : Text) (tolerance now : ℤ) (header : Text)
    → ltb_ℤ (pos 0) tolerance ≡ true
    → is_empty body ≡ true
    → verify v1_digest body secret tolerance now header ≡ err empty_body
unfolding verify
verify-empty v1_digest body secret tolerance now header tolerant bare = rw (tolerant, bare) refl

judge-unmatched :
    (v1_digest : Text → Text → ℤ → Text) (body secret d : Text) (tolerance now ts : ℤ)
    → v1_digest body secret ts ≢ d
    → judge v1_digest body secret tolerance now (ts ∷ []) (d ∷ []) ≢ ok tt
unfolding judge
judge-unmatched v1_digest body secret d tolerance now ts apart passed =
    elim (Bool-cases (text_eq (v1_digest body secret ts) d)) [
      | inl same ↦ apart (text_eq_sound (v1_digest body secret ts) d same)
      | inr other ↦ elim (Bool-cases (leb_ℤ (pos (abs (now -ℤ ts))) tolerance)) [
        | inl recent ↦ let it = rw (recent, other, judge) at passed in cc
        | inr old ↦ let it = rw (old, judge) at passed in cc
      ]
    ]

module _ (v1_digest : Text → Text → ℤ → Text)
    (hexdigest : (payload secret : Text) (ts : ℤ) → IsHexdigest (v1_digest payload secret ts))
    (payload secret : Text) (ts : ℤ) where
  v1_schemes :
      (secrets : List Text) (wants_v0 : Bool)
      → Schemes (
          map (λ (s : Text). (v1_key, v1_digest payload s ts)) secrets
          ++ (if wants_v0 then (v0_key, v1_digest payload secret ts) ∷ [] else []))
  v1_schemes [] true = with_v0 (hexdigest payload secret ts) no_more
  v1_schemes [] false = no_more
  v1_schemes (s ∷ secrets) wants_v0 = with_v1 (hexdigest payload s ts) (v1_schemes secrets wants_v0)

  v0_only :
      (secrets : List Text)
      → chosen (some (v0_key ∷ [])) (
          map (λ (s : Text). (v1_key, v1_digest payload s ts)) secrets
          ++ (v0_key, v1_digest payload secret ts) ∷ [])
        ≡ (v0_key, v1_digest payload secret ts) ∷ []
  unfolding text_eq
  v0_only [] = refl
  v0_only (s ∷ secrets) = v0_only secrets

  -- The one scheme that a v0-only header carries.
  sign-v0 :
      (extra : List Text) (include_v0 : Bool)
      → sign v1_digest payload secret ts extra include_v0 (some (v0_key ∷ []))
        ≡ join_items
            (pair_text (t_key, int_text ts))
            (map pair_text ((v0_key, v1_digest payload secret ts) ∷ []))
  unfolding sign schemes_for text_eq
  sign-v0 extra true =
      ap (λ (l : List (Text × Text)). join_items (pair_text (t_key, int_text ts)) (map pair_text l))
        (v0_only (secret ∷ extra))
  sign-v0 extra false =
      ap (λ (l : List (Text × Text)). join_items (pair_text (t_key, int_text ts)) (map pair_text l))
        (v0_only (secret ∷ extra))

  module _ (tolerance now : ℤ) (tolerant : ltb_ℤ (pos 0) tolerance ≡ true) where
    -- A header that sign writes is accepted by verify for the same body and secret within the
    -- tolerance, whatever further v1 secrets and v0 signature it carries, provided digests are 64
    -- hexadecimal digits, the body is not empty and the tolerance is positive.
    pub sign-verifies :
        (extra : List Text) (include_v0 : Bool)
        → is_empty payload ≡ false
        → leb_ℤ (pos (abs (now -ℤ ts))) tolerance ≡ true
        → verify v1_digest payload secret tolerance now
            (sign v1_digest payload secret ts extra include_v0 none)
          ≡ ok tt
    unfolding sign schemes_for v1_digests judge v1_schemes
    sign-verifies extra include_v0 bodied recent =
        verify-scanned v1_digest payload secret tolerance now _ tolerant bodied
          (header-scanned ts (v1_schemes (secret ∷ extra) (include_v0 || false)))
        ∙ rw recent (rw (text_eq_refl (v1_digest payload secret ts)) refl)

    -- An old header is refused for its age.
    pub stale-refused :
        (extra : List Text) (include_v0 : Bool)
        → is_empty payload ≡ false
        → leb_ℤ (pos (abs (now -ℤ ts))) tolerance ≡ false
        → verify v1_digest payload secret tolerance now
            (sign v1_digest payload secret ts extra include_v0 none)
          ≡ err outside_tolerance
    unfolding sign schemes_for v1_digests judge v1_schemes
    stale-refused extra include_v0 bodied old =
        verify-scanned v1_digest payload secret tolerance now _ tolerant bodied
          (header-scanned ts (v1_schemes (secret ∷ extra) (include_v0 || false)))
        ∙ rw old refl

    -- A header that sign writes with the v0 scheme alone is refused for want of a v1 signature,
    -- though its digest is correct, provided digests are 64 hexadecimal digits, the body is not
    -- empty and the tolerance is positive.
    pub downgrade-refused :
        (extra : List Text) (include_v0 : Bool)
        → is_empty payload ≡ false
        → verify v1_digest payload secret tolerance now
            (sign v1_digest payload secret ts extra include_v0 (some (v0_key ∷ [])))
          ≡ err no_v1
    unfolding v1_digests judge
    downgrade-refused extra include_v0 bodied =
        ap (verify v1_digest payload secret tolerance now) (sign-v0 extra include_v0)
        ∙ verify-scanned v1_digest payload secret tolerance now _ tolerant bodied
            (header-scanned ts (with_v0 (hexdigest payload secret ts) no_more))

    -- A header does not carry over to a body of another digest.
    pub forged-refused :
        (body : Text)
        → v1_digest body secret ts ≢ v1_digest payload secret ts
        → verify v1_digest body secret tolerance now
            (sign v1_digest payload secret ts [] false none)
          ≢ ok tt
    unfolding sign schemes_for v1_digests v1_schemes
    forged-refused body apart passed = elim (Bool-cases (is_empty body)) [
      | inl bare ↦
          let it =
            sym (verify-empty v1_digest body secret tolerance now _ tolerant bare) ∙ passed in
          cc
      | inr bodied ↦
          judge-unmatched v1_digest body secret (v1_digest payload secret ts) tolerance now ts apart
            (sym (
                verify-scanned v1_digest body secret tolerance now _ tolerant bodied
                  (header-scanned ts (v1_schemes (secret ∷ []) false)))
              ∙ passed)
    ]
