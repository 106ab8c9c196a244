-- ===== src/Stripe/Signature/Accepts.antt =====
-- Which headers stripe_io/signature.py accepts.
use ledger_proof.Base.{
  Bool, true, false, ◌||◌, none, some, List, [], ◌∷◌, ◌++◌, any, all, Result, ok, err, ◌>>=◌,
  if◌then◌else◌, ◌≡◌, ◌↔◌, refl, sym, ap, ◌∙◌, Bool-cases, Option-cases, inl, inr, ok_injective,
  &&-split, >>=-inv, append_assoc, append-nil,
}
use ledger_proof.Base.Int.{ℤ, pos, abs, ◌-ℤ◌, leb_ℤ, ltb_ℤ}
use ledger_proof.Base.Text.{int_of_text}
use ledger_proof.Stripe.Signature.{
  Text, Rejection, malformed_item, non_integer_timestamp, t_key, v1_key, text_eq, split, partition,
  is_empty, Scanned, scan_pair, scan_item, scan, judge, verify,
}

-- What an item of a header is.
pub data Item : Type 0 where
  stamp : ℤ → Item
  signature : Text → Item
  other_scheme : Item
  malformed : Rejection → Item

unfoldable pub pair_item : Text → Text → Item
pair_item key value =
    if is_empty key || is_empty value
    then malformed malformed_item
    else if text_eq key t_key
    then elim (int_of_text value) [ none ↦ malformed non_integer_timestamp | some ts ↦ stamp ts ]
    else if text_eq key v1_key
    then signature value
    else other_scheme

unfoldable pub item_of : Text → Item
item_of item = elim (partition item) [
  | none ↦ malformed malformed_item
  | some kv ↦ pair_item kv.0 kv.1
]

abbrev pub stamps_of : Item → List ℤ
stamps_of (stamp ts) = ts ∷ []
stamps_of _ = []

abbrev pub signatures_of : Item → List Text
signatures_of (signature s) = s ∷ []
signatures_of _ = []

abbrev pub is_item : Item → Bool
is_item (malformed r) = false
is_item _ = true

abbrev pub stamps : List Text → List ℤ
stamps [] = []
stamps (i ∷ is) = stamps_of (item_of i) ++ stamps is

abbrev pub signatures : List Text → List Text
signatures [] = []
signatures (i ∷ is) = signatures_of (item_of i) ++ signatures is

-- `scan_item`, by what the item is.
abbrev added : Item → Scanned → Result Rejection Scanned
added (malformed r) found = err r
added i found = ok (found.0 ++ stamps_of i, found.1 ++ signatures_of i)

both :
    (ts : List ℤ) (cs : List Text)
    → ◌≡◌ {A = Result Rejection Scanned} (ok (ts, cs)) (ok (ts ++ [], cs ++ []))
both ts cs = rw (append-nil ts, append-nil cs) refl

scan_pair_lem :
    (key value : Text) (found : Scanned)
    → scan_pair key value found ≡ added (pair_item key value) found
unfolding scan_pair pair_item
scan_pair_lem key value (ts, cs) = elim (Bool-cases (is_empty key || is_empty value)) [
  | inl void ↦ rw void refl
  | inr full ↦ elim (Bool-cases (text_eq key t_key)) [
    | inl time ↦ elim (Option-cases (int_of_text value)) [
      | inl bad ↦ rw (full, time, bad) refl
      | inr good ↦
          let (n, number) = good in
          rw (full, time, number)
            (ap (λ (x : List Text). ok (ts ++ n ∷ [], x)) (sym (append-nil cs)))
    ]
    | inr scheme ↦ elim (Bool-cases (text_eq key v1_key)) [
      | inl v1 ↦
          rw (full, scheme, v1)
            (ap (λ (x : List ℤ). ok (x, cs ++ value ∷ [])) (sym (append-nil ts)))
      | inr other ↦ rw (full, scheme, other) (both ts cs)
    ]
  ]
]

scan_item_lem : (item : Text) (found : Scanned) → scan_item item found ≡ added (item_of item) found
unfolding scan_item item_of
scan_item_lem item found = elim (Option-cases (partition item)) [
  | inl whole ↦ rw (whole, scan_item, item_of) refl
  | inr parts ↦ let (kv, is) = parts in rw (is, scan_item, item_of) (scan_pair_lem kv.0 kv.1 found)
]

added_ok :
    (i : Item) (found : Scanned)
    → is_item i ≡ true
    → added i found ≡ ok (found.0 ++ stamps_of i, found.1 ++ signatures_of i)
added_ok (malformed r) found fine = cc
added_ok (stamp ts) found fine = refl
added_ok (signature s) found fine = refl
added_ok other_scheme found fine = refl

added_is : (i : Item) (found : Scanned) {end : Scanned} → added i found ≡ ok end → is_item i ≡ true
added_is (malformed r) found ended = cc
added_is (stamp ts) found ended = refl
added_is (signature s) found ended = refl
added_is other_scheme found ended = refl

pub scan_lem :
    (items : List Text) (ts : List ℤ) (cs : List Text)
    → all (λ i. is_item (item_of i)) items ≡ true
    → scan items (ts, cs) ≡ ok (ts ++ stamps items, cs ++ signatures items)
unfolding scan
scan_lem [] ts cs fine = both ts cs
scan_lem (i ∷ is) ts cs fine =
    let (own, rest) = &&-split (is_item (item_of i)) (all (λ x. is_item (item_of x)) is) fine in
    let one = scan_item_lem i (ts, cs) ∙ added_ok (item_of i) (ts, cs) own in
    ap (λ (r : Result Rejection Scanned). r >>= scan is) one
    ∙ scan_lem is (ts ++ stamps_of (item_of i)) (cs ++ signatures_of (item_of i)) rest
    ∙ rw
        (
          append_assoc ts (stamps_of (item_of i)) (stamps is),
          append_assoc cs (signatures_of (item_of i)) (signatures is),
        )
        refl

scan_inv :
    (items : List Text) (found : Scanned) {end : Scanned}
    → scan items found ≡ ok end
    → all (λ i. is_item (item_of i)) items ≡ true
unfolding scan
scan_inv [] found ended = refl
scan_inv (i ∷ is) found ended =
    let (mid, one, rest) = >>=-inv (scan_item i found) (scan is) ended in
    let own = added_is (item_of i) found (sym (scan_item_lem i found) ∙ one) in
    rw own (scan_inv is mid rest)

module _ (v1_digest : Text → Text → ℤ → Text) (payload secret : Text) (tolerance now : ℤ) where
  -- The header carries one timestamp, a recent one, and a v1 signature that is the digest.
  pub record IsSigned (items : List Text) : Type 0 where
    pub tolerant : ltb_ℤ (pos 0) tolerance ≡ true
    pub bodied : is_empty payload ≡ false
    pub items_formed : all (λ i. is_item (item_of i)) items ≡ true
    pub timestamp : ℤ
    pub one_stamp : stamps items ≡ timestamp ∷ []
    pub recent : leb_ℤ (pos (abs (now -ℤ timestamp))) tolerance ≡ true
    pub matched : any (text_eq (v1_digest payload secret timestamp)) (signatures items) ≡ true

  judge_inv :
      (ts : List ℤ) (cs : List Text)
      → judge v1_digest payload secret tolerance now ts cs ≡ ok tt
      → (t : ℤ) × (ts ≡ t ∷ [])
        × (leb_ℤ (pos (abs (now -ℤ t))) tolerance ≡ true)
        × (any (text_eq (v1_digest payload secret t)) cs ≡ true)
  unfolding judge
  judge_inv [] cs passed = cc
  judge_inv (t ∷ []) [] passed = cc
  judge_inv (t ∷ []) (c ∷ cs) passed = elim (Bool-cases (leb_ℤ (pos (abs (now -ℤ t))) tolerance)) [
    | inl recent ↦ elim (Bool-cases (any (text_eq (v1_digest payload secret t)) (c ∷ cs))) [
      | inl matched ↦ (t, refl, recent, matched)
      | inr missed ↦ absurd (let it = rw (recent, missed) at passed in cc)
    ]
    | inr old ↦ absurd (let it = rw old at passed in cc)
  ]
  judge_inv (t ∷ u ∷ ts) cs passed = cc

  judge_passes :
      (t : ℤ) (cs : List Text)
      → leb_ℤ (pos (abs (now -ℤ t))) tolerance ≡ true
      → any (text_eq (v1_digest payload secret t)) cs ≡ true
      → judge v1_digest payload secret tolerance now (t ∷ []) cs ≡ ok tt
  unfolding judge
  judge_passes t [] recent matched = cc
  judge_passes t (c ∷ cs) recent matched = rw recent (rw matched refl)

  abbrev judged_scan : Scanned → Result Rejection (Unit {0})
  judged_scan found = judge v1_digest payload secret tolerance now found.0 found.1

  accepted_IsSigned :
      (sig_header : Text)
      → ltb_ℤ (pos 0) tolerance ≡ true
      → is_empty payload ≡ false
      → (scan (split sig_header) ([], []) >>= judged_scan) ≡ ok tt
      → IsSigned (split sig_header)
  accepted_IsSigned sig_header tolerant bodied passed =
      let (found, scanned, judged) =
        >>=-inv (scan (split sig_header) ([], [])) judged_scan passed in
      let formed = scan_inv (split sig_header) ([], []) scanned in
      let is = ok_injective (sym scanned ∙ scan_lem (split sig_header) [] [] formed) in
      let (t, one, recent, matched) =
        judge_inv (stamps (split sig_header)) (signatures (split sig_header))
          (sym (ap judged_scan is) ∙ judged) in
      record {
        tolerant = tolerant;
        bodied = bodied;
        items_formed = formed;
        timestamp = t;
        one_stamp = one;
        recent = recent;
        matched = matched;
      }

  signed_passes :
      (sig_header : Text)
      → IsSigned (split sig_header)
      → (scan (split sig_header) ([], []) >>= judged_scan) ≡ ok tt
  signed_passes sig_header s =
      ap (λ (r : Result Rejection Scanned). r >>= judged_scan)
        (scan_lem (split sig_header) [] [] s.items_formed)
      ∙ ap
          (λ (ts : List ℤ).
            judge v1_digest payload secret tolerance now ts (signatures (split sig_header)))
          s.one_stamp
      ∙ judge_passes s.timestamp (signatures (split sig_header)) s.recent s.matched

  -- A signature header is accepted if and only if the tolerance is positive, the body is not
  -- empty, every item of the header is well formed, exactly one of them is a timestamp, that is
  -- within the tolerance of now, and some v1 item is the digest of the body for that timestamp;
  -- items of other schemes count for nothing.
  pub verify-IsSigned :
      (sig_header : Text)
      → (verify v1_digest payload secret tolerance now sig_header ≡ ok tt)
        ↔ IsSigned (split sig_header)
  unfolding verify
  verify-IsSigned sig_header = (
    λ passed. elim (Bool-cases (ltb_ℤ (pos 0) tolerance)) [
      | inl tolerant ↦ elim (Bool-cases (is_empty payload)) [
        | inl bare ↦ absurd (let it = rw (tolerant, bare) at passed in cc)
        | inr bodied ↦
            accepted_IsSigned sig_header tolerant bodied (rw (tolerant, bodied) at passed)
      ]
      | inr wrong ↦ absurd (let it = rw wrong at passed in cc)
    ],
    λ s. rw (s.tolerant, s.bodied) (signed_passes sig_header s),
  )
