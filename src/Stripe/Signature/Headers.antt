-- ===== src/Stripe/Signature/Headers.antt =====
-- What `verify` of stripe_io/signature.py reads in the headers that its `sign` writes.
use ledger_proof.Base.{
  ℕ, Bool, true, false, ◌&&◌, ◌||◌, not, some, List, [], ◌∷◌, ◌++◌, all, map, length, ok, ◌==◌, leb,
  ◌≡◌, refl, ap, ◌∙◌, arith, &&-split,
}
use ledger_proof.Base.Int.{ℤ}
use ledger_proof.Base.Text.{int_of_text, int_text}
use ledger_proof.Base.Text.Decimal.{int_text-round_trip, is_sign_or_digit, int_text-chars}
use ledger_proof.Stripe.Signature.{
  Text, comma, equals, t_key, v1_key, v0_key, text_eq, split, partition, pair_text, join_items,
  scan,
}
use ledger_proof.Stripe.Signature.Accepts.{
  stamp, signature, other_scheme, pair_item, item_of, stamps, signatures, is_item, scan_lem,
}

-- No comma, which would end an item.
abbrev one_item : ℕ → Bool
one_item c = not (c == comma)

split-item : (cs : Text) → all one_item cs ≡ true → split cs ≡ cs ∷ []
unfolding split
split-item [] h = refl
split-item (c ∷ cs) h =
    let (own, rest) = &&-split (one_item c) (all one_item cs) h in
    let here : (c == comma) ≡ false = ground arith in rw (here, split-item cs rest) refl

split-before :
    (cs rest : Text) → all one_item cs ≡ true → split (cs ++ comma ∷ rest) ≡ cs ∷ split rest
unfolding split
split-before [] rest h = refl
split-before (c ∷ cs) rest h =
    let (own, later) = &&-split (one_item c) (all one_item cs) h in
    let here : (c == comma) ≡ false = ground arith in rw (here, split-before cs rest later) refl

pub split-join_items :
    (first : Text) (items : List Text)
    → all one_item first ≡ true
    → all (all one_item) items ≡ true
    → split (join_items first items) ≡ first ∷ items
unfolding join_items
split-join_items first [] h hs = split-item first h
split-join_items first (item ∷ items) h hs =
    let (own, rest) = &&-split (all one_item item) (all (all one_item) items) hs in
    split-before first (join_items item items) h
    ∙ ap (λ (l : List Text). first ∷ l) (split-join_items item items own rest)

partition-pair :
    (k v : Text)
    → all (λ c. not (c == equals)) k ≡ true
    → partition (pair_text (k, v)) ≡ some (k, v)
unfolding partition
partition-pair [] v h = refl
partition-pair (c ∷ k) v h =
    let (own, rest) = &&-split (not (c == equals)) (all (λ d. not (d == equals)) k) h in
    let here : (c == equals) ≡ false = ground arith in rw (here, partition-pair k v rest) refl

pub text_eq_refl : (t : Text) → text_eq t t ≡ true
unfolding text_eq
text_eq_refl [] = refl
text_eq_refl (c ∷ cs) =
    let here : (c == c) ≡ true = ground arith in rw (here, text_eq) (text_eq_refl cs)

-- `hexdigest` writes hexadecimal digits, 64 of them for SHA-256.
abbrev pub is_hex : ℕ → Bool
is_hex c = (leb b'0' c && leb c b'9') || (leb b'a' c && leb c b'f')

pub record IsHexdigest (t : Text) : Type 0 where
  pub all_hex : all is_hex t ≡ true
  pub size : length t ≡ 64

-- The schemes that `sign` writes, with their digests.
pub data Schemes : List (Text × Text) → Type 0 where
  no_more : Schemes []
  with_v1 :
      {d : Text} {rest : List (Text × Text)}
      → IsHexdigest d
      → Schemes rest
      → Schemes ((v1_key, d) ∷ rest)
  with_v0 :
      {d : Text} {rest : List (Text × Text)}
      → IsHexdigest d
      → Schemes rest
      → Schemes ((v0_key, d) ∷ rest)

all-imp :
    (p q : ℕ → Bool) (cs : Text)
    → ((c : ℕ) → p c ≡ true → q c ≡ true)
    → all p cs ≡ true
    → all q cs ≡ true
all-imp p q [] imp h = refl
all-imp p q (c ∷ cs) imp h =
    let (own, rest) = &&-split (p c) (all p cs) h in rw (imp c own, all-imp p q cs imp rest) refl

hex_one_item : (c : ℕ) → is_hex c ≡ true → one_item c ≡ true
hex_one_item c h = ground arith

sign_one_item : (c : ℕ) → is_sign_or_digit c ≡ true → one_item c ≡ true
sign_one_item c h = ground arith

pair_item-stamp :
    (value : Text) (n : ℤ) → int_of_text value ≡ some n → pair_item t_key value ≡ stamp n
unfolding pair_item int_of_text text_eq
pair_item-stamp [] n h = cc
pair_item-stamp (c ∷ cs) n h = rw h refl

pair_item-v1 : (d : Text) → IsHexdigest d → pair_item v1_key d ≡ signature d
unfolding pair_item text_eq
pair_item-v1 [] h = absurd (omega (arith, h.size))
pair_item-v1 (c ∷ cs) h = refl

pair_item-v0 : (d : Text) → IsHexdigest d → pair_item v0_key d ≡ other_scheme
unfolding pair_item text_eq
pair_item-v0 [] h = absurd (omega (arith, h.size))
pair_item-v0 (c ∷ cs) h = refl

item_of-pair :
    (k v : Text)
    → all (λ c. not (c == equals)) k ≡ true
    → item_of (pair_text (k, v)) ≡ pair_item k v
unfolding item_of
item_of-pair k v h = rw (partition-pair k v h, item_of) refl

-- What a header of such schemes scans to.
unfoldable pub v1_digests : {schemes : List (Text × Text)} → Schemes schemes → List Text
v1_digests no_more = []
v1_digests (with_v1 {d} h rest) = d ∷ v1_digests rest
v1_digests (with_v0 h rest) = v1_digests rest

item-v1 : (d : Text) → IsHexdigest d → item_of (pair_text (v1_key, d)) ≡ signature d
item-v1 d h = item_of-pair v1_key d refl ∙ pair_item-v1 d h

item-v0 : (d : Text) → IsHexdigest d → item_of (pair_text (v0_key, d)) ≡ other_scheme
item-v0 d h = item_of-pair v0_key d refl ∙ pair_item-v0 d h

Schemes-are_items :
    {schemes : List (Text × Text)} (s : Schemes schemes)
    → all (λ i. is_item (item_of i)) (map pair_text schemes) ≡ true
Schemes-are_items no_more = refl
Schemes-are_items (with_v1 {d} h rest) = rw (item-v1 d h) (Schemes-are_items rest)
Schemes-are_items (with_v0 {d} h rest) = rw (item-v0 d h) (Schemes-are_items rest)

Schemes-stamps :
    {schemes : List (Text × Text)} (s : Schemes schemes) → stamps (map pair_text schemes) ≡ []
Schemes-stamps no_more = refl
Schemes-stamps (with_v1 {d} h rest) = rw (item-v1 d h) (Schemes-stamps rest)
Schemes-stamps (with_v0 {d} h rest) = rw (item-v0 d h) (Schemes-stamps rest)

Schemes-signatures :
    {schemes : List (Text × Text)} (s : Schemes schemes)
    → signatures (map pair_text schemes) ≡ v1_digests s
unfolding v1_digests
Schemes-signatures no_more = refl
Schemes-signatures (with_v1 {d} h rest) =
    rw (item-v1 d h) (ap (λ (l : List Text). d ∷ l) (Schemes-signatures rest))
Schemes-signatures (with_v0 {d} h rest) = rw (item-v0 d h) (Schemes-signatures rest)

Schemes-split :
    {schemes : List (Text × Text)} (s : Schemes schemes)
    → all (all one_item) (map pair_text schemes) ≡ true
Schemes-split no_more = refl
Schemes-split (with_v1 {d} h rest) =
    rw (all-imp is_hex one_item d hex_one_item h.all_hex, Schemes-split rest) refl
Schemes-split (with_v0 {d} h rest) =
    rw (all-imp is_hex one_item d hex_one_item h.all_hex, Schemes-split rest) refl

-- The header of a timestamp and schemes scans to the timestamp and the v1 digests.
pub header-scanned :
    (ts : ℤ) {schemes : List (Text × Text)} (s : Schemes schemes)
    → scan (split (join_items (pair_text (t_key, int_text ts)) (map pair_text schemes))) ([], [])
      ≡ ok (ts ∷ [], v1_digests s)
header-scanned ts {schemes} s =
    let own =
      item_of-pair t_key (int_text ts) refl
      ∙ pair_item-stamp (int_text ts) ts (int_text-round_trip ts) in
    let items = pair_text (t_key, int_text ts) ∷ map pair_text schemes in
    let formed : all (λ i. is_item (item_of i)) items ≡ true = rw own (Schemes-are_items s) in
    let parted =
      split-join_items (pair_text (t_key, int_text ts)) (map pair_text schemes)
        (all-imp is_sign_or_digit one_item (int_text ts) sign_one_item (int_text-chars ts))
        (Schemes-split s) in
    ap (λ (l : List Text). scan l ([], [])) parted
    ∙ scan_lem items [] [] formed
    ∙ rw (own, Schemes-stamps s, Schemes-signatures s) refl
