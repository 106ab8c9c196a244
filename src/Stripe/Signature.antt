-- ===== src/Stripe/Signature.antt =====
-- ledgerproof/stripe_io/signature.py: `sign` and `verify`. A text is the list of its codes, and `_v1_digest`, which
-- calls hmac, is a parameter.
pub mod Accepts
pub mod Headers
pub mod RoundTrip
mod Tests
use ledger_proof.Base.{
  ℕ, ◌+◌, ◌≤◌, Bool, true, false, ◌||◌, not, Option, none, some, List, [], ◌∷◌, ◌++◌, any, keep,
  map, length, Result, ok, err, ◌>>=◌, ltb, leb, ◌==◌, if◌then◌else◌,
}
use ledger_proof.Base.Int.{ℤ, pos, abs, ◌-ℤ◌, leb_ℤ, ltb_ℤ}
use ledger_proof.Base.Text.{int_of_text, int_text}

abbrev pub Text : Type 0
Text = List ℕ

abbrev pub default_tolerance : ℤ
default_tolerance = pos 300

-- The failed checks; `bad_tolerance` is the ValueError of a programming error.
pub data Rejection : Type 0 where
  bad_tolerance empty_body malformed_item non_integer_timestamp : Rejection
  not_one_timestamp no_v1 outside_tolerance no_match : Rejection

abbrev pub comma : ℕ
comma = 44

abbrev pub equals : ℕ
equals = 61

-- "t" and "v1"
abbrev pub t_key : Text
t_key = 116 ∷ []

abbrev pub v1_key : Text
v1_key = 118 ∷ 49 ∷ []

unfoldable pub text_eq : Text → Text → Bool
text_eq [] [] = true
text_eq [] (d ∷ ds) = false
text_eq (c ∷ cs) [] = false
text_eq (c ∷ cs) (d ∷ ds) = elim (c == d) [ true ↦ text_eq cs ds | false ↦ false ]

abbrev before_first : ℕ → List Text → List Text
before_first c [] = (c ∷ []) ∷ []
before_first c (piece ∷ pieces) = (c ∷ piece) ∷ pieces

-- `sig_header.split(",")`
unfoldable pub split : Text → List Text
split [] = [] ∷ []
split (c ∷ cs) = let rest = split cs in if c == comma then [] ∷ rest else before_first c rest

abbrev key_after : ℕ → Option (Text × Text) → Option (Text × Text)
key_after c none = none
key_after c (some (key, value)) = some (c ∷ key, value)

-- `item.partition("=")`; without a separator, `none`.
unfoldable pub partition : Text → Option (Text × Text)
partition [] = none
partition (c ∷ cs) =
    let rest = partition cs in if c == equals then some ([], cs) else key_after c rest

abbrev pub is_empty : Text → Bool
is_empty [] = true
is_empty (c ∷ cs) = false

-- The timestamps and the v1 candidates of a header.
abbrev pub Scanned : Type 0
Scanned = List ℤ × List Text

-- One item's key and value.
unfoldable pub scan_pair : Text → Text → Scanned → Result Rejection Scanned
scan_pair key value found =
    if is_empty key || is_empty value
    then err malformed_item
    else if text_eq key t_key
    then elim (int_of_text value) [
      | none ↦ err non_integer_timestamp
      | some ts ↦ ok (found.0 ++ ts ∷ [], found.1)
    ]
    else if text_eq key v1_key
    then ok (found.0, found.1 ++ value ∷ [])
    else ok found

-- One turn of the loop over the items.
unfoldable pub scan_item : Text → Scanned → Result Rejection Scanned
scan_item item found = elim (partition item) [
  | none ↦ err malformed_item
  | some kv ↦ scan_pair kv.0 kv.1 found
]

unfoldable pub scan : List Text → Scanned → Result Rejection Scanned
scan [] found = ok found
scan (item ∷ items) found = do more ← scan_item item found; scan items more

-- The checks of one timestamp and the candidates.
module _ (v1_digest : Text → Text → ℤ → Text) (payload secret : Text) (tolerance now : ℤ) where
  unfoldable pub judge : List ℤ → List Text → Result Rejection (Unit {0})
  judge (ts ∷ []) [] = err no_v1
  judge (ts ∷ []) (c ∷ cs) =
      if not (leb_ℤ (pos (abs (now -ℤ ts))) tolerance)
      then err outside_tolerance
      else if any (text_eq (v1_digest payload secret ts)) (c ∷ cs)
      then ok tt
      else err no_match
  judge _ candidates = err not_one_timestamp

  unfoldable pub verify : Text → Result Rejection (Unit {0})
  verify sig_header =
      if not (ltb_ℤ (pos 0) tolerance)
      then err bad_tolerance
      else if is_empty payload
      then err empty_body
      else do
        (timestamps, candidates) ← scan (split sig_header) ([], [])
        judge timestamps candidates

abbrev pub v0_key : Text
v0_key = 118 ∷ 48 ∷ []

-- f"{k}={v}"
abbrev pub pair_text : Text × Text → Text
pair_text (k, v) = k ++ equals ∷ v

-- `",".join([first, *items])`
unfoldable pub join_items : Text → List Text → Text
join_items first [] = first
join_items first (item ∷ items) = first ++ comma ∷ join_items item items

-- `only_schemes is not None and "v0" in only_schemes`, and the filter by it.
abbrev pub names_v0 : Option (List Text) → Bool
names_v0 none = false
names_v0 (some allowed) = any (text_eq v0_key) allowed

abbrev pub chosen : Option (List Text) → List (Text × Text) → List (Text × Text)
chosen none schemes = schemes
chosen (some allowed) schemes = keep (λ kv. any (text_eq kv.0) allowed) schemes

-- `sign`, whose timestamp is given
module _ (v1_digest : Text → Text → ℤ → Text) (payload secret : Text) (ts : ℤ) where
  unfoldable pub schemes_for : List Text → Bool → List (Text × Text)
  schemes_for extra_v1_secrets wants_v0 =
      map (λ (s : Text). (v1_key, v1_digest payload s ts)) (secret ∷ extra_v1_secrets)
      ++ (if wants_v0 then (v0_key, v1_digest payload secret ts) ∷ [] else [])

  unfoldable pub sign : List Text → Bool → Option (List Text) → Text
  sign extra_v1_secrets include_v0 only_schemes =
      let schemes = schemes_for extra_v1_secrets (include_v0 || names_v0 only_schemes) in
      join_items (pair_text (t_key, int_text ts)) (map pair_text (chosen only_schemes schemes))
