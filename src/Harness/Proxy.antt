-- ===== src/Harness/Proxy.antt =====
-- harness/proxy.py: what the live proxy does with one delivery. The HMAC is a parameter; sending,
-- waiting and the log are not modelled. `math.ceil` of the float quotient is
-- the exact one, as for any body below 2 ^ 53 bytes.
pub mod Live
pub mod Pieces
pub mod Reorderer
mod Tests
use ledger_proof.Base.{
  ℕ, zero, suc, ◌+◌, ◌-◌, ◌/◌, ◌≤◌, max, Bool, true, false, ◌&&◌, ◌||◌, not, Option, none, some,
  List, [], ◌∷◌, ◌++◌, any, map, take, length, leb, ◌==◌, if◌then◌else◌,
}
use ledger_proof.Base.Int.{ℤ}
use ledger_proof.Base.Text.{is_digit, strip, int_text}
use ledger_proof.Stripe.Signature.{
  Text, t_key, v1_key, v0_key, text_eq, split, partition, join_items, pair_text, sign, is_empty,
}

-- `body[n:]`
abbrev pub skip : ℕ → Text → Text
skip zero cs = cs
skip (suc n) [] = []
skip (suc n) (c ∷ cs) = skip n cs

-- The slices of `size` bytes, on a round of fuel for each byte.
unfoldable pub slices : ℕ → ℕ → Text → List Text
slices zero size body = []
slices (suc fuel) size [] = []
slices (suc fuel) size (c ∷ cs) = take size (c ∷ cs) ∷ slices fuel size (skip size (c ∷ cs))

-- `max(1, math.ceil(len(body) / max(1, chunks)))`
abbrev pub chunk_size : Text → ℕ → ℕ
chunk_size body chunks = max 1 ((length body + (max 1 chunks - 1)) / max 1 chunks)

-- `_split`
unfoldable pub split_body : Text → ℕ → List Text
split_body [] chunks = [] ∷ []
split_body (c ∷ cs) chunks = slices (length (c ∷ cs)) (chunk_size (c ∷ cs) chunks) (c ∷ cs)

-- `chr(b).isalnum()` of a byte: ASCII letters and digits, and those of Latin-1.
abbrev pub is_alnum : ℕ → Bool
is_alnum c =
    is_digit c
    || (leb b'A' c && leb c b'Z')
    || (leb b'a' c && leb c b'z')
    || c == 170
    || c == 178
    || c == 179
    || c == 181
    || c == 185
    || c == 186
    || (leb 188 c && leb c 190)
    || (leb 192 c && leb c 214)
    || (leb 216 c && leb c 246)
    || (leb 248 c && leb c 255)

abbrev pub other_byte : ℕ → ℕ
other_byte c = if c == b'0' then b'1' else b'0'

abbrev keep_byte : ℕ → Option Text → Option Text
keep_byte c none = none
keep_byte c (some cs) = some (c ∷ cs)

-- The first alphanumeric byte is replaced.
unfoldable pub flip_first : Text → Option Text
flip_first [] = none
flip_first (c ∷ cs) =
    let rest = flip_first cs in if is_alnum c then some (other_byte c ∷ cs) else keep_byte c rest

abbrev pub behind : Text → Option Text → Option Text
behind front none = none
behind front (some cs) = some (front ++ cs)

abbrev pub before : Text → Option Text → Option Text
before rear none = none
before rear (some cs) = some (cs ++ rear)

abbrev pub first_of : Option Text → Option Text → Text → Text
first_of (some body) _ last = body
first_of none (some body) last = body
first_of none none last = last

-- `_flip_byte`: from the middle on, then from the start; or a byte more.
unfoldable pub flip_byte : Text → Text
flip_byte [] = b'x' ∷ []
flip_byte (c ∷ cs) =
    let half = length (c ∷ cs) / 2 in
    let front = take half (c ∷ cs) in
    let rear = skip half (c ∷ cs) in
    first_of (behind front (flip_first rear)) (before rear (flip_first front))
      ((c ∷ cs) ++ b' ' ∷ [])

-- `_parse_sig`: the pairs of a header; an item without "=" is left out.
abbrev stripped : Option (Text × Text) → List (Text × Text) → List (Text × Text)
stripped none rest = rest
stripped (some (key, value)) rest = (strip key, value) ∷ rest

unfoldable pub parse_items : List Text → List (Text × Text)
parse_items [] = []
parse_items (item ∷ items) = stripped (partition item) (parse_items items)

unfoldable pub parse_sig : Text → List (Text × Text)
parse_sig header = parse_items (split header)

-- The items under one key, with a new label.
unfoldable pub relabelled : Text → Text → List (Text × Text) → List Text
relabelled old new [] = []
relabelled old new ((k, v) ∷ items) =
    let rest = relabelled old new items in if text_eq k old then pair_text (new, v) ∷ rest else rest

abbrev pub has_key : Text → List (Text × Text) → Bool
has_key key items = any (λ kv. text_eq kv.0 key) items

-- `",".join(items)`
abbrev pub joined_items : List Text → Text
joined_items [] = []
joined_items (item ∷ items) = join_items item items

-- `_downgraded`: the header, and whether the fault was applied.
unfoldable pub downgraded : Text → Text × Bool
downgraded header =
    let items = parse_sig header in
    if not (has_key v1_key items)
    then (header, false)
    else (joined_items (relabelled t_key t_key items ++ relabelled v1_key v0_key items), true)

-- Every `t` item carries the stale time.
unfoldable pub restamped : ℤ → List (Text × Text) → List Text
restamped stale [] = []
restamped stale ((k, v) ∷ items) =
    (if text_eq k t_key then pair_text (t_key, int_text stale) else pair_text (k, v))
    ∷ restamped stale items

abbrev pub restamp : Text → ℤ → Text × Bool
restamp header stale =
    if not (has_key t_key (parse_sig header))
    then (header, false)
    else (joined_items (restamped stale (parse_sig header)), true)

-- `_backdated`, to the time `stale`; an empty secret is none.
unfoldable pub backdated : (Text → Text → ℤ → Text) → Text → Text → ℤ → Option Text → Text × Bool
backdated v1_digest header body stale none = restamp header stale
backdated v1_digest header body stale (some []) = restamp header stale
backdated v1_digest header body stale (some (c ∷ cs)) =
    (sign v1_digest body (c ∷ cs) stale [] false none, true)
