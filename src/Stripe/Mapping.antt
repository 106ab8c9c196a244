-- ===== src/Stripe/Mapping.antt =====
-- ledgerproof/stripe_io/mapping.py: Stripe events to balanced ledger transactions. `uuid.uuid5` over
-- NAMESPACE_URL is a parameter, since nothing but its being a function is used. An amount that is no
-- integer raises TypeError here; the code builds the entry, and the database refuses it.
pub mod Balance
pub mod Posting
use ledger_proof.Base.{
  ℕ, String, Bool, true, false, ◌&&◌, ◌||◌, not, Option, none, some, List, [], ◌∷◌, ◌++◌, str_eq,
  any, find_first, if◌then◌else◌, Result, ok, err, ◌>>=◌,
}
use ledger_proof.Base.Int.{ℤ, pos, ◌+ℤ◌, ◌-ℤ◌, ◌==ℤ◌}
use ledger_proof.Base.Text.{codes, upper, int_of_text}
use ledger_proof.Base.Json.{
  Value, null, bool, num, str, arr, obj, Items, nil, cons, Fields, end, field, get, as_obj, as_str,
  truthy,
}
use ledger_proof.Ledger.Schema.{Direction, debit, credit}
use ledger_proof.Ledger.Post.{Entry, LedgerTransaction}

-- The exceptions that mapping an event can raise; `missing_fee` is MissingFeeData with its id.
pub data Raised : Type 0 where
  key_error : String → Raised
  type_error attribute_error value_error : Raised
  missing_fee : Option String → Raised

-- `v[k]`
unfoldable pub subscript : Value → String → Result Raised Value
unfolding get
subscript (obj fs) k = elim (get fs k) [ none ↦ err (key_error k) | some v ↦ ok v ]
subscript _ k = err type_error

-- `v.get(k)`
unfoldable pub get_attr : Value → String → Result Raised (Option Value)
unfolding get
get_attr (obj fs) k = ok (get fs k)
get_attr _ k = err attribute_error

-- `int(v)`
unfoldable pub to_int : Value → Result Raised ℤ
unfolding int_of_text
to_int (num n) = ok n
to_int (bool b) = ok (if b then pos 1 else pos 0)
to_int (str s) = elim (int_of_text (codes s)) [ none ↦ err value_error | some n ↦ ok n ]
to_int _ = err type_error

-- A number in arithmetic.
abbrev pub as_number : Value → Result Raised ℤ
as_number (num n) = ok n
as_number (bool b) = ok (if b then pos 1 else pos 0)
as_number _ = err type_error

-- `_newest_refund`
unfoldable pub newest_refund : Fields → Option Fields
unfolding get
newest_refund o = elim (get o "refunds") [
  | some (obj refunds) ↦ elim (get refunds "data") [
    | some (arr (cons (obj refund) rest)) ↦ some refund
    | _ ↦ none
  ]
  | _ ↦ none
]

abbrev str_field : Fields → String → Option String
str_field fs k = elim (get fs k) [ some (str s) ↦ some s | _ ↦ none ]

abbrev pub is_text : Option Value → String → Bool
is_text (some (str s)) k = str_eq s k
is_text _ k = false

-- The id of the object that moved money, once `data_obj` is known to be a dict.
unfoldable pub object_id : Fields → Fields → Option String
unfolding newest_refund get
object_id event data_obj =
    let own = str_field data_obj "id" in
    if is_text (get event "type") "charge.refunded"
    then (elim (newest_refund data_obj) [
      | none ↦ own
      | some refund ↦ elim (str_field refund "id") [ none ↦ own | some rid ↦ some rid ]
    ])
    else own

-- `event.get("data", {})`
abbrev pub data_of : Fields → Value
data_of event = elim (get event "data") [ none ↦ obj end | some d ↦ d ]

unfoldable pub money_movement_object_id : Fields → Result Raised (Option String)
unfolding object_id get_attr get
money_movement_object_id event = do
  data_obj ← get_attr (data_of event) "object"
  elim data_obj [ some (obj fs) ↦ ok (object_id event fs) | _ ↦ ok none ]

-- `obj.get("balance_transaction")`, or that of the expanded `latest_charge`; None is `null`.
unfoldable pub charge_bt : Fields → Value
unfolding get
charge_bt o =
    let latest : Value = elim (get o "latest_charge") [
      | some (obj c) ↦ elim (get c "balance_transaction") [ none ↦ null | some v ↦ v ]
      | _ ↦ null
    ] in
    elim (get o "balance_transaction") [ none ↦ latest | some null ↦ latest | some v ↦ v ]

-- `fee_minor` if it is given, or MissingFeeData.
abbrev given_fee : Option ℤ → Option String → Result Raised ℤ
given_fee (some fee) _ = ok fee
given_fee none id = err (missing_fee id)

unfoldable pub charge_fee : Fields → Option ℤ → Result Raised ℤ
unfolding charge_bt subscript to_int
charge_fee o fee_minor = elim (charge_bt o) [
  | obj bt ↦ do to_int (← subscript (obj bt) "fee")
  | v ↦ given_fee fee_minor (as_str v)
]

abbrev chars : String → List Value
chars String.[] = []
chars (String.◌∷◌ c s) = str (String.◌∷◌ c "") ∷ chars s

abbrev items : Items → List Value
items nil = []
items (cons x xs) = x ∷ items xs

abbrev keys : Fields → List Value
keys end = []
keys (field k v fs) = str k ∷ keys fs

-- What `for x in v` runs over.
abbrev pub iterate : Value → Result Raised (List Value)
iterate (arr xs) = ok (items xs)
iterate (obj fs) = ok (keys fs)
iterate (str s) = ok (chars s)
iterate _ = err type_error

abbrev is_obj : Value → Bool
is_obj (obj fs) = true
is_obj _ = false

abbrev is_str : Value → Bool
is_str (str s) = true
is_str _ = false

-- `sum(int(bt["fee"]) for bt in bts)`
unfoldable pub sum_fees : List Value → Result Raised ℤ
unfolding subscript to_int
sum_fees [] = ok (pos 0)
sum_fees (bt ∷ bts) = do fee ← to_int (← subscript bt "fee"); rest ← sum_fees bts; ok (fee +ℤ rest)

abbrev all_objects : List Value → Bool
all_objects [] = true
all_objects (x ∷ xs) = is_obj x && all_objects xs

-- The first id among the unexpanded balance transactions.
abbrev first_id : List Value → Option String
first_id bts = elim (find_first is_str bts) [ some v ↦ as_str v | none ↦ none ]

dispute_fee_of : List Value → Option ℤ → Result Raised ℤ
unfolding sum_fees
dispute_fee_of [] fee_minor = given_fee fee_minor none
dispute_fee_of (x ∷ xs) fee_minor =
    let expanded = sum_fees (x ∷ xs) in
    if all_objects (x ∷ xs) then expanded else given_fee fee_minor (first_id (x ∷ xs))

unfoldable pub dispute_fee : Fields → Option ℤ → Result Raised ℤ
unfolding dispute_fee_of get
dispute_fee o fee_minor = elim (get o "balance_transactions") [
  | none ↦ given_fee fee_minor none
  | some v ↦ elim (truthy v) [
    | false ↦ given_fee fee_minor none
    | true ↦ do bts ← iterate v; dispute_fee_of bts fee_minor
  ]
]

-- The closure `add`: a zero amount makes no entry.
unfoldable pub add : String → String → Direction → ℤ → List Entry → List Entry
add currency name d amount entries =
    if amount ==ℤ pos 0
    then entries
    else record { account_name = name; dir = d; amount_minor = amount; currency = currency }
      ∷ entries

unfoldable pub charge_entries : String → ℤ → ℤ → List Entry
charge_entries cur gross fee =
    add cur "stripe_balance" debit (gross -ℤ fee)
      (add cur "processing_fees" debit fee (add cur "revenue" credit gross []))

unfoldable pub refund_entries : String → ℤ → List Entry
refund_entries cur amount =
    add cur "refunds_contra" debit amount (add cur "stripe_balance" credit amount [])

unfoldable pub dispute_entries : String → ℤ → ℤ → List Entry
dispute_entries cur amount fee =
    add cur "dispute_losses" debit amount
      (add cur "processing_fees" debit fee (add cur "stripe_balance" credit (amount +ℤ fee) []))

unfoldable pub payout_entries : String → ℤ → List Entry
payout_entries cur amount = add cur "bank" debit amount (add cur "stripe_balance" credit amount [])

-- A refund's own amount, or the charge's `amount_refunded` where the refund is not listed.
unfoldable pub refund_amount : Fields → Result Raised ℤ
unfolding newest_refund subscript get
refund_amount o =
    let fallback : Result Raised ℤ = (do as_number (← subscript (obj o) "amount_refunded")) in
    elim (newest_refund o) [
      | none ↦ fallback
      | some refund ↦ elim (get refund "amount") [ none ↦ fallback | some v ↦ as_number v ]
    ]

-- The event types that `build_transaction` maps to entries.
pub data Kind : Type 0 where
  charge intent refund dispute payout : Kind

abbrev pub kind_of : String → Option Kind
kind_of e =
    if str_eq e "charge.succeeded"
    then some charge
    else if str_eq e "payment_intent.succeeded"
    then some intent
    else if str_eq e "charge.refunded"
    then some refund
    else if str_eq e "charge.dispute.created"
    then some dispute
    else if str_eq e "payout.paid"
    then some payout
    else none

-- The branches on `etype`.
unfoldable pub entries_for : Kind → Fields → String → Option ℤ → Result Raised (List Entry)
unfolding charge_fee dispute_fee subscript
entries_for charge o cur fee_minor = do
  paid ← subscript (obj o) "amount"
  fee ← charge_fee o fee_minor
  gross ← as_number paid
  ok (charge_entries cur gross fee)
entries_for intent o cur fee_minor = do
  paid ← subscript (obj o) "amount_received"
  fee ← charge_fee o fee_minor
  gross ← as_number paid
  ok (charge_entries cur gross fee)
entries_for refund o cur fee_minor = do amount ← refund_amount o; ok (refund_entries cur amount)
entries_for dispute o cur fee_minor = do
  disputed ← subscript (obj o) "amount"
  fee ← dispute_fee o fee_minor
  amount ← as_number disputed
  ok (dispute_entries cur amount fee)
entries_for payout o cur fee_minor = do
  amount ← as_number (← subscript (obj o) "amount")
  ok (payout_entries cur amount)

unfoldable pub object_entries : Value → Kind → String → Option ℤ → Result Raised (List Entry)
unfolding entries_for
object_entries (obj o) kind cur fee_minor = entries_for kind o cur fee_minor
object_entries _ kind cur fee_minor = err type_error

-- `etype` must be hashable to be looked for in `handled`.
abbrev pub handled_kind : Value → Result Raised Kind
handled_kind (str e) = elim (kind_of e) [ some k ↦ ok k | none ↦ err value_error ]
handled_kind (arr xs) = err type_error
handled_kind (obj fs) = err type_error
handled_kind _ = err value_error

abbrev pub as_text : Value → Result Raised String
as_text (str s) = ok s
as_text _ = err type_error

-- `obj["currency"].upper()`
abbrev pub currency_of : Value → Result Raised String
currency_of (str s) = ok (upper s)
currency_of _ = err attribute_error

module _ (uuid5 : String → ℕ) where
  -- The transaction of an event whose type is handled.
  unfoldable pub build_handled : Fields → Value → Kind → Option ℤ → Result Raised LedgerTransaction
  unfolding object_entries subscript money_movement_object_id
  build_handled event etype kind fee_minor = do
    object ← subscript (← subscript (obj event) "data") "object"
    currency ← currency_of (← subscript object "currency")
    entries ← object_entries object kind currency fee_minor
    id ← as_text (← subscript (obj event) "id")
    created ← as_number (← subscript (obj event) "created")
    object_id ← money_movement_object_id event
    ok (record {
      id = uuid5 id;
      occurred_at = created;
      entries = entries;
      stripe_event_id = some id;
      stripe_object_id = object_id;
      event_type = as_str etype;
      memo = none;
    })

  -- `None` is `ok none`.
  unfoldable pub build_transaction : Fields → Option ℤ → Result Raised (Option LedgerTransaction)
  build_transaction event fee_minor = do
    etype ← subscript (obj event) "type"
    object ← subscript (← subscript (obj event) "data") "object"
    let built = (do
      kind ← handled_kind etype
      t ← build_handled event etype kind fee_minor
      ok (some t))
    if is_text (some etype) "invoice.payment_failed" then ok none else built
